-- ===== src/Channel/Queue.antt =====
-- The ring as a queue of at most 2047 bytes.
use telegraph_stm_fw.Base.{
  if◌then◌else◌, ℕ, zero, suc, ◌+◌, ◌-◌, ◌%◌, ◌≤◌, ◌<◌, ◌≡◌, ◌≢◌, refl, sym, ap, ap₂, subst, ◌∙◌,
  List, [], ◌∷◌, ◌++◌, append-nil, append_assoc, length, length-append, length-set,
  length-replicate, get_or, set, take, drop, get_or-set_self, get_or-set_ne, get_or-append_left,
  get_or-append_length, u16, u32, ◌==◌, ltb, true, false, Bool-cases, ltb→lt, ltb→le, inl, inr,
  arith,
}
use telegraph_stm_fw.Channel.{
  chan_ring, Ring, empty, chan_next, store, chan_put, Got, step_tail, chan_take,
}

-- The most bytes that the ring holds: one cell tells a full ring from an empty one.
abbrev pub queue_max : ℕ
queue_max = 2047

-- The ring holds the bytes `queue`, the oldest first.
pub record Holds (r : Ring) (queue : List ℕ) : Type 0 where
  pub size : length r.cells ≡ chan_ring
  pub tail_lt : r.tail < chan_ring
  pub room : length queue ≤ queue_max
  pub head_at : r.head ≡ (r.tail + length queue) % chan_ring
  pub at :
      (i : ℕ) → i < length queue → get_or r.cells ((r.tail + i) % chan_ring) 0 ≡ get_or queue i 0

pub Holds-empty : Holds empty []
Holds-empty = record {
  size = length-replicate {A = ℕ} 2048 0;
  tail_lt = omega arith;
  room = omega arith;
  head_at = refl;
  at = λ i h. absurd (omega arith);
}

module _ (r : Ring) (queue : List ℕ) (holds : Holds r queue) where
  full_iff :
      ((chan_next r.head == r.tail) ≡ true → length queue ≡ queue_max)
      × ((chan_next r.head == r.tail) ≡ false → length queue < queue_max)
  unfolding chan_next
  full_iff = (λ h. ground (arith, holds.head_at), λ h. ground (arith, holds.head_at))

  empty_iff :
      ((r.tail == r.head) ≡ true → length queue ≡ 0)
      × ((r.tail == r.head) ≡ false → 0 < length queue)
  empty_iff = (λ h. ground (arith, holds.head_at), λ h. ground (arith, holds.head_at))

  stored_at :
      (byte : ℕ)
      → length queue < queue_max
      → (i : ℕ) → i < length (queue ++ byte ∷ [])
      → get_or (set r.cells r.head byte) ((r.tail + i) % chan_ring) 0
        ≡ get_or (queue ++ byte ∷ []) i 0
  stored_at byte h i p = elim (Bool-cases (ltb i (length queue))) [
    | inl old ↦
        let lt : i < length queue = ltb→lt i (length queue) old in
        let other : r.head ≢ (r.tail + i) % chan_ring =
          λ e. absurd (omega (arith, holds.head_at, holds.tail_lt)) in
        get_or-set_ne r.cells r.head ((r.tail + i) % chan_ring) byte 0 other
        ∙ holds.at i lt
        ∙ sym (get_or-append_left queue (byte ∷ []) i 0 lt)
    | inr new ↦
        let last : i ≡ length queue =
          omega (arith, ltb→le i (length queue) new, length-append queue (byte ∷ [])) in
        let here : (r.tail + i) % chan_ring ≡ r.head = omega (arith, holds.head_at) in
        rw (here, last)
          (get_or-set_self r.cells r.head byte 0 (omega (arith, holds.size, holds.head_at))
            ∙ sym (get_or-append_length queue byte [] 0))
  ]

  Holds-store : (byte : ℕ) → length queue < queue_max → Holds (store byte r) (queue ++ byte ∷ [])
  unfolding store chan_next
  Holds-store byte h = record {
    size = length-set r.cells r.head byte ∙ holds.size;
    tail_lt = holds.tail_lt;
    room = omega (arith, length-append queue (byte ∷ []));
    head_at = omega (arith, holds.head_at, length-append queue (byte ∷ []));
    at = stored_at byte h;
  }

Holds-step_tail :
    (r : Ring) (byte : ℕ) (queue : List ℕ) → Holds r (byte ∷ queue) → Holds (step_tail r) queue
unfolding step_tail chan_next
Holds-step_tail r byte queue holds = record {
  size = holds.size;
  tail_lt = omega arith;
  room = omega (arith, holds.room);
  head_at = omega (arith, holds.head_at);
  at = λ i h.
      let next : (u16 ((r.tail + 1) % chan_ring) + i) % chan_ring ≡ (r.tail + suc i) % chan_ring =
        omega arith in
      rw next (holds.at (suc i) (omega arith));
}

-- What the writer leaves: the ring holds the queue with as many of the bytes as fit behind it, and
-- the count of the overflows grows by one exactly where some did not fit.
pub record Put (r : Ring) (queue bytes : List ℕ) (r' : Ring) : Type 0 where
  pub holds : Holds r' (queue ++ take (queue_max - length queue) bytes)
  pub over :
      r'.over ≡ (if ltb queue_max (length queue + length bytes) then u32 (r.over + 1) else r.over)

take-nil : (n : ℕ) → take {A = ℕ} n [] ≡ []
take-nil zero = refl
take-nil (suc n) = refl

Holds-over :
    (r : Ring) (queue : List ℕ) (over : ℕ) → Holds r queue → Holds (record r { over = over }) queue
Holds-over r queue over h = record {
  size = h.size;
  tail_lt = h.tail_lt;
  room = h.room;
  head_at = h.head_at;
  at = h.at;
}

-- The bytes that fit, at an empty list, at a full ring, and one at a time.
fit_none :
    (queue bytes : List ℕ)
    → length queue ≡ queue_max
    → queue ++ take (queue_max - length queue) bytes ≡ queue
fit_none queue bytes e =
    let none_left : queue_max - length queue ≡ 0 = omega arith in rw none_left (append-nil queue)

fit_cons :
    (queue bytes : List ℕ) (byte : ℕ)
    → length queue < queue_max
    → queue ++ take (queue_max - length queue) (byte ∷ bytes)
      ≡ (queue ++ byte ∷ []) ++ take (queue_max - length (queue ++ byte ∷ [])) bytes
fit_cons queue bytes byte h =
    let left : queue_max - length queue ≡ suc (queue_max - length (queue ++ byte ∷ [])) =
      omega (arith, length-append queue (byte ∷ [])) in
    rw left
      (sym (append_assoc queue (byte ∷ []) (take (queue_max - length (queue ++ byte ∷ [])) bytes)))

Put-cons :
    (byte : ℕ) (bytes : List ℕ) (r r' : Ring) (queue : List ℕ)
    → length queue < queue_max
    → Put (store byte r) (queue ++ byte ∷ []) bytes r'
    → Put r queue (byte ∷ bytes) r'
unfolding store
Put-cons byte bytes r r' queue lt rec = record {
  holds = subst (Holds r') (sym (fit_cons queue bytes byte lt)) rec.holds;
  over =
      subst (λ (n : ℕ). r'.over ≡ (if ltb queue_max n then u32 (r.over + 1) else r.over))
        (omega (arith, length-append queue (byte ∷ []))) rec.over;
}

-- Into a ring that holds a queue, ipc_chan_put puts as many of the bytes as fit behind the queue, in
-- order, and drops the others; the count of the overflows grows by one exactly where it drops some.
pub chan_put-Put :
    (bytes : List ℕ) (r : Ring) (queue : List ℕ)
    → Holds r queue
    → Put r queue bytes (chan_put bytes r)
unfolding chan_put
chan_put-Put [] r queue holds = record {
  holds = subst (Holds r) (sym (rw (take-nil (queue_max - length queue)) (append-nil queue))) holds;
  over = ground (arith, holds.room);
}
chan_put-Put (byte ∷ bytes) r queue holds = elim (Bool-cases (chan_next r.head == r.tail)) [
  | inl full ↦
      let len = (full_iff r queue holds).0 full in
      rw full (record {
        holds =
            subst (Holds (record r { over = u32 (r.over + 1) }))
              (sym (fit_none queue (byte ∷ bytes) len))
              (Holds-over r queue (u32 (r.over + 1)) holds);
        over = ground arith;
      })
  | inr room ↦
      let lt = (full_iff r queue holds).1 room in
      rw room (
        Put-cons byte bytes r (chan_put bytes (store byte r)) queue lt (
          chan_put-Put bytes (store byte r) (queue ++ byte ∷ [])
            (Holds-store r queue holds byte lt)))
]

-- What the reader gets and leaves.
pub record TakenOff (queue : List ℕ) (max : ℕ) (g : Got) : Type 0 where
  pub bytes : g.bytes ≡ take max queue
  pub holds : Holds g.ring (drop max queue)

-- From a ring that holds a queue, ipc_chan_take gives the oldest bytes, at most as many as asked
-- for, in order, and the ring then holds the others.
pub chan_take-TakenOff :
    (max : ℕ) (r : Ring) (queue : List ℕ) → Holds r queue → TakenOff queue max (chan_take max r)
unfolding chan_take
chan_take-TakenOff zero r queue holds = record { bytes = refl; holds = holds }
chan_take-TakenOff (suc max) r [] holds = elim (Bool-cases (r.tail == r.head)) [
  | inl none_left ↦ rw none_left (record { bytes = refl; holds = holds })
  | inr more ↦ absurd (omega (arith, (empty_iff r [] holds).1 more))
]
chan_take-TakenOff (suc max) r (byte ∷ queue) holds = elim (Bool-cases (r.tail == r.head)) [
  | inl none_left ↦ absurd (omega (arith, (empty_iff r (byte ∷ queue) holds).0 none_left))
  | inr more ↦
      let rest = chan_take-TakenOff max (step_tail r) queue (Holds-step_tail r byte queue holds) in
      let here : r.tail ≡ (r.tail + 0) % chan_ring = omega (arith, holds.tail_lt) in
      let first : get_or r.cells r.tail 0 ≡ byte =
        ap (λ (i : ℕ). get_or r.cells i 0) here ∙ holds.at 0 (omega arith) in
      rw more (record { bytes = ap₂ ◌∷◌ first rest.bytes; holds = rest.holds })
]

pub chan_take-bound : (max : ℕ) (r : Ring) → length (chan_take max r).bytes ≤ max
unfolding chan_take
chan_take-bound zero r = omega arith
chan_take-bound (suc max) r = elim (Bool-cases (r.tail == r.head)) [
  | inl e ↦ rw e (omega arith)
  | inr e ↦ rw e (omega (arith, chan_take-bound max (step_tail r)))
]
