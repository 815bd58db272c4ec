-- ===== src/Ipc/Parser/Push.antt =====
-- ipc_parser_push and ipc_parser_timeout: their loops, and the account of their bytes.
use telegraph_stm_fw.Base.{
  ℕ, zero, suc, ◌+◌, ◌-◌, ◌*◌, ◌≤◌, ◌<◌, ◌≡◌, refl, ap, subst, ◌∙◌, List, [], ◌∷◌, ◌++◌, length,
  length-drop, length-append, length-take, drop, take, arith, Bool-cases, true, false, ltb, ltb→lt,
  ltb→le, inl, inr, if◌then◌else◌, ◌==◌, ==_iff, ==-ne, some, ◌⊎◌,
}
use telegraph_stm_fw.Ipc.Wire.{ipc_frame_max}
use telegraph_stm_fw.Ipc.Parser.{
  Parser, Stats, Call, Taken, idle, after, drain, timeout_loop, parser_timeout, push_loop,
  parser_push, resync, count_resync, count_dropped,
}
use telegraph_stm_fw.Ipc.Parser.Step.{resync-Resynced}
use telegraph_stm_fw.Ipc.Parser.Account.{frame_total, Accounts, Accounts-idle, drain-Accounts}

frame_total-append : (xs ys : List Call) → frame_total (xs ++ ys) ≡ frame_total xs + frame_total ys
frame_total-append [] ys = omega arith
frame_total-append (c ∷ xs) ys = omega (arith, frame_total-append xs ys)

-- Two functions of the parser, one after the other, the second given `more` bytes.
after-Accounts :
    (p : Parser) (n more : ℕ) (t u : Taken)
    → Accounts p n t
    → Accounts t.parser (length t.parser.buf + more) u
    → Accounts p (n + more) (after t u)
unfolding after
after-Accounts p n more t u a b = record {
  bytes = omega (arith, a.bytes, b.bytes, frame_total-append t.calls u.calls);
  frames = omega (arith, a.frames, b.frames, length-append {0} t.calls u.calls);
  accepted = omega (arith, a.accepted, b.accepted, length-append {0} t.calls u.calls);
  shorter = omega (arith, a.shorter, b.shorter);
}

resync-Accounts :
    (p : Parser) (more : ℕ) (t : Taken)
    → Accounts (resync p) (length (resync p).buf + more) t
    → Accounts p (length p.buf + more) t
unfolding count_dropped count_resync
resync-Accounts p more t a =
    let (n, le, positive, buf, stats) = resync-Resynced p in
    let len : length (resync p).buf ≡ length p.buf - n = rw buf (length-drop n p.buf) in
    let dropped = ap (λ (s : Stats). s.dropped) stats in
    let frames = ap (λ (s : Stats). s.frames) stats in
    record {
      bytes = omega (arith, a.bytes);
      frames = omega (arith, a.frames);
      accepted = a.accepted;
      shorter = omega (arith, a.shorter);
    }

length-resync : (p : Parser) → 0 < length p.buf → length (resync p).buf < length p.buf
length-resync p h =
    let (n, le, positive, buf, stats) = resync-Resynced p in
    rw buf (omega (arith, length-drop n p.buf, positive h))

-- What is left when the line is idle: an empty buffer, every byte accounted for.
pub record Emptied (p : Parser) (t : Taken) : Type 0 where
  pub accounts : Accounts p (length p.buf) t
  pub empty : length t.parser.buf ≡ 0

-- One candidate is discarded where the drain leaves bytes.
abbrev next_round : Parser → Parser
next_round q = if ltb 0 (length q.buf) then resync q else q

Accounts-sum : {p : Parser} {n : ℕ} (m : ℕ) {t : Taken} → n ≡ m → Accounts p n t → Accounts p m t
Accounts-sum {p} m {t} e a = subst (λ k. Accounts p k t) e a

next_round-Accounts :
    (q : Parser) (t : Taken)
    → Accounts (next_round q) (length (next_round q).buf) t
    → Accounts q (length q.buf) t
next_round-Accounts q t a = elim (Bool-cases (ltb 0 (length q.buf))) [
  | inl left ↦
      let b = rw left at a in
      Accounts-sum (length q.buf) (omega arith)
        (resync-Accounts q 0 t (Accounts-sum (length (resync q).buf + 0) (omega arith) b))
  | inr empty ↦ rw empty at a
]

length-next_round : (q : Parser) (n : ℕ) → length q.buf ≤ suc n → length (next_round q).buf ≤ n
length-next_round q n h = elim (Bool-cases (ltb 0 (length q.buf))) [
  | inl left ↦ rw left (omega (arith, length-resync q (ltb→lt _ _ left)))
  | inr empty ↦ rw empty (omega (arith, ltb→le _ _ empty))
]

timeout_loop-Emptied :
    (fuel : ℕ) (p : Parser) → length p.buf ≤ fuel → Emptied p (timeout_loop fuel p)
unfolding timeout_loop idle after
timeout_loop-Emptied zero p h = record { accounts = Accounts-idle p; empty = omega arith }
timeout_loop-Emptied (suc fuel) p h =
    let t = drain p in
    let a = drain-Accounts p in
    let next = next_round t.parser in
    let rec =
      timeout_loop-Emptied fuel next (length-next_round t.parser fuel (omega (arith, a.shorter))) in
    elim (Bool-cases (ltb 0 (length p.buf))) [
      | inl left ↦ rw left (record {
        accounts = Accounts-sum (length p.buf) (omega arith) (
            after-Accounts p (length p.buf) 0 t (timeout_loop fuel next) a (
              Accounts-sum (length t.parser.buf + 0) (omega arith)
                (next_round-Accounts t.parser (timeout_loop fuel next) rec.accounts)));
        empty = rec.empty;
      })
      | inr done ↦
          rw done (record { accounts = Accounts-idle p; empty = omega (arith, ltb→le _ _ done) })
    ]

-- Whatever the buffer holds, ipc_parser_timeout ends with an empty buffer, and every byte that the
-- buffer held went to the callback in a frame or is counted as dropped, modulo 2 ^ 32.
pub parser_timeout-Emptied : (p : Parser) → Emptied p (parser_timeout p)
unfolding parser_timeout
parser_timeout-Emptied p = timeout_loop-Emptied (length p.buf) p (omega arith)

-- What is left of a push of `len` bytes: all of them accounted for, and a buffer that fits.
pub record Pushed (p : Parser) (len : ℕ) (t : Taken) : Type 0 where
  pub accounts : Accounts p (length p.buf + len) t
  pub fits : length t.parser.buf ≤ ipc_frame_max

-- The fuel that a push of some bytes needs: a full buffer takes one round more.
abbrev Enough : ℕ → Parser → ℕ → Type 0
Enough fuel p len = (2 * len + 1 < fuel) ⊎ ((length p.buf < ipc_frame_max) × (2 * len < fuel))

abbrev filled : Parser → List ℕ → ℕ → Parser
filled p bytes size = record p { buf = p.buf ++ take size bytes }

-- One round that copies `size` bytes and drains.
filled-Pushed :
    (p : Parser) (bytes : List ℕ) (size : ℕ) (u : Taken)
    → size ≤ length bytes
    → Pushed (drain (filled p bytes size)).parser (length (drop size bytes)) u
    → Pushed p (length bytes) (after (drain (filled p bytes size)) u)
filled-Pushed p bytes size u h k =
    let q = filled p bytes size in
    let t = drain q in
    let len : length q.buf ≡ length p.buf + size =
      length-append p.buf (take size bytes) ∙ omega (arith, length-take size bytes) in
    let a = Accounts-sum (length p.buf + length bytes) (omega (arith, length-drop size bytes)) (
      after-Accounts q (length q.buf) (length (drop size bytes)) t u (drain-Accounts q)
        k.accounts) in
    record {
      accounts = record {
        bytes = a.bytes;
        frames = a.frames;
        accepted = a.accepted;
        shorter = a.shorter;
      };
      fits = unfold after in k.fits;
    }

resync-Pushed : (p : Parser) (len : ℕ) (t : Taken) → Pushed (resync p) len t → Pushed p len t
resync-Pushed p len t k = record { accounts = resync-Accounts p len t k.accounts; fits = k.fits }

idle-Pushed :
    (p : Parser) (bytes : List ℕ)
    → length bytes ≤ 0
    → length p.buf ≤ ipc_frame_max
    → Pushed p (length bytes) (idle p)
idle-Pushed p bytes h fits = record {
  accounts = Accounts-sum (length p.buf + length bytes) (omega arith) (Accounts-idle p);
  fits = unfold idle in fits;
}

-- The number of bytes that one round copies.
abbrev round_size : Parser → List ℕ → ℕ
round_size p bytes =
    let space = ipc_frame_max - length p.buf in
    if ltb (length bytes) space then length bytes else space

round_size_lem :
    (p : Parser) (bytes : List ℕ)
    → 0 < length bytes
    → length p.buf < ipc_frame_max
    → (0 < round_size p bytes)
      × (round_size p bytes ≤ length bytes)
      × (length p.buf + round_size p bytes ≤ ipc_frame_max)
round_size_lem p bytes h k = ground arith

room_left :
    (p : Parser) → (ipc_frame_max - length p.buf == 0) ≡ false → length p.buf < ipc_frame_max
room_left p e = ground (arith, ==-ne (ipc_frame_max - length p.buf) 0 e)

length-drain-filled :
    (p : Parser) (bytes : List ℕ) (size : ℕ)
    → size ≤ length bytes
    → length (drain (filled p bytes size)).parser.buf ≤ length p.buf + size
length-drain-filled p bytes size h =
    let a = drain-Accounts (filled p bytes size) in
    omega (arith, a.shorter, length-append {0} p.buf (take size bytes), length-take {0} size bytes)

pub take_all : (bytes : List ℕ) → take (length bytes) bytes ≡ bytes
take_all [] = refl
take_all (b ∷ bytes) = ap (λ t. b ∷ t) (take_all bytes)

push_loop-Pushed :
    (fuel : ℕ) (p : Parser) (bytes : List ℕ)
    → length p.buf ≤ ipc_frame_max
    → Enough fuel p (length bytes)
    → Pushed p (length bytes) (push_loop fuel p bytes)
unfolding push_loop
push_loop-Pushed zero p bytes fits enough = absurd (omega arith)
push_loop-Pushed (suc fuel) p bytes fits enough =
    let full_eq : (ipc_frame_max - length p.buf == 0) ≡ true → length p.buf ≡ ipc_frame_max =
      λ e. omega (arith, (==_iff (ipc_frame_max - length p.buf) 0).0 e) in
    let emptier : (ipc_frame_max - length p.buf == 0) ≡ true
        → length (resync p).buf < length p.buf =
      λ e. length-resync p (omega (arith, full_eq e)) in
    let size : 0 < length bytes
        → (ipc_frame_max - length p.buf == 0) ≡ false
        → (0 < round_size p bytes)
          × (round_size p bytes ≤ length bytes)
          × (length p.buf + round_size p bytes ≤ ipc_frame_max) =
      λ m e. round_size_lem p bytes m (room_left p e) in
    elim (Bool-cases (ltb 0 (length bytes))) [
      | inr done ↦ rw done (idle-Pushed p bytes (ltb→le _ _ done) fits)
      | inl more ↦ rw more (elim (Bool-cases (ipc_frame_max - length p.buf == 0)) [
        | inl full ↦ rw full (
            resync-Pushed p (length bytes) (push_loop fuel (resync p) bytes) (
              push_loop-Pushed fuel (resync p) bytes (omega (arith, emptier full))
                (inr (omega (arith, emptier full), omega (arith, full_eq full)))))
        | inr room ↦ rw room (
            filled-Pushed p bytes (round_size p bytes)
              (push_loop fuel (drain (filled p bytes (round_size p bytes))).parser
                (drop (round_size p bytes) bytes))
              (size (ltb→lt _ _ more) room).1
              (push_loop-Pushed fuel (drain (filled p bytes (round_size p bytes))).parser
                (drop (round_size p bytes) bytes)
                (omega (
                  arith,
                  size (ltb→lt _ _ more) room,
                  length-drain-filled p bytes (round_size p bytes),
                ))
                (inl (
                  omega
                    (arith, size (ltb→lt _ _ more) room, length-drop (round_size p bytes) bytes)))))
      ])
    ]

-- A push into a buffer that fits its array takes every byte that it is given: each is in the buffer,
-- went to the callback in a frame or is counted as dropped (modulo 2 ^ 32), the count of the frames
-- and the result are the number of the calls, and the buffer still fits its array.
pub parser_push-Pushed :
    (p : Parser) (bytes : List ℕ)
    → length p.buf ≤ ipc_frame_max
    → Pushed p (length bytes) (parser_push p (some bytes) (length bytes))
unfolding parser_push
parser_push-Pushed p bytes fits =
    rw (take_all bytes) (push_loop-Pushed (2 * length bytes + 2) p bytes fits (inl (omega arith)))
