-- ===== src/Time/Policy.antt =====
-- The rules of tg_time_decide, and what becomes of the clocks when a decision is carried out.
use telegraph_stm_fw.Base.{
  ℕ, ◌+◌, ◌≤◌, ◌≡◌, ◌≢◌, ◌⊎◌, ◌↔◌, inl, inr, Bool-cases, true-not_false, ltb, subst, sym, Bool,
  true, false, arith, not, ◌&&◌, ◌||◌,
}
use telegraph_stm_fw.Time.{
  src_none, src_rtc, src_unknown, TimeIn, Kind, nothing, write_engine, push_stm, Action, decide,
  plausible, distance, TimeSource, is_source, time_floor, time_ceil, time_threshold,
}

-- The engine holds a time that something vouched for.
abbrev pub trusted : TimeIn → Bool
trusted i = not (is_source i.source src_none || is_source i.source src_unknown) && i.engine_valid

abbrev pub IsPlausible : ℕ → Type 0
IsPlausible s = (time_floor ≤ s) × (s ≤ time_ceil)

-- The two clocks are known and near enough to each other.
pub record Agrees (i : TimeIn) : Type 0 where
  pub known : i.stm_known ≡ true
  pub plausible_stm : IsPlausible i.stm_s
  pub near : (i.engine_s ≤ i.stm_s + time_threshold) × (i.stm_s ≤ i.engine_s + time_threshold)

-- The decisions: the engine takes the time of the STM32, waits for one, gives the STM32 its offset,
-- corrects it, or leaves it, because it is the source of the time or because the clocks agree.
pub data Decided (i : TimeIn) : Kind → ℕ → Type 0 where
  adopt :
      trusted i ≡ false → i.stm_known ≡ true → IsPlausible i.stm_s → Decided i write_engine i.stm_s
  await : trusted i ≡ false → (i.stm_known ≡ false) ⊎ (¬ IsPlausible i.stm_s) → Decided i nothing 0
  give_offset : trusted i ≡ true → i.offset_due ≡ true → Decided i push_stm i.engine_s
  correct : trusted i ≡ true → i.source ≢ src_rtc → ¬ Agrees i → Decided i push_stm i.engine_s
  leave :
      trusted i ≡ true
      → i.offset_due ≡ false
      → (i.source ≡ src_rtc) ⊎ Agrees i
      → Decided i nothing i.engine_s

action-Decided :
    {i : TimeIn} (a : Action)
    → Decided i a.kind a.seconds
    → decide i ≡ a
    → Decided i (decide i).kind (decide i).seconds
action-Decided {i} a d e = subst (λ (b : Action). Decided i b.kind b.seconds) (sym e) d

rtc_iff : (s : TimeSource) → (is_source s src_rtc ≡ true) ↔ (s ≡ src_rtc)
rtc_iff s = ground arith

-- The test by which the STM32 keeps its time.
near_enough : TimeIn → Bool
unfolding plausible distance
near_enough i =
    i.stm_known && plausible i.stm_s && not (ltb time_threshold (distance i.engine_s i.stm_s))

near_enough_iff : (i : TimeIn) → (near_enough i ≡ true) ↔ Agrees i
unfolding near_enough
near_enough_iff i = (
  λ h. record { known = ground arith; plausible_stm = ground arith; near = ground arith },
  λ a. ground (arith, a.known, a.plausible_stm, a.near),
)

decide-untrusted : (i : TimeIn) → trusted i ≡ false → Decided i (decide i).kind (decide i).seconds
unfolding decide
decide-untrusted i t = elim (Bool-cases (i.stm_known && plausible i.stm_s)) [
  | inl h ↦
      action-Decided (record { kind = write_engine; seconds = i.stm_s })
        (adopt t (ground arith) (ground arith)) (ground arith)
  | inr h ↦
      action-Decided (record { kind = nothing; seconds = 0 }) (await t (ground arith))
        (ground arith)
]

decide-due :
    (i : TimeIn)
    → trusted i ≡ true
    → i.offset_due ≡ true
    → Decided i (decide i).kind (decide i).seconds
unfolding decide
decide-due i t o =
    action-Decided (record { kind = push_stm; seconds = i.engine_s }) (give_offset t o)
      (ground arith)

decide-trusted :
    (i : TimeIn)
    → trusted i ≡ true
    → i.offset_due ≡ false
    → Decided i (decide i).kind (decide i).seconds
unfolding decide near_enough
decide-trusted i t o = elim (Bool-cases (is_source i.source src_rtc)) [
  | inl r ↦
      action-Decided (record { kind = nothing; seconds = i.engine_s })
        (leave t o (inl ((rtc_iff i.source).0 r))) (ground arith)
  | inr r ↦ elim (Bool-cases (near_enough i)) [
    | inl n ↦
        action-Decided (record { kind = nothing; seconds = i.engine_s })
          (leave t o (inr ((near_enough_iff i).0 n))) (ground arith)
    | inr n ↦
        action-Decided (record { kind = push_stm; seconds = i.engine_s })
          (correct t (λ e. true-not_false ((rtc_iff i.source).1 e) r)
            (λ a. true-not_false ((near_enough_iff i).1 a) n))
          (ground arith)
  ]
]

-- The action that is decided is the one of the rules whose conditions hold: the time of the STM32
-- for an engine whose time nothing vouched for, if it is known and plausible, else nothing; the time
-- of the engine for the STM32 where the offset is due, or where the STM32 is not the source of the
-- time and the clocks do not agree; and nothing where no offset is due and the STM32 is the source
-- or the clocks agree.
pub decide-Decided : (i : TimeIn) → Decided i (decide i).kind (decide i).seconds
decide-Decided i = elim (Bool-cases (trusted i)) [
  | inl t ↦ elim (Bool-cases i.offset_due) [
    | inl o ↦ decide-due i t o
    | inr o ↦ decide-trusted i t o
  ]
  | inr t ↦ decide-untrusted i t
]

-- What the wapp does with an action: a write makes the STM32 the source of the engine's time, and a
-- push sets the clock of the STM32 and gives it the offset.
abbrev carry : Kind → ℕ → TimeIn → TimeIn
carry nothing seconds i = i
carry write_engine seconds i = record i {
  source = src_rtc;
  engine_valid = true;
  engine_s = seconds;
}
carry push_stm seconds i = record i { stm_known = true; stm_s = seconds; offset_due = false }

abbrev pub carried_out : Action → TimeIn → TimeIn
carried_out a i = carry a.kind a.seconds i

-- Carrying out a decision settles it: with a vouched and plausible engine time, or with none that
-- something vouched for and no offset due, the next decision on the same clocks is to do nothing.
pub decide_settles :
    (i : TimeIn)
    → ((trusted i ≡ true) × IsPlausible i.engine_s ⊎ ((trusted i ≡ false) × (i.offset_due ≡ false)))
    → (decide (carried_out (decide i) i)).kind ≡ nothing
unfolding decide
decide_settles i h = ground arith
