-- ===== src/Display/Anim/Rate.antt =====
-- How often the window of an animation moves.
use telegraph_stm_fw.Base.{
  ℕ, zero, suc, ◌+◌, ◌*◌, ◌%◌, ◌^◌, ◌≤◌, ◌<◌, ◌≡◌, refl, sym, ap, subst, ◌∙◌, Bool, true, false,
  Bool-cases, inl, inr, not, ltb, if◌then◌else◌, if_true, if_false, u16, arith,
}
use telegraph_stm_fw.Display.Anim.{Anim, due, move, tick_ms}

-- The animation after some ticks of the board.
pub ticks : ℕ → Anim → Anim
ticks zero a = a
ticks (suc n) a = (due (ticks n a)).0

due_waits :
    (a : Anim)
    → a.active ≡ true
    → ltb (u16 (a.elapsed_ms + tick_ms)) a.period_ms ≡ true
    → (due a).0 ≡ record a { elapsed_ms = u16 (a.elapsed_ms + tick_ms) }
unfolding due
due_waits a on wait =
    let running : not a.active ≡ false = ap not on in
    ap (λ (p : Anim × Bool). p.0)
      (if_false (a, false)
          (if ltb (u16 (a.elapsed_ms + tick_ms)) a.period_ms
            then (record a { elapsed_ms = u16 (a.elapsed_ms + tick_ms) }, false)
            else (move (record a { elapsed_ms = u16 (a.elapsed_ms + tick_ms) }), true))
          running
        ∙ if_true (record a { elapsed_ms = u16 (a.elapsed_ms + tick_ms) }, false)
            (move (record a { elapsed_ms = u16 (a.elapsed_ms + tick_ms) }), true) wait)

due_moves :
    (a : Anim)
    → a.active ≡ true
    → ltb (u16 (a.elapsed_ms + tick_ms)) a.period_ms ≡ false
    → (due a).0 ≡ move a
unfolding due move
due_moves a on now =
    let running : not a.active ≡ false = ap not on in
    ap (λ (p : Anim × Bool). p.0)
      (if_false (a, false)
          (if ltb (u16 (a.elapsed_ms + tick_ms)) a.period_ms
            then (record a { elapsed_ms = u16 (a.elapsed_ms + tick_ms) }, false)
            else (move (record a { elapsed_ms = u16 (a.elapsed_ms + tick_ms) }), true))
          running
        ∙ if_false (record a { elapsed_ms = u16 (a.elapsed_ms + tick_ms) }, false)
            (move (record a { elapsed_ms = u16 (a.elapsed_ms + tick_ms) }), true) now)

ticks_wait :
    (n : ℕ) (a : Anim)
    → a.active ≡ true
    → a.elapsed_ms ≡ 0
    → a.period_ms < 2 ^ 16
    → n * 20 < a.period_ms
    → ticks n a ≡ record a { elapsed_ms = n * 20 }
unfolding ticks
ticks_wait zero a on fresh small early =
    ap (λ (e : ℕ). record a { elapsed_ms = e }) (fresh ∙ omega arith)
ticks_wait (suc n) a on fresh small early =
    let before = ticks_wait n a on fresh small (omega arith) in
    let waited : Anim = record a { elapsed_ms = n * 20 } in
    let next : u16 (n * 20 + tick_ms) ≡ suc n * 20 = omega arith in
    let wait : ltb (u16 (n * 20 + tick_ms)) a.period_ms ≡ true = ground arith in
    ap (λ (b : Anim). (due b).0) before
    ∙ due_waits waited on wait
    ∙ ap (λ (e : ℕ). record a { elapsed_ms = e }) next

-- The extent of the source along which the window moves.
abbrev pub extent : Anim → ℕ
extent a = if a.vertical then a.srch else a.srcw

move-step :
    (a : Anim)
    → 1 ≤ a.srcw
    → 1 ≤ a.srch
    → a.offset + a.step < 2 ^ 16
    → move a ≡ record a { elapsed_ms = 0; offset = (a.offset + a.step) % extent a }
unfolding move
move-step a wide high small =
    let whole : u16 (a.offset + a.step) ≡ a.offset + a.step = omega arith in
    let cols : ltb 0 a.srcw ≡ true = ground arith in
    let rows : ltb 0 a.srch ≡ true = ground arith in
    rw (whole, cols, rows) (elim (Bool-cases a.vertical) [ inl e ↦ rw e refl | inr e ↦ rw e refl ])

-- A running window whose counter begins at 0, whose period is at most 65520 ms, whose source is not empty and
-- whose offset and step fit 16 bits stands still while less than its period has passed. The first
-- tick at or after the end of the period adds the step to its offset, around the extent of the
-- source, starts the counter again and changes nothing else.
pub ticks-InTime :
    (n : ℕ) (a : Anim)
    → a.active ≡ true
    → a.elapsed_ms ≡ 0
    → a.period_ms ≤ 65520
    → n * 20 < a.period_ms
    → a.period_ms ≤ suc n * 20
    → 1 ≤ a.srcw
    → 1 ≤ a.srch
    → a.offset + a.step < 2 ^ 16
    → (ticks n a ≡ record a { elapsed_ms = n * 20 })
      × (ticks (suc n) a ≡ record a { elapsed_ms = 0; offset = (a.offset + a.step) % extent a })
unfolding ticks move
ticks-InTime n a on fresh small early late wide high fits =
    let before = ticks_wait n a on fresh (omega arith) early in
    let waited : Anim = record a { elapsed_ms = n * 20 } in
    let now : ltb (u16 (n * 20 + tick_ms)) a.period_ms ≡ false = ground arith in
    (
      before,
      ap (λ (b : Anim). (due b).0) before ∙ due_moves waited on now ∙ move-step a wide high fits,
    )

-- What the ticks keep of a window whose period is past the largest time that the counter shows.
record Still (a b : Anim) : Type 0 where
  active : b.active ≡ true
  period : b.period_ms ≡ a.period_ms
  offset : b.offset ≡ a.offset
  fours : b.elapsed_ms % 4 ≡ 0
  small : b.elapsed_ms < 2 ^ 16

ticks-Still :
    (n : ℕ) (a : Anim)
    → a.active ≡ true
    → a.elapsed_ms ≡ 0
    → 65533 ≤ a.period_ms
    → Still a (ticks n a)
unfolding ticks
ticks-Still zero a on fresh slow = record {
  active = on;
  period = refl;
  offset = refl;
  fours = omega arith;
  small = omega arith;
}
ticks-Still (suc n) a on fresh slow =
    let b = ticks n a in
    let h = ticks-Still n a on fresh slow in
    let period = h.period in
    let fours = h.fours in
    let small = h.small in
    let wait : ltb (u16 (b.elapsed_ms + tick_ms)) b.period_ms ≡ true = ground arith in
    let next = due_waits b h.active wait in
    record {
      active = ap (λ (c : Anim). c.active) next ∙ h.active;
      period = ap (λ (c : Anim). c.period_ms) next ∙ h.period;
      offset = ap (λ (c : Anim). c.offset) next ∙ h.offset;
      fours = ap (λ (c : Anim). c.elapsed_ms % 4) next ∙ omega arith;
      small =
          subst (λ (e : ℕ). e < 2 ^ 16) (sym (ap (λ (c : Anim). c.elapsed_ms) next)) (omega arith);
    }

-- A window whose period is 65533 ms or more never moves, however long it runs: the counter of 16 bits
-- wraps before it reaches the period.
pub ticks-stuck :
    (n : ℕ) (a : Anim)
    → a.active ≡ true
    → a.elapsed_ms ≡ 0
    → 65533 ≤ a.period_ms
    → (ticks n a).offset ≡ a.offset
ticks-stuck n a on fresh slow = (ticks-Still n a on fresh slow).offset
