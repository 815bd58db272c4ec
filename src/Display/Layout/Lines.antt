-- ===== src/Display/Layout/Lines.antt =====
-- The lines of a wrapped text fit the panel.
use telegraph_stm_fw.Base.{
  ℕ, zero, suc, ◌+◌, ◌-◌, ◌≤◌, ◌<◌, ◌≡◌, inl, inr, refl, subst, List, [], length, length-drop, take,
  drop, All, Bool-cases, true, ltb, leb, ltb→le, leb→le, leb→lt, if◌then◌else◌, if_both, Option,
  none, some, arith,
}
use telegraph_stm_fw.Font.{Font, next, text_width}
use telegraph_stm_fw.Font.Width.{text_width-empty, next-InText}
use telegraph_stm_fw.Display.Layout.{Stop, Line, line_loop, is_space, broken, wrap_loop, wrap_text}

module _ (font : Font) (s : List ℕ) (maxw : ℕ) where
  -- The bytes of the text from an index, some of them.
  abbrev pub part : ℕ → ℕ → List ℕ
  part start len = take len (drop start s)

  -- An index at which a line may end.
  record End (start at : ℕ) : Type 0 where
    after : start ≤ at
    inside : at ≤ length s
    fits : text_width font (part start (at - start)) ≤ maxw

  abbrev SpaceEnd : ℕ → Option ℕ → Type 0
  SpaceEnd start none = Unit
  SpaceEnd start (some at) = End start at

  record StopEnd (start : ℕ) (stop : Stop) : Type 0 where
    at : End start stop.at
    space : SpaceEnd start stop.space

  -- The empty line.
  End-start : (start : ℕ) → start ≤ length s → End start start
  End-start start h =
      let none_left : 0 ≡ start - start = omega arith in
      let empty = text_width-empty font in
      let nothing : text_width font [] ≤ maxw = omega arith in
      record {
        after = omega arith;
        inside = h;
        fits = subst (λ (n : ℕ). text_width font (part start n) ≤ maxw) none_left nothing;
      }

  next-InText_at :
      (j : ℕ)
      → j < length s
      → (1 ≤ (next font (drop j s)).0) × (j + (next font (drop j s)).0 ≤ length s)
  next-InText_at j h =
      let left = length-drop j s in
      let used = next-InText font (drop j s) (omega arith) in (used.0, omega (arith, used.1))

  line_loop-StopEnd :
      (fuel start j : ℕ) (space : Option ℕ)
      → End start j
      → SpaceEnd start space
      → StopEnd start (line_loop fuel font s maxw start j space)
  unfolding line_loop
  line_loop-StopEnd zero start j space h k = record { at = h; space = k }
  line_loop-StopEnd (suc fuel) start j space h k =
      let after = j + (next font (drop j s)).0 in
      let wide = text_width font (take (after - start) (drop start s)) in
      let seen = if is_space (drop j s) then some j else space in
      let old : StopEnd start (record { at = j; space = space }) = record { at = h; space = k } in
      elim (Bool-cases (leb (length s) j)) [
        | inl e ↦ rw e old
        | inr e ↦ elim (Bool-cases (ltb maxw wide)) [
          | inl f ↦ rw (e, f) old
          | inr f ↦
              let step = next-InText_at j (leb→lt (length s) j e) in
              let start_before = h.after in
              let there : End start after = record {
                after = omega arith;
                inside = step.1;
                fits = ltb→le maxw wide f;
              } in
              let spaces : SpaceEnd start seen =
                if_both (SpaceEnd start) (is_space (drop j s)) h k in
              rw (e, f) (line_loop-StopEnd fuel start after seen there spaces)
        ]
      ]

  -- The loop ends by its own test: any fuel that covers the bytes left stops at the same place.
  pub line_loop-fuel :
      (m n start j : ℕ) (space : Option ℕ)
      → length s ≤ j + m
      → length s ≤ j + n
      → line_loop m font s maxw start j space ≡ line_loop n font s maxw start j space
  unfolding line_loop
  line_loop-fuel zero zero start j space h k = refl
  line_loop-fuel zero (suc n) start j space h k =
      let over : leb (length s) j ≡ true = ground arith in rw over refl
  line_loop-fuel (suc m) zero start j space h k =
      let over : leb (length s) j ≡ true = ground arith in rw over refl
  line_loop-fuel (suc m) (suc n) start j space h k =
      let after = j + (next font (drop j s)).0 in
      let seen = if is_space (drop j s) then some j else space in
      elim (Bool-cases (leb (length s) j)) [
        | inl e ↦ rw e refl
        | inr e ↦
            let step = next-InText_at j (leb→lt (length s) j e) in
            let used = step.0 in
            rw (line_loop-fuel m n start after seen (omega arith) (omega arith))
      ]

  -- A line of the text that is not wider than the panel, and where the next one starts.
  pub record Fitting (line : Line) : Type 0 where
    pub inside : line.start + line.len ≤ length s
    pub fits : text_width font (part line.start line.len) ≤ maxw

  End-Fitting :
      (start at resume : ℕ)
      → End start at
      → Fitting (record { start = start; len = at - start; resume = resume })
  End-Fitting start at resume h =
      let after = h.after in let inside = h.inside in record { inside = omega arith; fits = h.fits }

  broken-Fitting :
      (start at : ℕ) (space : Option ℕ)
      → End start at
      → SpaceEnd start space
      → Fitting (broken start at space)
  unfolding broken
  broken-Fitting start at none h k = End-Fitting start at at h
  broken-Fitting start at (some space) h k =
      if_both Fitting (ltb start space) (End-Fitting start space (space + 1) k)
        (End-Fitting start at at h)

  wrap_loop-Fitting : (left i : ℕ) → All Fitting (wrap_loop left font s maxw i)
  unfolding wrap_loop
  wrap_loop-Fitting zero i = tt
  wrap_loop-Fitting (suc left) i =
      let stop = line_loop (length s) font s maxw i i none in
      let line = broken i stop.at stop.space in
      elim (Bool-cases (leb (length s) i)) [
        | inl e ↦ rw e tt
        | inr e ↦
            let here = leb→lt (length s) i e in
            let ends = line_loop-StopEnd (length s) i i none (End-start i (omega arith)) tt in
            elim (Bool-cases (leb (length s) stop.at)) [
              | inl f ↦
                  let inside = ends.at.inside in
                  let whole = leb→le (length s) stop.at f in
                  let last : Fitting (record { start = i; len = length s - i; resume = length s }) =
                    subst
                      (λ (n : ℕ). Fitting (record { start = i; len = n - i; resume = length s }))
                      (omega arith) (End-Fitting i stop.at (length s) ends.at) in
                  rw (e, f) (last, tt)
              | inr f ↦
                  rw (e, f)
                    (
                      broken-Fitting i stop.at stop.space ends.at ends.space,
                      wrap_loop-Fitting left line.resume,
                    )
            ]
      ]

-- Every line of a wrapped text lies in the text and is at most as wide as the panel, whatever the
-- bytes of the text and the font.
pub wrap_text-Fitting :
    (font : Font) (s : List ℕ) (maxw maxlines : ℕ)
    → All (Fitting font s maxw) (wrap_text font s maxw maxlines)
unfolding wrap_text
wrap_text-Fitting font s maxw maxlines = wrap_loop-Fitting font s maxw maxlines 0

wrap_loop_at_most :
    (font : Font) (s : List ℕ) (maxw left i : ℕ) → length (wrap_loop left font s maxw i) ≤ left
unfolding wrap_loop
wrap_loop_at_most font s maxw zero i = omega arith
wrap_loop_at_most font s maxw (suc left) i =
    let stop = line_loop (length s) font s maxw i i none in
    let line = broken i stop.at stop.space in
    let rest = wrap_loop_at_most font s maxw left line.resume in
    if_both (λ (l : List Line). length l ≤ suc left) (leb (length s) i) (omega arith)
      (if_both (λ (l : List Line). length l ≤ suc left) (leb (length s) stop.at) (omega arith)
        (omega arith))

pub length-wrap_text :
    (font : Font) (s : List ℕ) (maxw maxlines : ℕ)
    → length (wrap_text font s maxw maxlines) ≤ maxlines
unfolding wrap_text
length-wrap_text font s maxw maxlines = wrap_loop_at_most font s maxw maxlines 0
