-- ===== src/Panel/Rows.antt =====
-- The bits of a row that the scan sends, and the time with light of a row.
use telegraph_stm_fw.Base.{
  ℕ, zero, suc, ◌+◌, ◌-◌, ◌*◌, ◌/◌, ◌≤◌, ◌<◌, ◌≡◌, refl, ap, ◌∙◌, List, [], ◌∷◌, map, drop, Bool,
  true, false, ltb, leb, if◌then◌else◌, get_or, arith,
}
use native.Mathlib.Nat.{mul-le-mul_left}
use telegraph_stm_fw.Base.{both, leb→le, ◌&&◌}
use telegraph_stm_fw.Base.Bits.{holds_below, holds_below-at}
use telegraph_stm_fw.Panel.{
  Panel, shown, col_bits, row_bits, row_bit, range, shift_bits, combined_bit, shift_combined, duty,
  on_time, set_brightness, bright_max,
}

map-range_shift :
    {A : Type 0} (f g : ℕ → A) (from to count : ℕ)
    → ((i : ℕ) → i < count → f (from + i) ≡ g (to + i))
    → map f (range from count) ≡ map g (range to count)
unfolding range
map-range_shift f g from to zero h = refl
map-range_shift f g from to (suc n) h =
    let rest = map-range_shift f g (from + 1) (to + 1) n (next f g from to n h) in
    rw (first f g from to n h, rest)
  where
    first :
        {A : Type 0} (f g : ℕ → A) (from to n : ℕ)
        → ((i : ℕ) → i < suc n → f (from + i) ≡ g (to + i))
        → f from ≡ g to
    first f g from to n h = ap f (omega arith) ∙ h 0 (omega arith) ∙ ap g (omega arith)

    next :
        {A : Type 0} (f g : ℕ → A) (from to n : ℕ)
        → ((i : ℕ) → i < suc n → f (from + i) ≡ g (to + i))
        → (i : ℕ) → i < n
        → f (from + 1 + i) ≡ g (to + 1 + i)
    next f g from to n h i p = ap f (omega arith) ∙ h (suc i) (omega arith) ∙ ap g (omega arith)

map-map :
    {A B C : Type 0} (f : B → C) (g : A → B) (xs : List A)
    → map f (map g xs) ≡ map (λ (x : A). f (g x)) xs
map-map f g [] = refl
map-map f g (x ∷ xs) = rw (map-map f g xs)

drop-map-range :
    {A : Type 0} (f : ℕ → A) (k from count : ℕ)
    → k ≤ count
    → drop k (map f (range from count)) ≡ map f (range (from + k) (count - k))
unfolding range
drop-map-range f zero from count h =
    ap (λ (i : ℕ). map f (range i count)) (omega arith)
    ∙ ap (λ (n : ℕ). map f (range (from + 0) n)) (omega arith)
drop-map-range f (suc k) from zero h = absurd (omega arith)
drop-map-range f (suc k) from (suc n) h =
    drop-map-range f k (from + 1) n (omega arith)
    ∙ ap (λ (i : ℕ). map f (range i (n - k))) (omega arith)
    ∙ ap (λ (i : ℕ). map f (range (from + suc k) i)) (omega arith)

-- The main panel gets in one pass the bits that a pass of its own would send it.
pub shift_combined-main :
    (main sub : Panel) (row : ℕ)
    → map (λ (b : Bool × Bool). b.0) (shift_combined main sub row)
      ≡ shift_bits main row 0 (row_bits main)
unfolding shift_combined shift_bits combined_bit
shift_combined-main main sub row =
    let whole : ltb (row_bits main) (0 + row_bits main) ≡ false = ground arith in
    map-map (λ (b : Bool × Bool). b.0) (combined_bit main sub row)
      (range 0 (col_bits main.width + 16))
    ∙ rw whole

-- A bit of the sub panel in the pass, with its number in a pass of its own.
late_bit :
    (main sub : Panel) (row : ℕ)
    → row_bits sub ≤ row_bits main
    → (i : ℕ) → i < row_bits sub
    → (combined_bit main sub row (0 + (row_bits main - row_bits sub) + i)).1
      ≡ row_bit (shown sub) (col_bits sub.width) (row_bits sub) row (0 + i)
unfolding combined_bit row_bit
late_bit main sub row fits i p =
    let at = 0 + (row_bits main - row_bits sub) + i in
    let m = col_bits main.width in
    let s = col_bits sub.width in
    let here : leb (row_bits main - row_bits sub) at ≡ true = ground arith in
    let column : ltb at m ≡ ltb (0 + i) s = ground arith in
    let bit : m - 1 - at ≡ s - 1 - (0 + i) = omega arith in
    let select : row_bits main - 1 - at ≡ row_bits sub - 1 - (0 + i) = omega arith in
    rw (here, column, bit, select) refl

-- The register of the sub panel keeps the last bits of a pass, as many as it holds: they are the
-- bits that a pass of its own would send it.
pub shift_combined-sub :
    (main sub : Panel) (row : ℕ)
    → row_bits sub ≤ row_bits main
    → drop
        (row_bits main - row_bits sub)
        (map (λ (b : Bool × Bool). b.1) (shift_combined main sub row))
      ≡ shift_bits sub row 0 (row_bits sub)
unfolding shift_combined shift_bits combined_bit row_bit
shift_combined-sub main sub row fits =
    let whole : ltb (row_bits sub) (0 + row_bits sub) ≡ false = ground arith in
    rw
      (
        map-map (λ (b : Bool × Bool). b.1) (combined_bit main sub row) (range 0 (row_bits main)),
        whole,
      )
      (drop-map-range (λ (i : ℕ). (combined_bit main sub row i).1) (row_bits main - row_bits sub) 0
          (row_bits main) (omega arith)
        ∙ ap
            (λ (n : ℕ).
              map (λ (i : ℕ). (combined_bit main sub row i).1)
                (range (0 + (row_bits main - row_bits sub)) n))
            (omega arith)
        ∙ map-range_shift (λ (i : ℕ). (combined_bit main sub row i).1)
            (row_bit (shown sub) (col_bits sub.width) (row_bits sub) row)
            (0 + (row_bits main - row_bits sub)) 0 (row_bits sub) (late_bit main sub row fits))

duty_fits : (n : ℕ) → n ≤ 7 → (1 ≤ get_or duty n 0) × (get_or duty n 0 ≤ 16)
unfolding holds_below
duty_fits n h =
    let test : ℕ → Bool = λ (k : ℕ). leb 1 (get_or duty k 0) && leb (get_or duty k 0) 16 in
    let two =
      both (leb 1 (get_or duty n 0)) (leb (get_or duty n 0) 16)
        (holds_below-at test 8 n duties (omega arith)) in
    (leb→le 1 (get_or duty n 0) two.0, leb→le (get_or duty n 0) 16 two.1)
  where
    duties : holds_below (λ (k : ℕ). leb 1 (get_or duty k 0) && leb (get_or duty k 0) 16) 8 ≡ true
    duties = refl

scaled_low : (r p : ℕ) → 16 ≤ r → r * 1 ≤ p → 1 ≤ p / 16
scaled_low r p wide h = omega arith

scaled_high : (r p : ℕ) → p ≤ r * 16 → p / 16 ≤ r
scaled_high r p h = omega arith

-- Of a row of at least 16 us, every level that is on gives light for at least one and at most the
-- whole row, and a panel that is off gives none.
pub on_time-InRow :
    (d : Panel) (level row_us : ℕ)
    → 16 ≤ row_us
    → (1 ≤ on_time (set_brightness level true d) row_us)
      × (on_time (set_brightness level true d) row_us ≤ row_us)
      × (on_time (set_brightness level false d) row_us ≡ 0)
unfolding on_time set_brightness
on_time-InRow d level row_us wide =
    let at = if ltb bright_max level then bright_max else level in
    let small : at ≤ 7 = ground arith in
    let fits = duty_fits at small in
    let g = get_or duty at 0 in
    let low : row_us * 1 ≤ row_us * g = mul-le-mul_left row_us fits.0 in
    let high : row_us * g ≤ row_us * 16 = mul-le-mul_left row_us fits.1 in
    (scaled_low row_us (row_us * g) wide low, scaled_high row_us (row_us * g) high, refl)
