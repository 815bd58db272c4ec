-- ===== src/Temperature/Digits.antt =====
-- The digits show the temperature.
use telegraph_stm_fw.Base.{
  sym, subst, Bool-cases, ltb→le, if_true, if_false, inl, inr, true-not_false, ℕ, zero, suc, ◌+◌,
  ◌-◌, ◌*◌, ◌/◌, ◌≤◌, ◌<◌, ◌≡◌, refl, ap, List, [], ◌∷◌, Bool, true, false, ◌==◌, ==_iff, ltb, leb,
  if◌then◌else◌, arith,
}
use telegraph_stm_fw.Base.Int.{ℤ, pos, negsuc, neg_ℕ}
use telegraph_stm_fw.Base.Bits.{holds_below, holds_below-at}
use telegraph_stm_fw.Temperature.{
  tempfmt_max, tempfmt_min, degrees, frames, frames_of, degrees_text, magnitude_text,
}

-- What a person reads: the digits in order, blanks left out, and a minus before them.
abbrev pub read_char : ℕ → ℕ × Bool → ℕ × Bool
read_char c seen =
    if c == 32 then seen else if c == 45 then (seen.0, true) else (seen.0 * 10 + (c - 48), seen.1)

abbrev pub read_frames : List (ℕ × ℕ) → ℕ × Bool → ℕ × Bool
read_frames [] seen = seen
read_frames (f ∷ fs) seen = read_frames fs (read_char f.1 (read_char f.0 seen))

abbrev pub read_degrees : List (ℕ × ℕ) → ℤ
read_degrees fs =
    let seen = read_frames fs (0, false) in if seen.1 then neg_ℕ seen.0 else pos seen.0

abbrev same_value : ℤ → ℤ → Bool
same_value (pos m) (pos n) = m == n
same_value (pos m) (negsuc n) = false
same_value (negsuc m) (pos n) = false
same_value (negsuc m) (negsuc n) = m == n

same_value-eq : (a b : ℤ) → same_value a b ≡ true → a ≡ b
same_value-eq (pos m) (pos n) h = ap (λ (k : ℕ). pos k) ((==_iff m n).0 h)
same_value-eq (pos m) (negsuc n) h = absurd (true-not_false refl (sym h))
same_value-eq (negsuc m) (pos n) h = absurd (true-not_false refl (sym h))
same_value-eq (negsuc m) (negsuc n) h = ap (λ (k : ℕ). negsuc k) ((==_iff m n).0 h)

all_warm : holds_below (λ (n : ℕ). same_value (read_degrees (frames (pos n))) (pos n)) 200 ≡ true
unfolding holds_below frames frames_of degrees_text magnitude_text
all_warm = refl

all_cold :
    holds_below (λ (n : ℕ). same_value (read_degrees (frames (negsuc n))) (negsuc n)) 99 ≡ true
unfolding holds_below frames frames_of degrees_text magnitude_text
all_cold = refl

-- The degrees of the digits.
abbrev pub Shown : ℤ → Type 0
Shown (pos n) = n ≤ 199
Shown (negsuc n) = n < 99

-- The frames of every number of degrees from -99 to 199 are read as that number.
pub read_degrees-frames : (d : ℤ) → Shown d → read_degrees (frames d) ≡ d
read_degrees-frames (pos n) h = same_value-eq (read_degrees (frames (pos n))) (pos n) (
    holds_below-at (λ (k : ℕ). same_value (read_degrees (frames (pos k))) (pos k)) 200 n all_warm
      (omega arith))
read_degrees-frames (negsuc n) h = same_value-eq (read_degrees (frames (negsuc n))) (negsuc n) (
    holds_below-at (λ (k : ℕ). same_value (read_degrees (frames (negsuc k))) (negsuc k)) 99 n
      all_cold h)

neg_ℕ-Shown : (d : ℕ) → d ≤ 99 → Shown (neg_ℕ d)
neg_ℕ-Shown zero h = omega arith
neg_ℕ-Shown (suc d) h =
    let above : leb (suc d) 0 ≡ false = ground arith in
    subst Shown (sym (if_false (pos (0 - suc d)) (negsuc (suc d - 0 - 1)) above)) (omega arith)

-- Every temperature is shown as a number of degrees that the digits have.
pub degrees-Shown : (t : ℤ) → Shown (degrees t)
unfolding degrees
degrees-Shown (pos t) = elim (Bool-cases (ltb tempfmt_max ((t + 5) / 10))) [
  | inl e ↦ subst Shown (sym (if_true (pos tempfmt_max) (pos ((t + 5) / 10)) e)) (omega arith)
  | inr e ↦
      subst Shown (sym (if_false (pos tempfmt_max) (pos ((t + 5) / 10)) e))
        (ltb→le tempfmt_max ((t + 5) / 10) e)
]
degrees-Shown (negsuc t) = elim (Bool-cases (ltb tempfmt_min ((suc t + 5) / 10))) [
  | inl e ↦
      subst Shown (sym (if_true (neg_ℕ tempfmt_min) (neg_ℕ ((suc t + 5) / 10)) e)) (omega arith)
  | inr e ↦
      subst Shown (sym (if_false (neg_ℕ tempfmt_min) (neg_ℕ ((suc t + 5) / 10)) e))
        (neg_ℕ-Shown ((suc t + 5) / 10) (ltb→le tempfmt_min ((suc t + 5) / 10) e))
]

-- The two digits' frames of every temperature, in tenths of a degree, are read as its rounded and
-- bounded degrees.
pub read_degrees-degrees : (t : ℤ) → read_degrees (frames (degrees t)) ≡ degrees t
read_degrees-degrees t = read_degrees-frames (degrees t) (degrees-Shown t)
