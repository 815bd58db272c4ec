-- ===== src/Time/Texts.antt =====
-- Texts compared byte by byte.
use telegraph_stm_fw.Base.{
  ℕ, ◌≡◌, refl, ap₂, List, [], ◌∷◌, true, ◌==◌, both, ==_iff, true-not_false,
}
use telegraph_stm_fw.Time.{same_bytes}

pub same_bytes-eq : (xs ys : List ℕ) → same_bytes xs ys ≡ true → xs ≡ ys
unfolding same_bytes
same_bytes-eq [] [] h = refl
same_bytes-eq [] (y ∷ ys) h = absurd (true-not_false h refl)
same_bytes-eq (x ∷ xs) [] h = absurd (true-not_false h refl)
same_bytes-eq (x ∷ xs) (y ∷ ys) h =
    let split = both (x == y) (same_bytes xs ys) h in
    ap₂ (λ (a : ℕ) (t : List ℕ). a ∷ t) ((==_iff x y).0 split.0) (same_bytes-eq xs ys split.1)
