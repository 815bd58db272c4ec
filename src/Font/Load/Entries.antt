-- ===== src/Font/Load/Entries.antt =====
-- The entries of a font that a load accepts go up.
use telegraph_stm_fw.Base.{
  ℕ, zero, suc, ◌+◌, ◌*◌, ◌^◌, ◌≤◌, ◌<◌, ◌≡◌, refl, ap, ◌∙◌, List, length, set, get_or, length-set,
  get_or-set_self, get_or-set_ne, true, Bool-cases, inl, inr, ltb, ◌==◌, ◌!=◌, subst, arith, ltb→le,
  true-not_false,
}
use telegraph_stm_fw.Ipc.Wire.{get_u16}
use telegraph_stm_fw.Ipc.Wire.Fields.{get_u16-lt}
use telegraph_stm_fw.Font.{Font}
use telegraph_stm_fw.Font.Search.{Ordered}
use telegraph_stm_fw.Font.Load.{load_entries, put_entry}

-- The first entries of a table go up and stay below a number.
record Rising (cps : List ℕ) (count least : ℕ) : Type 0 where
  size : length cps ≡ 128
  up : (i j : ℕ) → i < j → j < count → get_or cps i 0 < get_or cps j 0
  below : (i : ℕ) → i < count → get_or cps i 0 < least
  small : least ≤ 2 ^ 16

Rising-empty : (cps : List ℕ) → length cps ≡ 128 → Rising cps 0 0
Rising-empty cps size = record {
  size = size;
  up = λ i j p q. absurd (omega arith);
  below = λ i p. absurd (omega arith);
  small = omega arith;
}

Rising-set :
    (cps : List ℕ) (count least cp : ℕ)
    → Rising cps count least
    → count < 128
    → least ≤ cp
    → cp < 2 ^ 16
    → Rising (set cps count cp) (count + 1) (cp + 1)
Rising-set cps count least cp h room order fits = record {
  size = length-set cps count cp ∙ h.size;
  up = λ i j p q. rising i j p q;
  below = λ i p. lower i p;
  small = omega arith;
}
  where
    here : get_or (set cps count cp) count 0 ≡ cp
    here = let size = h.size in get_or-set_self cps count cp 0 (omega arith)

    there : (i : ℕ) → i < count → get_or (set cps count cp) i 0 ≡ get_or cps i 0
    there i p = get_or-set_ne cps count i cp 0 (ground arith)

    lower : (i : ℕ) → i < count + 1 → get_or (set cps count cp) i 0 < cp + 1
    lower i p = elim (Bool-cases (i == count)) [
      | inl e ↦
          let same : get_or (set cps count cp) i 0 ≡ cp =
            ap (λ (k : ℕ). get_or (set cps count cp) k 0) (ground arith) ∙ here in
          omega arith
      | inr e ↦
          let old = there i (ground arith) in let less = h.below i (ground arith) in omega arith
    ]

    rising :
        (i j : ℕ)
        → i < j
        → j < count + 1
        → get_or (set cps count cp) i 0 < get_or (set cps count cp) j 0
    rising i j p q = elim (Bool-cases (j == count)) [
      | inl e ↦
          let last : get_or (set cps count cp) j 0 ≡ cp =
            ap (λ (k : ℕ). get_or (set cps count cp) k 0) (ground arith) ∙ here in
          let old = there i (ground arith) in let less = h.below i (ground arith) in omega arith
      | inr e ↦
          let old = there i (ground arith) in
          let later = there j (ground arith) in let less = h.up i j p (ground arith) in omega arith
    ]

module _ {File : Type 0} (read : ℕ → File → List ℕ × File) where
  load_entries-Rising :
      (left i least width : ℕ) (font : Font) (file : File)
      → Rising font.cp i least
      → i + left ≤ 128
      → (load_entries read left i least width font file).0 ≡ true
      → (top : ℕ) × Rising (load_entries read left i least width font file).1.cp (i + left) top
  unfolding load_entries put_entry
  load_entries-Rising zero i least width font file h room ok =
      (least, subst (λ (n : ℕ). Rising font.cp n least) (omega arith) h)
  load_entries-Rising (suc left) i least width font file h room ok =
      let size = 2 + width * 2 in
      let got = read size file in
      let cp = get_u16 got.0 in
      elim (Bool-cases (length got.0 != size)) [
        | inl short ↦ absurd (true-not_false ok (rw short))
        | inr whole ↦ elim (Bool-cases (ltb cp least)) [
          | inl early ↦ absurd (true-not_false ok (rw (whole, early)))
          | inr later ↦
              let entry =
                Rising-set font.cp i least cp h (omega arith) (ltb→le cp least later)
                  (get_u16-lt got.0) in
              let rest =
                load_entries-Rising left (i + 1) (cp + 1) width (put_entry width i got.0 font) got.1
                  entry (omega arith) (rw (whole, later) at ok) in
              rw (whole, later)
                (
                  rest.0,
                  subst
                      (λ (n : ℕ).
                        Rising
                          (load_entries read left (i + 1) (cp + 1) width
                            (put_entry width i got.0 font) got.1).1.cp
                          n rest.0)
                      (omega arith) rest.1,
                )
        ]
      ]

  -- A table that the loop accepts is ordered, whatever it held before.
  pub load_entries-Ordered :
      (count width : ℕ) (font : Font) (file : File)
      → length font.cp ≡ 128
      → count ≤ 128
      → (load_entries read count 0 0 width font file).0 ≡ true
      → Ordered (load_entries read count 0 0 width font file).1.cp count
  load_entries-Ordered count width font file size fits ok =
      let all =
        load_entries-Rising count 0 0 width font file (Rising-empty font.cp size) (omega arith)
          ok in
      let rising = all.1 in
      record {
        up = λ i j p q. rising.up i j p (omega arith);
        small =
            λ i p. let low = rising.below i (omega arith) in let top = rising.small in omega arith;
      }

  -- The loop keeps the size of the table, accepted or not.
  pub load_entries-size :
      (left i least width : ℕ) (font : Font) (file : File)
      → length (load_entries read left i least width font file).1.cp ≡ length font.cp
  unfolding load_entries put_entry
  load_entries-size zero i least width font file = refl
  load_entries-size (suc left) i least width font file =
      let size = 2 + width * 2 in
      let got = read size file in
      let cp = get_u16 got.0 in
      elim (Bool-cases (length got.0 != size)) [
        | inl short ↦ rw short refl
        | inr whole ↦ elim (Bool-cases (ltb cp least)) [
          | inl early ↦ rw (whole, early) refl
          | inr later ↦
              rw (whole, later)
                (load_entries-size left (i + 1) (cp + 1) width (put_entry width i got.0 font) got.1
                  ∙ length-set font.cp i cp)
        ]
      ]
