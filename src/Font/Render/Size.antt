-- ===== src/Font/Render/Size.antt =====
-- The bytes that a drawing of a text reaches: those of its bitmap, at the front of its array.
use telegraph_stm_fw.Base.{
  ℕ, zero, suc, ◌+◌, ◌*◌, ◌/◌, ◌≤◌, ◌<◌, ◌≡◌, refl, ◌∙◌, List, [], ◌∷◌, length, length-set,
  length-replicate, length-append, length-drop, drop, replicate, set, get_or, Bool, Bool-cases, inl,
  inr, bit_and, ◌<<<◌, ◌!=◌, ltb, leb, arith, ◌++◌,
}
use native.Mathlib.Nat.{mul-le-mul_right, mul_comm}
use telegraph_stm_fw.Base.Int.{ℤ, pos, negsuc}
use telegraph_stm_fw.Font.{Font, next, advance, line_height}
use telegraph_stm_fw.Font.Render.{
  set_pixel, cell_row, render_row, render_column, render_cell, render_loop, render_text,
  render_lines, render_text_lines, cleared,
}

-- The byte of a pixel of a bitmap is in it.
pub in_bitmap : (w h x y : ℕ) → x < w → y < h → y * ((w + 7) / 8) + x / 8 < (w + 7) / 8 * h
in_bitmap w h x y p q =
    let rows : suc y * ((w + 7) / 8) ≤ h * ((w + 7) / 8) = mul-le-mul_right ((w + 7) / 8) q in
    let event = mul_comm h ((w + 7) / 8) in omega arith

-- What no write into the bitmap changes, no drawing changes.
module _ {A : Type 0} (f : List ℕ → A) (font : Font) (w total : ℕ)
    (kept : (bits : List ℕ) (i v : ℕ) → i < (w + 7) / 8 * total → f (set bits i v) ≡ f bits) where
  row-kept :
      (y : ℤ) (x : ℕ) (on : Bool) (bits : List ℕ)
      → x < w
      → f (render_row y ((w + 7) / 8) total x on bits) ≡ f bits
  unfolding render_row set_pixel
  row-kept (negsuc y) x on bits inside = refl
  row-kept (pos y) x on bits inside = elim (Bool-cases (leb total y)) [
    | inl e ↦ rw e refl
    | inr e ↦ elim (Bool-cases on) [
      | inl g ↦
          let low : y < total = ground arith in
          rw (e, g) (kept bits (y * ((w + 7) / 8) + x / 8) _ (in_bitmap w total x y inside low))
      | inr g ↦ rw (e, g) refl
    ]
  ]

  column-kept :
      (ytop height x cell left row : ℕ) (bits : List ℕ)
      → x < w
      → f (render_column font ((w + 7) / 8) total ytop height x cell left row bits) ≡ f bits
  unfolding render_column
  column-kept ytop height x cell zero row bits inside = refl
  column-kept ytop height x cell (suc left) row bits inside =
      let on = bit_and cell (1 <<< row) != 0 in
      let y = cell_row font ytop height row in
      column-kept ytop height x cell left (row + 1) (render_row y ((w + 7) / 8) total x on bits)
        inside
      ∙ row-kept y x on bits inside

  cell-kept :
      (ytop height x : ℕ) (cols : List ℕ) (left col : ℕ) (bits : List ℕ)
      → f (render_cell font w ((w + 7) / 8) total ytop height x cols left col bits) ≡ f bits
  unfolding render_cell
  cell-kept ytop height x cols zero col bits = refl
  cell-kept ytop height x cols (suc left) col bits =
      let drawn =
        render_column font ((w + 7) / 8) total ytop height (x + col) (get_or cols col 0) font.rows 0
          bits in
      elim (Bool-cases (leb w (x + col))) [
        | inl e ↦ rw e refl
        | inr e ↦
            let inside : x + col < w = ground arith in
            rw e (
              cell-kept ytop height x cols left (col + 1) drawn
              ∙ column-kept ytop height (x + col) (get_or cols col 0) font.rows 0 bits inside)
      ]

  loop-kept :
      (ytop height fuel x : ℕ) (s bits : List ℕ)
      → f (render_loop fuel font w ((w + 7) / 8) total ytop height x s bits) ≡ f bits
  unfolding render_loop
  loop-kept ytop height zero x s bits = refl
  loop-kept ytop height (suc fuel) x [] bits = refl
  loop-kept ytop height (suc fuel) x (b ∷ s) bits =
      let one = next font (b ∷ s) in
      let drawn = render_cell font w ((w + 7) / 8) total ytop height x one.1 font.width 0 bits in
      elim (Bool-cases (ltb x w)) [
        | inl e ↦ rw e (
            loop-kept ytop height fuel (x + advance font) (drop one.0 (b ∷ s)) drawn
            ∙ cell-kept ytop height x one.1 font.width 0 bits)
        | inr e ↦ rw e refl
      ]

  lines-kept :
      (lines : List (List ℕ × ℕ)) (k : ℕ) (bits : List ℕ)
      → f (render_lines font w total lines k bits) ≡ f bits
  unfolding render_lines
  lines-kept [] k bits = refl
  lines-kept (line ∷ lines) k bits =
      lines-kept lines (k + 1) _
      ∙ loop-kept (k * line_height font) (line_height font) (length line.0) line.1 line.0 bits

length-cleared : (n : ℕ) (bits : List ℕ) → n ≤ length bits → length (cleared n bits) ≡ length bits
unfolding cleared
length-cleared n bits h = omega (
  arith,
  length-append (replicate n 0) (drop n bits),
  length-replicate {A = ℕ} n 0,
  length-drop n bits,
)

drop-replicate : (n : ℕ) (ys : List ℕ) → drop n (replicate n 0 ++ ys) ≡ ys
drop-replicate zero ys = refl
drop-replicate (suc n) ys = drop-replicate n ys

drop-set : (n : ℕ) (xs : List ℕ) (i v : ℕ) → i < n → drop n (set xs i v) ≡ drop n xs
drop-set zero xs i v h = absurd (omega arith)
drop-set (suc n) [] i v h = refl
drop-set (suc n) (x ∷ xs) zero v h = refl
drop-set (suc n) (x ∷ xs) (suc i) v h = drop-set n xs i v (omega arith)

drop-cleared : (n : ℕ) (bits : List ℕ) → drop n (cleared n bits) ≡ drop n bits
unfolding cleared
drop-cleared n bits = drop-replicate n (drop n bits)

-- A drawing of a text leaves the length of its array.
pub length-render_text :
    (font : Font) (w h : ℕ) (s bits : List ℕ)
    → (w + 7) / 8 * h ≤ length bits
    → length (render_text font w h s bits) ≡ length bits
unfolding render_text
length-render_text font w h s bits fits =
    loop-kept length font w h (λ b i v small. length-set b i v) 0 h (length s) 0 s
      (cleared ((w + 7) / 8 * h) bits)
    ∙ length-cleared ((w + 7) / 8 * h) bits fits

-- A drawing of lines leaves every byte behind its bitmap.
pub drop-render_text_lines :
    (font : Font) (w total : ℕ) (lines : List (List ℕ × ℕ)) (bits : List ℕ)
    → drop ((w + 7) / 8 * total) (render_text_lines font w total lines bits)
      ≡ drop ((w + 7) / 8 * total) bits
unfolding render_text_lines
drop-render_text_lines font w total lines bits =
    let n = (w + 7) / 8 * total in
    lines-kept (drop n) font w total (λ b i v small. drop-set n b i v small) lines 0
      (cleared n bits)
    ∙ drop-cleared n bits
