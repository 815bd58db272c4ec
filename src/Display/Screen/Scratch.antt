-- ===== src/Display/Screen/Scratch.antt =====
-- The bitmap that draw_text_or_scroll draws lines into fits its array.
use telegraph_stm_fw.Base.{
  ℕ, ◌+◌, ◌*◌, ◌/◌, ◌≤◌, ◌<◌, ◌≡◌, List, drop, length, true, ltb, ltb→lt, arith,
}
use native.Mathlib.Nat.{div-add-mod', mul-le-mul_left, mul-le-mul_right}
use telegraph_stm_fw.Font.{Font, line_height}
use telegraph_stm_fw.Font.Render.Size.{drop-render_text_lines}
use telegraph_stm_fw.Panel.{Panel}
use telegraph_stm_fw.Display.Anim.{stride_of}
use telegraph_stm_fw.Font.Render.{render_text_lines}
use telegraph_stm_fw.Display.Layout.{wrap_text}
use telegraph_stm_fw.Display.Layout.Lines.{length-wrap_text}
use telegraph_stm_fw.Display.Screen.{placed, scratch_rows, wrap_max_lines}

-- A font that leaves room for a second line on the panel has at most seven rows.
rows_at_most : (h rows : ℕ) → 1 ≤ rows → h ≤ 14 → 1 < h / rows → rows ≤ 7
rows_at_most h rows some_rows high two =
    let whole = div-add-mod' h rows in
    let twice : 2 * rows ≤ h / rows * rows = mul-le-mul_right rows two in omega arith

-- On a panel of at most 70 by 14 pixels, the bitmap for the lines of any text, in a font of one row
-- or more that leaves room for two lines, has at most the 512 bytes of its array, and its drawing
-- into the array leaves every byte of the memory behind the bitmap.
pub scratch-Fits :
    (font : Font) (d : Panel) (s : List ℕ) (align : ℕ) (memory : List ℕ)
    → 1 ≤ font.rows
    → d.width ≤ 70
    → d.height ≤ 14
    → ltb 1 (d.height / line_height font) ≡ true
    → let lines = wrap_text font s d.width wrap_max_lines in
      let size = stride_of d.width * scratch_rows font lines in
      (size ≤ 512)
      × (drop size (
            render_text_lines font d.width
              (scratch_rows font lines)
              (placed font d s align lines)
              memory)
          ≡ drop size memory)
unfolding scratch_rows
scratch-Fits font d s align memory some_rows wide high two =
    let lines = wrap_text font s d.width wrap_max_lines in
    let few = length-wrap_text font s d.width wrap_max_lines in
    let low =
      rows_at_most d.height font.rows some_rows high (ltb→lt 1 (d.height / line_height font) two) in
    let total = length lines * font.rows + font.rows in
    let by_line : length lines * font.rows ≤ 7 * font.rows = mul-le-mul_right font.rows few in
    let rows : total ≤ 56 = omega arith in
    let cols : stride_of d.width ≤ 9 = omega arith in
    let one : stride_of d.width * total ≤ stride_of d.width * 56 =
      mul-le-mul_left (stride_of d.width) rows in
    (omega arith, drop-render_text_lines font d.width total (placed font d s align lines) memory)
