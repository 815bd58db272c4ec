-- ===== src/Font/Render.antt =====
-- boards/hazk03-stm32f105rb/src/sm1626d_text.c: a text drawn on a panel, and into a bitmap.
pub mod Size
use telegraph_stm_fw.Base.{
  ℕ, zero, suc, ◌+◌, ◌-◌, ◌*◌, ◌/◌, ◌%◌, List, [], ◌∷◌, ◌++◌, length, set, drop, replicate, byte_at,
  get_or, Bool, true, bit_and, bit_or, ◌<<<◌, ◌!=◌, ltb, leb, if◌then◌else◌,
}
use telegraph_stm_fw.Base.Int.{ℤ, pos, negsuc, sub_ℕ, ◌+ℤ◌, ◌-ℤ◌, ◌/ℤ◌}
use telegraph_stm_fw.Font.{Font, next, advance, line_height}
use telegraph_stm_fw.Panel.{Panel, draw_pixel}

-- The rows of a column of a cell that sm1626d_drawtext draws, with the rows that are left.
pub draw_column : ℤ → ℤ → ℕ → ℕ → ℕ → Panel → Panel
draw_column x y bits zero row d = d
draw_column x y bits (suc left) row d =
    let drawn = draw_pixel x (y +ℤ pos row) true d in
    draw_column x y bits left (row + 1) (if bit_and bits (1 <<< row) != 0 then drawn else d)

pub draw_cell : ℕ → ℤ → ℕ → List ℕ → ℕ → ℕ → Panel → Panel
draw_cell x y rows cols zero col d = d
draw_cell x y rows cols (suc left) col d =
    draw_cell x y rows cols left (col + 1)
      (draw_column (pos (x + col)) y (get_or cols col 0) rows 0 d)

-- The loop of sm1626d_drawtext on fuel, from a column of the panel.
pub draw_text_loop : ℕ → Font → ℕ → ℤ → List ℕ → Panel → Panel
draw_text_loop zero font x y s d = d
draw_text_loop (suc fuel) font x y [] d = d
draw_text_loop (suc fuel) font x y (b ∷ s) d =
    let one = next font (b ∷ s) in
    let drawn = draw_cell x y font.rows one.1 font.width 0 d in
    let rest = draw_text_loop fuel font (x + advance font) y (drop one.0 (b ∷ s)) drawn in
    if leb d.width (x + advance font) then drawn else rest

-- sm1626d_drawtext
pub draw_text : Font → ℕ → ℤ → List ℕ → Panel → Panel
draw_text font x y s d = draw_text_loop (length s) font x (y -ℤ pos font.ascent) s d

-- A pixel of a bitmap set: `bits[(y * stride) + (x / 8)] |= 0x80 >> (x % 8)`. Here and below, `bits`
-- is the memory from the start of the array of the bitmap on.
pub set_pixel : ℕ → ℕ → ℕ → List ℕ → List ℕ
set_pixel stride x y bits =
    let at = y * stride + x / 8 in set bits at (bit_or (byte_at bits at) (128 / (1 <<< (x % 8))))

-- The row of the bitmap for a row of a cell.
pub cell_row : Font → ℕ → ℕ → ℕ → ℤ
cell_row font ytop height row =
    (sub_ℕ (ytop + row) font.ascent) +ℤ (sub_ℕ height (font.rows - font.ascent - 1) /ℤ 2)

-- The body of the loop over the rows in rendertext_at.
pub render_row : ℤ → ℕ → ℕ → ℕ → Bool → List ℕ → List ℕ
render_row (negsuc y) stride total x on bits = bits
render_row (pos y) stride total x on bits =
    if leb total y then bits else if on then set_pixel stride x y bits else bits

pub render_column : Font → ℕ → ℕ → ℕ → ℕ → ℕ → ℕ → ℕ → ℕ → List ℕ → List ℕ
render_column font stride total ytop height x cell zero row bits = bits
render_column font stride total ytop height x cell (suc left) row bits =
    render_column font stride total ytop height x cell left (row + 1) (
      render_row (cell_row font ytop height row) stride total x (bit_and cell (1 <<< row) != 0)
        bits)

pub render_cell : Font → ℕ → ℕ → ℕ → ℕ → ℕ → ℕ → List ℕ → ℕ → ℕ → List ℕ → List ℕ
render_cell font w stride total ytop height x cols zero col bits = bits
render_cell font w stride total ytop height x cols (suc left) col bits =
    let drawn =
      render_column font stride total ytop height (x + col) (get_or cols col 0) font.rows 0 bits in
    let rest = render_cell font w stride total ytop height x cols left (col + 1) drawn in
    if leb w (x + col) then bits else rest

-- The loop of rendertext_at on fuel.
pub render_loop : ℕ → Font → ℕ → ℕ → ℕ → ℕ → ℕ → ℕ → List ℕ → List ℕ → List ℕ
render_loop zero font w stride total ytop height x s bits = bits
render_loop (suc fuel) font w stride total ytop height x [] bits = bits
render_loop (suc fuel) font w stride total ytop height x (b ∷ s) bits =
    let one = next font (b ∷ s) in
    let drawn = render_cell font w stride total ytop height x one.1 font.width 0 bits in
    let rest =
      render_loop fuel font w stride total ytop height (x + advance font) (drop one.0 (b ∷ s))
        drawn in
    if ltb x w then rest else bits

-- The memset of the bytes of a bitmap at the front of the array `bits`.
pub cleared : ℕ → List ℕ → List ℕ
cleared n bits = replicate n 0 ++ drop n bits

-- sm1626d_rendertext: what it leaves of the array `bits` with the bitmap of `w` by `h` pixels.
pub render_text : Font → ℕ → ℕ → List ℕ → List ℕ → List ℕ
render_text font w h s bits =
    let stride = (w + 7) / 8 in
    render_loop (length s) font w stride h 0 h 0 s (cleared (stride * h) bits)

-- The loop of sm1626d_rendertextlines over the lines that are left, a line and its column at a time.
pub render_lines : Font → ℕ → ℕ → List (List ℕ × ℕ) → ℕ → List ℕ → List ℕ
render_lines font w total [] k bits = bits
render_lines font w total (line ∷ lines) k bits = render_lines font w total lines (k + 1) (
    render_loop (length line.0) font w ((w + 7) / 8) total (k * line_height font) (line_height font)
      line.1 line.0 bits)

-- sm1626d_rendertextlines
pub render_text_lines : Font → ℕ → ℕ → List (List ℕ × ℕ) → List ℕ → List ℕ
render_text_lines font w total lines bits =
    render_lines font w total lines 0 (cleared ((w + 7) / 8 * total) bits)
