-- ===== src/Display/Layout.antt =====
-- The layout of a text in boards/hazk03-stm32f105rb/src/stm32_display.c: its column and its row, its
-- lines, and what is drawn of it or scrolls. `none` of an animation is none to be started.
pub mod Lines
pub mod Columns
use telegraph_stm_fw.Base.{
  ℕ, zero, suc, ◌+◌, ◌-◌, ◌*◌, ◌/◌, List, [], ◌∷◌, ◌++◌, length, take, drop, Bool, true, false,
  ◌==◌, ◌&&◌, ltb, leb, if◌then◌else◌, Option, none, some,
}
use telegraph_stm_fw.Base.Int.{ℤ, pos, negsuc, sub_ℕ, ◌+ℤ◌, ◌-ℤ◌, ◌/ℤ◌}
use telegraph_stm_fw.Font.{Font, next, text_width, line_height}
use telegraph_stm_fw.Font.Render.{draw_text}
use telegraph_stm_fw.Panel.{Panel, begin, commit, clear, draw_pixel}

-- HAZK03_ALIGN_LEFT and HAZK03_ALIGN_RIGHT, HAZK03_VALIGN_TOP and HAZK03_VALIGN_BOTTOM
abbrev pub align_left : ℕ
align_left = 1

abbrev pub align_right : ℕ
align_right = 2

abbrev pub valign_top : ℕ
valign_top = 1

abbrev pub valign_bottom : ℕ
valign_bottom = 2

-- text_column
pub text_column : Font → Panel → List ℕ → ℕ → ℕ
text_column font d s align =
    let width = text_width font s in
    let space = d.width - width in
    if leb d.width width
    then 0
    else if align == align_left
    then 0
    else if align == align_right
    then space
    else space / 2

-- text_row
pub text_row : Font → Panel → ℕ → ℤ
text_row font d valign =
    let line = line_height font in
    if valign == valign_top
    then pos font.ascent
    else if valign == valign_bottom
    then sub_ℕ d.height line +ℤ pos font.ascent
    else (sub_ℕ d.height line /ℤ 2) +ℤ pos font.ascent

-- A row of pixels made dark, from a column, and some rows from a row.
pub dark_row : ℤ → ℕ → ℕ → Panel → Panel
dark_row row zero col d = d
dark_row row (suc left) col d = dark_row row left (col + 1) (draw_pixel (pos col) row false d)

pub dark_rows : ℤ → ℕ → Panel → Panel
dark_rows row zero d = d
dark_rows row (suc left) d = dark_rows (row +ℤ pos 1) left (dark_row row d.width 0 d)

-- draw_text of stm32_display.c
pub draw_static : Font → List ℕ → ℕ → ℕ → Panel → Panel
draw_static font s align valign d =
    let x = text_column font d s align in
    let y = text_row font d valign in
    commit (draw_text font x y s (dark_rows (y -ℤ pos font.ascent) (line_height font) (begin d)))

-- draw_line_at
pub draw_line_at : Font → List ℕ → ℕ → ℕ → Panel → Panel
draw_line_at font s align ytop d =
    draw_text font (text_column font d s align) (pos (ytop + font.ascent)) s
      (dark_rows (pos ytop) (line_height font) d)

-- Where the inner loop of wrap_text stops: the index in the text, and the last space before it.
pub record Stop : Type 0 where
  pub at : ℕ
  pub space : Option ℕ

-- Whether a text starts with a space.
pub is_space : List ℕ → Bool
is_space [] = false
is_space (b ∷ s) = b == 0x20

-- The inner loop of wrap_text on fuel, from the index `j` of a text, for the line that starts at
-- `start`.
pub line_loop : ℕ → Font → List ℕ → ℕ → ℕ → ℕ → Option ℕ → Stop
line_loop zero font s maxw start j space = record { at = j; space = space }
line_loop (suc fuel) font s maxw start j space =
    let after = j + (next font (drop j s)).0 in
    let wide = text_width font (take (after - start) (drop start s)) in
    let seen = if is_space (drop j s) then some j else space in
    let rest = line_loop fuel font s maxw start after seen in
    if leb (length s) j
    then record { at = j; space = space }
    else if ltb maxw wide
    then record { at = j; space = space }
    else rest

-- The end of a line that starts at `start` and where the next one starts.
pub record Line : Type 0 where
  pub start : ℕ
  pub len : ℕ
  pub resume : ℕ

-- The line before a stop inside the text, for its last space.
pub broken : ℕ → ℕ → Option ℕ → Line
broken start at none = record { start = start; len = at - start; resume = at }
broken start at (some space) =
    if ltb start space
    then record { start = start; len = space - start; resume = space + 1 }
    else record { start = start; len = at - start; resume = at }

-- The outer loop of wrap_text, with the lines that are left.
pub wrap_loop : ℕ → Font → List ℕ → ℕ → ℕ → List Line
wrap_loop zero font s maxw i = []
wrap_loop (suc left) font s maxw i =
    let stop = line_loop (length s) font s maxw i i none in
    let line = broken i stop.at stop.space in
    let rest = wrap_loop left font s maxw line.resume in
    if leb (length s) i
    then []
    else if leb (length s) stop.at
    then record { start = i; len = length s - i; resume = length s } ∷ []
    else line ∷ rest

-- wrap_text
pub wrap_text : Font → List ℕ → ℕ → ℕ → List Line
wrap_text font s maxw maxlines = wrap_loop maxlines font s maxw 0
