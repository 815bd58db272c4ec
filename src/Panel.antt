-- ===== src/Panel.antt =====
-- boards/hazk03-stm32f105rb/src/sm1626d.c: the two images of a panel, the drawing into the one that
-- is not shown, and the bits of a row that the scan sends. The pins are not modelled.
pub mod Pixels
pub mod Frames
pub mod Updates
pub mod Rows
pub mod Bitmaps
mod Examples
use telegraph_stm_fw.Base.{
  ℕ, zero, suc, ◌+◌, ◌-◌, ◌*◌, ◌/◌, ◌%◌, List, [], ◌∷◌, set, replicate, byte_at, get_or, map, Bool,
  true, false, not, bit_and, bit_or, ◌<<<◌, ◌==◌, ◌!=◌, ◌&&◌, ◌||◌, ltb, leb, if◌then◌else◌, u8,
}
use telegraph_stm_fw.Base.Int.{ℤ, pos, negsuc}

-- SM1626D_ROWS, SM1626D_ROW_BYTES and SM1626D_BRIGHT_MAX
abbrev pub rows : ℕ
rows = 16

abbrev pub row_bytes : ℕ
row_bytes = 10

abbrev pub bright_max : ℕ
bright_max = 7

abbrev pub image_bytes : ℕ
image_bytes = rows * row_bytes

-- struct sm1626d_dev_s without its pins. `front` is false where the scan reads the first image.
pub record Panel : Type 0 where
  pub width : ℕ
  pub height : ℕ
  pub bright : ℕ
  pub lit : Bool
  pub front : Bool
  pub dirty : Bool
  pub swap : Bool
  pub first : List ℕ
  pub second : List ℕ

-- dev->fb[dev->front] and dev->fb[dev->front ^ 1]
abbrev pub shown : Panel → List ℕ
shown d = if d.front then d.second else d.first

abbrev pub hidden : Panel → List ℕ
hidden d = if d.front then d.first else d.second

pub with_hidden : List ℕ → Panel → Panel
with_hidden image d = if d.front then record d { first = image } else record d { second = image }

-- sm_mapx and sm_mapy
abbrev pub map_x : ℕ → ℕ
map_x x = x / 16 * 16 + (16 - 1 - x % 16)

abbrev pub map_y : ℕ → ℕ
map_y y = y + 2

-- What sm1626d_init makes of the images and the levels; the two flags and `front` are those of a
-- device in memory that starts at zero.
abbrev pub init : ℕ → ℕ → Panel
init width height = record {
  width = width;
  height = height;
  bright = bright_max;
  lit = true;
  front = false;
  dirty = false;
  swap = false;
  first = replicate image_bytes 0;
  second = replicate image_bytes 0;
}

unfoldable pub set_brightness : ℕ → Bool → Panel → Panel
set_brightness level on d = record d {
  bright = if ltb bright_max level then bright_max else level;
  lit = on;
}

pub begin : Panel → Panel
begin d = if d.dirty then d else record (with_hidden (shown d) d) { dirty = true }

pub commit : Panel → Panel
commit d = record d { swap = true }

pub swap_now : Panel → Panel
swap_now d = if d.swap then record d { front = not d.front; swap = false; dirty = false } else d

pub clear : Panel → Panel
clear d = with_hidden (replicate image_bytes 0) d

-- A bit of a byte set or cleared.
pub put_bit : ℕ → Bool → ℕ → ℕ
put_bit k on b = if on then bit_or b (1 <<< k) else bit_and b (255 - (1 <<< k))

-- The image with one pixel set, for a column and a row of the registers.
pub plot : ℕ → ℕ → Bool → List ℕ → List ℕ
plot px py on image =
    let at = py * row_bytes + px / 8 in
    if leb rows py || leb row_bytes (px / 8)
    then image
    else set image at (put_bit (px % 8) on (byte_at image at))

pub draw_pixel : ℤ → ℤ → Bool → Panel → Panel
draw_pixel (pos x) (pos y) on d =
    if leb d.width x || leb d.height y
    then d
    else with_hidden (plot (map_x x) (map_y y) on (hidden d)) d
draw_pixel (pos x) (negsuc y) on d = d
draw_pixel (negsuc x) y on d = d

-- The pixel of a bitmap whose rows start at a byte, bit 7 at the left.
pub bitmap_pixel : ℕ → List ℕ → ℕ → ℕ → Bool
bitmap_pixel stride bits row col =
    bit_and (byte_at bits (row * stride + col / 8)) (128 / (1 <<< (col % 8))) != 0

-- The loops of sm1626d_drawbitmap, with the pixels that are left in a row and the rows that are left.
pub bitmap_row : ℕ → ℕ → ℕ → List ℕ → ℕ → ℕ → ℕ → Panel → Panel
bitmap_row x y stride bits row zero col d = d
bitmap_row x y stride bits row (suc left) col d =
    bitmap_row x y stride bits row left (col + 1)
      (draw_pixel (pos (x + col)) (pos (y + row)) (bitmap_pixel stride bits row col) d)

pub bitmap_rows : ℕ → ℕ → ℕ → ℕ → List ℕ → ℕ → ℕ → Panel → Panel
bitmap_rows x y w stride bits zero row d = d
bitmap_rows x y w stride bits (suc left) row d =
    bitmap_rows x y w stride bits left (row + 1) (bitmap_row x y stride bits row w 0 d)

-- sm1626d_drawbitmap, at a place of the panel.
pub draw_bitmap : ℕ → ℕ → ℕ → ℕ → List ℕ → Panel → Panel
draw_bitmap x y w h bits d = bitmap_rows x y w ((w + 7) / 8) bits h 0 d

-- One bit of a row of an image, as the scan reads it.
pub bit_of : List ℕ → ℕ → ℕ → Bool
bit_of image row col = bit_and (byte_at image (row * row_bytes + col / 8)) (1 <<< (col % 8)) != 0

-- SM_COLBITS, and sm1626d_rowbits
abbrev pub col_bits : ℕ → ℕ
col_bits w = if ltb 32 w then 80 else 32

abbrev pub row_bits : Panel → ℕ
row_bits d = col_bits d.width + 16

-- The bit number `i` of a row of `total` bits: a column, then the selection of the row.
pub row_bit : List ℕ → ℕ → ℕ → ℕ → ℕ → Bool
row_bit image cols total row i =
    if ltb i cols then bit_of image row (cols - 1 - i) else total - 1 - i == row

-- The numbers from `from`, `count` of them.
pub range : ℕ → ℕ → List ℕ
range from zero = []
range from (suc count) = from ∷ range (from + 1) count

-- The bits that sm1626d_shiftbits sends.
pub shift_bits : Panel → ℕ → ℕ → ℕ → List Bool
shift_bits d row from count =
    let total = row_bits d in
    let sent = if ltb total (from + count) then total - from else count in
    map (row_bit (shown d) (col_bits d.width) total row) (range from sent)

-- The bits that sm1626d_shiftcombined sends to the two panels.
pub combined_bit : Panel → Panel → ℕ → ℕ → Bool × Bool
combined_bit main sub row i =
    let mcols = col_bits main.width in
    let total = mcols + 16 in
    let subfirst = total - (col_bits sub.width + 16) in
    (
      row_bit (shown main) mcols total row i,
      if leb subfirst i then row_bit (shown sub) mcols total row i else false,
    )

pub shift_combined : Panel → Panel → ℕ → List (Bool × Bool)
shift_combined main sub row = map (combined_bit main sub row) (range 0 (col_bits main.width + 16))

-- g_duty
abbrev duty : List ℕ
duty = 1 ∷ 2 ∷ 4 ∷ 10 ∷ 11 ∷ 12 ∷ 13 ∷ 16 ∷ []

-- sm1626d_ontime
pub on_time : Panel → ℕ → ℕ
on_time d row_us = if d.lit then row_us * get_or duty d.bright 0 / 16 else 0
