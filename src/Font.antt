-- ===== src/Font.antt =====
-- boards/hazk03-stm32f105rb/src/fontlookup.c and sm1626d_textwidth of sm1626d_text.c: the decoding of
-- UTF-8, the search of a character in a font, its columns, and the width of a text.
pub mod Ascii
pub mod Compact
pub mod Utf8
pub mod Search
pub mod Load
pub mod Render
pub mod Width
mod Examples
use telegraph_stm_fw.Base.{
  ℕ, zero, suc, ◌+◌, ◌-◌, ◌*◌, ◌/◌, List, [], ◌∷◌, ◌++◌, length, map, take, drop, replicate,
  byte_at, get_or, Bool, true, false, bit_and, bit_or, ◌<<<◌, ◌==◌, ◌&&◌, ltb, leb, if◌then◌else◌,
  Option, none, some, u16,
}
use Ascii.{font5x7_first, font5x7_last, font5x7_glyph}

-- FONTEXT_WIDTH
abbrev pub fontext_width_max : ℕ
fontext_width_max = 5

-- struct fontext_s, its two tables in place of the pointers.
pub record Font : Type 0 where
  pub cp : List ℕ
  pub cols : List ℕ
  pub count : ℕ
  pub width : ℕ
  pub rows : ℕ
  pub ascent : ℕ
  pub stride : ℕ
  pub ascii_fallback : Bool

-- (byte & UTF8_MORE_MASK) == UTF8_MORE
abbrev pub more : ℕ → Bool
more b = bit_and b 0xc0 == 0x80

-- fontext_utf8, of the bytes that are left: the bytes taken and the code point.
pub utf8 : List ℕ → ℕ × ℕ
utf8 s =
    let len = length s in
    let p0 = byte_at s 0 in
    let p1 = byte_at s 1 in
    let p2 = byte_at s 2 in
    if bit_and p0 0x80 == 0
    then (1, p0)
    else if bit_and p0 0xe0 == 0xc0 && (leb 2 len && more p1)
    then (2, bit_or (bit_and p1 0x3f) (bit_and p0 0x1f <<< 6))
    else if bit_and p0 0xf0 == 0xe0 && (leb 3 len && (more p1 && more p2))
    then (3, bit_or (bit_and p2 0x3f) (bit_or (bit_and p1 0x3f <<< 6) (bit_and p0 0x0f <<< 12)))
    else (1, 0x20)

-- The loop of fontext_find on fuel. `above` is one more than `hi`, which starts at -1 for an empty
-- font.
pub find_loop : ℕ → List ℕ → ℕ → ℕ → ℕ → Option ℕ
find_loop zero cps cp lo above = none
find_loop (suc fuel) cps cp lo above =
    let mid = (lo + (above - 1)) / 2 in
    let at = get_or cps mid 0 in
    let right = find_loop fuel cps cp (mid + 1) above in
    let left = find_loop fuel cps cp lo mid in
    if leb above lo
    then none
    else if at == u16 cp
    then some mid
    else if ltb at (u16 cp)
    then right
    else left

-- fontext_find; `none` is -1.
pub find : Font → ℕ → Option ℕ
find font cp = if ltb 0xffff cp then none else find_loop font.count font.cp cp 0 font.count

-- The columns that are copied of an entry: those in use, and blanks up to FONTEXT_WIDTH.
pub glyph_cols : Font → ℕ → List ℕ
glyph_cols font idx =
    let used = if ltb font.width fontext_width_max then font.width else fontext_width_max in
    take fontext_width_max
      (take used (drop (idx * font.stride) font.cols) ++ replicate fontext_width_max 0)

-- The columns of fontext_next for a code point.
pub columns : Font → Option ℕ → ℕ → List ℕ
columns font (some idx) cp = glyph_cols font idx
columns font none cp =
    if font.ascii_fallback && (leb font5x7_first cp && leb cp font5x7_last)
    then map (λ (c : ℕ). u16 (c <<< font.ascent)) (font5x7_glyph cp)
    else replicate fontext_width_max 0

-- fontext_next: the bytes taken and the columns.
pub next : Font → List ℕ → ℕ × List ℕ
next font s = let one = utf8 s in (one.0, columns font (find font one.1) one.1)

-- fontext_advance and fontext_lineheight
abbrev pub advance : Font → ℕ
advance font = font.width + 1

abbrev pub line_height : Font → ℕ
line_height font = font.rows

-- The loop of sm1626d_textwidth on fuel: the characters of a text.
pub count_loop : ℕ → Font → List ℕ → ℕ
count_loop zero font s = 0
count_loop (suc fuel) font [] = 0
count_loop (suc fuel) font (b ∷ s) = suc (count_loop fuel font (drop (next font (b ∷ s)).0 (b ∷ s)))

-- sm1626d_textwidth
pub text_width : Font → List ℕ → ℕ
text_width font s =
    let count = count_loop (length s) font s in if count == 0 then 0 else count * advance font - 1
