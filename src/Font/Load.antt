-- ===== src/Font/Load.antt =====
-- boards/hazk03-stm32f105rb/src/fontext.c: a font read from a file into the table that no drawing
-- uses, and published when all of it is good. The log is not modelled.
pub mod Entries
pub mod Kept
use telegraph_stm_fw.Base.{
  ℕ, zero, suc, ◌+◌, ◌*◌, List, length, drop, set, replicate, byte_at, Bool, true, false, not, ◌!=◌,
  ◌==◌, ◌||◌, ltb, leb, if◌then◌else◌, Option, none, some,
}
use telegraph_stm_fw.Ipc.Wire.{get_u16}
use telegraph_stm_fw.Font.{Font, fontext_width_max}

-- FONTEXT_MAX_GLYPHS, FONTEXT_MAX_ROWS and FONTEXT_HEADER_LEN
abbrev pub max_glyphs : ℕ
max_glyphs = 128

abbrev pub max_rows : ℕ
max_rows = 16

abbrev pub header_len : ℕ
header_len = 12

-- g_banks, and which of the two g_big names.
pub record Fonts : Type 0 where
  pub second_used : Bool
  pub first : Font
  pub second : Font

-- An entry of g_banks at the start.
abbrev pub empty_bank : Font
empty_bank = record {
  cp = replicate max_glyphs 0;
  cols = replicate 640 0;
  count = 0;
  width = fontext_width_max;
  rows = 10;
  ascent = 2;
  stride = fontext_width_max;
  ascii_fallback = true;
}

-- fontext_big
abbrev pub big : Fonts → Font
big fs = if fs.second_used then fs.second else fs.first

abbrev pub spare : Fonts → Font
spare fs = if fs.second_used then fs.first else fs.second

pub with_spare : Font → Fonts → Fonts
with_spare font fs =
    if fs.second_used then record fs { first = font } else record fs { second = font }

-- The assignment of g_big.
pub publish : Font → Fonts → Fonts
publish font fs =
    let filled = with_spare font fs in record filled { second_used = not fs.second_used }

-- What fontext_header checks of the bytes it read: the number of the entries, or nothing for -EINVAL.
pub header_count : List ℕ → Option ℕ
header_count header =
    let width = byte_at header 6 in
    let rows = byte_at header 7 in
    let ascent = byte_at header 8 in
    let count = get_u16 (drop 4 header) in
    if length header != header_len
    then none
    else if get_u16 header != 0x4754 || get_u16 (drop 2 header) != 0x3146
    then none
    else if (width == 0 || ltb fontext_width_max width)
        || ((rows == 0 || ltb max_rows rows) || leb rows ascent)
    then none
    else if ltb max_glyphs count
    then none
    else some count

-- The loop over the columns of an entry, with the columns that are left.
pub put_cols : ℕ → ℕ → List ℕ → ℕ → ℕ → List ℕ → List ℕ
put_cols width i entry zero col cols = cols
put_cols width i entry (suc left) col cols = put_cols width i entry left (col + 1) (
    set cols (i * fontext_width_max + col)
      (if ltb col width then get_u16 (drop (2 + col * 2) entry) else 0))

-- The entry `i` of the table.
pub put_entry : ℕ → ℕ → List ℕ → Font → Font
put_entry width i entry font = record font {
  cp = set font.cp i (get_u16 entry);
  cols = put_cols width i entry fontext_width_max 0 font.cols;
}

pub data Loaded : Type 0 where
  ok : Loaded
  enoent : Loaded
  einval : Loaded

-- The file that is read: `read n` gives the bytes that a read of at most `n` gives, none where it
-- fails.
module _ {File : Type 0} (read : ℕ → File → List ℕ × File) where
  -- The loop over the entries, with the entries that are left. `least` is one more than `prev`, which
  -- starts at -1.
  pub load_entries : ℕ → ℕ → ℕ → ℕ → Font → File → Bool × Font
  load_entries zero i least width font file = (true, font)
  load_entries (suc left) i least width font file =
      let got = read (2 + width * 2) file in
      let cp = get_u16 got.0 in
      let rest = load_entries left (i + 1) (cp + 1) width (put_entry width i got.0 font) got.1 in
      if length got.0 != 2 + width * 2
      then (false, font)
      else if ltb cp least
      then (false, font)
      else rest

  -- What follows the header in fontext_load.
  pub load_table : List ℕ → ℕ → File → Fonts → Loaded × Fonts
  load_table header count file fs =
      let filled = load_entries count 0 0 (byte_at header 6) (spare fs) file in
      if filled.0
      then (
        ok,
        publish
            (record filled.1 {
              count = count;
              width = byte_at header 6;
              rows = byte_at header 7;
              ascent = byte_at header 8;
            })
            fs,
      )
      else (einval, with_spare filled.1 fs)

  -- What fontext_load does with the result of fontext_header.
  pub load_checked : Option ℕ → List ℕ → File → Fonts → Loaded × Fonts
  load_checked none header file fs = (einval, fs)
  load_checked (some count) header file fs = load_table header count file fs

  -- fontext_load, of the result of its open.
  pub load : Option File → Fonts → Loaded × Fonts
  load none fs = (enoent, fs)
  load (some file) fs =
      let got = read header_len file in load_checked (header_count got.0) got.0 got.1 fs
