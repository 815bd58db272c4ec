-- ===== src/Font/Load/Kept.antt =====
-- The font in use through loads, good and bad.
use telegraph_stm_fw.Base.{
  ℕ, ◌≤◌, ◌<◌, ◌≡◌, ◌≢◌, refl, sym, ap, ◌∙◌, List, length, drop, byte_at, Bool-cases, inl, inr, ltb,
  leb, ◌==◌, ◌!=◌, ◌||◌, subst, Option, none, some, arith,
}
use telegraph_stm_fw.Ipc.Wire.{get_u16}
use telegraph_stm_fw.Font.{Font}
use telegraph_stm_fw.Font.Search.{Ordered}
use telegraph_stm_fw.Font.Load.{
  Fonts, ok, big, spare, with_spare, publish, header_count, load_entries, load_table, load_checked,
  load, header_len, max_glyphs,
}
use telegraph_stm_fw.Font.Load.Entries.{load_entries-Ordered, load_entries-size}

-- A font whose search finds its entries and whose cell fits what a drawing takes.
pub record Usable (font : Font) : Type 0 where
  pub size : length font.cp ≡ 128
  pub count : font.count ≤ 128
  pub ordered : Ordered font.cp font.count
  pub width_least : 1 ≤ font.width
  pub width_most : font.width ≤ 5
  pub rows_most : font.rows ≤ 16
  pub ascent : font.ascent < font.rows

-- The cell that a header gives.
record Header (header : List ℕ) (count : ℕ) : Type 0 where
  few : count ≤ 128
  width_least : 1 ≤ byte_at header 6
  width_most : byte_at header 6 ≤ 5
  rows_most : byte_at header 7 ≤ 16
  ascent : byte_at header 8 < byte_at header 7

abbrev HeaderFits : List ℕ → Option ℕ → Type 0
HeaderFits header none = Unit
HeaderFits header (some count) = Header header count

header_count-HeaderFits : (header : List ℕ) → HeaderFits header (header_count header)
unfolding header_count
header_count-HeaderFits header =
    let width = byte_at header 6 in
    let rows = byte_at header 7 in
    let ascent = byte_at header 8 in
    let count = get_u16 (drop 4 header) in
    elim (Bool-cases (length header != header_len)) [
      | inl a ↦ rw a tt
      | inr a ↦ elim (Bool-cases (get_u16 header != 0x4754 || get_u16 (drop 2 header) != 0x3146)) [
        | inl b ↦ rw (a, b) tt
        | inr b ↦
            elim (Bool-cases
              ((width == 0 || ltb 5 width) || ((rows == 0 || ltb 16 rows) || leb rows ascent))) [
                | inl c ↦ rw (a, b, c) tt
                | inr c ↦ elim (Bool-cases (ltb max_glyphs count)) [
                  | inl d ↦ rw (a, b, c, d) tt
                  | inr d ↦
                      rw (a, b, c, d)
                        (record {
                          few = ground arith;
                          width_least = ground arith;
                          width_most = ground arith;
                          rows_most = ground arith;
                          ascent = ground arith;
                        })
                ]
              ]
      ]
    ]

big-with_spare : (font : Font) (fs : Fonts) → big (with_spare font fs) ≡ big fs
unfolding with_spare
big-with_spare font fs = elim (Bool-cases fs.second_used) [ inl e ↦ rw e refl | inr e ↦ rw e refl ]

spare-with_spare : (font : Font) (fs : Fonts) → spare (with_spare font fs) ≡ font
unfolding with_spare
spare-with_spare font fs = elim (Bool-cases fs.second_used) [
  | inl e ↦ rw e refl
  | inr e ↦ rw e refl
]

big-publish : (font : Font) (fs : Fonts) → big (publish font fs) ≡ font
unfolding publish with_spare
big-publish font fs = elim (Bool-cases fs.second_used) [ inl e ↦ rw e refl | inr e ↦ rw e refl ]

spare-publish : (font : Font) (fs : Fonts) → spare (publish font fs) ≡ big fs
unfolding publish with_spare
spare-publish font fs = elim (Bool-cases fs.second_used) [ inl e ↦ rw e refl | inr e ↦ rw e refl ]

-- The two tables between loads.
pub record IsFonts (fs : Fonts) : Type 0 where
  pub used : Usable (big fs)
  pub room : length (spare fs).cp ≡ 128

module _ {File : Type 0} (read : ℕ → File → List ℕ × File) where
  load_checked-big :
      (count : Option ℕ) (header : List ℕ) (file : File) (fs : Fonts)
      → (load_checked read count header file fs).0 ≢ ok
      → big (load_checked read count header file fs).1 ≡ big fs
  unfolding load_checked load_table
  load_checked-big none header file fs bad = refl
  load_checked-big (some count) header file fs bad =
      let filled = load_entries read count 0 0 (byte_at header 6) (spare fs) file in
      elim (Bool-cases filled.0) [
        | inl e ↦ absurd (bad (rw e))
        | inr e ↦ rw e (big-with_spare filled.1 fs)
      ]

  -- A load that reports an error leaves the font in use as it was.
  pub load-big :
      (file : Option File) (fs : Fonts)
      → (load read file fs).0 ≢ ok
      → big (load read file fs).1 ≡ big fs
  unfolding load
  load-big none fs bad = refl
  load-big (some file) fs bad =
      let got = read header_len file in load_checked-big (header_count got.0) got.0 got.1 fs bad

  load_checked-IsFonts :
      (count : Option ℕ) (header : List ℕ) (file : File) (fs : Fonts)
      → HeaderFits header count
      → IsFonts fs
      → IsFonts (load_checked read count header file fs).1
  unfolding load_checked load_table
  load_checked-IsFonts none header file fs fits h = h
  load_checked-IsFonts (some count) header file fs fits h =
      let width = byte_at header 6 in
      let filled = load_entries read count 0 0 width (spare fs) file in
      let size : length filled.1.cp ≡ 128 =
        load_entries-size read count 0 0 width (spare fs) file ∙ h.room in
      let font : Font = record filled.1 {
        count = count;
        width = width;
        rows = byte_at header 7;
        ascent = byte_at header 8;
      } in
      elim (Bool-cases filled.0) [
        | inl e ↦
            let usable : Usable font = record {
              size = size;
              count = fits.few;
              ordered = load_entries-Ordered read count width (spare fs) file h.room fits.few e;
              width_least = fits.width_least;
              width_most = fits.width_most;
              rows_most = fits.rows_most;
              ascent = fits.ascent;
            } in
            rw e (record {
              used = subst Usable (sym (big-publish font fs)) usable;
              room = ap (λ (f : Font). length f.cp) (spare-publish font fs) ∙ h.used.size;
            })
        | inr e ↦ rw e (record {
          used = subst Usable (sym (big-with_spare filled.1 fs)) h.used;
          room = ap (λ (f : Font). length f.cp) (spare-with_spare filled.1 fs) ∙ size;
        })
      ]

  -- Every load, good or bad, leaves a usable font in use: its table is ordered, thus a search finds
  -- its characters, and its cell fits.
  pub load-IsFonts : (file : Option File) (fs : Fonts) → IsFonts fs → IsFonts (load read file fs).1
  unfolding load
  load-IsFonts none fs h = h
  load-IsFonts (some file) fs h =
      let got = read header_len file in
      load_checked-IsFonts (header_count got.0) got.0 got.1 fs (header_count-HeaderFits got.0) h
