-- ===== src/Font/Examples.antt =====
-- The compact font and a text with a letter of two bytes.
use telegraph_stm_fw.Base.{
  ℕ, zero, suc, ◌+◌, ◌*◌, ◌/◌, ◌%◌, ◌<◌, ◌≡◌, ◌↔◌, refl, List, [], ◌∷◌, ◌++◌, length, get_or, Bool,
  true, false, not, ◌&&◌, ◌||◌, some, ltb, arith, ltb→lt,
}
use telegraph_stm_fw.Base.Bits.{holds_below, holds_below-at}
use telegraph_stm_fw.Font.{utf8, find}
use telegraph_stm_fw.Font.Compact.{compact, compact_cp}
use telegraph_stm_fw.Font.Search.{Ordered, find_iff}
use telegraph_stm_fw.Font.Utf8.{encode_utf8, utf8-encode_utf8}
use telegraph_stm_fw.Font.Load.{Fonts, empty_bank, load}
use telegraph_stm_fw.Font.Load.Kept.{IsFonts, load-IsFonts}

abbrev pair_up : ℕ → Bool
pair_up n =
    (not (ltb (n / 128) (n % 128) && ltb (n % 128) 101))
    || ltb (get_or compact_cp (n / 128) 0) (get_or compact_cp (n % 128) 0)

pairs_up : holds_below pair_up 16384 ≡ true
unfolding holds_below
pairs_up = refl

small_codes : holds_below (λ (i : ℕ). ltb (get_or compact_cp i 0) 65536) 101 ≡ true
unfolding holds_below
small_codes = refl

compact-Ordered : Ordered compact.cp compact.count
compact-Ordered = record { up = λ i j p q. up i j p q; small = λ i p. small i p }
  where
    small : (i : ℕ) → i < 101 → get_or compact_cp i 0 < 65536
    small i p =
        ltb→lt (get_or compact_cp i 0) 65536
          (holds_below-at (λ (k : ℕ). ltb (get_or compact_cp k 0) 65536) 101 i small_codes p)

    up : (i j : ℕ) → i < j → j < 101 → get_or compact_cp i 0 < get_or compact_cp j 0
    up i j p q =
        let code = i * 128 + j in
        let high : code / 128 ≡ i = omega arith in
        let low : code % 128 ≡ j = omega arith in
        let less : ltb i j ≡ true = ground arith in
        let inside : ltb j 101 ≡ true = ground arith in
        let shown = holds_below-at pair_up 16384 code pairs_up (omega arith) in
        ltb→lt (get_or compact_cp i 0) (get_or compact_cp j 0)
          (rw (high, low, less, inside) at shown)

find_iff_example :
    (find compact 0x104 ≡ some 86) ↔ ((86 < compact.count) × (get_or compact.cp 86 0 ≡ 0x104))
find_iff_example = find_iff compact 0x104 86 compact-Ordered

utf8-encode_utf8_example :
    utf8 (encode_utf8 0x15a ++ 0x72 ∷ []) ≡ (length (encode_utf8 0x15a), 0x15a)
utf8-encode_utf8_example = utf8-encode_utf8 0x15a (0x72 ∷ []) (omega arith)

-- A file of one character, and the two empty tables.
abbrev read_file : ℕ → ℕ → List ℕ × ℕ
read_file n zero = (0x54 ∷ 0x47 ∷ 0x46 ∷ 0x31 ∷ 1 ∷ 0 ∷ 1 ∷ 10 ∷ 2 ∷ 0 ∷ 0 ∷ 0 ∷ [], 1)
read_file n (suc k) = (0x04 ∷ 0x01 ∷ 0x7f ∷ 0 ∷ [], suc (suc k))

abbrev fonts : Fonts
fonts = record { second_used = false; first = empty_bank; second = empty_bank }

fonts-IsFonts : IsFonts fonts
fonts-IsFonts = record {
  used = record {
    size = refl;
    count = omega arith;
    ordered = record { up = λ i j p q. absurd (omega arith); small = λ i p. absurd (omega arith) };
    width_least = omega arith;
    width_most = omega arith;
    rows_most = omega arith;
    ascent = omega arith;
  };
  room = refl;
}

load-IsFonts_example : IsFonts (load read_file (some 0) fonts).1
load-IsFonts_example = load-IsFonts read_file (some 0) fonts fonts-IsFonts
