-- ===== src/Temperature.antt =====
-- boards/hazk03-stm32f105rb/src/tempfmt.c and the reading of ds3231.c: a temperature on two digits.
pub mod Digits
use telegraph_stm_fw.Base.{
  ℕ, suc, ◌+◌, ◌-◌, ◌*◌, ◌/◌, ◌%◌, List, [], ◌∷◌, ◌++◌, length, get_or, Bool, ltb, leb, ◌==◌,
  if◌then◌else◌,
}
use telegraph_stm_fw.Base.Int.{ℤ, pos, negsuc, neg_ℕ, sub_ℕ, int16, ◌+ℤ◌}

-- ds3231_temperature, of the two bytes of the register: the value before its cast to int16_t.
pub ds3231_tenths : ℕ → ℕ → ℤ
ds3231_tenths high low =
    (if ltb high 128 then pos (high * 10) else neg_ℕ ((256 - high) * 10)) +ℤ pos (low / 64 * 10 / 4)

-- TEMPFMT_MIN, as a magnitude, and TEMPFMT_MAX
abbrev pub tempfmt_min : ℕ
tempfmt_min = 99

abbrev pub tempfmt_max : ℕ
tempfmt_max = 199

-- tempfmt_degrees
pub degrees : ℤ → ℤ
degrees (pos tenths) =
    let d = (tenths + 5) / 10 in if ltb tempfmt_max d then pos tempfmt_max else pos d
degrees (negsuc n) =
    let d = (suc n + 5) / 10 in if ltb tempfmt_min d then neg_ℕ tempfmt_min else neg_ℕ d

-- The characters of a magnitude in tempfmt_frames.
pub magnitude_text : ℕ → List ℕ
magnitude_text m =
    (if leb 100 m then (48 + m / 100) ∷ [] else [])
    ++ (if leb 10 m then (48 + m / 10 % 10) ∷ [] else [])
    ++ (48 + m % 10) ∷ []

-- `text` in tempfmt_frames.
pub degrees_text : ℤ → List ℕ
degrees_text (pos m) = magnitude_text m
degrees_text (negsuc n) = 45 ∷ magnitude_text (suc n)

-- The frames of a text, each of two characters.
pub frames_of : List ℕ → List (ℕ × ℕ)
frames_of text =
    if leb (length text) 2
    then ((if length text == 2 then get_or text 0 0 else 32), get_or text (length text - 1) 0) ∷ []
    else (32, get_or text 0 0) ∷ (get_or text 1 0, get_or text 2 0) ∷ []

-- tempfmt_frames
pub frames : ℤ → List (ℕ × ℕ)
frames d = frames_of (degrees_text d)
