-- ===== src/Hass/Text/Examples.antt =====
-- Texts of the bridge.
use telegraph_stm_fw.Base.{ℕ, ◌≤◌, ◌≡◌, refl, List, [], ◌∷◌, ◌++◌, some, true, length, arith}
use telegraph_stm_fw.Time.Offset.{decimal, digit, sign_of}
use telegraph_stm_fw.Ipc.Wire.{put_u16}
use telegraph_stm_fw.Ipc.Payload.{fine, check_exttemp}
use telegraph_stm_fw.Hass.Text.{
  parse_tenths, bounded, ext_payload, ext_of, unsigned_tenths, after_whole, whole_loop, frac_part,
  frac_digits, tenths_value, utf8_prefix,
}
use telegraph_stm_fw.Hass.Text.Tenths.{
  IsRead, rounded, shown_for, parse_tenths-decimal, ext_payload-accepted,
}
use telegraph_stm_fw.Hass.Text.Bytes.{is_boundary, utf8_prefix-greatest}

-- -12.46 degrees
parse_tenths-decimal_example :
    IsRead
      (parse_tenths (sign_of true ++ (decimal 12 ++ b'.' ∷ digit 4 ∷ b'6' ∷ [])))
      true
      (rounded 12 4 (b'6' ∷ []))
parse_tenths-decimal_example =
    parse_tenths-decimal true 12 4 (b'6' ∷ []) (omega arith) (omega arith)
      ((omega arith, omega arith), tt)

abbrev cold : List ℕ
cold = b'-' ∷ b'1' ∷ b'2' ∷ b'.' ∷ b'5' ∷ []

abbrev cold_payload : List ℕ
cold_payload = 0x83 ∷ 0xff ∷ []

cold_sent : ext_payload cold ≡ some cold_payload
unfolding ext_payload ext_of parse_tenths unsigned_tenths after_whole whole_loop frac_part
    frac_digits tenths_value bounded put_u16
cold_sent = refl

ext_payload-accepted_example :
    check_exttemp cold_payload (length cold_payload) ≡ fine (shown_for cold (parse_tenths cold))
ext_payload-accepted_example = ext_payload-accepted cold cold_payload cold_sent

-- The text of an e with an accent, cut inside it.
utf8_prefix-greatest_example :
    (is_boundary (0xc3 ∷ 0xa9 ∷ []) 2 (utf8_prefix (0xc3 ∷ 0xa9 ∷ []) 2 1) ≡ true)
    × (utf8_prefix (0xc3 ∷ 0xa9 ∷ []) 2 1 ≤ 2)
    × (utf8_prefix (0xc3 ∷ 0xa9 ∷ []) 2 1 ≤ 1)
    × ((k : ℕ)
        → k ≤ 2
        → k ≤ 1
        → is_boundary (0xc3 ∷ 0xa9 ∷ []) 2 k ≡ true
        → k ≤ utf8_prefix (0xc3 ∷ 0xa9 ∷ []) 2 1)
utf8_prefix-greatest_example = utf8_prefix-greatest (0xc3 ∷ 0xa9 ∷ []) 2 1
