-- ===== src/Hass/Text.antt =====
-- wapps/lib/hassparse.c, with the outside temperature of wapps/tg-hass/hass.c. A C string is the
-- list of its bytes before the final zero.
pub mod Tenths
pub mod Bytes
mod Examples
use telegraph_stm_fw.Base.{
  ℕ, zero, suc, ◌+◌, ◌-◌, ◌*◌, ◌/◌, ◌%◌, List, [], ◌∷◌, ◌++◌, Option, none, some, Bool, true, false,
  length, get_or, set, ltb, leb, min, ◌==◌, if◌then◌else◌, ◌&&◌, ◌||◌, bit_and, byte_at,
}
use telegraph_stm_fw.Base.Int.{ℤ, pos, negsuc, neg_ℕ, ltb_ℤ, pattern16}
use telegraph_stm_fw.Ipc.Wire.{put_u16}
use telegraph_stm_fw.Ipc.Payload.{exttemp_min, exttemp_max}

-- is_digit
abbrev pub is_digit : ℕ → Bool
is_digit c = leb b'0' c && leb c b'9'

-- The text from its first byte that is not a digit.
pub skip_digits : List ℕ → List ℕ
skip_digits [] = []
skip_digits (c ∷ cs) = if is_digit c then skip_digits cs else c ∷ cs

-- The loop over the digits before the point, from `whole`: what they add up to, and the text after
-- them; nothing above IPC_EXTTEMP_MAX.
pub whole_loop : ℕ → List ℕ → Option (ℕ × List ℕ)
whole_loop whole [] = some (whole, [])
whole_loop whole (c ∷ cs) =
    let next = whole * 10 + (c - b'0') in
    let rest = whole_loop next cs in
    if is_digit c then (if ltb 1999 next then none else rest) else some (whole, c ∷ cs)

-- The digits after the point: the first of them, the second or 0, and the text after all of them.
pub frac_digits : List ℕ → Option ((ℕ × ℕ) × List ℕ)
frac_digits [] = none
frac_digits (c ∷ []) = if is_digit c then some ((c - b'0', 0), []) else none
frac_digits (c ∷ d ∷ cs) =
    if is_digit c
    then (if is_digit d
        then some ((c - b'0', d - b'0'), skip_digits cs)
        else some ((c - b'0', 0), d ∷ cs))
    else none

pub frac_part : List ℕ → Option ((ℕ × ℕ) × List ℕ)
frac_part [] = some ((0, 0), [])
frac_part (c ∷ cs) = if c == b'.' then frac_digits cs else some ((0, 0), c ∷ cs)

-- The end of hass_parse_tenths: the value, where the text is used up and the value is in range.
pub bounded : ℤ → Option ℤ
bounded v = if ltb_ℤ v exttemp_min || ltb_ℤ exttemp_max v then none else some v

pub tenths_value : Bool → ℕ → Option ((ℕ × ℕ) × List ℕ) → Option ℤ
tenths_value negative whole none = none
tenths_value negative whole (some (digits, c ∷ cs)) = none
tenths_value negative whole (some (digits, [])) =
    let value = whole * 10 + digits.0 + (if leb 5 digits.1 then 1 else 0) in
    bounded (if negative then neg_ℕ value else pos value)

pub after_whole : Bool → Option (ℕ × List ℕ) → Option ℤ
after_whole negative none = none
after_whole negative (some (whole, rest)) = tenths_value negative whole (frac_part rest)

-- The text after its sign.
pub unsigned_tenths : Bool → List ℕ → Option ℤ
unsigned_tenths negative [] = none
unsigned_tenths negative (c ∷ cs) =
    let read = after_whole negative (whole_loop 0 (c ∷ cs)) in if is_digit c then read else none

-- hass_parse_tenths
pub parse_tenths : List ℕ → Option ℤ
parse_tenths [] = none
parse_tenths (c ∷ cs) =
    if c == b'-' || c == b'+'
    then unsigned_tenths (c == b'-') cs
    else unsigned_tenths false (c ∷ cs)

-- The payload that set_ext of hass.c sends, where it sends one.
pub ext_of : Option ℤ → Option (List ℕ)
ext_of none = none
ext_of (some v) = some (put_u16 (pattern16 v))

pub ext_payload : List ℕ → Option (List ℕ)
ext_payload value = if length value == 0 then some [] else ext_of (parse_tenths value)

-- format_tenths of hass.c, with what snprintf makes of a number for %d.
pub format_tenths : (ℕ → List ℕ) → ℤ → List ℕ
format_tenths print_d (pos n) = print_d (n / 10) ++ b'.' ∷ print_d (n % 10)
format_tenths print_d (negsuc n) = b'-' ∷ print_d (suc n / 10) ++ b'.' ∷ print_d (suc n % 10)

-- The test of a byte of a character that is not its first.
abbrev pub is_continuation : ℕ → Bool
is_continuation b = bit_and b 0xc0 == 0x80

-- hass_utf8_prefix, whose loop starts at the smaller of the lengths.
pub prefix_loop : List ℕ → ℕ → ℕ → ℕ
prefix_loop text len zero = 0
prefix_loop text len (suc cut) =
    let shorter = prefix_loop text len cut in
    if ltb (suc cut) len && is_continuation (byte_at text (suc cut)) then shorter else suc cut

pub utf8_prefix : List ℕ → ℕ → ℕ → ℕ
utf8_prefix text len max_ = prefix_loop text len (if ltb len max_ then len else max_)

-- hass_unescape_newlines: the text and its two indices, in place, with fuel. A round moves the first
-- index on, thus the length is enough.
pub unescape_loop : ℕ → List ℕ → ℕ → ℕ → ℕ → List ℕ × ℕ
unescape_loop zero text len from to = (text, to)
unescape_loop (suc fuel) text len from to =
    let newline = unescape_loop fuel (set text to 10) len (from + 2) (to + 1) in
    let copied = unescape_loop fuel (set text to (byte_at text from)) len (from + 1) (to + 1) in
    if ltb from len
    then (if (byte_at text from == 92 && ltb (from + 1) len) && byte_at text (from + 1) == b'n'
        then newline
        else copied)
    else (text, to)

pub unescape_newlines : List ℕ → ℕ → List ℕ × ℕ
unescape_newlines text len = unescape_loop len text len 0 0
