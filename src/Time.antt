-- ===== src/Time.antt =====
-- wapps/lib/timepolicy.c and wapps/include/telegraph/timepolicy.h: which clock the wapp tg-time
-- reads and which one it writes. A text is the list of its bytes; the NULL pointer is `none`.
pub mod Policy
pub mod Offset
pub mod Texts
use telegraph_stm_fw.Base.{
  ℕ, zero, suc, ◌+◌, ◌-◌, ◌*◌, Bool, true, false, not, ◌&&◌, ◌||◌, List, [], ◌∷◌, Option, none,
  some, ltb, leb, ◌==◌, if◌then◌else◌, length, take, drop,
}
use telegraph_stm_fw.Base.Int.{ℤ, pos, neg_ℕ, ltb_ℤ, negsuc}

-- enum tg_time_source
pub data TimeSource : Type 0 where
  src_none src_rtc src_sntp src_server src_manual src_unknown : TimeSource

abbrev pub is_source : TimeSource → TimeSource → Bool
is_source src_none src_none = true
is_source src_rtc src_rtc = true
is_source src_sntp src_sntp = true
is_source src_server src_server = true
is_source src_manual src_manual = true
is_source src_unknown src_unknown = true
is_source _ _ = false

abbrev pub time_floor : ℕ
time_floor = 1735689600

abbrev pub time_ceil : ℕ
time_ceil = 4102444799

abbrev pub time_threshold : ℕ
time_threshold = 2

abbrev pub offset_max : ℕ
offset_max = 840

-- struct tg_time_in
pub record TimeIn : Type 0 where
  pub source : TimeSource
  pub engine_valid : Bool
  pub engine_s : ℕ
  pub stm_known : Bool
  pub stm_s : ℕ
  pub offset_due : Bool

-- enum tg_time_kind
pub data Kind : Type 0 where
  nothing write_engine push_stm : Kind

-- struct tg_time_action
pub record Action : Type 0 where
  pub kind : Kind
  pub seconds : ℕ

-- tg_time_plausible
pub plausible : ℕ → Bool
plausible seconds = leb time_floor seconds && leb seconds time_ceil

-- distance
pub distance : ℕ → ℕ → ℕ
distance a b = if ltb b a then a - b else b - a

-- tg_time_decide
pub decide : TimeIn → Action
unfolding plausible distance
decide i =
    if is_source i.source src_none || is_source i.source src_unknown || not i.engine_valid
    then (if i.stm_known && plausible i.stm_s
        then record { kind = write_engine; seconds = i.stm_s }
        else record { kind = nothing; seconds = 0 })
    else if is_source i.source src_rtc
    then record { kind = if i.offset_due then push_stm else nothing; seconds = i.engine_s }
    else if i.offset_due
        || not i.stm_known
        || not (plausible i.stm_s)
        || ltb time_threshold (distance i.engine_s i.stm_s)
    then record { kind = push_stm; seconds = i.engine_s }
    else record { kind = nothing; seconds = i.engine_s }

-- tg_time_stm_reset
pub stm_reset : Bool → ℕ → ℕ → Bool
stm_reset have_last last now = not have_last || ltb now last

-- The comparison of two texts of one length by memcmp.
pub same_bytes : List ℕ → List ℕ → Bool
same_bytes [] [] = true
same_bytes (x ∷ xs) (y ∷ ys) = x == y && same_bytes xs ys
same_bytes _ _ = false

-- g_sources, in its order.
abbrev pub none_text : List ℕ
none_text = b'n' ∷ b'o' ∷ b'n' ∷ b'e' ∷ []

abbrev pub rtc_text : List ℕ
rtc_text = b'r' ∷ b't' ∷ b'c' ∷ []

abbrev pub sntp_text : List ℕ
sntp_text = b's' ∷ b'n' ∷ b't' ∷ b'p' ∷ []

abbrev pub server_text : List ℕ
server_text = b's' ∷ b'e' ∷ b'r' ∷ b'v' ∷ b'e' ∷ b'r' ∷ []

abbrev pub manual_text : List ℕ
manual_text = b'm' ∷ b'a' ∷ b'n' ∷ b'u' ∷ b'a' ∷ b'l' ∷ []

-- A final newline is not part of the text.
pub without_newline : List ℕ → List ℕ
without_newline [] = []
without_newline (b ∷ []) = if b == 10 then [] else b ∷ []
without_newline (b ∷ c ∷ rest) = b ∷ without_newline (c ∷ rest)

pub find_source : List ℕ → TimeSource
unfolding same_bytes
find_source text =
    if same_bytes none_text text
    then src_none
    else if same_bytes rtc_text text
    then src_rtc
    else if same_bytes sntp_text text
    then src_sntp
    else if same_bytes server_text text
    then src_server
    else if same_bytes manual_text text
    then src_manual
    else src_unknown

-- tg_time_parse_source
pub parse_source : Option (List ℕ) → TimeSource
unfolding without_newline find_source
parse_source none = src_unknown
parse_source (some text) = find_source (without_newline text)

-- The loop of parse_value over the digits, from the value `v` of `digits` of them: the value, or
-- `none` where the source returns -1.
pub value_loop : ℕ → ℕ → List ℕ → Option (ℕ × ℕ)
value_loop v digits [] = some (v, digits)
value_loop v digits (b ∷ rest) =
    let next = value_loop (v * 10 + (b - b'0')) (digits + 1) rest in
    if b == 10
    then some (v, digits)
    else if ltb b b'0' || ltb b'9' b || leb 5 digits
    then none
    else next

-- What parse_value does with the digits that it read.
pub signed_value : Bool → Option (ℕ × ℕ) → Option ℤ
signed_value negative none = none
signed_value negative (some (v, digits)) =
    let signed = if negative then neg_ℕ v else pos v in
    if digits == 0
    then none
    else if ltb_ℤ (pos offset_max) signed || ltb_ℤ signed (negsuc (offset_max - 1))
    then none
    else some signed

-- parse_value
pub parse_value : List ℕ → Option ℤ
unfolding value_loop signed_value
parse_value [] = signed_value false (value_loop 0 0 [])
parse_value (b ∷ rest) =
    if b == b'-'
    then signed_value true (value_loop 0 0 rest)
    else signed_value false (value_loop 0 0 (b ∷ rest))

abbrev pub offset_key : List ℕ
offset_key = b'o' ∷ b'f' ∷ b'f' ∷ b's' ∷ b'e' ∷ b't' ∷ b'_' ∷ b'm' ∷ b'i' ∷ b'n' ∷ b'=' ∷ []

-- The rest of the text after the first newline, where there is one.
pub after_newline : List ℕ → Option (List ℕ)
after_newline [] = none
after_newline (b ∷ rest) = if b == 10 then some rest else after_newline rest

-- The loop of tg_time_parse_offset over the lines, with fuel: the length of the text is enough.
-- `none` stands for -1, where the offset is 0.
pub offset_loop : ℕ → List ℕ → Option ℤ
offset_loop zero conf = some (pos 0)
offset_loop (suc fuel) conf =
    let more = (elim (after_newline conf) as (λ _. Option ℤ) [
      | none ↦ some (pos 0)
      | some line ↦ offset_loop fuel line
    ]) in
    if length conf == 0
    then some (pos 0)
    else if leb (length offset_key) (length conf)
        && same_bytes offset_key (take (length offset_key) conf)
    then parse_value (drop (length offset_key) conf)
    else more

-- tg_time_parse_offset
pub parse_offset : Option (List ℕ) → Option ℤ
unfolding offset_loop parse_value after_newline same_bytes
parse_offset none = some (pos 0)
parse_offset (some conf) = offset_loop (length conf) conf
