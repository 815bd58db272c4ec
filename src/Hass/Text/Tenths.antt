-- ===== src/Hass/Text/Tenths.antt =====
-- Temperatures read from texts: every number of degrees is read and rounded, and what is read is
-- what the board accepts.
use mathlib.Core.Option.{some-injective}
use telegraph_stm_fw.Base.{
  ℕ, zero, suc, ◌+◌, ◌-◌, ◌*◌, ◌/◌, ◌%◌, ◌≤◌, ◌<◌, ◌≡◌, ◌⊎◌, refl, ap, ◌∙◌, List, [], ◌∷◌, ◌++◌,
  append-nil, Option, none, some, Bool, true, false, length, All, ltb, leb, ◌==◌, if◌then◌else◌,
  if_split, if_false, Bool-cases, inl, inr, ◌||◌, arith, subst, sym,
}
use telegraph_stm_fw.Base.Int.{ℤ, pos, negsuc, neg_ℕ, ◌≤ℤ◌, pattern16}
use telegraph_stm_fw.Ipc.Wire.{put_u16}
use telegraph_stm_fw.Ipc.Payload.{
  exttemp_min, exttemp_max, fine, ExtTemp, clear, tenths, check_exttemp,
}
use telegraph_stm_fw.Ipc.Payload.Checks.{check_exttemp-pattern16}
use telegraph_stm_fw.Time.Offset.{decimal, digit, sign_of}
use telegraph_stm_fw.Hass.Text.{
  is_digit, skip_digits, whole_loop, frac_digits, frac_part, bounded, tenths_value, after_whole,
  unsigned_tenths, parse_tenths, ext_of, ext_payload, format_tenths,
}

abbrev pub IsDigits : List ℕ → Type 0
IsDigits ds = All (λ d. (48 ≤ d) × (d ≤ 57)) ds

skip_digits-IsDigits : (ds : List ℕ) → IsDigits ds → skip_digits ds ≡ []
unfolding skip_digits
skip_digits-IsDigits [] h = refl
skip_digits-IsDigits (d ∷ ds) h = ground (arith, h.0, skip_digits-IsDigits ds h.1)

-- The digits before the point.
whole_loop-decimal :
    (n : ℕ) (rest : List ℕ)
    → n < 1000
    → whole_loop 0 (decimal n ++ b'.' ∷ rest) ≡ some (n, b'.' ∷ rest)
unfolding whole_loop decimal
whole_loop-decimal n rest h = elim (Bool-cases (ltb n 10)) [
  | inl one ↦ rw one (ground arith)
  | inr more ↦ rw more (elim (Bool-cases (ltb n 100)) [
    | inl two ↦ rw two (ground arith)
    | inr three ↦ rw three (ground arith)
  ])
]

-- The second digit after the point, or 0.
abbrev pub second : List ℕ → ℕ
second [] = 0
second (d ∷ ds) = d - 48

frac_part-digits :
    (d : ℕ) (ds : List ℕ)
    → d ≤ 9
    → IsDigits ds
    → frac_part (b'.' ∷ digit d ∷ ds) ≡ some ((d, second ds), [])
unfolding frac_part frac_digits
frac_part-digits d [] h k = ground arith
frac_part-digits d (c ∷ cs) h k = ground (arith, k.0, skip_digits-IsDigits cs k.1)

-- A number of tenths of degrees, rounded at the hundredths.
abbrev pub rounded : ℕ → ℕ → List ℕ → ℕ
rounded n d ds = n * 10 + d + (if leb 5 (second ds) then 1 else 0)

abbrev pub signed : Bool → ℕ → ℤ
signed negative n = if negative then neg_ℕ n else pos n

-- A property of every text that begins with a digit holds of a number's digits.
starts_with_digit :
    (P : List ℕ → Type 0)
    → ((c : ℕ) (cs : List ℕ) → 48 ≤ c → c ≤ 57 → P (c ∷ cs))
    → (n : ℕ) (rest : List ℕ) → n < 1000
    → P (decimal n ++ rest)
unfolding decimal
starts_with_digit P p n rest h = elim (Bool-cases (ltb n 10)) [
  | inl one ↦ rw one (p (digit n) rest (omega arith) (ground arith))
  | inr more ↦ rw more (elim (Bool-cases (ltb n 100)) [
    | inl two ↦ rw two (p (digit (n / 10)) (digit (n % 10) ∷ rest) (omega arith) (ground arith))
    | inr three ↦ rw three (
        p (digit (n / 100)) (digit (n / 10 % 10) ∷ digit (n % 10) ∷ rest) (omega arith)
          (omega arith))
  ])
]

unsigned_tenths-digit :
    (negative : Bool) (c : ℕ) (cs : List ℕ)
    → 48 ≤ c
    → c ≤ 57
    → unsigned_tenths negative (c ∷ cs) ≡ after_whole negative (whole_loop 0 (c ∷ cs))
unfolding unsigned_tenths
unsigned_tenths-digit negative c cs h k = let d : is_digit c ≡ true = ground arith in rw d

parse_tenths-digit :
    (c : ℕ) (cs : List ℕ) → 48 ≤ c → c ≤ 57 → parse_tenths (c ∷ cs) ≡ unsigned_tenths false (c ∷ cs)
unfolding parse_tenths
parse_tenths-digit c cs h k = let d : (c == b'-' || c == b'+') ≡ false = ground arith in rw d

unsigned_tenths-decimal :
    (negative : Bool) (n d : ℕ) (ds : List ℕ)
    → n < 1000
    → d ≤ 9
    → IsDigits ds
    → unsigned_tenths negative (decimal n ++ b'.' ∷ digit d ∷ ds)
      ≡ bounded (signed negative (rounded n d ds))
unfolding after_whole tenths_value
unsigned_tenths-decimal negative n d ds h k l =
    let rest = b'.' ∷ digit d ∷ ds in
    starts_with_digit (λ t. unsigned_tenths negative t ≡ after_whole negative (whole_loop 0 t))
      (unsigned_tenths-digit negative) n rest h
    ∙ ap (after_whole negative) (whole_loop-decimal n (digit d ∷ ds) h)
    ∙ ap (tenths_value negative n) (frac_part-digits d ds k l)

parse_tenths-bounded :
    (negative : Bool) (n d : ℕ) (ds : List ℕ)
    → n < 1000
    → d ≤ 9
    → IsDigits ds
    → parse_tenths (sign_of negative ++ (decimal n ++ b'.' ∷ digit d ∷ ds))
      ≡ bounded (signed negative (rounded n d ds))
unfolding parse_tenths sign_of
parse_tenths-bounded true n d ds h k l = unsigned_tenths-decimal true n d ds h k l
parse_tenths-bounded false n d ds h k l =
    starts_with_digit (λ t. parse_tenths t ≡ unsigned_tenths false t) parse_tenths-digit n
      (b'.' ∷ digit d ∷ ds) h
    ∙ unsigned_tenths-decimal false n d ds h k l

bounded-InRange : (v w : ℤ) → bounded v ≡ some w → (exttemp_min ≤ℤ w) × (w ≤ℤ exttemp_max)
unfolding bounded
bounded-InRange v w h = (ground arith, ground arith)

abbrev InRange : ℤ → Type 0
InRange v = (exttemp_min ≤ℤ v) × (v ≤ℤ exttemp_max)

tenths_value-InRange :
    (negative : Bool) (whole : ℕ) (read : Option ((ℕ × ℕ) × List ℕ)) (v : ℤ)
    → tenths_value negative whole read ≡ some v
    → InRange v
unfolding tenths_value
tenths_value-InRange negative whole none v h = cc
tenths_value-InRange negative whole (some (digits, c ∷ cs)) v h = cc
tenths_value-InRange negative whole (some (digits, [])) v h = bounded-InRange _ v h

after_whole-InRange :
    (negative : Bool) (read : Option (ℕ × List ℕ)) (v : ℤ)
    → after_whole negative read ≡ some v
    → InRange v
unfolding after_whole
after_whole-InRange negative none v h = cc
after_whole-InRange negative (some (whole, rest)) v h =
    tenths_value-InRange negative whole (frac_part rest) v h

abbrev Ranged : Option ℤ → Type 0
Ranged o = (v : ℤ) → o ≡ some v → InRange v

unsigned_tenths-InRange : (negative : Bool) (text : List ℕ) → Ranged (unsigned_tenths negative text)
unfolding unsigned_tenths
unsigned_tenths-InRange negative [] = λ v h. cc
unsigned_tenths-InRange negative (c ∷ cs) =
    if_split Ranged (is_digit c) (λ digit_. after_whole-InRange negative (whole_loop 0 (c ∷ cs)))
      (λ other v h. cc)

-- A temperature that is read is one that the board takes.
pub parse_tenths-InRange : (text : List ℕ) → Ranged (parse_tenths text)
unfolding parse_tenths
parse_tenths-InRange [] = λ v h. cc
parse_tenths-InRange (c ∷ cs) =
    if_split Ranged (c == b'-' || c == b'+') (λ sign. unsigned_tenths-InRange (c == b'-') cs)
      (λ other. unsigned_tenths-InRange false (c ∷ cs))

-- What the board is to show for a value: nothing of its own, or the temperature that is read.
abbrev pub shown_for : List ℕ → Option ℤ → ExtTemp
shown_for [] read = clear
shown_for (c ∷ cs) none = clear
shown_for (c ∷ cs) (some v) = tenths v

ext_of-accepted :
    (c : ℕ) (cs : List ℕ) (read : Option ℤ) (bytes : List ℕ)
    → Ranged read
    → ext_of read ≡ some bytes
    → check_exttemp bytes (length bytes) ≡ fine (shown_for (c ∷ cs) read)
unfolding ext_of put_u16
ext_of-accepted c cs none bytes r h = cc
ext_of-accepted c cs (some v) bytes r h =
    let range = r v refl in
    let sent : put_u16 (pattern16 v) ≡ bytes = some-injective _ _ h in
    let fits = check_exttemp-pattern16 v [] range.0 range.1 in
    subst (λ (b : List ℕ). check_exttemp b (length b) ≡ fine (tenths v)) sent
      (rw append-nil at fits)

-- Every payload that the bridge sends for a text passes the check of the board, with the
-- temperature that the bridge read, or with none for the empty text.
pub ext_payload-accepted :
    (value bytes : List ℕ)
    → ext_payload value ≡ some bytes
    → check_exttemp bytes (length bytes) ≡ fine (shown_for value (parse_tenths value))
unfolding ext_payload check_exttemp
ext_payload-accepted [] bytes h =
    let sent : [] ≡ bytes = some-injective _ _ h in
    subst (λ (b : List ℕ). check_exttemp b (length b) ≡ fine clear) sent refl
ext_payload-accepted (c ∷ cs) bytes h =
    let some_text : (suc (length cs) == 0) ≡ false = ground arith in
    ext_of-accepted c cs (parse_tenths (c ∷ cs)) bytes (parse_tenths-InRange (c ∷ cs))
      (sym (if_false (some []) (ext_of (parse_tenths (c ∷ cs))) some_text) ∙ h)

decimal-digit : (d : ℕ) → d < 10 → decimal d ≡ digit d ∷ []
unfolding decimal
decimal-digit d h = ground arith

bounded-some : (v : ℤ) → InRange v → bounded v ≡ some v
unfolding bounded
bounded-some (pos n) h = ground (arith, h.1)
bounded-some (negsuc n) h = ground (arith, h.0)

-- The greatest number of tenths below 0, and of those from 0 on.
abbrev pub most : Bool → ℕ
most true = 990
most false = 1999

-- What is read of a number of tenths.
abbrev pub IsRead : Option ℤ → Bool → ℕ → Type 0
IsRead read negative n =
    ((n ≤ most negative) × (read ≡ some (signed negative n)))
    ⊎ ((most negative < n) × (read ≡ none))

bounded-IsRead : (negative : Bool) (n : ℕ) → IsRead (bounded (signed negative n)) negative n
unfolding bounded
bounded-IsRead true zero = inl (omega arith, refl)
bounded-IsRead true (suc n) = elim (Bool-cases (ltb 989 n)) [
  | inl e ↦ inr (ground arith, ground arith)
  | inr e ↦ inl (ground arith, ground arith)
]
bounded-IsRead false n = elim (Bool-cases (ltb 1999 n)) [
  | inl e ↦ inr (ground arith, ground arith)
  | inr e ↦ inl (ground arith, ground arith)
]

-- The digits of a number of degrees below 1000, with one digit or more after the point and a sign or
-- none, are read as its tenths, rounded at the second digit after the point, where those are from
-- -990 to 1999, and refused elsewhere.
pub parse_tenths-decimal :
    (negative : Bool) (n d : ℕ) (ds : List ℕ)
    → n < 1000
    → d ≤ 9
    → IsDigits ds
    → IsRead
        (parse_tenths (sign_of negative ++ (decimal n ++ b'.' ∷ digit d ∷ ds)))
        negative
        (rounded n d ds)
parse_tenths-decimal negative n d ds h k l =
    subst (λ (o : Option ℤ). IsRead o negative (rounded n d ds))
      (sym (parse_tenths-bounded negative n d ds h k l)) (bounded-IsRead negative (rounded n d ds))

-- The text of a magnitude in tenths, read with a sign.
printed-tenths :
    (print_d : ℕ → List ℕ)
    → ((n : ℕ) → n < 1000 → print_d n ≡ decimal n)
    → (negative : Bool) (n : ℕ) → n < 2000
    → parse_tenths (sign_of negative ++ (print_d (n / 10) ++ b'.' ∷ print_d (n % 10)))
      ≡ bounded (signed negative n)
printed-tenths print_d prints negative n h =
    let whole = prints (n / 10) (omega arith) in
    let frac = prints (n % 10) (omega arith) ∙ decimal-digit (n % 10) (omega arith) in
    let read = parse_tenths-bounded negative (n / 10) (n % 10) [] (omega arith) (omega arith) tt in
    let value : rounded (n / 10) (n % 10) [] ≡ n = omega arith in
    rw (whole, frac) (read ∙ ap (λ (m : ℕ). bounded (signed negative m)) value)

-- What the bridge prints of a temperature is read back, where %d prints in decimal.
pub parse_tenths-format_tenths :
    (print_d : ℕ → List ℕ)
    → ((n : ℕ) → n < 1000 → print_d n ≡ decimal n)
    → (v : ℤ) → exttemp_min ≤ℤ v
    → v ≤ℤ exttemp_max
    → parse_tenths (format_tenths print_d v) ≡ some v
unfolding format_tenths sign_of
parse_tenths-format_tenths print_d prints (pos n) lo hi =
    printed-tenths print_d prints false n (omega arith) ∙ bounded-some (pos n) (lo, hi)
parse_tenths-format_tenths print_d prints (negsuc n) lo hi =
    let value : signed true (suc n) ≡ negsuc n = ground arith in
    printed-tenths print_d prints true (suc n) (omega arith)
    ∙ ap bounded value
    ∙ bounded-some (negsuc n) (lo, hi)
