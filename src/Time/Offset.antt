-- ===== src/Time/Offset.antt =====
-- The texts that tg_time_parse_offset reads, and the range of what it gives.
use telegraph_stm_fw.Base.{
  ℕ, zero, suc, ◌+◌, ◌/◌, ◌%◌, ◌≤◌, ◌<◌, ◌≡◌, inl, inr, refl, Bool, true, false, arith, List, [],
  ◌∷◌, ◌++◌, Option, none, some, length, take, drop, Bool-cases, ltb, leb, ◌==◌, ◌&&◌,
  if◌then◌else◌, ◌∙◌, ap, subst,
}
use telegraph_stm_fw.Base.Int.{ℤ, pos, negsuc, neg_ℕ, ◌≤ℤ◌}
use telegraph_stm_fw.Time.{
  value_loop, signed_value, parse_value, after_newline, offset_loop, parse_offset, offset_key,
  offset_max, same_bytes,
}

abbrev pub InRange : ℤ → Type 0
InRange v = (negsuc 839 ≤ℤ v) × (v ≤ℤ pos offset_max)

abbrev Within : Option ℤ → Type 0
Within none = Unit
Within (some v) = InRange v

signed_value-InRange :
    (negative : Bool) (read : Option (ℕ × ℕ)) (v : ℤ)
    → signed_value negative read ≡ some v
    → InRange v
unfolding signed_value
signed_value-InRange negative none v h = cc
signed_value-InRange true (some (n, digits)) v h = (ground arith, ground arith)
signed_value-InRange false (some (n, digits)) v h = (ground arith, ground arith)

parsed-Within : (o : Option ℤ) → ((v : ℤ) → o ≡ some v → InRange v) → Within o
parsed-Within none h = tt
parsed-Within (some v) h = h v refl

signed_value-Within :
    (negative : Bool) (read : Option (ℕ × ℕ)) → Within (signed_value negative read)
signed_value-Within negative read =
    parsed-Within (signed_value negative read) (signed_value-InRange negative read)

parse_value-Within : (text : List ℕ) → Within (parse_value text)
unfolding parse_value
parse_value-Within [] = signed_value-Within false (value_loop 0 0 [])
parse_value-Within (b ∷ rest) = elim (Bool-cases (b == b'-')) [
  | inl minus ↦ rw minus (signed_value-Within true (value_loop 0 0 rest))
  | inr other ↦ rw other (signed_value-Within false (value_loop 0 0 (b ∷ rest)))
]

module _ (fuel : ℕ) (rec : (line : List ℕ) → Within (offset_loop fuel line)) where
  next_line-Within :
      (rest : Option (List ℕ))
      → Within
          (elim rest as (λ _. Option ℤ) [ none ↦ some (pos 0) | some line ↦ offset_loop fuel line ])
  next_line-Within none = (omega arith, omega arith)
  next_line-Within (some line) = rec line

offset_loop-Within : (fuel : ℕ) (conf : List ℕ) → Within (offset_loop fuel conf)
unfolding offset_loop
offset_loop-Within zero conf = (omega arith, omega arith)
offset_loop-Within (suc fuel) conf = elim (Bool-cases (length conf == 0)) [
  | inl done ↦ rw done (omega arith, omega arith)
  | inr more ↦
      rw more
        (elim (Bool-cases (
          leb (length offset_key) (length conf)
          && same_bytes offset_key (take (length offset_key) conf))) [
            | inl key ↦ rw key (parse_value-Within (drop (length offset_key) conf))
            | inr other ↦
                rw other (
                  next_line-Within fuel (λ line. offset_loop-Within fuel line) (after_newline conf))
          ])
]

parsed-InRange : {o : Option ℤ} {v : ℤ} → o ≡ some v → Within o → InRange v
parsed-InRange {o} {v} e w = subst Within e w

-- Whatever the text of the configuration, an offset that is read from it is at most 840 minutes
-- either way.
parse_offset-InRange : (conf : Option (List ℕ)) (v : ℤ) → parse_offset conf ≡ some v → InRange v
unfolding parse_offset
parse_offset-InRange none v h = parsed-InRange h (omega arith, omega arith)
parse_offset-InRange (some conf) v h = parsed-InRange h (offset_loop-Within (length conf) conf)

-- The decimal digits of a number below 1000, with no leading zero.
abbrev pub digit : ℕ → ℕ
digit d = b'0' + d

unfoldable pub decimal : ℕ → List ℕ
decimal n =
    if ltb n 10
    then digit n ∷ []
    else if ltb n 100
    then digit (n / 10) ∷ digit (n % 10) ∷ []
    else digit (n / 100) ∷ digit (n / 10 % 10) ∷ digit (n % 10) ∷ []

unfoldable pub sign_of : Bool → List ℕ
sign_of true = b'-' ∷ []
sign_of false = []

-- What the digits of a number below 1000 read as, up to a newline.
value_loop-decimal :
    (n : ℕ) (rest : List ℕ)
    → n < 1000
    → (k : ℕ) × (value_loop 0 0 (decimal n ++ 10 ∷ rest) ≡ some (n, suc k))
unfolding value_loop decimal
value_loop-decimal n rest h = elim (Bool-cases (ltb n 10)) [
  | inl one ↦ rw one (0, ground arith)
  | inr more ↦ rw more (elim (Bool-cases (ltb n 100)) [
    | inl two ↦ rw two (1, ground arith)
    | inr three ↦ rw three (2, ground arith)
  ])
]

signed_value-in_range :
    (negative : Bool) (n k : ℕ)
    → n ≤ offset_max
    → signed_value negative (some (n, suc k)) ≡ some (if negative then neg_ℕ n else pos n)
unfolding signed_value
signed_value-in_range true n k h = ground arith
signed_value-in_range false n k h = ground arith

parse_value-digit :
    (b : ℕ) (rest : List ℕ)
    → b'0' ≤ b
    → parse_value (b ∷ rest) ≡ signed_value false (value_loop 0 0 (b ∷ rest))
unfolding parse_value
parse_value-digit b rest h = let other : (b == b'-') ≡ false = ground arith in rw other

parse_value-unsigned :
    (n : ℕ) (rest : List ℕ)
    → parse_value (decimal n ++ rest) ≡ signed_value false (value_loop 0 0 (decimal n ++ rest))
unfolding decimal
parse_value-unsigned n rest = elim (Bool-cases (ltb n 10)) [
  | inl one ↦ rw one (parse_value-digit (digit n) rest (omega arith))
  | inr more ↦ rw more (elim (Bool-cases (ltb n 100)) [
    | inl two ↦ rw two (parse_value-digit (digit (n / 10)) (digit (n % 10) ∷ rest) (omega arith))
    | inr three ↦ rw three (
        parse_value-digit (digit (n / 100)) (digit (n / 10 % 10) ∷ digit (n % 10) ∷ rest)
          (omega arith))
  ])
]

parse_value-printed :
    (negative : Bool) (n : ℕ) (rest : List ℕ)
    → n ≤ offset_max
    → parse_value (sign_of negative ++ (decimal n ++ 10 ∷ rest))
      ≡ some (if negative then neg_ℕ n else pos n)
unfolding sign_of
parse_value-printed false n rest h =
    let (k, read) = value_loop-decimal n rest (omega arith) in
    parse_value-unsigned n (10 ∷ rest)
    ∙ ap (signed_value false) read
    ∙ signed_value-in_range false n k h
parse_value-printed true n rest h =
    let (k, read) = value_loop-decimal n rest (omega arith) in
    unfold parse_value in (ap (signed_value true) read ∙ signed_value-in_range true n k h)

-- A text that begins with the key, a number of minutes in decimal, with its sign where it is
-- negative, and a newline gives that number, whatever follows, where it is at most 840.
parse_offset-printed :
    (negative : Bool) (n : ℕ) (rest : List ℕ)
    → n ≤ offset_max
    → parse_offset (some (offset_key ++ (sign_of negative ++ (decimal n ++ 10 ∷ rest))))
      ≡ some (if negative then neg_ℕ n else pos n)
unfolding parse_offset offset_loop
parse_offset-printed negative n rest h =
    let tail = sign_of negative ++ (decimal n ++ 10 ∷ rest) in
    let long : leb 11 (length (offset_key ++ tail)) ≡ true = ground arith in
    let some_text : (length (offset_key ++ tail) == 0) ≡ false = ground arith in
    rw (some_text, long) (unfold same_bytes in parse_value-printed negative n rest h)
