-- ===== src/Hass/Text/Bytes.antt =====
-- Where a text is cut, and what replaces its escapes.
use telegraph_stm_fw.Base.{
  ℕ, zero, suc, ◌+◌, ◌≤◌, ◌<◌, ◌≡◌, ◌≢◌, refl, ap, ◌∙◌, sym, List, append-nil, append_assoc,
  drop-past, get_or-drop, length-drop, [], ◌∷◌, ◌++◌, Bool, true, false, true-not_false, length,
  take, drop, set, byte_at, ltb, leb, ◌==◌, if◌then◌else◌, if_split, not, ◌&&◌, ◌||◌, arith,
  length-set,
}
use telegraph_stm_fw.Hass.Text.{
  is_continuation, prefix_loop, utf8_prefix, unescape_loop, unescape_newlines,
}

-- A length at which a text of `len` bytes can be cut: nothing, all of it, or before a byte that
-- begins a character.
abbrev pub is_boundary : List ℕ → ℕ → ℕ → Bool
is_boundary text len cut = cut == 0 || leb len cut || not (is_continuation (byte_at text cut))

prefix_loop-IsBoundary :
    (text : List ℕ) (len cut : ℕ) → is_boundary text len (prefix_loop text len cut) ≡ true
unfolding prefix_loop
prefix_loop-IsBoundary text len zero = refl
prefix_loop-IsBoundary text len (suc cut) =
    if_split (λ (c : ℕ). is_boundary text len c ≡ true)
      (ltb (suc cut) len && is_continuation (byte_at text (suc cut)))
      (λ inside. prefix_loop-IsBoundary text len cut) (λ boundary. ground arith)

prefix_loop-le : (text : List ℕ) (len cut : ℕ) → prefix_loop text len cut ≤ cut
unfolding prefix_loop
prefix_loop-le text len zero = omega arith
prefix_loop-le text len (suc cut) = ground (arith, prefix_loop-le text len cut)

prefix_loop-greatest :
    (text : List ℕ) (len cut k : ℕ)
    → k ≤ cut
    → is_boundary text len k ≡ true
    → k ≤ prefix_loop text len cut
unfolding prefix_loop
prefix_loop-greatest text len zero k h b = h
prefix_loop-greatest text len (suc cut) k h b =
    if_split (λ (c : ℕ). k ≤ c) (ltb (suc cut) len && is_continuation (byte_at text (suc cut)))
      (λ inside.
        let other : k ≢ suc cut =
          λ e. true-not_false (ap (λ (n : ℕ). is_boundary text len n) (sym e) ∙ b) (ground arith) in
        prefix_loop-greatest text len cut k (omega arith) b)
      (λ boundary. h)

-- The cut is the greatest length, of at most the bytes of the text and of at most `max`, that does
-- not part a character.
pub utf8_prefix-greatest :
    (text : List ℕ) (len max_ : ℕ)
    → (is_boundary text len (utf8_prefix text len max_) ≡ true)
      × (utf8_prefix text len max_ ≤ len)
      × (utf8_prefix text len max_ ≤ max_)
      × ((k : ℕ)
          → k ≤ len
          → k ≤ max_
          → is_boundary text len k ≡ true
          → k ≤ utf8_prefix text len max_)
unfolding utf8_prefix
utf8_prefix-greatest text len max_ =
    let smaller = if ltb len max_ then len else max_ in
    let below = prefix_loop-le text len smaller in
    (
      prefix_loop-IsBoundary text len smaller,
      ground arith,
      ground arith,
      (λ k h m b. prefix_loop-greatest text len smaller k (ground arith) b),
    )

-- The text with each backslash before an n and that n replaced by a line feed.
unescaped : List ℕ → List ℕ
unescaped [] = []
unescaped (c ∷ []) = c ∷ []
unescaped (c ∷ d ∷ rest) = elim (c == 92 && d == b'n') [
  | true ↦ 10 ∷ unescaped rest
  | false ↦ c ∷ unescaped (d ∷ rest)
]

unescaped-copy :
    (c : ℕ) (rest : List ℕ)
    → ((c == 92 && ltb 0 (length rest)) && byte_at rest 0 == b'n') ≡ false
    → unescaped (c ∷ rest) ≡ c ∷ unescaped rest
unfolding unescaped
unescaped-copy c [] h = refl
unescaped-copy c (d ∷ rest) h =
    let other : (c == 92 && d == b'n') ≡ false = ground arith in rw (other, unescaped)

unescaped-newline :
    (c d : ℕ) (rest : List ℕ) → c ≡ 92 → d ≡ b'n' → unescaped (c ∷ d ∷ rest) ≡ 10 ∷ unescaped rest
unfolding unescaped
unescaped-newline c d rest h k =
    let both_ : (c == 92 && d == b'n') ≡ true = ground arith in rw (both_, unescaped)

take-set-suc :
    (xs : List ℕ) (i v : ℕ) → i < length xs → take (suc i) (set xs i v) ≡ take i xs ++ v ∷ []
take-set-suc [] i v h = absurd (omega arith)
take-set-suc (x ∷ xs) zero v h = refl
take-set-suc (x ∷ xs) (suc i) v h = ap (λ (t : List ℕ). x ∷ t) (take-set-suc xs i v (omega arith))

drop-set : (xs : List ℕ) (n i v : ℕ) → i < n → drop n (set xs i v) ≡ drop n xs
drop-set [] n i v h = refl
drop-set (x ∷ xs) zero i v h = absurd (omega arith)
drop-set (x ∷ xs) (suc n) zero v h = refl
drop-set (x ∷ xs) (suc n) (suc i) v h = drop-set xs n i v (omega arith)

drop-at : (xs : List ℕ) (i : ℕ) → i < length xs → drop i xs ≡ byte_at xs i ∷ drop (i + 1) xs
drop-at [] i h = absurd (omega arith)
drop-at (x ∷ xs) zero h = refl
drop-at (x ∷ xs) (suc i) h = rw (add_one i) (drop-at xs i (omega arith))
  where
    add_one : (k : ℕ) → suc k + 1 ≡ suc (k + 1)
    add_one k = omega arith

-- One round of the loop, which puts `v` at `to` and goes on at `next`, of the text from there.
round-unescaped :
    (text : List ℕ) (next to v : ℕ)
    → to < length text
    → to < next
    → take (to + 1) (set text to v) ++ unescaped (drop next (set text to v))
      ≡ take to text ++ v ∷ unescaped (drop next text)
round-unescaped text next to v h k =
    let one : to + 1 ≡ suc to = omega arith in
    rw (one, take-set-suc text to v h, drop-set text next to v k)
      (append_assoc (take to text) (v ∷ []) (unescaped (drop next text)))

-- What the rest of the text holds, at an escape and elsewhere.
drop-newline :
    (text : List ℕ) (from : ℕ)
    → from + 1 < length text
    → byte_at text from ≡ 92
    → byte_at text (from + 1) ≡ b'n'
    → unescaped (drop from text) ≡ 10 ∷ unescaped (drop (from + 2) text)
drop-newline text from h k l =
    let two : from + 1 + 1 ≡ from + 2 = omega arith in
    rw (drop-at text from (omega arith), drop-at text (from + 1) h, two)
      (unescaped-newline (byte_at text from) (byte_at text (from + 1)) (drop (from + 2) text) k l)

drop-copy :
    (text : List ℕ) (from : ℕ)
    → from < length text
    → ((byte_at text from == 92 && ltb (from + 1) (length text)) && byte_at text (from + 1) == b'n')
      ≡ false
    → unescaped (drop from text) ≡ byte_at text from ∷ unescaped (drop (from + 1) text)
drop-copy text from h k =
    let next = get_or-drop (from + 1) 0 text 0 in
    let none_added : from + 1 + 0 ≡ from + 1 = omega arith in
    let left = length-drop (from + 1) text in
    rw (drop-at text from h) (
      unescaped-copy (byte_at text from) (drop (from + 1) text)
        (ground (arith, next, ap (byte_at text) none_added)))

drop-end :
    (text : List ℕ) (from to : ℕ)
    → length text ≤ from
    → take to text ≡ take to text ++ unescaped (drop from text)
unfolding unescaped
drop-end text from to h = rw (drop-past from text h) (sym (append-nil (take to text)))

unescape_loop-unescaped :
    (fuel : ℕ) (text : List ℕ) (len from to : ℕ)
    → length text ≡ len
    → to ≤ from
    → len ≤ from + fuel
    → let done = unescape_loop fuel text len from to in
      take done.1 done.0 ≡ take to text ++ unescaped (drop from text)
unfolding unescape_loop
unescape_loop-unescaped zero text len from to h k l = drop-end text from to (omega arith)
unescape_loop-unescaped (suc fuel) text len from to h k l =
    let P = λ (c : List ℕ × ℕ). take c.1 c.0 ≡ take to text ++ unescaped (drop from text) in
    let before = λ (t : List ℕ). take to text ++ t in
    if_split P (ltb from len)
      (λ more.
        if_split P
          ((byte_at text from == 92 && ltb (from + 1) len) && byte_at text (from + 1) == b'n')
          (λ newline.
            unescape_loop-unescaped fuel (set text to 10) len (from + 2) (to + 1)
              (length-set text to 10 ∙ h) (omega arith) (omega arith)
            ∙ round-unescaped text (from + 2) to 10 (ground arith) (omega arith)
            ∙ ap before (sym (drop-newline text from (ground arith) (ground arith) (ground arith))))
          (λ copied.
            let v = byte_at text from in
            unescape_loop-unescaped fuel (set text to v) len (from + 1) (to + 1)
              (length-set text to v ∙ h) (omega arith) (omega arith)
            ∙ round-unescaped text (from + 1) to v (ground arith) (omega arith)
            ∙ ap before (sym (drop-copy text from (ground arith) (ground arith)))))
      (λ over. drop-end text from to (ground arith))

-- Done in place, the replacement gives the text that a copy would hold.
unescape_newlines-unescaped :
    (text : List ℕ)
    → let done = unescape_newlines text (length text) in take done.1 done.0 ≡ unescaped text
unfolding unescape_newlines
unescape_newlines-unescaped text =
    unescape_loop-unescaped (length text) text (length text) 0 0 refl (omega arith) (omega arith)
