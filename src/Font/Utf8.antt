-- ===== src/Font/Utf8.antt =====
-- The decoder of UTF-8 against the encoding of a code point.
use telegraph_stm_fw.Base.{
  ℕ, ◌+◌, ◌*◌, ◌/◌, ◌%◌, ◌^◌, ◌≤◌, ◌<◌, ◌≡◌, refl, ap, ◌∙◌, List, [], ◌∷◌, ◌++◌, length, byte_at,
  leb→le, ==_iff, ltb→lt, agree, agree-eq, Bool, true, false, ◌&&◌, Bool-cases, inl, inr, bit_and,
  bit_or, ◌==◌, ltb, leb, if◌then◌else◌, both, arith,
}
use telegraph_stm_fw.Base.Bits.{bit_and_low, bit_or_low, holds_below, holds_below-at}
use telegraph_stm_fw.Font.{utf8, more}

-- The bytes of a code point of at most 16 bits, by the ranges of UTF-8.
pub encode_utf8 : ℕ → List ℕ
encode_utf8 cp =
    if ltb cp 0x80
    then cp ∷ []
    else if ltb cp 0x800
    then (0xc0 + cp / 64) ∷ (0x80 + cp % 64) ∷ []
    else (0xe0 + cp / 4096) ∷ (0x80 + cp / 64 % 64) ∷ (0x80 + cp % 64) ∷ []

-- The decoder takes at least one byte of a text and never one past its end.
pub utf8-InText :
    (b : ℕ) (s : List ℕ) → (1 ≤ (utf8 (b ∷ s)).0) × ((utf8 (b ∷ s)).0 ≤ length (b ∷ s))
unfolding utf8
utf8-InText b s =
    let p1 = byte_at (b ∷ s) 1 in
    let p2 = byte_at (b ∷ s) 2 in
    let len = length (b ∷ s) in
    elim (Bool-cases (bit_and b 0x80 == 0)) [
      | inl e ↦ rw e (omega arith, omega arith)
      | inr e ↦ elim (Bool-cases (bit_and b 0xe0 == 0xc0 && (leb 2 len && more p1))) [
        | inl f ↦
            let enough : 2 ≤ len =
              leb→le 2 len
                (both (leb 2 len) (more p1)
                  (both (bit_and b 0xe0 == 0xc0) (leb 2 len && more p1) f).1).0 in
            rw (e, f) (omega arith, enough)
        | inr f ↦
            elim (Bool-cases (bit_and b 0xf0 == 0xe0 && (leb 3 len && (more p1 && more p2)))) [
              | inl g ↦
                  let enough : 3 ≤ len =
                    leb→le 3 len
                      (both (leb 3 len) (more p1 && more p2)
                        (both (bit_and b 0xf0 == 0xe0) (leb 3 len && (more p1 && more p2))
                          g).1).0 in
                  rw (e, f, g) (omega arith, enough)
              | inr g ↦ rw (e, f, g) (omega arith, omega arith)
            ]
      ]
    ]

-- The marks of the bytes, by evaluation of every byte.
abbrev marks : ℕ → Bool
marks b =
    (agree (bit_and b 0x80 == 0) (ltb b 0x80)
      && agree (bit_and b 0xe0 == 0xc0) (leb 0xc0 b && ltb b 0xe0))
    && (agree (bit_and b 0xf0 == 0xe0) (leb 0xe0 b && ltb b 0xf0)
        && agree (more b) (leb 0x80 b && ltb b 0xc0))

all_marks : holds_below marks 256 ≡ true
unfolding holds_below
all_marks = refl

record Marks (b : ℕ) : Type 0 where
  one : (bit_and b 0x80 == 0) ≡ ltb b 0x80
  two : (bit_and b 0xe0 == 0xc0) ≡ (leb 0xc0 b && ltb b 0xe0)
  three : (bit_and b 0xf0 == 0xe0) ≡ (leb 0xe0 b && ltb b 0xf0)
  inner : more b ≡ (leb 0x80 b && ltb b 0xc0)

byte-Marks : (b : ℕ) → b < 256 → Marks b
byte-Marks b small =
    let one = agree (bit_and b 0x80 == 0) (ltb b 0x80) in
    let two = agree (bit_and b 0xe0 == 0xc0) (leb 0xc0 b && ltb b 0xe0) in
    let three = agree (bit_and b 0xf0 == 0xe0) (leb 0xe0 b && ltb b 0xf0) in
    let inner = agree (more b) (leb 0x80 b && ltb b 0xc0) in
    let all = both (one && two) (three && inner) (holds_below-at marks 256 b all_marks small) in
    let first = both one two all.0 in
    let last = both three inner all.1 in
    record {
      one = agree-eq (bit_and b 0x80 == 0) (ltb b 0x80) first.0;
      two = agree-eq (bit_and b 0xe0 == 0xc0) (leb 0xc0 b && ltb b 0xe0) first.1;
      three = agree-eq (bit_and b 0xf0 == 0xe0) (leb 0xe0 b && ltb b 0xf0) last.0;
      inner = agree-eq (more b) (leb 0x80 b && ltb b 0xc0) last.1;
    }

abbrev middle_code : ℕ → Bool
middle_code n = bit_or (n % 64 * 64) (n / 64 * 4096) == (n % 64 + n / 64 * 64) * 64

middle_codes : holds_below middle_code 1024 ≡ true
unfolding holds_below
middle_codes = refl

middle_field : (a b : ℕ) → a < 16 → b < 64 → bit_or (b * 64) (a * 4096) ≡ (b + a * 64) * 64
middle_field a b p q =
    let code = a * 64 + b in
    let low : code % 64 ≡ b = omega arith in
    let high : code / 64 ≡ a = omega arith in
    let shown = holds_below-at middle_code 1024 code middle_codes (omega arith) in
    (==_iff (bit_or (b * 64) (a * 4096)) ((b + a * 64) * 64)).0 (rw (low, high) at shown)

utf8-one : (b : ℕ) (rest : List ℕ) → b < 0x80 → utf8 (b ∷ rest) ≡ (1, b)
unfolding utf8
utf8-one b rest small =
    let one : (bit_and b 0x80 == 0) ≡ true = (byte-Marks b (omega arith)).one ∙ ground arith in
    rw one refl

utf8-two :
    (a b : ℕ) (rest : List ℕ)
    → 2 ≤ a
    → a < 32
    → b < 64
    → utf8 ((0xc0 + a) ∷ (0x80 + b) ∷ rest) ≡ (2, b + a * 64)
unfolding utf8
utf8-two a b rest low p q =
    let h = byte-Marks (0xc0 + a) (omega arith) in
    let k = byte-Marks (0x80 + b) (omega arith) in
    let one : (bit_and (0xc0 + a) 0x80 == 0) ≡ false = h.one ∙ ground arith in
    let two : (bit_and (0xc0 + a) 0xe0 == 0xc0) ≡ true = h.two ∙ ground arith in
    let mark : more (0x80 + b) ≡ true = k.inner ∙ ground arith in
    let enough : leb 2 (length ((0xc0 + a) ∷ (0x80 + b) ∷ rest)) ≡ true = ground arith in
    let high : bit_and (0xc0 + a) 0x1f ≡ a = bit_and_low 5 (0xc0 + a) ∙ omega arith in
    let bits : bit_and (0x80 + b) 0x3f ≡ b = bit_and_low 6 (0x80 + b) ∙ omega arith in
    rw (one, two, mark, enough, high, bits)
      (ap (λ (n : ℕ). (2, n)) (bit_or_low 6 b a (omega arith)))

utf8-three :
    (a b c : ℕ) (rest : List ℕ)
    → a < 16
    → b < 64
    → c < 64
    → utf8 ((0xe0 + a) ∷ (0x80 + b) ∷ (0x80 + c) ∷ rest) ≡ (3, c + (b + a * 64) * 64)
unfolding utf8
utf8-three a b c rest p q r =
    let h = byte-Marks (0xe0 + a) (omega arith) in
    let k = byte-Marks (0x80 + b) (omega arith) in
    let l = byte-Marks (0x80 + c) (omega arith) in
    let one : (bit_and (0xe0 + a) 0x80 == 0) ≡ false = h.one ∙ ground arith in
    let two : (bit_and (0xe0 + a) 0xe0 == 0xc0) ≡ false = h.two ∙ ground arith in
    let three : (bit_and (0xe0 + a) 0xf0 == 0xe0) ≡ true = h.three ∙ ground arith in
    let mark : more (0x80 + b) ≡ true = k.inner ∙ ground arith in
    let last : more (0x80 + c) ≡ true = l.inner ∙ ground arith in
    let enough : leb 3 (length ((0xe0 + a) ∷ (0x80 + b) ∷ (0x80 + c) ∷ rest)) ≡ true =
      ground arith in
    let high : bit_and (0xe0 + a) 0x0f ≡ a = bit_and_low 4 (0xe0 + a) ∙ omega arith in
    let mid : bit_and (0x80 + b) 0x3f ≡ b = bit_and_low 6 (0x80 + b) ∙ omega arith in
    let bits : bit_and (0x80 + c) 0x3f ≡ c = bit_and_low 6 (0x80 + c) ∙ omega arith in
    let upper : bit_or (b * 64) (a * 4096) ≡ (b + a * 64) * 64 = middle_field a b p q in
    rw (one, two, three, mark, last, enough, high, mid, bits, upper)
      (ap (λ (n : ℕ). (3, n)) (bit_or_low 6 c (b + a * 64) (omega arith)))

-- Every code point of at most 16 bits, encoded, is decoded to itself, whatever follows it.
pub utf8-encode_utf8 :
    (cp : ℕ) (rest : List ℕ)
    → cp < 2 ^ 16
    → utf8 (encode_utf8 cp ++ rest) ≡ (length (encode_utf8 cp), cp)
unfolding encode_utf8
utf8-encode_utf8 cp rest small = elim (Bool-cases (ltb cp 0x80)) [
  | inl e ↦ rw e (utf8-one cp rest (ltb→lt cp 0x80 e))
  | inr e ↦ elim (Bool-cases (ltb cp 0x800)) [
    | inl f ↦
        rw (e, f)
          (utf8-two (cp / 64) (cp % 64) rest (ground arith) (ground arith) (omega arith)
            ∙ ap (λ (n : ℕ). (2, n)) (omega arith))
    | inr f ↦
        rw (e, f)
          (utf8-three (cp / 4096) (cp / 64 % 64) (cp % 64) rest (omega arith) (omega arith)
              (omega arith)
            ∙ ap (λ (n : ℕ). (3, n)) (omega arith))
  ]
]

pub length-encode_utf8 : (cp : ℕ) → 1 ≤ length (encode_utf8 cp)
unfolding encode_utf8
length-encode_utf8 cp = elim (Bool-cases (ltb cp 0x80)) [
  | inl e ↦ rw e (omega arith)
  | inr e ↦ elim (Bool-cases (ltb cp 0x800)) [
    | inl f ↦ rw (e, f) (omega arith)
    | inr f ↦ rw (e, f) (omega arith)
  ]
]
