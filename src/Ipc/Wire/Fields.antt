-- ===== src/Ipc/Wire/Fields.antt =====
-- The little-endian fields of a payload, read back and written again.
use telegraph_stm_fw.Base.{
  length, ap, sym, ℕ, ◌+◌, ◌*◌, ◌/◌, ◌%◌, ◌^◌, ◌<◌, ◌≡◌, refl, ap₂, ◌∙◌, List, [], ◌∷◌, ◌++◌,
  byte_at, IsBytes, arith,
}
use native.Mathlib.Nat.{mod-mod}
use telegraph_stm_fw.Base.Bits.{bit_and_low, bit_or_low}
use telegraph_stm_fw.Ipc.Wire.{get_u16, get_u32, put_u16, put_u32}

pub get_u16-sum :
    (bytes : List ℕ)
    → byte_at bytes 0 < 256
    → byte_at bytes 1 < 256
    → get_u16 bytes ≡ byte_at bytes 0 + byte_at bytes 1 * 256
unfolding get_u16
get_u16-sum bytes p q = omega (arith, bit_or_low 8 (byte_at bytes 0) (byte_at bytes 1) p)

pub get_u32-sum :
    (bytes : List ℕ)
    → byte_at bytes 0 < 256
    → byte_at bytes 1 < 256
    → byte_at bytes 2 < 256
    → byte_at bytes 3 < 256
    → get_u32 bytes
      ≡ byte_at bytes 0
        + byte_at bytes 1 * 256
        + byte_at bytes 2 * 65536
        + byte_at bytes 3 * 16777216
unfolding get_u32
get_u32-sum bytes p q r s =
    let a = byte_at bytes 0 in
    let b = byte_at bytes 1 in
    let c = byte_at bytes 2 in
    let d = byte_at bytes 3 in
    let cut1 : b * 2 ^ 8 % 2 ^ 32 ≡ b * 2 ^ 8 = omega arith in
    let cut2 : c * 2 ^ 16 % 2 ^ 32 ≡ c * 2 ^ 16 = omega arith in
    let cut3 : d * 2 ^ 24 % 2 ^ 32 ≡ d * 2 ^ 24 = omega arith in
    rw
      (
        cut1,
        cut2,
        cut3,
        bit_or_low 8 a b p,
        bit_or_low 16 (a + b * 2 ^ 8) c (omega arith),
        bit_or_low 24 (a + b * 2 ^ 8 + c * 2 ^ 16) d (omega arith),
      )
      refl

pub put_u16-bytes : (value : ℕ) → value < 65536 → put_u16 value ≡ value % 256 ∷ value / 256 ∷ []
unfolding put_u16
put_u16-bytes value h = ap₂ (λ x y. x ∷ y ∷ []) (omega (arith, bit_and_low 8 value)) (omega arith)

-- What is put as a 16-bit field and read back, whatever bytes follow.
pub get_u16-put_u16 :
    (value : ℕ) (rest : List ℕ) → value < 65536 → get_u16 (put_u16 value ++ rest) ≡ value
get_u16-put_u16 value rest h =
    rw (put_u16-bytes value h)
      (get_u16-sum (value % 256 ∷ value / 256 ∷ rest) (omega arith) (omega arith) ∙ omega arith)

-- The two bytes of a field, read as a field.
pub get_u16-bytes :
    (value : ℕ) (rest : List ℕ) → value < 65536 → get_u16 (value % 256 ∷ value / 256 ∷ rest) ≡ value
get_u16-bytes value rest h =
    get_u16-sum (value % 256 ∷ value / 256 ∷ rest) (omega arith) (omega arith) ∙ omega arith

-- What is read from two bytes and put again.
pub put_u16-get_u16 :
    (a b : ℕ) (rest : List ℕ) → a < 256 → b < 256 → put_u16 (get_u16 (a ∷ b ∷ rest)) ≡ a ∷ b ∷ []
put_u16-get_u16 a b rest p q = rw (get_u16-sum (a ∷ b ∷ rest) p q) (
    put_u16-bytes (a + b * 256) (omega arith) ∙ ap₂ (λ x y. x ∷ y ∷ []) (omega arith) (omega arith))

pub put_u16-IsBytes : (value : ℕ) → IsBytes (put_u16 value)
unfolding put_u16
put_u16-IsBytes value = omega arith

pub get_u16-lt : (bytes : List ℕ) → get_u16 bytes < 65536
unfolding get_u16
get_u16-lt bytes = omega arith

pub put_u32-bytes :
    (value : ℕ)
    → put_u32 value
      ≡ value % 256 ∷ value / 256 % 256 ∷ value / 65536 % 256 ∷ value / 16777216 % 256 ∷ []
unfolding put_u32
put_u32-bytes value =
    rw
      (
        bit_and_low 8 value,
        bit_and_low 8 (value / 256),
        bit_and_low 8 (value / 65536),
        bit_and_low 8 (value / 16777216),
      )
      (simp mod-mod)

-- What is put as a 32-bit field and read back, whatever bytes follow.
pub get_u32-put_u32 :
    (value : ℕ) (rest : List ℕ) → value < 2 ^ 32 → get_u32 (put_u32 value ++ rest) ≡ value
get_u32-put_u32 value rest h = rw (put_u32-bytes value) (
    get_u32-sum
      (value % 256 ∷ value / 256 % 256 ∷ value / 65536 % 256 ∷ value / 16777216 % 256 ∷ rest)
      (omega arith) (omega arith) (omega arith) (omega arith)
    ∙ omega arith)

pub length-put_u16 : (n : ℕ) → length (put_u16 n) ≡ 2
unfolding put_u16
length-put_u16 n = refl

pub length-put_u32 : (n : ℕ) → length (put_u32 n) ≡ 4
unfolding put_u32
length-put_u32 n = refl

-- The four bytes of a field, read as a field.
pub get_u32-bytes :
    (value : ℕ) (rest : List ℕ)
    → value < 2 ^ 32
    → get_u32
        (value % 256 ∷ value / 256 % 256 ∷ value / 65536 % 256 ∷ value / 16777216 % 256 ∷ rest)
      ≡ value
get_u32-bytes value rest h =
    ap (λ (b : List ℕ). get_u32 (b ++ rest)) (sym (put_u32-bytes value))
    ∙ get_u32-put_u32 value rest h
