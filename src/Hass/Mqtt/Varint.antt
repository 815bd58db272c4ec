-- ===== src/Hass/Mqtt/Varint.antt =====
-- The remaining length of a packet: what is written is read back.
use native.Mathlib.Nat.{add-mul, mul_assoc, pow-suc}
use telegraph_stm_fw.Base.{
  ℕ, zero, suc, ◌+◌, ◌-◌, ◌*◌, ◌/◌, ◌%◌, ◌^◌, ◌≤◌, ◌<◌, ◌≡◌, refl, ap, ◌∙◌, List, ◌∷◌, ◌++◌, some,
  true, false, length, ltb, if_split, ◌==◌, bit_and, bit_or, u8, arith, agree, agree-eq,
}
use telegraph_stm_fw.Base.Bits.{bit_and_low, bit_or_low, holds_below, holds_below-at}
use telegraph_stm_fw.Hass.Mqtt.{varint_loop, put_varint, get_loop, get_varint}

-- The top bit of a byte.
top_bits : holds_below (λ (b : ℕ). agree (bit_and b 0x80 == 0) (ltb b 128)) 256 ≡ true
unfolding holds_below
top_bits = refl

top_bit : (b : ℕ) → b < 256 → (bit_and b 0x80 == 0) ≡ ltb b 128
top_bit b h =
    agree-eq (bit_and b 0x80 == 0) (ltb b 128)
      (holds_below-at (λ (c : ℕ). agree (bit_and c 0x80 == 0) (ltb c 128)) 256 b top_bits h)

with_top : (b : ℕ) → b < 128 → bit_or b 0x80 ≡ b + 128
with_top b h = bit_or_low 7 b 1 h

-- A value in units of `mult` is its low digit and the rest in units of 128 times as much.
in_units : (value mult : ℕ) → value * mult ≡ value % 128 * mult + value / 128 * (mult * 128)
in_units value mult =
    let split : value ≡ value % 128 + value / 128 * 128 = omega arith in
    let scaled = ap (λ (v : ℕ). v * mult) split in
    let parts = add-mul (value % 128) (value / 128 * 128) mult in
    let moved = mul_assoc (value / 128) 128 mult in
    let turned : 128 * mult ≡ mult * 128 = omega arith in
    scaled
    ∙ parts
    ∙ ap (λ (t : ℕ). value % 128 * mult + t) (moved ∙ ap (λ (t : ℕ). value / 128 * t) turned)

-- What is left after a group that is not the last.
groups_left :
    (n value : ℕ) → value < 128 ^ suc n → 0 < value / 128 → (0 < n) × (value / 128 < 128 ^ n)
groups_left zero value h k = absurd (omega arith)
groups_left (suc n) value h k = (omega arith, omega (arith, pow-suc 128 (suc n)))

-- A byte of the loop that reads: one with its top bit goes on, one without it is the last.
get_loop-more :
    (n b : ℕ) (bytes : List ℕ) (i v mult : ℕ)
    → 128 ≤ b
    → b < 256
    → get_loop (suc n) (b ∷ bytes) i v mult
      ≡ get_loop n bytes (i + 1) (v + (b - 128) * mult) (mult * 128)
unfolding get_loop
get_loop-more n b bytes i v mult h k =
    let set_ : (bit_and b 0x80 == 0) ≡ false = top_bit b k ∙ ground arith in
    let low : bit_and b 0x7f ≡ b - 128 = bit_and_low 7 b ∙ omega arith in rw (set_, low)

get_loop-last :
    (n b : ℕ) (bytes : List ℕ) (i v mult : ℕ)
    → b < 128
    → get_loop (suc n) (b ∷ bytes) i v mult ≡ some (i + 1, v + b * mult)
unfolding get_loop
get_loop-last n b bytes i v mult h =
    let clear_ : (bit_and b 0x80 == 0) ≡ true = top_bit b (omega arith) ∙ ground arith in
    let low : bit_and b 0x7f ≡ b = bit_and_low 7 b ∙ omega arith in rw (clear_, low)

-- The loop that reads takes the groups of the loop that writes, `n` of them at most.
get_loop-varint_loop :
    (n fuel value : ℕ) (rest : List ℕ) (i v mult : ℕ)
    → 0 < n
    → value < 128 ^ n
    → value < fuel
    → get_loop n (varint_loop fuel value ++ rest) i v mult
      ≡ some (i + length (varint_loop fuel value), v + value * mult)
unfolding get_loop varint_loop
get_loop-varint_loop zero fuel value rest i v mult p h k = absurd (omega arith)
get_loop-varint_loop (suc n) zero value rest i v mult p h k = absurd (omega arith)
get_loop-varint_loop (suc n) (suc fuel) value rest i v mult p h k =
    let P = λ (t : List ℕ).
      get_loop (suc n) (t ++ rest) i v mult ≡ some (i + length t, v + value * mult) in
    let low : u8 (value % 128) ≡ value % 128 = omega arith in
    let units = in_units value mult in
    if_split P (ltb 0 (value / 128))
      (λ more.
        let byte : bit_or (u8 (value % 128)) 0x80 ≡ value % 128 + 128 =
          rw low (with_top (value % 128) (omega arith)) in
        let digit : value % 128 + 128 - 128 ≡ value % 128 = omega arith in
        let left = groups_left n value h (ground arith) in
        let tail = varint_loop fuel (value / 128) in
        let count : i + 1 + length tail ≡ i + suc (length tail) = omega arith in
        let total : v + value % 128 * mult + value / 128 * (mult * 128) ≡ v + value * mult =
          omega (arith, units) in
        rw byte (
          get_loop-more n (value % 128 + 128) (tail ++ rest) i v mult (omega arith) (omega arith)
          ∙ rw digit (
              get_loop-varint_loop n fuel (value / 128) rest (i + 1) (v + value % 128 * mult)
                (mult * 128) left.0 left.1 (ground arith)
              ∙ rw (count, total))))
      (λ last.
        let whole : value % 128 ≡ value = ground arith in
        rw (low, whole) (get_loop-last n value rest i v mult (ground arith)))

-- A length below 128 to the fourth is read back from its bytes, with their number.
pub get_varint-put_varint :
    (value : ℕ) (rest : List ℕ)
    → value < 128 ^ 4
    → get_varint (put_varint value ++ rest) ≡ some (length (put_varint value), value)
unfolding get_varint put_varint
get_varint-put_varint value rest h =
    let count : 0 + length (varint_loop (suc value) value)
        ≡ length (varint_loop (suc value) value) =
      omega arith in
    let one : 0 + value * 1 ≡ value = omega arith in
    get_loop-varint_loop 4 (suc value) value rest 0 0 1 (omega arith) h (omega arith)
    ∙ rw (count, one)
