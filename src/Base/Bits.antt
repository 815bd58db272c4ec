-- ===== src/Base/Bits.antt =====
-- The bit operations at variables: one equation for the lowest digit, from it the disjoint
-- fields of a word as sums, and a check of every value below a bound by evaluation.
use Prim.Native.Nat.{ℕ, zero, suc, ◌+◌, ◌-◌, ◌*◌, ◌/◌, ◌%◌, ◌^◌, ◌≤◌, ◌<◌, min, max}
use Prim.Native.Nat.{bit_and, bit_or, bit_xor, differ, digits, bitwise}
use Prim.Native.Nat.{bit_and-bitwise, bit_or-bitwise, bit_xor-bitwise}
use mathlib.Core.Path.{◌≡◌, refl, sym, ap, ◌∙◌}
use mathlib.Core.Bool.{Bool, true, ◌&&◌}
use native.Mathlib.Nat.{pow-suc, add-zero, mod-lt, div-add-mod'}
use native.Mathlib.Omega.{arith}

-- One digit of the native operations. They recurse on a fuel, and any fuel that covers the first
-- number gives the same digits.
module _ (skip : ℕ → ℕ) (op : ℕ → ℕ → ℕ) where
  same_digits : (x y j k : ℕ) → x ≤ k → x ≤ j → digits skip op k x y ≡ digits skip op j x y
  same_digits (suc x) y (suc j) (suc k) hk hj =
      rw (same_digits (suc x / 2) (y / 2) j k (omega arith) (omega arith))
  same_digits (suc x) y zero k hk hj = absurd (omega arith)
  same_digits (suc x) y j zero hk hj = absurd (omega arith)
  same_digits zero y (suc j) (suc k) hk hj = refl
  same_digits zero y zero (suc k) hk hj = refl
  same_digits zero y (suc j) zero hk hj = refl
  same_digits zero y zero zero hk hj = refl

  unroll :
      (x y : ℕ)
      → bitwise skip op (suc x) y ≡ bitwise skip op (suc x / 2) (y / 2) * 2 + op (suc x % 2) (y % 2)
  unroll x y = rw (same_digits (suc x / 2) (y / 2) (suc x / 2) x (omega arith) (omega arith))

double-pow : (q k : ℕ) → q * 2 ^ suc k ≡ 2 * (q * 2 ^ k)
double-pow q k = omega (arith, ap (λ (t : ℕ). q * t) (pow-suc 2 k))

pub bit_xor_step : (x y : ℕ) → bit_xor x y ≡ bit_xor (x / 2) (y / 2) * 2 + differ (x % 2) (y % 2)
bit_xor_step (suc x) y = simp bit_xor-bitwise (unroll (λ t. t) differ x y)
bit_xor_step zero y = simp bit_xor-bitwise (halves y)
  where
    halves : (n : ℕ) → n ≡ n / 2 * 2 + n % 2
    halves n = omega arith

pub bit_and_step : (x y : ℕ) → bit_and x y ≡ bit_and (x / 2) (y / 2) * 2 + min (x % 2) (y % 2)
bit_and_step (suc x) y = simp bit_and-bitwise (unroll (λ t. 0) min x y)
bit_and_step zero y = simp bit_and-bitwise (omega arith)

pub bit_or_step : (x y : ℕ) → bit_or x y ≡ bit_or (x / 2) (y / 2) * 2 + max (x % 2) (y % 2)
bit_or_step (suc x) y = simp bit_or-bitwise (unroll (λ t. t) max x y)
bit_or_step zero y = simp bit_or-bitwise (omega arith)

bit_or_small-zero : (n b : ℕ) → b ≤ n → bit_or b 0 ≡ b
bit_or_small-zero n zero h = refl
bit_or_small-zero zero (suc b) h = absurd (omega arith)
bit_or_small-zero (suc n) (suc b) h =
    omega (arith, bit_or_step (suc b) 0, bit_or_small-zero n (suc b / 2) (omega arith))

-- `lo | (hi << k)` is a sum when `lo` fits `k` bits.
pub bit_or_low : (k lo hi : ℕ) → lo < 2 ^ k → bit_or lo (hi * 2 ^ k) ≡ lo + hi * 2 ^ k
bit_or_low zero zero hi h = simp bit_or-bitwise (omega arith)
bit_or_low zero (suc lo) hi h = absurd (omega arith)
bit_or_low (suc k) lo hi h = ground (
  arith,
  bit_or_step lo (hi * 2 ^ suc k),
  double-pow hi k,
  pow-suc 2 k,
  bit_or_low k (lo / 2) hi (omega (arith, pow-suc 2 k)),
)

differ-lt_two : (x y : ℕ) → x < 2 → y < 2 → differ x y < 2
differ-lt_two zero y p q = q
differ-lt_two (suc zero) zero p q = omega arith
differ-lt_two (suc zero) (suc y) p q = omega arith
differ-lt_two (suc (suc x)) y p q = absurd (omega arith)

differ-zero : (x : ℕ) → differ x 0 ≡ x
differ-zero zero = refl
differ-zero (suc x) = refl

-- Three binary digits, the last two exchanged.
differ_swap : (x y z : ℕ) → x < 2 → y < 2 → z < 2 → differ (differ x y) z ≡ differ (differ x z) y
differ_swap zero zero zero p q r = refl
differ_swap zero zero (suc zero) p q r = refl
differ_swap zero (suc zero) zero p q r = refl
differ_swap zero (suc zero) (suc zero) p q r = refl
differ_swap (suc zero) zero zero p q r = refl
differ_swap (suc zero) zero (suc zero) p q r = refl
differ_swap (suc zero) (suc zero) zero p q r = refl
differ_swap (suc zero) (suc zero) (suc zero) p q r = refl
differ_swap (suc (suc x)) y z p q r = absurd (omega arith)
differ_swap x (suc (suc y)) z p q r = absurd (omega arith)
differ_swap x y (suc (suc z)) p q r = absurd (omega arith)

pub bit_xor-half : (a b : ℕ) → bit_xor a b / 2 ≡ bit_xor (a / 2) (b / 2)
bit_xor-half a b =
    omega (arith, bit_xor_step a b, differ-lt_two (a % 2) (b % 2) (omega arith) (omega arith))

pub bit_xor-digit : (a b : ℕ) → bit_xor a b % 2 ≡ differ (a % 2) (b % 2)
bit_xor-digit a b =
    omega (arith, bit_xor_step a b, differ-lt_two (a % 2) (b % 2) (omega arith) (omega arith))

xor_swap_fuel :
    (n a b c : ℕ) → a ≤ n → b ≤ n → c ≤ n → bit_xor (bit_xor a b) c ≡ bit_xor (bit_xor a c) b
xor_swap_fuel zero zero zero zero p q r = refl
xor_swap_fuel zero (suc a) b c p q r = absurd (omega arith)
xor_swap_fuel zero a (suc b) c p q r = absurd (omega arith)
xor_swap_fuel zero a b (suc c) p q r = absurd (omega arith)
xor_swap_fuel (suc n) a b c p q r =
    let rec = xor_swap_fuel n (a / 2) (b / 2) (c / 2) (omega arith) (omega arith) (omega arith) in
    let low = differ_swap (a % 2) (b % 2) (c % 2) (omega arith) (omega arith) (omega arith) in
    bit_xor_step (bit_xor a b) c
    ∙ rw (bit_xor-half a b, bit_xor-digit a b, rec, low)
        (rw (← bit_xor-half a c, ← bit_xor-digit a c) (sym (bit_xor_step (bit_xor a c) b)))

-- The last two of three operands exchanged.
pub xor_swap : (a b c : ℕ) → bit_xor (bit_xor a b) c ≡ bit_xor (bit_xor a c) b
xor_swap a b c = xor_swap_fuel (a + b + c) a b c (omega arith) (omega arith) (omega arith)

pub one-le-two_pow : (k : ℕ) → 1 ≤ 2 ^ k
one-le-two_pow zero = omega arith
one-le-two_pow (suc k) = omega (arith, pow-suc 2 k, one-le-two_pow k)

times_pow_zero : (x : ℕ) → x * 2 ^ 0 ≡ x
times_pow_zero x = omega arith

-- Two words with a common boundary between their fields.
pub xor_fields :
    (k a b r s : ℕ)
    → r < 2 ^ k
    → s < 2 ^ k
    → bit_xor (a * 2 ^ k + r) (b * 2 ^ k + s) ≡ bit_xor a b * 2 ^ k + bit_xor r s
xor_fields zero a b zero zero p q =
    rw
      (
        add-zero (a * 2 ^ 0),
        add-zero (b * 2 ^ 0),
        times_pow_zero a,
        times_pow_zero b,
        times_pow_zero (bit_xor a b),
      )
      (omega arith)
xor_fields zero a b (suc r) s p q = absurd (omega arith)
xor_fields zero a b r (suc s) p q = absurd (omega arith)
xor_fields (suc k) a b r s p q = ground (
  arith,
  bit_xor_step (a * 2 ^ suc k + r) (b * 2 ^ suc k + s),
  bit_xor_step r s,
  double-pow a k,
  double-pow b k,
  double-pow (bit_xor a b) k,
  pow-suc 2 k,
  xor_fields k a b (r / 2) (s / 2),
)

bit_xor_small-zero : (n a : ℕ) → a ≤ n → bit_xor a 0 ≡ a
bit_xor_small-zero n zero h = refl
bit_xor_small-zero zero (suc a) h = absurd (omega arith)
bit_xor_small-zero (suc n) (suc a) h = ground (
  arith,
  bit_xor_step (suc a) 0,
  differ-zero (suc a % 2),
  bit_xor_small-zero n (suc a / 2) (omega arith),
)

pub bit_xor-zero : (a : ℕ) → bit_xor a 0 ≡ a
bit_xor-zero a = bit_xor_small-zero a a (omega arith)

pub zero-bit_xor : (a : ℕ) → bit_xor 0 a ≡ a
zero-bit_xor a = simp bit_xor-bitwise refl

pub bit_xor-lt_pow : (k a b : ℕ) → a < 2 ^ k → b < 2 ^ k → bit_xor a b < 2 ^ k
bit_xor-lt_pow zero zero zero p q = omega arith
bit_xor-lt_pow zero (suc a) b p q = absurd (omega arith)
bit_xor-lt_pow zero a (suc b) p q = absurd (omega arith)
bit_xor-lt_pow (suc k) a b p q =
    ground (arith, bit_xor-half a b, pow-suc 2 k, bit_xor-lt_pow k (a / 2) (b / 2))

-- The second word holds the low field, or the high field, alone.
pub xor_low_field :
    (k a r s : ℕ) → r < 2 ^ k → s < 2 ^ k → bit_xor (a * 2 ^ k + r) s ≡ a * 2 ^ k + bit_xor r s
xor_low_field k a r s p q =
    let e = xor_fields k a 0 r s p q in
    let z : 0 * 2 ^ k + s ≡ s = omega arith in rw (z, bit_xor-zero a) at e

pub xor_high_field :
    (k a b r : ℕ) → r < 2 ^ k → bit_xor (a * 2 ^ k + r) (b * 2 ^ k) ≡ bit_xor a b * 2 ^ k + r
xor_high_field k a b r p =
    let e = xor_fields k a b r 0 p (one-le-two_pow k) in
    rw (add-zero (b * 2 ^ k), bit_xor-zero r) at e

bit_and_small-zero : (n a : ℕ) → a ≤ n → bit_and a 0 ≡ 0
bit_and_small-zero n zero h = refl
bit_and_small-zero zero (suc a) h = absurd (omega arith)
bit_and_small-zero (suc n) (suc a) h =
    omega (arith, bit_and_step (suc a) 0, bit_and_small-zero n (suc a / 2) (omega arith))

and_fields : (k q r : ℕ) → r < 2 ^ k → bit_and (q * 2 ^ k + r) (2 ^ k - 1) ≡ r
and_fields zero q zero h = bit_and_small-zero (q * 1 + 0) (q * 1 + 0) (omega arith)
and_fields zero q (suc r) h = absurd (omega arith)
and_fields (suc k) q r h = ground (
  arith,
  bit_and_step (q * 2 ^ suc k + r) (2 ^ suc k - 1),
  double-pow q k,
  pow-suc 2 k,
  one-le-two_pow k,
  and_fields k q (r / 2),
)

-- A mask of the low bits is a remainder.
pub bit_and_low : (k a : ℕ) → bit_and a (2 ^ k - 1) ≡ a % 2 ^ k
bit_and_low k a =
    let e = and_fields k (a / 2 ^ k) (a % 2 ^ k) (mod-lt a (one-le-two_pow k)) in
    rw (div-add-mod' a (2 ^ k)) at e

-- The test holds of every value below a bound, as evaluation finds.
unfoldable pub holds_below : (ℕ → Bool) → ℕ → Bool
holds_below test zero = true
holds_below test (suc bound) = holds_below test bound && test bound

pub holds_below-at :
    (test : ℕ → Bool) (bound v : ℕ) → holds_below test bound ≡ true → v < bound → test v ≡ true
unfolding holds_below
holds_below-at test (suc bound) v all lt = ground (arith, holds_below-at test bound v)
holds_below-at test zero v all lt = absurd (omega arith)
