-- ===== src/Base/Bits.antt =====
-- `&` and `|` at variables: one equation for the lowest digit, and what follows for masks and
-- for fields that do not overlap.
use Prim.Native.Nat.{
  ℕ, zero, suc, ◌+◌, ◌-◌, ◌*◌, ◌/◌, ◌%◌, ◌^◌, ◌≤◌, ◌<◌, min, max, digits, bitwise, bit_and, bit_or,
  bit_and-bitwise, bit_or-bitwise,
}
use mathlib.Core.Path.{◌≡◌, refl, ap}
use native.Mathlib.Nat.{pow-suc, one-le-pow}
use native.Mathlib.Omega.{arith}

-- The fuel of the digit recursion does not matter once it covers the first number.
module _ (low : ℕ → ℕ) (digit : ℕ → ℕ → ℕ) where
  digits_enough : (a n m b : ℕ) → a ≤ n → a ≤ m → digits low digit n a b ≡ digits low digit m a b
  digits_enough a zero zero b p q = refl
  digits_enough zero zero (suc m) b p q = refl
  digits_enough zero (suc n) zero b p q = refl
  digits_enough zero (suc n) (suc m) b p q = refl
  digits_enough (suc a) zero (suc m) b p q = absurd (omega arith)
  digits_enough (suc a) (suc n) zero b p q = absurd (omega arith)
  digits_enough (suc a) (suc n) (suc m) b p q =
      rw (digits_enough (suc a / 2) n m (b / 2) (omega arith) (omega arith))

  bitwise_digit :
      (a b : ℕ)
      → bitwise low digit (suc a) b
        ≡ bitwise low digit (suc a / 2) (b / 2) * 2 + digit (suc a % 2) (b % 2)
  bitwise_digit a b =
      omega (arith, digits_enough (suc a / 2) a (suc a / 2) (b / 2) (omega arith) (omega arith))

pub bit_or_digit : (a b : ℕ) → bit_or a b ≡ bit_or (a / 2) (b / 2) * 2 + max (a % 2) (b % 2)
bit_or_digit zero b = simp bit_or-bitwise (omega arith)
bit_or_digit (suc a) b = simp bit_or-bitwise (bitwise_digit (λ y. y) max a b)

pub bit_and_digit : (a b : ℕ) → bit_and a b ≡ bit_and (a / 2) (b / 2) * 2 + min (a % 2) (b % 2)
bit_and_digit zero b = simp bit_and-bitwise (omega arith)
bit_and_digit (suc a) b = simp bit_and-bitwise (bitwise_digit (λ y. 0) min a b)

mul_pow_suc : (q k : ℕ) → q * 2 ^ suc k ≡ 2 * (q * 2 ^ k)
mul_pow_suc q k = omega (arith, ap (λ (t : ℕ). q * t) (pow-suc 2 k))

bit_and_low : (n a : ℕ) → a ≤ n → bit_and a 0 ≡ 0
bit_and_low n zero h = refl
bit_and_low zero (suc a) h = absurd (omega arith)
bit_and_low (suc n) (suc a) h =
    omega (arith, bit_and_digit (suc a) 0, bit_and_low n (suc a / 2) (omega arith))

bit_or_low : (n a : ℕ) → a ≤ n → bit_or a 0 ≡ a
bit_or_low n zero h = refl
bit_or_low zero (suc a) h = absurd (omega arith)
bit_or_low (suc n) (suc a) h =
    omega (arith, bit_or_digit (suc a) 0, bit_or_low n (suc a / 2) (omega arith))

pub bit_and-zero : (a : ℕ) → bit_and a 0 ≡ 0
bit_and-zero a = bit_and_low a a (omega arith)

pub bit_or-zero : (a : ℕ) → bit_or a 0 ≡ a
bit_or-zero a = bit_or_low a a (omega arith)

-- A mask above `k` bits reads the part above `k` bits.
pub bit_and_above :
    (k a m r : ℕ) → r < 2 ^ k → bit_and (a * 2 ^ k + r) (m * 2 ^ k) ≡ bit_and a m * 2 ^ k
bit_and_above zero a m r h = ground (arith)
bit_and_above (suc k) a m r h = ground (
  arith,
  bit_and_digit (a * 2 ^ suc k + r) (m * 2 ^ suc k),
  mul_pow_suc a k,
  mul_pow_suc m k,
  mul_pow_suc (bit_and a m) k,
  pow-suc 2 k,
  bit_and_above k a m (r / 2) (omega arith),
)

bit_and_ones : (k q r : ℕ) → r < 2 ^ k → bit_and (q * 2 ^ k + r) (2 ^ k - 1) ≡ r
bit_and_ones zero q r h = rw bit_and-zero (omega arith)
bit_and_ones (suc k) q r h = ground (
  arith,
  bit_and_digit (q * 2 ^ suc k + r) (2 ^ suc k - 1),
  mul_pow_suc q k,
  pow-suc 2 k,
  one-le-pow k 2,
  bit_and_ones k q (r / 2) (omega arith),
)

-- A mask of `k` ones takes the lowest `k` bits.
pub bit_and_below : (k a : ℕ) → bit_and a (2 ^ k - 1) ≡ a % 2 ^ k
bit_and_below k a = ground (arith, one-le-pow k 2, bit_and_ones k (a / 2 ^ k) (a % 2 ^ k))

-- `|` of fields that do not overlap is their sum.
pub bit_or_fields : (k q r : ℕ) → r < 2 ^ k → bit_or (q * 2 ^ k) r ≡ q * 2 ^ k + r
bit_or_fields zero q r h = ground (arith, bit_or-zero q)
bit_or_fields (suc k) q r h = ground (
  arith,
  bit_or_digit (q * 2 ^ suc k) r,
  mul_pow_suc q k,
  pow-suc 2 k,
  bit_or_fields k q (r / 2) (omega arith),
)
