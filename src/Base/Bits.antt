-- ===== src/Base/Bits.antt =====
-- `&` with a mask of low bits is the remainder by a power of two.
use Prim.Native.Nat.{
  ℕ, zero, suc, ◌+◌, ◌-◌, ◌*◌, ◌/◌, ◌%◌, ◌^◌, ◌≤◌, min, bit_and, digits, bit_and-bitwise,
}
use mathlib.Core.Path.{◌≡◌, refl}
use native.Mathlib.Nat.{pow-suc, one-le-pow}
use native.Mathlib.Omega.{arith}

abbrev low_digits : ℕ → ℕ → ℕ → ℕ
low_digits n a b = digits (λ _. zero) min n a b

-- The bound on the digit recursion does not matter once it covers the first operand.
low_digits_bound : (n m a b : ℕ) → a ≤ n → a ≤ m → low_digits n a b ≡ low_digits m a b
low_digits_bound zero zero a b p q = refl
low_digits_bound zero (suc m) zero b p q = refl
low_digits_bound zero (suc m) (suc a) b p q = absurd (omega arith)
low_digits_bound (suc n) zero zero b p q = refl
low_digits_bound (suc n) zero (suc a) b p q = absurd (omega arith)
low_digits_bound (suc n) (suc m) zero b p q = refl
low_digits_bound (suc n) (suc m) (suc a) b p q =
    omega (arith, low_digits_bound n m (suc a / 2) (b / 2) (omega arith) (omega arith))

zero-bit_and : (b : ℕ) → bit_and 0 b ≡ 0
zero-bit_and b = bit_and-bitwise 0 b

bit_and-halves : (a b : ℕ) → bit_and a b ≡ bit_and (a / 2) (b / 2) * 2 + min (a % 2) (b % 2)
bit_and-halves zero b = omega (arith, zero-bit_and b, zero-bit_and (b / 2))
bit_and-halves (suc a) b = omega (
  arith,
  bit_and-bitwise (suc a) b,
  bit_and-bitwise (suc a / 2) (b / 2),
  low_digits_bound a (suc a / 2) (suc a / 2) (b / 2) (omega arith) (omega arith),
)

bit_and-zero_below : (n a : ℕ) → a ≤ n → bit_and a 0 ≡ 0
bit_and-zero_below n zero h = refl
bit_and-zero_below zero (suc a) h = absurd (omega arith)
bit_and-zero_below (suc n) (suc a) h =
    omega (arith, bit_and-halves (suc a) 0, bit_and-zero_below n (suc a / 2) (omega arith))

-- The remainder by a doubled modulus, from the halves.
mod-double : (a m : ℕ) → 1 ≤ m → a % (2 * m) ≡ (a / 2) % m * 2 + a % 2
mod-double a m h = grind arith

pub bit_and-low_mask : (k a : ℕ) → bit_and a (2 ^ k - 1) ≡ a % 2 ^ k
bit_and-low_mask zero a = omega (arith, bit_and-zero_below a a (omega arith))
bit_and-low_mask (suc k) a = ground (
  arith,
  bit_and-halves a (2 ^ suc k - 1),
  pow-suc 2 k,
  one-le-pow k 2,
  mod-double a (2 ^ k),
  bit_and-low_mask k (a / 2),
)
