-- ===== src/Prelude/Bits/Digit.antt =====
-- The lowest binary digit of `&`, `|` and `^`.
use Prim.Native.Nat.{
  ℕ, zero, suc, ◌+◌, ◌*◌, ◌/◌, ◌%◌, ◌≤◌, min, max, bit_and, bit_or, bit_xor, digits, bitwise,
  differ, bit_and-bitwise, bit_or-bitwise, bit_xor-bitwise,
}
use mathlib.Core.Path.{◌≡◌, refl}
use native.Mathlib.Omega.{arith}

module _ (z : ℕ → ℕ) (f : ℕ → ℕ → ℕ) (z_digit : (b : ℕ) → z b ≡ z (b / 2) * 2 + f 0 (b % 2)) where
  -- Two amounts of fuel that both reach the first number give the same digits.
  digits-enough : (n m a b : ℕ) → a ≤ n → a ≤ m → digits z f n a b ≡ digits z f m a b
  digits-enough zero zero zero b p q = refl
  digits-enough (suc n) zero zero b p q = refl
  digits-enough zero (suc m) zero b p q = refl
  digits-enough (suc n) (suc m) zero b p q = refl
  digits-enough zero m (suc a) b p q = absurd (omega arith)
  digits-enough (suc n) zero (suc a) b p q = absurd (omega arith)
  digits-enough (suc n) (suc m) (suc a) b p q =
      rw (digits-enough n m (suc a / 2) (b / 2) (omega arith) (omega arith)) refl

  bitwise-digit : (a b : ℕ) → bitwise z f a b ≡ bitwise z f (a / 2) (b / 2) * 2 + f (a % 2) (b % 2)
  bitwise-digit zero b = z_digit b
  bitwise-digit (suc a) b =
      omega (arith, digits-enough a (suc a / 2) (suc a / 2) (b / 2) (omega arith) (omega arith))

pub bit_and-digit : (a b : ℕ) → bit_and a b ≡ bit_and (a / 2) (b / 2) * 2 + min (a % 2) (b % 2)
bit_and-digit a b =
    rw (bit_and-bitwise a b, bit_and-bitwise (a / 2) (b / 2))
      (bitwise-digit (λ b. 0) min (λ b. omega arith) a b)

pub bit_or-digit : (a b : ℕ) → bit_or a b ≡ bit_or (a / 2) (b / 2) * 2 + max (a % 2) (b % 2)
bit_or-digit a b =
    rw (bit_or-bitwise a b, bit_or-bitwise (a / 2) (b / 2))
      (bitwise-digit (λ b. b) max (λ b. omega arith) a b)

pub bit_xor-digit : (a b : ℕ) → bit_xor a b ≡ bit_xor (a / 2) (b / 2) * 2 + differ (a % 2) (b % 2)
bit_xor-digit a b =
    rw (bit_xor-bitwise a b, bit_xor-bitwise (a / 2) (b / 2))
      (bitwise-digit (λ b. b) differ (λ b. omega arith) a b)
