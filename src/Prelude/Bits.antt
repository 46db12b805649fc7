-- ===== src/Prelude/Bits.antt =====
-- The bits of a machine word: the native `&`, `|` and `^` read one bit at a time.
mod Digit
pub mod Field
pub use Prim.Native.Nat.{bit_and, bit_or, bit_xor}
use Prim.Native.Nat.{
  ℕ, zero, suc, ◌+◌, ◌-◌, ◌*◌, ◌/◌, ◌%◌, ◌^◌, ◌≤◌, ◌<◌, min, max, differ, bit_and-bitwise,
}
use mathlib.Core.Path.{◌≡◌, refl, ap, sym, subst, ◌∙◌}
use mathlib.Core.Logic.{◌≢◌}
use mathlib.Core.Bool.{true}
use native.Mathlib.Omega.{arith}
use native.Mathlib.Nat.{pow-suc, one-le-pow}
use sampled_mgpu_sim.Prelude.Tests.{◌==◌, if◌then◌else◌}
use Digit.{bit_and-digit, bit_or-digit, bit_xor-digit}

-- Bit `i` of `n`.
abbrev pub bit : ℕ → ℕ → ℕ
bit n zero = n % 2
bit n (suc i) = bit (n / 2) i

pub bit-lt : (n i : ℕ) → bit n i < 2
bit-lt n zero = omega arith
bit-lt n (suc i) = bit-lt (n / 2) i

pub bit-bit_and : (a b i : ℕ) → bit (bit_and a b) i ≡ min (bit a i) (bit b i)
bit-bit_and a b zero = ground (arith, bit_and-digit a b)
bit-bit_and a b (suc i) = rw (half, bit-bit_and (a / 2) (b / 2) i) refl
  where
    half : bit_and a b / 2 ≡ bit_and (a / 2) (b / 2)
    half = ground (arith, bit_and-digit a b)

pub bit-bit_or : (a b i : ℕ) → bit (bit_or a b) i ≡ max (bit a i) (bit b i)
bit-bit_or a b zero = ground (arith, bit_or-digit a b)
bit-bit_or a b (suc i) = rw (half, bit-bit_or (a / 2) (b / 2) i) refl
  where
    half : bit_or a b / 2 ≡ bit_or (a / 2) (b / 2)
    half = ground (arith, bit_or-digit a b)

differ-cases : (x y : ℕ) → x < 2 → y < 2 → differ x y ≡ (x + y) % 2
differ-cases zero y p q = omega arith
differ-cases (suc zero) zero p q = refl
differ-cases (suc zero) (suc zero) p q = refl
differ-cases (suc zero) (suc (suc y)) p q = absurd (omega arith)
differ-cases (suc (suc x)) y p q = absurd (omega arith)

pub bit-bit_xor : (a b i : ℕ) → bit (bit_xor a b) i ≡ differ (bit a i) (bit b i)
bit-bit_xor a b zero =
    ground (arith, bit_xor-digit a b, differ-cases (a % 2) (b % 2) (omega arith) (omega arith))
bit-bit_xor a b (suc i) = rw (half, bit-bit_xor (a / 2) (b / 2) i) refl
  where
    half : bit_xor a b / 2 ≡ bit_xor (a / 2) (b / 2)
    half =
        ground (arith, bit_xor-digit a b, differ-cases (a % 2) (b % 2) (omega arith) (omega arith))

pub zero-bit_and : (b : ℕ) → bit_and 0 b ≡ 0
zero-bit_and b = bit_and-bitwise 0 b

pub bit_and-zero : (n a : ℕ) → a ≤ n → bit_and a 0 ≡ 0
bit_and-zero n zero h = refl
bit_and-zero zero (suc a) h = absurd (omega arith)
bit_and-zero (suc n) (suc a) h =
    omega (arith, bit_and-digit (suc a) 0, bit_and-zero n (suc a / 2) (omega arith))

zero_of : {n : ℕ} → n < 1 → n ≡ 0
zero_of h = omega arith

half-pow : (i : ℕ) → 2 ^ suc i / 2 ≡ 2 ^ i
half-pow i = omega (arith, pow-suc 2 i)

-- Bounds.
pub bit_and-le_left : (n a b : ℕ) → a ≤ n → bit_and a b ≤ a
bit_and-le_left n zero b h = omega (arith, zero-bit_and b)
bit_and-le_left zero (suc a) b h = absurd (omega arith)
bit_and-le_left (suc n) (suc a) b h =
    omega (arith, bit_and-digit (suc a) b, bit_and-le_left n (suc a / 2) (b / 2) (omega arith))

pub bit_or-lt : (k a b : ℕ) → a < 2 ^ k → b < 2 ^ k → bit_or a b < 2 ^ k
bit_or-lt zero a b p q = rw (zero_of p, zero_of q) (omega arith)
bit_or-lt (suc k) a b p q = omega (
  arith,
  bit_or-digit a b,
  pow-suc 2 k,
  bit_or-lt k (a / 2) (b / 2) (omega (arith, pow-suc 2 k)) (omega (arith, pow-suc 2 k)),
)

pub bit_xor-lt : (k a b : ℕ) → a < 2 ^ k → b < 2 ^ k → bit_xor a b < 2 ^ k
bit_xor-lt zero a b p q = rw (zero_of p, zero_of q) (omega arith)
bit_xor-lt (suc k) a b p q = ground (
  arith,
  bit_xor-digit a b,
  pow-suc 2 k,
  differ-cases (a % 2) (b % 2) (omega arith) (omega arith),
  bit_xor-lt k (a / 2) (b / 2) (omega (arith, pow-suc 2 k)) (omega (arith, pow-suc 2 k)),
)

-- The bits of a power of two, of a word's complement, and of a lane mask.
pub bit-pow_self : (i : ℕ) → bit (2 ^ i) i ≡ 1
bit-pow_self zero = refl
bit-pow_self (suc i) = rw (half-pow i, bit-pow_self i) refl

pub bit-zero : (i : ℕ) → bit 0 i ≡ 0
bit-zero zero = refl
bit-zero (suc i) = bit-zero i

pub bit-pow_ne : (i j : ℕ) → i ≢ j → bit (2 ^ i) j ≡ 0
bit-pow_ne zero zero h = absurd (h refl)
bit-pow_ne zero (suc j) h = bit-zero j
bit-pow_ne (suc i) zero h = omega (arith, pow-suc 2 i)
bit-pow_ne (suc i) (suc j) h = rw (half-pow i, bit-pow_ne i j (λ e. h (omega arith))) refl

pub bit-high : (k n i : ℕ) → n < 2 ^ k → k ≤ i → bit n i ≡ 0
bit-high zero n i h l = rw (zero_of h) (bit-zero i)
bit-high (suc k) n zero h l = absurd (omega arith)
bit-high (suc k) n (suc i) h l = bit-high k (n / 2) i (omega (arith, pow-suc 2 k)) (omega arith)

pub bit_and-pow : (n i : ℕ) → bit_and n (2 ^ i) ≡ bit n i * 2 ^ i
bit_and-pow n zero = omega (arith, bit_and-digit n 1, bit_and-zero (n / 2) (n / 2) (omega arith))
bit_and-pow n (suc i) = omega (
  arith,
  bit_and-digit n (2 ^ suc i),
  ap (bit_and (n / 2)) (half-pow i),
  bit_and-pow (n / 2) i,
  pow-suc 2 i,
  ap (λ m. bit (n / 2) i * m) (pow-suc 2 i),
)

-- The complement within `k` bits turns each bit.
pub bit-complement : (k a i : ℕ) → a < 2 ^ k → i < k → bit (2 ^ k - 1 - a) i ≡ 1 - bit a i
bit-complement zero a i h l = absurd (omega arith)
bit-complement (suc k) a zero h l = omega (arith, pow-suc 2 k, one-le-pow k 2)
bit-complement (suc k) a (suc i) h l =
    rw half (bit-complement k (a / 2) i (omega (arith, pow-suc 2 k)) (omega arith))
  where
    half : (2 ^ suc k - 1 - a) / 2 ≡ 2 ^ k - 1 - a / 2
    half = omega (arith, pow-suc 2 k, one-le-pow k 2)

pub bit-bit_xor_sum : (a b i : ℕ) → bit (bit_xor a b) i ≡ (bit a i + bit b i) % 2
bit-bit_xor_sum a b i =
    rw (bit-bit_xor a b i) (differ-cases (bit a i) (bit b i) (bit-lt a i) (bit-lt b i))

half-bit_xor : (a b : ℕ) → bit_xor a b / 2 ≡ bit_xor (a / 2) (b / 2)
half-bit_xor a b =
    ground (arith, bit_xor-digit a b, differ-cases (a % 2) (b % 2) (omega arith) (omega arith))

-- A number that is xored twice.
bit_xor-twice_under : (n a b : ℕ) → a ≤ n → b ≤ n → bit_xor (bit_xor a b) b ≡ a
bit_xor-twice_under zero a b p q =
    subst (λ a. bit_xor (bit_xor a b) b ≡ a) (sym none_a)
      (subst (λ b. bit_xor (bit_xor 0 b) b ≡ 0) (sym none_b) refl)
  where
    none_a : a ≡ 0
    none_a = omega arith

    none_b : b ≡ 0
    none_b = omega arith
bit_xor-twice_under (suc n) a b p q = omega (
  arith,
  half-bit_xor (bit_xor a b) b
      ∙ ap (λ x. bit_xor x (b / 2)) (half-bit_xor a b)
      ∙ bit_xor-twice_under n (a / 2) (b / 2) (omega arith) (omega arith),
  bit-bit_xor_sum (bit_xor a b) b 0,
  bit-bit_xor_sum a b 0,
)

pub bit_xor-twice : (a b : ℕ) → bit_xor (bit_xor a b) b ≡ a
bit_xor-twice a b = bit_xor-twice_under (a + b) a b (omega arith) (omega arith)
