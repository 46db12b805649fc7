-- ===== src/Prelude/Bits/Field.antt =====
-- Fields of bits as quotients and remainders, and numbers from their bits.
use Prim.Native.Nat.{ℕ, zero, suc, ◌+◌, ◌-◌, ◌*◌, ◌/◌, ◌%◌, ◌^◌, ◌<◌}
use mathlib.Core.Path.{◌≡◌, refl, ap, subst}
use native.Mathlib.Omega.{arith}
use native.Mathlib.Nat.{
  pow-suc, pow-succ', one-le-pow, pow-le-pow_right, div-div-eq-div-mul, div-add-mod,
  add-mul-mod_self_left, mod-eq_of_lt, mod-lt,
}
use sampled_mgpu_sim.Prelude.Bits.{bit, bit_and, bit_or, bit_and-zero}
use sampled_mgpu_sim.Prelude.Bits.Digit.{bit_and-digit, bit_or-digit}

pub pow-lt-pow : (k w : ℕ) → k < w → 2 ^ k < 2 ^ w
pow-lt-pow k w h = omega (
  arith,
  pow-suc 2 k,
  one-le-pow k 2,
  pow-le-pow_right {n = 2} (omega arith) {i = suc k} {j = w} h,
)

-- The remainder by a power of two has the lowest digit of the number and the remainder of its half.
pub mod-double : (k a : ℕ) → a % 2 ^ suc k ≡ a / 2 % 2 ^ k * 2 + a % 2
mod-double k a =
    let r = a / 2 % 2 ^ k * 2 + a % 2 in
    let q = a / 2 / 2 ^ k in
    let whole : a ≡ r + 2 ^ suc k * q =
      omega (arith, div-add-mod (a / 2) (2 ^ k), ap (λ m. m * q) (pow-suc 2 k)) in
    let fits = mod-lt (a / 2) {m = 2 ^ k} (omega (arith, one-le-pow k 2)) in
    let small : r < 2 ^ suc k = omega (arith, pow-suc 2 k, fits) in
    rw (ap (λ n. n % 2 ^ suc k) whole, add-mul-mod_self_left r (2 ^ suc k) q) (mod-eq_of_lt small)

half-ones : (k : ℕ) → (2 ^ suc k - 1) / 2 ≡ 2 ^ k - 1
half-ones k = omega (arith, pow-suc 2 k, one-le-pow k 2)

-- A mask of `k` ones keeps the remainder by `2 ^ k`.
pub bit_and-ones : (k a : ℕ) → bit_and a (2 ^ k - 1) ≡ a % 2 ^ k
bit_and-ones zero a = omega (arith, bit_and-zero a a (omega arith))
bit_and-ones (suc k) a = omega (
  arith,
  bit_and-digit a (2 ^ suc k - 1),
  ap (bit_and (a / 2)) (half-ones k),
  bit_and-ones k (a / 2),
  pow-suc 2 k,
  one-le-pow k 2,
  mod-double k a,
)

one_mul : (n : ℕ) → n * 2 ^ 0 ≡ n
one_mul n = omega arith

div_one : (n : ℕ) → n / 2 ^ 0 ≡ n
div_one n = omega arith

double : (j q : ℕ) → q * 2 ^ suc j ≡ q * 2 ^ j * 2
double j q = omega (arith, ap (λ t. q * t) (pow-suc 2 j))

quotient-double : (j a : ℕ) → a / 2 / 2 ^ j ≡ a / 2 ^ suc j
quotient-double j a = rw (div-div-eq-div-mul a 2 (2 ^ j), pow-succ' 2 j) refl

half-shifted : (j m : ℕ) → m * 2 ^ suc j / 2 ≡ m * 2 ^ j
half-shifted j m = omega (arith, double j m)

-- A mask that stands `j` bits higher.
pub bit_and-shifted : (j m a : ℕ) → bit_and a (m * 2 ^ j) ≡ bit_and (a / 2 ^ j) m * 2 ^ j
bit_and-shifted zero m a =
    omega (arith, ap (bit_and a) (one_mul m), ap (λ q. bit_and q m) (div_one a))
bit_and-shifted (suc j) m a = omega (
  arith,
  bit_and-digit a (m * 2 ^ suc j),
  ap (bit_and (a / 2)) (half-shifted j m),
  bit_and-shifted j m (a / 2),
  double j (bit_and (a / 2 / 2 ^ j) m),
  double j m,
  ap (λ q. bit_and q m * 2 ^ suc j) (quotient-double j a),
)

bit_or-ones : (k a : ℕ) → a < 2 ^ k → bit_or a (2 ^ k - 1) ≡ 2 ^ k - 1
bit_or-ones zero a h = rw (zero_of h) refl
  where
    zero_of : a < 2 ^ 0 → a ≡ 0
    zero_of h = omega arith
bit_or-ones (suc k) a h = omega (
  arith,
  bit_or-digit a (2 ^ suc k - 1),
  ap (bit_or (a / 2)) (half-ones k),
  bit_or-ones k (a / 2) (omega (arith, pow-suc 2 k)),
  pow-suc 2 k,
  one-le-pow k 2,
)

-- A mask of `k` ones that stands `j` bits higher fills the bits above the remainder by `2 ^ j`.
pub bit_or-high_ones :
    (j k a : ℕ) → a < 2 ^ (j + k) → bit_or a ((2 ^ k - 1) * 2 ^ j) ≡ (2 ^ k - 1) * 2 ^ j + a % 2 ^ j
bit_or-high_ones zero k a h = omega (
  arith,
  ap (bit_or a) (one_mul (2 ^ k - 1)),
  bit_or-ones k a (subst (λ n. a < 2 ^ n) zero_add h),
)
  where
    zero_add : 0 + k ≡ k
    zero_add = omega arith
bit_or-high_ones (suc j) k a h =
    let half = subst (λ n. a < 2 ^ n) (suc_add j k) h in
    omega (
      arith,
      bit_or-digit a ((2 ^ k - 1) * 2 ^ suc j),
      ap (bit_or (a / 2)) (half-shifted j (2 ^ k - 1)),
      bit_or-high_ones j k (a / 2) (half-lt (j + k) half),
      double j (2 ^ k - 1),
      mod-double j a,
    )
  where
    suc_add : (j k : ℕ) → suc j + k ≡ suc (j + k)
    suc_add j k = omega arith

    half-lt : (n : ℕ) → a < 2 ^ suc n → a / 2 < 2 ^ n
    half-lt n p = omega (arith, pow-suc 2 n)

-- The top bit of a remainder.
pub mod-top : (k a : ℕ) → a % 2 ^ suc k ≡ a % 2 ^ k + a / 2 ^ k % 2 * 2 ^ k
mod-top zero a = omega arith
mod-top (suc k) a = omega (
  arith,
  mod-double (suc k) a,
  mod-top k (a / 2),
  mod-double k a,
  ap (λ q. q % 2 * 2 ^ suc k) (quotient-double k a),
  double k (a / 2 / 2 ^ k % 2),
)

pub bits-determine :
    (k a b : ℕ) → a < 2 ^ k → b < 2 ^ k → ((i : ℕ) → i < k → bit a i ≡ bit b i) → a ≡ b
bits-determine zero a b p q same = omega arith
bits-determine (suc k) a b p q same = omega (
  arith,
  same 0 (omega arith),
  bits-determine k (a / 2) (b / 2) (omega (arith, pow-suc 2 k)) (omega (arith, pow-suc 2 k))
      (λ i h. same (suc i) (omega arith)),
)
