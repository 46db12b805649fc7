-- ===== src/Bitops/Field.antt =====
-- Fields of bits as quotients and remainders (bitops/ops.go).
use sampled_mgpu_sim.Prelude.{
  ℕ, zero, suc, ◌+◌, ◌-◌, ◌*◌, ◌/◌, ◌%◌, ◌^◌, ◌≤◌, ◌<◌, ◌≡◌, ◌∙◌, ap, inl, inr, arith, ltb,
  Bool-cases, ltb→lt, ltb-false,
}
use native.Mathlib.Nat.{
  pow-suc, one-le-pow, mod-eq_of_lt, add-mod_right, mod_self, mul-div_cancel, pow-le-pow_right,
}
use sampled_mgpu_sim.Prelude.Bits.{bit_and}
use sampled_mgpu_sim.Prelude.Bits.Field.{bit_and-ones, bit_and-shifted}
use sampled_mgpu_sim.Prelude.Words.{shift_left, shift_right, sub_word}
use sampled_mgpu_sim.Bitops.{field_mask, extract_bits_from_u32, extract_bits_from_u64}

pub pow-pos : (k : ℕ) → 0 < 2 ^ k
pow-pos k = omega (arith, one-le-pow k 2)

mod_wrap : (x m : ℕ) → x < m → (x + m) % m ≡ x
mod_wrap x m h = rw (add-mod_right x m) (mod-eq_of_lt h)

mod_wrap_zero : (m : ℕ) → 0 < m → 1 * m % m ≡ 0
mod_wrap_zero m h = rw (one_mul m) (mod_self m)
  where
    one_mul : (m : ℕ) → 1 * m ≡ m
    one_mul m = omega arith

pow-lt : (k w : ℕ) → k < w → 2 ^ k * 2 ≤ 2 ^ w
pow-lt k w h =
    omega (arith, pow-suc 2 k, pow-le-pow_right {n = 2} (omega arith) {i = suc k} {j = w} h)

pub pow_add : (j k : ℕ) → 2 ^ (j + k) ≡ 2 ^ j * 2 ^ k
pow_add zero k = rw (pow_zero_add k) (omega arith)
  where
    pow_zero_add : (k : ℕ) → 2 ^ (0 + k) ≡ 2 ^ k
    pow_zero_add k = ap (λ n. 2 ^ n) (omega arith)
pow_add (suc j) k = omega (
  arith,
  ap (λ n. 2 ^ n) (suc_add j k),
  pow-suc 2 (j + k),
  pow_add j k,
  ap (λ m. m * 2 ^ k) (pow-suc 2 j),
)
  where
    suc_add : (j k : ℕ) → suc j + k ≡ suc (j + k)
    suc_add j k = omega arith

-- `(1 << k) - 1` has `k` ones, also where `1 << k` leaves the word.
pub low_ones : (w k : ℕ) → 0 < w → k ≤ w → sub_word w (shift_left w 1 k) 1 ≡ 2 ^ k - 1
low_ones w k pos_w h = rw one_mod (elim (Bool-cases (ltb k w)) [
  | inl lt ↦ inside (ltb→lt k w lt)
  | inr ge ↦ outside (omega (arith, ltb-false k w ge))
])
  where
    one_mod : 1 % 2 ^ w ≡ 1
    one_mod = mod-eq_of_lt (omega (arith, pow-lt 0 w pos_w))

    inside : k < w → (1 * 2 ^ k % 2 ^ w + (2 ^ w - 1)) % 2 ^ w ≡ 2 ^ k - 1
    inside lt =
        let small : 1 * 2 ^ k < 2 ^ w = omega (arith, pow-lt k w lt, pow-pos k) in
        let sum : 1 * 2 ^ k + (2 ^ w - 1) ≡ 2 ^ k - 1 + 2 ^ w =
          omega (arith, pow-pos k, pow-pos w) in
        rw (mod-eq_of_lt small, sum) (mod_wrap (2 ^ k - 1) (2 ^ w) (omega (arith, small)))

    outside : k ≡ w → (1 * 2 ^ k % 2 ^ w + (2 ^ w - 1)) % 2 ^ w ≡ 2 ^ k - 1
    outside e =
        let wrapped : 1 * 2 ^ k % 2 ^ w ≡ 0 = rw e (mod_wrap_zero (2 ^ w) (pow-pos w)) in
        rw (wrapped, e)
          (mod-eq_of_lt {n = 0 + (2 ^ w - 1)} (omega (arith, pow-pos w)) ∙ omega arith)

-- The mask of a field is not cut off by the word.
pub mask-field :
    (w lo hi : ℕ) → lo ≤ hi → hi < w → field_mask w lo hi ≡ (2 ^ (hi + 1 - lo) - 1) * 2 ^ lo
unfolding field_mask
mask-field w lo hi h l = rw (low_ones w (hi + 1 - lo) (omega arith) (omega arith)) (
    mod-eq_of_lt (
      omega (
        arith,
        product (hi + 1 - lo) lo,
        pow-le-pow_right {n = 2} (omega arith) {i = hi + 1 - lo + lo} {j = w} (omega arith),
        pow-pos lo,
        pow-pos (hi + 1 - lo + lo),
      )))
  where
    split : (j : ℕ) → 2 ^ j ≡ 2 ^ j - 1 + 1
    split j = omega (arith, pow-pos j)

    product : (j k : ℕ) → (2 ^ j - 1) * 2 ^ k ≡ 2 ^ (j + k) - 2 ^ k
    product j k = omega (arith, pow_add j k, ap (λ m. m * 2 ^ k) (split j))

-- A field of a word, extracted, is its bits from `lo` to `hi` as a number.
extract_field :
    (w num lo hi : ℕ)
    → lo ≤ hi
    → hi < w
    → shift_right (bit_and num (field_mask w lo hi)) lo ≡ num / 2 ^ lo % 2 ^ (hi + 1 - lo)
extract_field w num lo hi h l =
    rw
      (
        mask-field w lo hi h l,
        bit_and-shifted lo (2 ^ (hi + 1 - lo) - 1) num,
        bit_and-ones (hi + 1 - lo) (num / 2 ^ lo),
      )
      (mul-div_cancel _ (pow-pos lo))

-- For bounds in order and below the size of the word, the extraction gives the bits from the lower
-- bound to the upper one, both included, as a number, on 64 and on 32 bits.
extract_bits-field :
    (num lo hi lo' hi' : ℕ)
    → lo ≤ hi
    → hi < 64
    → lo' ≤ hi'
    → hi' < 32
    → (extract_bits_from_u64 num lo hi ≡ num / 2 ^ lo % 2 ^ (hi + 1 - lo))
      × (extract_bits_from_u32 num lo' hi' ≡ num / 2 ^ lo' % 2 ^ (hi' + 1 - lo'))
unfolding extract_bits_from_u32 extract_bits_from_u64
extract_bits-field num lo hi lo' hi' h l h' l' =
    (extract_field 64 num lo hi h l, extract_field 32 num lo' hi' h' l')
