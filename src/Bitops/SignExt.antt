-- ===== src/Bitops/SignExt.antt =====
-- Sign extension gives the word of the signed number (bitops/ops.go).
use sampled_mgpu_sim.Prelude.{
  ℕ, suc, ◌+◌, ◌-◌, ◌*◌, ◌/◌, ◌%◌, ◌^◌, ◌≤◌, ◌<◌, ◌≡◌, ap, subst, inl, inr, true, false, arith, ltb,
  Bool-cases, ltb→lt, ltb-false,
}
use native.Mathlib.Nat.{pow-suc, mod-lt, pow-le-pow_right}
use sampled_mgpu_sim.Prelude.Bits.{bit_and, bit_or}
use sampled_mgpu_sim.Prelude.Bits.Field.{bit_and-ones, bit_or-high_ones, mod-top}
use sampled_mgpu_sim.Prelude.Words.{signed, word_of}
use sampled_mgpu_sim.Bitops.{sign_ext}
use sampled_mgpu_sim.Bitops.Field.{low_ones, pow_add, pow-pos}

module _ (word k : ℕ) (fits : word < 2 ^ 64) (h : k < 64) where
  rest : ℕ
  rest = word % 2 ^ suc k

  sign : ℕ
  sign = word / 2 ^ k % 2

  -- The mask above the sign bit, and what it is with the low bits under it.
  high_mask : 2 ^ 64 - 1 - (2 ^ suc k - 1) ≡ (2 ^ (63 - k) - 1) * 2 ^ suc k
  high_mask = omega (
    arith,
    pow_add (63 - k) (suc k),
    ap (λ n. 2 ^ n) (total (omega arith)),
    ap (λ m. m * 2 ^ suc k) (split (63 - k)),
    pow-pos (suc k),
  )
    where
      total : k ≤ 63 → 63 - k + suc k ≡ 64
      total l = omega arith

      split : (n : ℕ) → 2 ^ n ≡ 2 ^ n - 1 + 1
      split n = omega (arith, pow-pos n)

  rest-bounds :
      (rest ≡ word % 2 ^ k + sign * 2 ^ k) × (word % 2 ^ k < 2 ^ k) × (2 ^ suc k ≡ 2 ^ k * 2)
  unfolding rest sign
  rest-bounds = (mod-top k word, mod-lt word (pow-pos k), pow-suc 2 k)

  below_word : 2 ^ suc k ≤ 2 ^ 64
  below_word = pow-le-pow_right {n = 2} (omega arith) {i = suc k} {j = 64} h

  negative :
      sign ≡ 1 → bit_or word (2 ^ 64 - 1 - (2 ^ suc k - 1)) ≡ word_of 64 (signed (suc k) rest)
  unfolding rest
  negative e =
      let filled : bit_or word (2 ^ 64 - 1 - (2 ^ suc k - 1))
          ≡ (2 ^ (63 - k) - 1) * 2 ^ suc k + rest =
        rw high_mask
          (bit_or-high_ones (suc k) (63 - k) word (subst (λ n. word < 2 ^ n) whole fits)) in
      rw (pred_of, filled, top) (omega (arith, rest-bounds, below_word, high_mask))
    where
      whole : 64 ≡ suc k + (63 - k)
      whole = omega arith

      pred_of : suc k - 1 ≡ k
      pred_of = omega arith

      top : ltb rest (2 ^ k) ≡ false
      top = ground (arith, rest-bounds, e)

  positive :
      sign ≡ 0
      → bit_and word (2 ^ 64 - 1 - (2 ^ 64 - 1 - (2 ^ suc k - 1)))
        ≡ word_of 64 (signed (suc k) rest)
  unfolding rest
  positive e =
      rw (pred_of, under, bit_and-ones (suc k) word, top) (omega (arith, rest-bounds, below_word))
    where
      pred_of : suc k - 1 ≡ k
      pred_of = omega arith

      under : 2 ^ 64 - 1 - (2 ^ 64 - 1 - (2 ^ suc k - 1)) ≡ 2 ^ suc k - 1
      under = omega (arith, below_word, pow-pos (suc k))

      top : ltb rest (2 ^ k) ≡ true
      top = ground (arith, rest-bounds, e)

-- For a 64-bit word and a sign bit in it, the result is the two's complement of the signed number
-- that the bits up to the sign bit are.
pub sign_ext_lem :
    (word sign_bit : ℕ)
    → word < 2 ^ 64
    → sign_bit < 64
    → sign_ext word sign_bit ≡ word_of 64 (signed (suc sign_bit) (word % 2 ^ suc sign_bit))
unfolding sign_ext rest sign
sign_ext_lem word k fits h =
    rw (suc_of, low_ones 64 (suc k) (omega arith) (omega arith), bit_and-ones 1 (word / 2 ^ k))
      (elim (Bool-cases (ltb 0 (word / 2 ^ k % 2))) [
        | inl on ↦ rw on (negative word k fits h (omega (arith, ltb→lt 0 (word / 2 ^ k % 2) on)))
        | inr off ↦
            rw off (positive word k fits h (omega (arith, ltb-false 0 (word / 2 ^ k % 2) off)))
      ])
  where
    suc_of : k + 1 ≡ suc k
    suc_of = omega arith
