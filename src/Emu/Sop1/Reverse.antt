-- ===== src/Emu/Sop1/Reverse.antt =====
-- Reversing the bits of a word.
use sampled_mgpu_sim.Prelude.{
  ℕ, zero, suc, ◌-◌, ◌*◌, ◌%◌, ◌^◌, ◌≤◌, ◌<◌, ◌≡◌, refl, ap, ◌⊎◌, inl, inr, arith, ltb, ◌==◌,
  if◌then◌else◌, Bool-cases, lt→ltb, ==_iff,
}
use native.Mathlib.Nat.{mod-eq_of_lt, mul-div_cancel, one-le-pow}
use sampled_mgpu_sim.Prelude.Bits.{
  bit, bit-lt, bit_or, bit_and-pow, bit-bit_or, bit_or-lt, bit-pow_self, bit-pow_ne, bit-zero,
}
use sampled_mgpu_sim.Prelude.Bits.Field.{bits-determine, pow-lt-pow}
use sampled_mgpu_sim.Prelude.Words.{shift_left}
use sampled_mgpu_sim.Emu.Layout.{Sop1Layout}
use sampled_mgpu_sim.Emu.Sop1.{reverse_bit, reverse_bits, run_s_brev_b32}

bit-cases : (n i : ℕ) → (bit n i ≡ 0) ⊎ (bit n i ≡ 1)
bit-cases n i = elim (Bool-cases (bit n i == 1)) [
  | inl e ↦ inr ((==_iff (bit n i) 1).0 e)
  | inr e ↦ inl (ground (arith, bit-lt n i))
]

-- A bit that stands `i` bits higher.
module _ (n k i : ℕ) where
  higher-lt : i < 32 → bit n k * 2 ^ i < 2 ^ 32
  higher-lt h = elim (bit-cases n k) [
    | inl e ↦ rw e (omega arith)
    | inr e ↦ rw e (omega (arith, pow-lt-pow i 32 h))
  ]

  bit-higher : (j : ℕ) → bit (bit n k * 2 ^ i) j ≡ (if j == i then bit n k else 0)
  bit-higher j = elim (bit-cases n k) [
    | inl e ↦ rw (e, zero_mul (2 ^ i), bit-zero j) (ground arith)
    | inr e ↦
        rw (e, one_mul (2 ^ i))
          (elim (Bool-cases (j == i)) [
            | inl same ↦ rw ((==_iff j i).0 same, bit-pow_self i) (ground arith)
            | inr other ↦ rw (bit-pow_ne i j (λ f. ground arith), other) refl
          ])
  ]
    where
      zero_mul : (m : ℕ) → 0 * m ≡ 0
      zero_mul m = omega arith

      one_mul : (m : ℕ) → 1 * m ≡ m
      one_mul m = omega arith

-- A turn moves the one bit.
reverse_bit-or :
    (src i dst : ℕ)
    → i < 32
    → reverse_bit src i dst ≡ bit_or dst (bit (src % 2 ^ 32) (31 - i) * 2 ^ i)
unfolding reverse_bit
reverse_bit-or src i dst h = ap (bit_or dst) (
    rw
      (
        single (31 - i) (omega arith),
        bit_and-pow (src % 2 ^ 32) (31 - i),
        mul-div_cancel (bit (src % 2 ^ 32) (31 - i)) (pow_pos (31 - i)),
      )
      (mod-eq_of_lt fits))
  where
    pow_pos : (k : ℕ) → 0 < 2 ^ k
    pow_pos k = omega (arith, one-le-pow k 2)

    single : (k : ℕ) → k < 32 → shift_left 32 1 k ≡ 2 ^ k
    single k l = omega (arith, pow-lt-pow k 32 l)

    fits : bit (src % 2 ^ 32) (31 - i) * 2 ^ i < 2 ^ 32
    fits = higher-lt (src % 2 ^ 32) (31 - i) i h

pub bit-reverse_bits :
    (src n j : ℕ)
    → n ≤ 32
    → bit (reverse_bits src n) j ≡ (if ltb j n then bit (src % 2 ^ 32) (31 - j) else 0)
unfolding reverse_bits
bit-reverse_bits src zero j h = rw (bit-zero j) (ground arith)
bit-reverse_bits src (suc n) j h =
    rw
      (
        reverse_bit-or src n (reverse_bits src n) h,
        bit-bit_or (reverse_bits src n) (bit (src % 2 ^ 32) (31 - n) * 2 ^ n) j,
        bit-reverse_bits src n j (omega arith),
        bit-higher (src % 2 ^ 32) (31 - n) n j,
      )
      (elim (Bool-cases (j == n)) [
        | inl e ↦ rw ((==_iff j n).0 e) (ground arith)
        | inr e ↦ ground arith
      ])

reverse_bits-lt : (src n : ℕ) → n ≤ 32 → reverse_bits src n < 2 ^ 32
unfolding reverse_bits
reverse_bits-lt src zero h = omega arith
reverse_bits-lt src (suc n) h =
    rw (reverse_bit-or src n (reverse_bits src n) h) (
      bit_or-lt 32 _ _ (reverse_bits-lt src n (omega arith))
        (higher-lt (src % 2 ^ 32) (31 - n) n h))

reversed-bit : (src j : ℕ) → j < 32 → bit (reverse_bits src 32) j ≡ bit (src % 2 ^ 32) (31 - j)
reversed-bit src j h = rw (bit-reverse_bits src 32 j (omega arith), lt→ltb j 32 h) refl

-- The reversal of a word is a 32-bit word whose bit `j` is bit 31 - j of the operand, for each j
-- below 32, and the reversal of that gives back the low 32 bits of the operand.
pub run_s_brev_b32-twice :
    (sp : Sop1Layout)
    → ((run_s_brev_b32 sp).dst < 2 ^ 32)
      × ((j : ℕ) → j < 32 → bit ((run_s_brev_b32 sp).dst) j ≡ bit (sp.src0 % 2 ^ 32) (31 - j))
      × ((run_s_brev_b32 (record sp { src0 = (run_s_brev_b32 sp).dst })).dst ≡ sp.src0 % 2 ^ 32)
unfolding run_s_brev_b32
run_s_brev_b32-twice sp = (
  reverse_bits-lt (sp.src0) 32 (omega arith),
  reversed-bit (sp.src0),
  bits-determine 32 _ _ (reverse_bits-lt (reverse_bits (sp.src0) 32) 32 (omega arith)) (omega arith)
      back,
)
  where
    back :
        (j : ℕ)
        → j < 32
        → bit (reverse_bits (reverse_bits (sp.src0) 32) 32) j ≡ bit (sp.src0 % 2 ^ 32) j
    back j h =
        rw
          (
            reversed-bit (reverse_bits (sp.src0) 32) j h,
            mod-eq_of_lt (reverse_bits-lt (sp.src0) 32 (omega arith)),
            reversed-bit (sp.src0) (31 - j) (omega arith),
            there_and_back,
          )
          refl
      where
        there_and_back : 31 - (31 - j) ≡ j
        there_and_back = omega arith
