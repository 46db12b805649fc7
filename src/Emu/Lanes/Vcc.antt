-- ===== src/Emu/Lanes/Vcc.antt =====
-- The condition code that the loop over the lanes leaves, bit by bit.
use sampled_mgpu_sim.Prelude.{
  ℕ, zero, suc, ◌^◌, ◌≤◌, ◌<◌, ◌≡◌, refl, sym, subst, inl, inr, Bool, false, ◌&&◌, arith, ltb, ◌==◌,
  if◌then◌else◌, Bool-cases, ==_iff,
}
use native.Mathlib.Nat.{pow-le-pow_right, pow-suc, one-le-pow}
use sampled_mgpu_sim.Prelude.Bits.{
  bit, bit-lt, bit_and-pow, bit-bit_or, bit_or-lt, bit-pow_self, bit-pow_ne, zero-bit_and, bit-zero,
}
use sampled_mgpu_sim.Prelude.Words.{shift_left, complement}
use sampled_mgpu_sim.Emu.Layout.{VopcLayout}
use sampled_mgpu_sim.Emu.Lanes.{lane_masked, compare_below, clear_below}

pow-lt : (lane : ℕ) → lane < 64 → 2 ^ lane < 2 ^ 64
pow-lt lane h = omega (
  arith,
  pow-suc 2 lane,
  one-le-pow lane 2,
  pow-le-pow_right {n = 2} (omega arith) {i = suc lane} {j = 64} h,
)

pub one_hot : (lane : ℕ) → lane < 64 → shift_left 64 1 lane ≡ 2 ^ lane
one_hot lane h = omega (arith, pow-lt lane h)

-- A lane is on where its bit of `EXEC` is set.
pub lane_masked-bit : (exec lane : ℕ) → lane < 64 → lane_masked exec lane ≡ (bit exec lane == 1)
unfolding lane_masked
lane_masked-bit exec lane h =
    rw (one_hot lane h, bit_and-pow exec lane)
      (elim (Bool-cases (bit exec lane == 1)) [
        | inl e ↦ rw ((==_iff (bit exec lane) 1).0 e) (ground (arith, one-le-pow lane 2))
        | inr e ↦ rw (zero_of e) (ground arith)
      ])
  where
    zero_of : (bit exec lane == 1) ≡ false → bit exec lane ≡ 0
    zero_of e = ground (arith, bit-lt exec lane)

module _ (sp : VopcLayout) (test : ℕ → ℕ → Bool) where
  abbrev pub holds : ℕ → Bool
  holds lane = lane_masked (sp.exec) lane && test (sp.src0 lane) (sp.src1 lane)

  pub compare_below-lt : (n : ℕ) → n ≤ 64 → compare_below sp test n < 2 ^ 64
  unfolding compare_below
  compare_below-lt zero h = omega arith
  compare_below-lt (suc n) h =
      let below = compare_below-lt n (omega arith) in
      let more =
        bit_or-lt 64 _ _ below (subst (λ m. m < 2 ^ 64) (sym (one_hot n h)) (pow-lt n h)) in
      ground (arith, below, more)

  pub bit-compare_below :
      (n lane : ℕ)
      → n ≤ 64
      → bit (compare_below sp test n) lane ≡ (if ltb lane n && holds lane then 1 else 0)
  unfolding compare_below
  bit-compare_below zero lane h = rw (bit-zero lane) (ground arith)
  bit-compare_below (suc n) lane h = elim (Bool-cases (holds n)) [
    | inl on ↦
        rw
          (
            on,
            one_hot n h,
            bit-bit_or (compare_below sp test n) (2 ^ n) lane,
            bit-compare_below n lane (omega arith),
          )
          (elim (Bool-cases (lane == n)) [
            | inl e ↦ rw ((==_iff lane n).0 e, on, bit-pow_self n) (ground arith)
            | inr e ↦ rw (bit-pow_ne n lane (λ q. ground arith)) (ground arith)
          ])
    | inr off ↦
        rw (off, bit-compare_below n lane (omega arith))
          (elim (Bool-cases (lane == n)) [
            | inl e ↦ rw ((==_iff lane n).0 e, off) (ground arith)
            | inr e ↦ ground arith
          ])
  ]

pub clear_below-zero : (sp : VopcLayout) (n : ℕ) → clear_below sp n ≡ 0
unfolding clear_below
clear_below-zero sp zero = refl
clear_below-zero sp (suc n) =
    rw (clear_below-zero sp n, zero-bit_and (complement 64 (shift_left 64 1 n))) (ground arith)
