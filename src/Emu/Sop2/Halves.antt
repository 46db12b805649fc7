-- ===== src/Emu/Sop2/Halves.antt =====
-- 64-bit sums and differences by halves: the chains of `s_add_u32` with `s_addc_u32` and of
-- `s_sub_u32` with `s_subb_u32`.
use sampled_mgpu_sim.Prelude.{
  ℕ, ◌+◌, ◌-◌, ◌*◌, ◌/◌, ◌%◌, ◌^◌, ◌<◌, ◌≡◌, ◌≢◌, ◌↔◌, ◌⊎◌, inl, inr, arith, ltb, if◌then◌else◌,
}
use sampled_mgpu_sim.Prelude.Words.{sub_word}
use sampled_mgpu_sim.Emu.Layout.{Sop2Layout}
use sampled_mgpu_sim.Emu.Sop2.{
  copy_low, run_s_add_u32, run_s_addc_u32, run_s_sub_u32, run_s_subb_u32,
}

-- The operands of an instruction on one half, with the carry or borrow that it starts from.
abbrev pub half : (src0 src1 scc : ℕ) → Sop2Layout
half src0 src1 scc = record { src0 = src0; src1 = src1; dst = 0; scc = scc }

abbrev pub add_low : (a b scc : ℕ) → Sop2Layout
add_low a b scc = run_s_add_u32 (half (a % 2 ^ 32) (b % 2 ^ 32) scc)

abbrev pub add_high : (a b scc : ℕ) → Sop2Layout
add_high a b scc = run_s_addc_u32 (half (a / 2 ^ 32) (b / 2 ^ 32) ((add_low a b scc).scc))

abbrev pub sub_low : (a b scc : ℕ) → Sop2Layout
sub_low a b scc = run_s_sub_u32 (half (a % 2 ^ 32) (b % 2 ^ 32) scc)

abbrev pub sub_high : (a b scc : ℕ) → Sop2Layout
sub_high a b scc = run_s_subb_u32 (half (a / 2 ^ 32) (b / 2 ^ 32) ((sub_low a b scc).scc))

-- For 64-bit words and whichever `SCC`, 0 or 1, the chain starts with: the low words of the two sums are
-- the sum of the words modulo 2 ^ 64. Those of the two differences are their difference modulo
-- 2 ^ 64 exactly where the chain starts with `SCC` 0 or the low halves need a borrow; and then the
-- last borrow is 1 exactly where the first word is below the second.
pub halves-words :
    (a b scc : ℕ)
    → a < 2 ^ 64
    → b < 2 ^ 64
    → scc < 2
    → ((add_high a b scc).dst * 2 ^ 32 + (add_low a b scc).dst ≡ (a + b) % 2 ^ 64)
      × (((scc ≡ 0) ⊎ (a % 2 ^ 32 < b % 2 ^ 32)) ↔ (
          ((sub_high a b scc).dst % 2 ^ 32 * 2 ^ 32 + (sub_low a b scc).dst % 2 ^ 32
            ≡ sub_word 64 a b)
          × ((sub_high a b scc).scc ≡ (if ltb a b then 1 else 0))))
unfolding copy_low run_s_add_u32 run_s_addc_u32 run_s_sub_u32 run_s_subb_u32
halves-words a b scc p q r = (
  ground arith,
  (
    λ c. (
      elim c [ inl z ↦ ground arith | inr l ↦ ground arith ],
      elim c [ inl z ↦ ground arith | inr l ↦ ground arith ],
    ),
    λ (e, f). ground arith,
  ),
)

-- For 32-bit operands and a carry of 0 or 1, the carry that the addition with carry leaves is the
-- sum's bit 32 exactly where the sum is not 2 ^ 32 - 1 and, in case the second operand and
-- the carry make 2 ^ 32, the first operand is 2 ^ 32 - 1.
pub run_s_addc_u32-carry :
    (src0 src1 scc : ℕ)
    → src0 < 2 ^ 32
    → src1 < 2 ^ 32
    → scc < 2
    → ((run_s_addc_u32 (half src0 src1 scc)).scc ≡ (src0 + src1 + scc) / 2 ^ 32)
      ↔ ((src0 + src1 + scc ≢ 2 ^ 32 - 1) × ((src1 + scc ≢ 2 ^ 32) ⊎ (src0 ≡ 2 ^ 32 - 1)))
unfolding run_s_addc_u32
run_s_addc_u32-carry src0 src1 scc p q r =
    (λ e. (λ f. ground arith, ground arith), λ (f, g). ground arith)
