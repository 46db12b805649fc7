-- ===== src/Emu/Sop2/Logic.antt =====
-- The bitwise instructions, bit by bit.
use sampled_mgpu_sim.Prelude.{
  ℕ, ◌+◌, ◌-◌, ◌%◌, ◌^◌, ◌≤◌, ◌<◌, min, max, ◌≡◌, refl, inl, inr, true, ◌&&◌, some, arith, leb,
  ◌==◌, if◌then◌else◌, All,
}
use sampled_mgpu_sim.Prelude.Bits.{bit, bit-bit_and, bit-bit_or, bit-bit_xor_sum, bit-complement}
use sampled_mgpu_sim.Prelude.Words.{complement}
use sampled_mgpu_sim.Emu.Layout.{Sop2Layout}
use sampled_mgpu_sim.Emu.Switch.{run-Outcome}
use sampled_mgpu_sim.Emu.Sop2.{
  sop2_cases, run_sop2, set_scc, run_s_and_b32, run_s_and_b64, run_s_or_b64, run_s_xor_b64,
  run_s_andn2_b64,
}
use sampled_mgpu_sim.Emu.Sop2.Words.{sop2_implements, sop2_cases-implements}

-- One bit of the result.
unfoldable pub logic : (opcode x y : ℕ) → ℕ
logic opcode x y =
    if leb opcode 13
    then min x y
    else if opcode == 15
    then max x y
    else if leb opcode 17
    then (x + y) % 2
    else min x (1 - y)

abbrev pub IsBitwise : ℕ → Sop2Layout → Sop2Layout → Type 0
IsBitwise opcode sp after =
    (after ≡ record sp { dst = after.dst; scc = if after.dst == 0 then 0 else 1 })
    × ((lane : ℕ)
        → lane < 64
        → bit (after.dst) lane ≡ logic opcode (bit (sp.src0) lane) (bit (sp.src1) lane))

module _ (sp : Sop2Layout) (q : sp.src1 < 2 ^ 64) where
  Computes : ℕ → Sop2Layout → Type 0
  Computes opcode after = ((leb 12 opcode && leb opcode 19) ≡ true) → IsBitwise opcode sp after

  sop2_cases-Computes : All (λ c. Computes (c.0) (c.1 sp)) sop2_cases
  unfolding Computes set_scc logic run_s_and_b32 run_s_and_b64 run_s_or_b64 run_s_xor_b64
      run_s_andn2_b64
  sop2_cases-Computes = (
    λ h. cc h,
    (
      λ h. cc h,
      (
        λ h. cc h,
        (
          λ h. cc h,
          (
            λ h. cc h,
            (
              λ h. cc h,
              (
                λ h. cc h,
                (
                  λ h. cc h,
                  (
                    λ h. cc h,
                    (
                      λ h. cc h,
                      (
                        λ h. cc h,
                        (
                          λ h. (refl, λ lane l. bit-bit_and (sp.src0) (sp.src1) lane),
                          (
                            λ h. (refl, λ lane l. bit-bit_and (sp.src0) (sp.src1) lane),
                            (
                              λ h. (refl, λ lane l. bit-bit_or (sp.src0) (sp.src1) lane),
                              (
                                λ h. (refl, λ lane l. bit-bit_xor_sum (sp.src0) (sp.src1) lane),
                                (
                                  λ h. (refl, λ lane l. bit-bit_xor_sum (sp.src0) (sp.src1) lane),
                                  (
                                    λ h. (
                                      refl,
                                      λ lane l.
                                          rw
                                            (
                                              bit-bit_and (sp.src0) (complement 64 (sp.src1)) lane,
                                              bit-complement 64 (sp.src1) lane q l,
                                            )
                                            refl,
                                    ),
                                    (
                                      λ h. cc h,
                                      (
                                        λ h. cc h,
                                        (
                                          λ h. cc h,
                                          (
                                            λ h. cc h,
                                            (λ h. cc h, (λ h. cc h, (λ h. cc h, (λ h. cc h, tt)))),
                                          ),
                                        ),
                                      ),
                                    ),
                                  ),
                                ),
                              ),
                            ),
                          ),
                        ),
                      ),
                    ),
                  ),
                ),
              ),
            ),
          ),
        ),
      ),
    ),
  )

-- For an implemented opcode from 12 to 19 and a second operand of 64 bits, each bit of the result comes
-- from the two bits of the operands as the opcode says: both, either, exactly one, or the first
-- without the second. `SCC` is 1 where the result is not 0 and 0 elsewhere, and nothing else changes.
pub run_sop2-IsBitwise :
    (opcode : ℕ) (sp : Sop2Layout)
    → 12 ≤ opcode
    → opcode ≤ 19
    → sop2_implements opcode ≡ true
    → sp.src1 < 2 ^ 64
    → (after : Sop2Layout) × (run_sop2 opcode sp ≡ some after) × IsBitwise opcode sp after
unfolding run_sop2 Computes
run_sop2-IsBitwise opcode sp low high implemented q =
    elim (run-Outcome (Computes sp q) sop2_cases sop2_implements sp sop2_cases-implements
      (sop2_cases-Computes sp q) opcode) [
        | inl (refused, e) ↦ cc (implemented, refused)
        | inr (_, after, run, computed) ↦ (after, run, computed (ground arith))
      ]
