-- ===== src/Emu/Sop1/Saved.antt =====
-- The instructions that save `EXEC` and combine it with the operand.
use sampled_mgpu_sim.Prelude.{
  ℕ, ◌+◌, ◌-◌, ◌%◌, ◌^◌, ◌≤◌, ◌<◌, min, max, ◌≡◌, refl, inl, inr, Bool, true, false, ◌&&◌, ◌||◌,
  some, arith, leb, ◌==◌, if◌then◌else◌, le→leb, All,
}
use sampled_mgpu_sim.Prelude.Bits.{
  bit, bit_and, bit_or, bit_xor, bit-bit_and, bit-bit_or, bit-bit_xor_sum, bit-complement,
  bit_and-le_left, bit_or-lt, bit_xor-lt,
}
use sampled_mgpu_sim.Prelude.Words.{complement}
use sampled_mgpu_sim.Emu.Layout.{Sop1Layout}
use sampled_mgpu_sim.Emu.Switch.{run-Outcome, is_case, is_case-implements}
use sampled_mgpu_sim.Emu.Sop1.{
  sop1_cases, run_sop1, save_exec, run_s_and_saveexec_b64, run_s_or_saveexec_b64,
  run_s_xor_saveexec_b64, run_s_andn2_saveexec_b64, run_s_orn2_saveexec_b64,
  run_s_nand_saveexec_b64, run_s_nor_saveexec_b64, run_s_nxor_saveexec_b64,
}

-- One bit of the new `EXEC`, from the bit of the operand and the bit of the old one.
unfoldable pub combine : (opcode x y : ℕ) → ℕ
combine opcode x y =
    if opcode == 32
    then min x y
    else if opcode == 33
    then max x y
    else if opcode == 34
    then (x + y) % 2
    else if opcode == 35
    then min x (1 - y)
    else if opcode == 36
    then max x (1 - y)
    else if opcode == 37
    then 1 - min x y
    else if opcode == 38
    then 1 - max x y
    else 1 - (x + y) % 2

abbrev pub IsSaved : ℕ → Sop1Layout → Sop1Layout → Type 0
IsSaved opcode sp after =
    (after ≡ record sp { dst = sp.exec; exec = after.exec; scc = if after.exec == 0 then 0 else 1 })
    × (after.exec < 2 ^ 64)
    × ((lane : ℕ)
        → lane < 64
        → bit (after.exec) lane ≡ combine opcode (bit (sp.src0) lane) (bit (sp.exec) lane))

sop1_implements : ℕ → Bool
sop1_implements opcode =
    opcode == 0
    || opcode == 1
    || opcode == 4
    || opcode == 8
    || opcode == 28
    || (leb 32 opcode && leb opcode 39)

sop1_cases-implements : (opcode : ℕ) → is_case opcode sop1_cases ≡ sop1_implements opcode
unfolding sop1_implements
sop1_cases-implements opcode =
    is_case-implements sop1_cases sop1_implements 40 refl refl above opcode
  where
    above : (opcode : ℕ) → 40 ≤ opcode → sop1_implements opcode ≡ false
    above opcode h = ground arith

module _ (sp : Sop1Layout) (p : sp.src0 < 2 ^ 64) (q : sp.exec < 2 ^ 64) where
  Saves : ℕ → Sop1Layout → Type 0
  Saves opcode after = (leb 32 opcode ≡ true) → IsSaved opcode sp after

  and-lt : (a b : ℕ) → a < 2 ^ 64 → bit_and a b < 2 ^ 64
  and-lt a b h = omega (arith, bit_and-le_left a a b (omega arith))

  turned : (a lane : ℕ) → a < 2 ^ 64 → lane < 64 → bit (complement 64 a) lane ≡ 1 - bit a lane
  turned a lane h l = bit-complement 64 a lane h l

  complement-lt : (a : ℕ) → complement 64 a < 2 ^ 64
  complement-lt a = omega arith

  saved :
      (opcode exec : ℕ)
      → exec < 2 ^ 64
      → ((lane : ℕ)
          → lane < 64
          → bit exec lane ≡ combine opcode (bit (sp.src0) lane) (bit (sp.exec) lane))
      → IsSaved opcode sp (save_exec sp exec)
  unfolding save_exec
  saved opcode exec fits bits = (refl, fits, bits)

  saves : All (λ c. Saves (c.0) (c.1 sp)) sop1_cases
  unfolding Saves combine run_s_and_saveexec_b64 run_s_or_saveexec_b64 run_s_xor_saveexec_b64
      run_s_andn2_saveexec_b64 run_s_orn2_saveexec_b64 run_s_nand_saveexec_b64
      run_s_nor_saveexec_b64 run_s_nxor_saveexec_b64
  saves = (
    λ h. cc h,
    (
      λ h. cc h,
      (
        λ h. cc h,
        (
          λ h. cc h,
          (
            λ h. cc h,
            (
              λ h.
                  saved 32 _ (and-lt (sp.src0) (sp.exec) p)
                    (λ lane l. bit-bit_and (sp.src0) (sp.exec) lane),
              (
                λ h.
                    saved 33 _ (bit_or-lt 64 (sp.src0) (sp.exec) p q)
                      (λ lane l. bit-bit_or (sp.src0) (sp.exec) lane),
                (
                  λ h.
                      saved 34 _ (bit_xor-lt 64 (sp.src0) (sp.exec) p q)
                        (λ lane l. bit-bit_xor_sum (sp.src0) (sp.exec) lane),
                  (
                    λ h. saved 35 _ (and-lt (sp.src0) (complement 64 (sp.exec)) p) (λ lane l.
                        rw
                          (
                            bit-bit_and (sp.src0) (complement 64 (sp.exec)) lane,
                            turned (sp.exec) lane q l,
                          )
                          refl),
                    (
                      λ h.
                          saved 36 _
                            (bit_or-lt 64 (sp.src0) (complement 64 (sp.exec)) p
                              (complement-lt (sp.exec)))
                            (λ lane l.
                              rw
                                (
                                  bit-bit_or (sp.src0) (complement 64 (sp.exec)) lane,
                                  turned (sp.exec) lane q l,
                                )
                                refl),
                      (
                        λ h. saved 37 _ (complement-lt (bit_and (sp.src0) (sp.exec))) (λ lane l.
                            rw
                              (
                                turned (bit_and (sp.src0) (sp.exec)) lane
                                    (and-lt (sp.src0) (sp.exec) p) l,
                                bit-bit_and (sp.src0) (sp.exec) lane,
                              )
                              refl),
                        (
                          λ h. saved 38 _ (complement-lt (bit_or (sp.src0) (sp.exec))) (λ lane l.
                              rw
                                (
                                  turned (bit_or (sp.src0) (sp.exec)) lane
                                      (bit_or-lt 64 (sp.src0) (sp.exec) p q) l,
                                  bit-bit_or (sp.src0) (sp.exec) lane,
                                )
                                refl),
                          (
                            λ h. saved 39 _ (complement-lt (bit_xor (sp.src0) (sp.exec))) (λ lane l.
                                rw
                                  (
                                    turned (bit_xor (sp.src0) (sp.exec)) lane
                                        (bit_xor-lt 64 (sp.src0) (sp.exec) p q) l,
                                    bit-bit_xor_sum (sp.src0) (sp.exec) lane,
                                  )
                                  refl),
                            tt,
                          ),
                        ),
                      ),
                    ),
                  ),
                ),
              ),
            ),
          ),
        ),
      ),
    ),
  )

-- For 64-bit words, each of the eight instructions puts the old `EXEC` into `DST`, and a 64-bit
-- word into `EXEC` whose every bit comes from the operand's and the old `EXEC`'s bit as the
-- opcode says; `SCC` is 1 where the new `EXEC` is not 0 and 0 elsewhere, and nothing else changes.
pub run_sop1-IsSaved :
    (opcode : ℕ) (sp : Sop1Layout)
    → 32 ≤ opcode
    → opcode ≤ 39
    → sp.src0 < 2 ^ 64
    → sp.exec < 2 ^ 64
    → (after : Sop1Layout) × (run_sop1 opcode sp ≡ some after) × IsSaved opcode sp after
unfolding run_sop1 sop1_implements Saves
run_sop1-IsSaved opcode sp low high p q =
    elim (run-Outcome (Saves sp p q) sop1_cases sop1_implements sp sop1_cases-implements
      (saves sp p q) opcode) [
        | inl (refused, e) ↦ absurd (ground arith)
        | inr (implemented, after, run, saved_as) ↦ (after, run, saved_as (le→leb 32 opcode low))
      ]
