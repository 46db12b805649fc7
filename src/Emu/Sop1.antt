-- ===== src/Emu/Sop1.antt =====
-- The scalar instructions with one operand (emu/alusop1.go).
pub mod Saved
pub mod Reverse
use sampled_mgpu_sim.Prelude.{
  ℕ, zero, suc, ◌+◌, ◌-◌, ◌*◌, ◌/◌, ◌%◌, ◌^◌, ◌≤◌, ◌<◌, min, max, ◌≡◌, refl, sym, ap, ap₂, subst,
  ◌≢◌, ◌↔◌, ◌⊎◌, inl, inr, Bool, true, false, not, ◌&&◌, ◌||◌, Option, none, some, List, [], ◌∷◌,
  map, arith, ltb, leb, ◌==◌, if◌then◌else◌, Bool-cases, Option-cases, ltb→lt, ltb-false, lt→ltb,
  le→leb, leb→le, ==_iff, ==_refl, ◌>>=◌, length, get_elem?, set, All,
}
use sampled_mgpu_sim.Prelude.Bits.{bit_and, bit_or, bit_xor}
use sampled_mgpu_sim.Prelude.Words.{complement, shift_left, shift_right}
use sampled_mgpu_sim.Emu.Layout.{Sop1Layout}
use sampled_mgpu_sim.Emu.Switch.{switch}

unfoldable pub run_s_mov_b32 : Sop1Layout → Sop1Layout
run_s_mov_b32 sp = record sp { dst = sp.src0 }

unfoldable pub run_s_mov_b64 : Sop1Layout → Sop1Layout
run_s_mov_b64 sp = record sp { dst = sp.src0 }

unfoldable pub run_s_not_u32 : Sop1Layout → Sop1Layout
run_s_not_u32 sp =
    let dst = complement 64 (sp.src0) in
    record sp { dst = dst; scc = if dst == 0 then sp.scc else 1 }

-- One turn of the loop of `runSBREVB32`: bit 31 - i of the source moves to bit i.
unfoldable pub reverse_bit : ℕ → ℕ → ℕ → ℕ
reverse_bit src0 i dst =
    let mask = shift_left 32 1 (31 - i) in
    let moved = shift_right (bit_and (src0 % 2 ^ 32) mask) (31 - i) in
    bit_or dst (shift_left 32 moved i)

-- The value of `dst` after the turns below `n`.
unfoldable pub reverse_bits : ℕ → ℕ → ℕ
reverse_bits src0 zero = 0
reverse_bits src0 (suc n) = reverse_bit src0 n (reverse_bits src0 n)

unfoldable pub run_s_brev_b32 : Sop1Layout → Sop1Layout
run_s_brev_b32 sp = record sp { dst = reverse_bits (sp.src0) 32 }

unfoldable pub run_s_getpc_b64 : Sop1Layout → Sop1Layout
run_s_getpc_b64 sp = record sp { dst = (sp.pc + 4) % 2 ^ 64 }

-- What the instructions that save `EXEC` have in common: each computes the new one.
unfoldable pub save_exec : Sop1Layout → ℕ → Sop1Layout
save_exec sp exec = record sp { dst = sp.exec; exec = exec; scc = if exec == 0 then 0 else 1 }

unfoldable pub run_s_and_saveexec_b64 : Sop1Layout → Sop1Layout
run_s_and_saveexec_b64 sp = save_exec sp (bit_and (sp.src0) (sp.exec))

unfoldable pub run_s_or_saveexec_b64 : Sop1Layout → Sop1Layout
run_s_or_saveexec_b64 sp = save_exec sp (bit_or (sp.src0) (sp.exec))

unfoldable pub run_s_xor_saveexec_b64 : Sop1Layout → Sop1Layout
run_s_xor_saveexec_b64 sp = save_exec sp (bit_xor (sp.src0) (sp.exec))

unfoldable pub run_s_andn2_saveexec_b64 : Sop1Layout → Sop1Layout
run_s_andn2_saveexec_b64 sp = save_exec sp (bit_and (sp.src0) (complement 64 (sp.exec)))

unfoldable pub run_s_orn2_saveexec_b64 : Sop1Layout → Sop1Layout
run_s_orn2_saveexec_b64 sp = save_exec sp (bit_or (sp.src0) (complement 64 (sp.exec)))

unfoldable pub run_s_nand_saveexec_b64 : Sop1Layout → Sop1Layout
run_s_nand_saveexec_b64 sp = save_exec sp (complement 64 (bit_and (sp.src0) (sp.exec)))

unfoldable pub run_s_nor_saveexec_b64 : Sop1Layout → Sop1Layout
run_s_nor_saveexec_b64 sp = save_exec sp (complement 64 (bit_or (sp.src0) (sp.exec)))

unfoldable pub run_s_nxor_saveexec_b64 : Sop1Layout → Sop1Layout
run_s_nxor_saveexec_b64 sp = save_exec sp (complement 64 (bit_xor (sp.src0) (sp.exec)))

abbrev pub sop1_cases : List (ℕ × (Sop1Layout → Sop1Layout))
sop1_cases =
    (0, run_s_mov_b32)
    ∷ (1, run_s_mov_b64)
    ∷ (4, run_s_not_u32)
    ∷ (8, run_s_brev_b32)
    ∷ (28, run_s_getpc_b64)
    ∷ (32, run_s_and_saveexec_b64)
    ∷ (33, run_s_or_saveexec_b64)
    ∷ (34, run_s_xor_saveexec_b64)
    ∷ (35, run_s_andn2_saveexec_b64)
    ∷ (36, run_s_orn2_saveexec_b64)
    ∷ (37, run_s_nand_saveexec_b64)
    ∷ (38, run_s_nor_saveexec_b64)
    ∷ (39, run_s_nxor_saveexec_b64)
    ∷ []

-- `none` for an opcode that is not implemented.
unfoldable pub run_sop1 : ℕ → Sop1Layout → Option Sop1Layout
run_sop1 opcode sp = do handler ← switch opcode sop1_cases; some (handler sp)
