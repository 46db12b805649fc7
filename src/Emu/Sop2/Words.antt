-- ===== src/Emu/Sop2/Words.antt =====
-- Which scalar instructions with two operands are implemented.
use sampled_mgpu_sim.Prelude.{ℕ, ◌≤◌, ◌≡◌, refl, Bool, false, not, ◌&&◌, ◌||◌, arith, leb, ◌==◌}
use sampled_mgpu_sim.Emu.Switch.{is_case, is_case-implements}
use sampled_mgpu_sim.Emu.Sop2.{sop2_cases}

-- The numbers of the implemented instructions.
unfoldable pub sop2_implements : ℕ → Bool
sop2_implements opcode =
    (leb opcode 19 && not (opcode == 11) && not (opcode == 14) && not (opcode == 18))
    || (leb 28 opcode && leb opcode 32)
    || opcode == 34
    || opcode == 36
    || opcode == 38

pub sop2_cases-implements : (opcode : ℕ) → is_case opcode sop2_cases ≡ sop2_implements opcode
unfolding sop2_implements
sop2_cases-implements opcode =
    is_case-implements sop2_cases sop2_implements 39 refl refl above opcode
  where
    above : (opcode : ℕ) → 39 ≤ opcode → sop2_implements opcode ≡ false
    above opcode h = ground arith
