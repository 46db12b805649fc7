-- ===== src/Emu/Examples.antt =====
-- Each theorem at one input, and tests of the instructions.
use sampled_mgpu_sim.Prelude.{
  ℕ, ◌+◌, ◌-◌, ◌*◌, ◌/◌, ◌%◌, ◌^◌, ◌<◌, ◌≡◌, refl, ◌≢◌, ◌↔◌, ◌⊎◌, some, arith, ltb, leb, ◌==◌,
  if◌then◌else◌,
}
use sampled_mgpu_sim.Prelude.Bits.{bit}
use sampled_mgpu_sim.Emu.Layout.{
  Sop2Layout, Sop1Layout, SopcLayout, SoppLayout, SopkLayout, VopcLayout,
}
use sampled_mgpu_sim.Emu.Switch.{Outcome}
use sampled_mgpu_sim.Emu.Vopc.{Comparisons, run_vopc, run_v_cmp_lt_u32}
use sampled_mgpu_sim.Emu.Lanes.{compare_lanes, compare_below, lane_masked}
use sampled_mgpu_sim.Emu.Vopc.Relation.{IsCompared, vopc_relation}
use sampled_mgpu_sim.Emu.Vopc.Cases.{vopc_implements, run_vopc-IsCompared}
use sampled_mgpu_sim.Emu.Sop2.{run_sop2, run_s_addc_u32}
use sampled_mgpu_sim.Emu.Sop2.Halves.{
  half, add_low, add_high, sub_low, sub_high, halves-words, run_s_addc_u32-carry,
}
use sampled_mgpu_sim.Emu.Sop2.Arith.{IsArithmetic, run_sop2-IsArithmetic}
use sampled_mgpu_sim.Emu.Sop2.Logic.{IsBitwise, run_sop2-IsBitwise}
use sampled_mgpu_sim.Emu.Sop2.Words.{sop2_implements}
use sampled_mgpu_sim.Emu.Sop1.{run_sop1, run_s_brev_b32}
use sampled_mgpu_sim.Emu.Sop1.Saved.{IsSaved, run_sop1-IsSaved}
use sampled_mgpu_sim.Emu.Sop1.Reverse.{run_s_brev_b32-twice}
use sampled_mgpu_sim.Emu.Sopp.{run_sopp}
use sampled_mgpu_sim.Emu.Sopp.Branch.{IsBranch, sopp_implements, run_sopp-IsBranch}
use sampled_mgpu_sim.Emu.Sopc.{run_sopc}
use sampled_mgpu_sim.Emu.Sopc.Tests.{IsTest, sopc_implements, run_sopc-IsTest}
use sampled_mgpu_sim.Emu.Sdwa.{sdwa_src_select, sdwa_dst_select, byte2, pad}
use sampled_mgpu_sim.Emu.Sdwa.Fields.{offset, width, select-field}
use sampled_mgpu_sim.Prelude.Words.{sub_word}

-- Positive floats, which are ordered as their bits are.
abbrev positive_floats : Comparisons
positive_floats = record { less = ltb; less_equal = leb; equal = λ a b. a == b }

-- The first three lanes are on; lane 1 has the greater first operand.
abbrev lanes : VopcLayout
lanes = record { exec = 7; vcc = 0; src0 = λ lane. if lane == 1 then 9 else 4; src1 = λ lane. 5 }

run_vopc-IsCompared_example :
    Outcome
      (vopc_implements 0xC9)
      (IsCompared lanes (vopc_relation positive_floats 0xC9))
      (run_vopc positive_floats 0xC9 lanes)
run_vopc-IsCompared_example =
    run_vopc-IsCompared positive_floats 0xC9 lanes (λ e lane. (ground arith, omega arith))

less_than : run_vopc positive_floats 0xC9 lanes ≡ some (record lanes { vcc = 5 })
unfolding run_vopc run_v_cmp_lt_u32 compare_lanes compare_below lane_masked
less_than = refl

halves-words_example :
    ((add_high 0x1ffffffff 1 0).dst * 2 ^ 32 + (add_low 0x1ffffffff 1 0).dst
      ≡ (0x1ffffffff + 1) % 2 ^ 64)
    × (((◌≡◌ {A = ℕ} 0 0) ⊎ (0x1ffffffff % 2 ^ 32 < 1 % 2 ^ 32)) ↔ (
        ((sub_high 0x1ffffffff 1 0).dst % 2 ^ 32 * 2 ^ 32 + (sub_low 0x1ffffffff 1 0).dst % 2 ^ 32
          ≡ sub_word 64 0x1ffffffff 1)
        × ((sub_high 0x1ffffffff 1 0).scc ≡ (if ltb 0x1ffffffff 1 then 1 else 0))))
halves-words_example = halves-words 0x1ffffffff 1 0 (omega arith) (omega arith) (omega arith)

run_s_addc_u32-carry_example :
    ((run_s_addc_u32 (half 0xffffffff 0 0)).scc ≡ (0xffffffff + 0 + 0) / 2 ^ 32)
    ↔ ((0xffffffff + 0 + 0 ≢ 2 ^ 32 - 1) × ((0 + 0 ≢ 2 ^ 32) ⊎ (0xffffffff ≡ 2 ^ 32 - 1)))
run_s_addc_u32-carry_example =
    run_s_addc_u32-carry 0xffffffff 0 0 (omega arith) (omega arith) (omega arith)

-- No carry leaves this sum, and the code sets one.
carry_of_ones : (run_s_addc_u32 (half 0xffffffff 0 0)).scc ≡ 1
unfolding run_s_addc_u32
carry_of_ones = refl

-- 5 - 9 below zero, with the overflow code of the signed subtraction.
run_sop2-IsArithmetic_example :
    (after : Sop2Layout) × (run_sop2 3 (half 5 9 1) ≡ some after)
    × IsArithmetic 3 (half 5 9 1) after
run_sop2-IsArithmetic_example =
    run_sop2-IsArithmetic 3 (half 5 9 1) (omega arith) (omega arith) (omega arith) (omega arith)

abbrev mask : Sop1Layout
mask = record { src0 = 12; dst = 0; exec = 10; scc = 0; pc = 64 }

run_sop1-IsSaved_example :
    (after : Sop1Layout) × (run_sop1 35 mask ≡ some after) × IsSaved 35 mask after
run_sop1-IsSaved_example =
    run_sop1-IsSaved 35 mask (omega arith) (omega arith) (omega arith) (omega arith)

run_s_brev_b32-twice_example :
    ((run_s_brev_b32 mask).dst < 2 ^ 32)
    × ((j : ℕ) → j < 32 → bit ((run_s_brev_b32 mask).dst) j ≡ bit (12 % 2 ^ 32) (31 - j))
    × ((run_s_brev_b32 (record mask { src0 = (run_s_brev_b32 mask).dst })).dst ≡ 12 % 2 ^ 32)
run_s_brev_b32-twice_example = run_s_brev_b32-twice mask

abbrev program : SoppLayout
program = record { exec = 1; pc = 0x1000; imm = 0xfffe; scc = 1; vcc = 0 }

run_sopp-IsBranch_example : Outcome (sopp_implements 5) (IsBranch 5 program) (run_sopp 5 program)
run_sopp-IsBranch_example = run_sopp-IsBranch 5 program (omega arith)

abbrev minus_one : SopcLayout
minus_one = record { src0 = 0xffffffff; src1 = 1; scc = 0 }

run_sopc-IsTest_example : Outcome (sopc_implements 4) (IsTest 4 minus_one) (run_sopc 4 minus_one)
run_sopc-IsTest_example = run_sopc-IsTest 4 minus_one

select-field_example :
    (sdwa_src_select 0x12345678 byte2 ≡ 0x12345678 / 2 ^ offset byte2 % 2 ^ width byte2)
    × (sdwa_dst_select 0 0x12345678 byte2 pad ≡ 0x12345678 % 2 ^ width byte2 * 2 ^ offset byte2)
    × (sdwa_src_select (sdwa_dst_select 0 0x12345678 byte2 pad) byte2
        ≡ 0x12345678 % 2 ^ width byte2)
select-field_example = select-field 0 pad 0x12345678 byte2 (omega arith)

run_sop2-IsBitwise_example :
    (after : Sop2Layout) × (run_sop2 19 (half 12 10 1) ≡ some after)
    × IsBitwise 19 (half 12 10 1) after
unfolding sop2_implements
run_sop2-IsBitwise_example =
    run_sop2-IsBitwise 19 (half 12 10 1) (omega arith) (omega arith) refl (omega arith)

abbrev immediate : SopkLayout
immediate = record { dst = 5; imm = 0xfffe; scc = 0 }
