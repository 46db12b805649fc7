-- ===== src/Emu/Sopc/Tests.antt =====
-- The scalar comparisons against the relation of their type and condition.
use sampled_mgpu_sim.Prelude.{
  ℕ, ◌%◌, ◌^◌, ◌≤◌, ◌<◌, ◌≡◌, refl, Bool, false, not, ◌&&◌, arith, ltb, leb, ◌==◌, if◌then◌else◌,
  All,
}
use sampled_mgpu_sim.Prelude.Int.{◌==ℤ◌}
use sampled_mgpu_sim.Emu.Layout.{SopcLayout, as_int32}
use sampled_mgpu_sim.Emu.Switch.{Outcome, run-Outcome, is_case, is_case-implements}
use sampled_mgpu_sim.Emu.Vopc.Relation.{relation, signed_32, unsigned}
use sampled_mgpu_sim.Emu.Sopc.{
  set_test, sopc_cases, run_sopc, run_s_cmp_gt_i32, run_s_cmp_lt_i32, run_s_cmp_le_i32,
  run_s_cmp_ge_i32, run_s_cmp_eq_u32, run_s_cmp_lg_u32, run_s_cmp_gt_u32, run_s_cmp_lt_u32,
}

-- The conditions in the order of the scalar opcodes, by their numbers in the vector opcodes.
abbrev pub condition : ℕ → ℕ
condition place =
    if place == 0
    then 2
    else if place == 1
    then 5
    else if place == 2
    then 4
    else if place == 3
    then 6
    else if place == 4
    then 1
    else 3

-- Six comparisons of signed words, then six of unsigned ones.
unfoldable pub sopc_relation : ℕ → ℕ → ℕ → Bool
sopc_relation opcode a b =
    relation (if ltb opcode 6 then signed_32 else unsigned) (condition (opcode % 6)) (a % 2 ^ 32)
      (b % 2 ^ 32)

unfoldable pub sopc_implements : ℕ → Bool
sopc_implements opcode = leb opcode 10 && not (opcode == 9)

sopc_cases-implements : (opcode : ℕ) → is_case opcode sopc_cases ≡ sopc_implements opcode
unfolding sopc_implements
sopc_cases-implements opcode =
    is_case-implements sopc_cases sopc_implements 11 refl refl above opcode
  where
    above : (opcode : ℕ) → 11 ≤ opcode → sopc_implements opcode ≡ false
    above opcode h = ground arith

-- Signed words are equal where their bits are.
as_int32-eq : (a b : ℕ) → a < 2 ^ 32 → b < 2 ^ 32 → (as_int32 a ==ℤ as_int32 b) ≡ (a == b)
as_int32-eq a b h l = ground arith

-- Signed comparison both ways round.
not-less : (a b : ℕ) → not (ltb a b) ≡ leb b a
not-less a b = ground arith

abbrev pub IsTest : ℕ → SopcLayout → SopcLayout → Type 0
IsTest opcode sp after =
    after ≡ record sp { scc = if sopc_relation opcode (sp.src0) (sp.src1) then 1 else 0 }

sopc_cases-IsTest : (sp : SopcLayout) → All (λ c. IsTest (c.0) sp (c.1 sp)) sopc_cases
unfolding sopc_relation relation set_test run_s_cmp_gt_i32 run_s_cmp_lt_i32 run_s_cmp_le_i32
    run_s_cmp_ge_i32 run_s_cmp_eq_u32 run_s_cmp_lg_u32 run_s_cmp_gt_u32 run_s_cmp_lt_u32
sopc_cases-IsTest sp =
    let equal = as_int32-eq (sp.src0 % 2 ^ 32) (sp.src1 % 2 ^ 32) (omega arith) (omega arith) in
    (
      rw equal refl,
      (
        rw equal refl,
        (
          refl,
          (
            rw (not-less _ _) refl,
            (refl, (rw (not-less _ _) refl, (refl, (refl, (refl, (refl, tt)))))),
          ),
        ),
      ),
    )

-- An opcode that is not implemented is refused. Each other one sets `SCC` to 1 where the low 32
-- bits of the operands, as signed or unsigned numbers, are related as the opcode says, and to 0
-- elsewhere; nothing else changes.
pub run_sopc-IsTest :
    (opcode : ℕ) (sp : SopcLayout)
    → Outcome (sopc_implements opcode) (IsTest opcode sp) (run_sopc opcode sp)
unfolding run_sopc
run_sopc-IsTest opcode sp =
    run-Outcome (λ o. IsTest o sp) sopc_cases sopc_implements sp sopc_cases-implements
      (sopc_cases-IsTest sp) opcode
