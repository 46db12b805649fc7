-- ===== src/Emu/Sopp/Branch.antt =====
-- Where the branches lead.
use sampled_mgpu_sim.Prelude.{
  ℕ, ◌+◌, ◌-◌, ◌*◌, ◌%◌, ◌^◌, ◌≤◌, ◌<◌, ◌≡◌, refl, ◌∙◌, sym, ap, subst, ◌≢◌, Bool, true, false, not,
  ◌&&◌, ◌||◌, arith, ltb, leb, ◌==◌, if◌then◌else◌, All,
}
use sampled_mgpu_sim.Prelude.Int.{pos, ◌+ℤ◌, ◌*ℤ◌}
use sampled_mgpu_sim.Prelude.Bits.Field.{bit_and-ones}
use sampled_mgpu_sim.Emu.Layout.{SoppLayout, as_int16, as_int64, int64_to_bits}
use sampled_mgpu_sim.Emu.Sopk.{imm16}
use sampled_mgpu_sim.Emu.Switch.{Outcome, run-Outcome, is_case, is_case-implements}
use sampled_mgpu_sim.Emu.Sopp.{
  jump, sopp_cases, run_sopp, run_s_nop, run_s_cbranch, run_s_cbranch_scc0, run_s_cbranch_scc1,
  run_s_cbranch_vccz, run_s_cbranch_vccnz, run_s_cbranch_execz, run_s_cbranch_execnz,
}

-- Four bytes for each of the instructions that a 16-bit two's complement number counts, modulo
-- 2 ^ 64: 2 ^ 16 of them are 2 ^ 18 bytes.
unfoldable pub branch_target : (pc imm : ℕ) → ℕ
branch_target pc imm =
    if ltb imm (2 ^ 15)
    then (pc + 4 * imm) % 2 ^ 64
    else (pc + (2 ^ 64 - 2 ^ 18) + 4 * imm) % 2 ^ 64

sum-target :
    (pc imm : ℕ)
    → pc < 2 ^ 64
    → imm < 2 ^ 16
    → int64_to_bits (as_int64 pc +ℤ as_int16 imm *ℤ pos 4) ≡ branch_target pc imm
unfolding branch_target ◌+ℤ◌ ◌*ℤ◌
sum-target pc imm h l = ground arith

pub jump-target :
    (sp : SoppLayout)
    → sp.pc < 2 ^ 64
    → jump sp ≡ record sp { pc = branch_target (sp.pc) (sp.imm % 2 ^ 16) }
unfolding jump imm16
jump-target sp h =
    rw (bit_and-ones 16 (sp.imm), sum-target (sp.pc) (sp.imm % 2 ^ 16 % 2 ^ 16) h (omega arith))
      (ap (λ imm. record sp { pc = branch_target (sp.pc) imm }) (omega arith))

-- Whether an instruction branches.
unfoldable pub takes : ℕ → SoppLayout → Bool
takes opcode sp =
    if opcode == 2
    then true
    else if opcode == 4
    then sp.scc == 0
    else if opcode == 5
    then sp.scc == 1
    else if opcode == 6
    then sp.vcc == 0
    else if opcode == 7
    then not (sp.vcc == 0)
    else if opcode == 8
    then sp.exec == 0
    else if opcode == 9
    then not (sp.exec == 0)
    else false

unfoldable pub sopp_implements : ℕ → Bool
sopp_implements opcode =
    opcode == 0 || opcode == 2 || (leb 4 opcode && leb opcode 9) || opcode == 12

sopp_cases-implements : (opcode : ℕ) → is_case opcode sopp_cases ≡ sopp_implements opcode
unfolding sopp_implements
sopp_cases-implements opcode =
    is_case-implements sopp_cases sopp_implements 13 refl refl above opcode
  where
    above : (opcode : ℕ) → 13 ≤ opcode → sopp_implements opcode ≡ false
    above opcode h = ground arith

abbrev pub IsBranch : ℕ → SoppLayout → SoppLayout → Type 0
IsBranch opcode sp after =
    after
    ≡ (if takes opcode sp then record sp { pc = branch_target (sp.pc) (sp.imm % 2 ^ 16) } else sp)

module _ (sp : SoppLayout) (h : sp.pc < 2 ^ 64) where
  here : SoppLayout
  here = record sp { pc = branch_target (sp.pc) (sp.imm % 2 ^ 16) }

  turn : (test : Bool) → (if test then jump sp else sp) ≡ (if test then here else sp)
  unfolding here
  turn test = rw (jump-target sp h) refl

  stay : (test : Bool) → (if test then sp else jump sp) ≡ (if not test then here else sp)
  unfolding here
  stay true = refl
  stay false = jump-target sp h

  sopp_cases-IsBranch : All (λ c. IsBranch (c.0) sp (c.1 sp)) sopp_cases
  unfolding here takes run_s_nop run_s_cbranch run_s_cbranch_scc0 run_s_cbranch_scc1
      run_s_cbranch_vccz run_s_cbranch_vccnz run_s_cbranch_execz run_s_cbranch_execnz
  sopp_cases-IsBranch = (
    refl,
    (jump-target sp h, (turn _, (turn _, (turn _, (stay _, (turn _, (stay _, (refl, tt)))))))),
  )

-- With a 64-bit program counter, an opcode that is not implemented is refused. Each other one
-- changes nothing but the program counter, and that only where its condition on `SCC`, `VCC` or
-- `EXEC` holds: then it moves by four bytes for each instruction of the signed 16-bit immediate.
pub run_sopp-IsBranch :
    (opcode : ℕ) (sp : SoppLayout)
    → sp.pc < 2 ^ 64
    → Outcome (sopp_implements opcode) (IsBranch opcode sp) (run_sopp opcode sp)
unfolding run_sopp
run_sopp-IsBranch opcode sp h =
    run-Outcome (λ o. IsBranch o sp) sopp_cases sopp_implements sp sopp_cases-implements
      (sopp_cases-IsBranch sp h) opcode

target-back :
    (pc imm : ℕ)
    → pc < 2 ^ 64
    → imm < 2 ^ 16
    → imm ≢ 0
    → imm ≢ 2 ^ 15
    → branch_target (branch_target pc imm) (2 ^ 16 - imm) ≡ pc
unfolding branch_target
target-back pc imm h small some_imm no_min = ground arith

target-lt : (pc imm : ℕ) → branch_target pc imm < 2 ^ 64
unfolding branch_target
target-lt pc imm = ground arith

jump-pc :
    (sp : SoppLayout)
    → sp.pc < 2 ^ 64
    → sp.imm < 2 ^ 16
    → (jump sp).pc ≡ branch_target (sp.pc) (sp.imm)
jump-pc sp h small =
    ap (λ (after : SoppLayout). after.pc) (jump-target sp h)
    ∙ ap (branch_target (sp.pc)) (omega arith)

-- A branch by an immediate other than 0 and -2 ^ 15, and then one by the negated immediate, leads
-- back to the program counter.
branch-back :
    (sp : SoppLayout)
    → sp.pc < 2 ^ 64
    → sp.imm < 2 ^ 16
    → sp.imm ≢ 0
    → sp.imm ≢ 2 ^ 15
    → (run_s_cbranch (record (run_s_cbranch sp) { imm = 2 ^ 16 - sp.imm })).pc ≡ sp.pc
unfolding run_s_cbranch
branch-back sp h small some_imm no_min =
    let next : SoppLayout = record (jump sp) { imm = 2 ^ 16 - sp.imm } in
    let there = jump-pc sp h small in
    jump-pc next (subst (λ p. p < 2 ^ 64) (sym there) (target-lt (sp.pc) (sp.imm))) (omega arith)
    ∙ rw there (target-back (sp.pc) (sp.imm) h small some_imm no_min)
