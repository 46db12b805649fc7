-- ===== src/Emu/Sopp.antt =====
-- The branches of the scalar program control (emu/alu.go).
pub mod Branch
use sampled_mgpu_sim.Prelude.{
  ℕ, zero, suc, ◌+◌, ◌-◌, ◌*◌, ◌/◌, ◌%◌, ◌^◌, ◌≤◌, ◌<◌, min, max, ◌≡◌, refl, sym, ap, ap₂, subst,
  ◌≢◌, ◌↔◌, ◌⊎◌, inl, inr, Bool, true, false, not, ◌&&◌, ◌||◌, Option, none, some, List, [], ◌∷◌,
  map, arith, ltb, leb, ◌==◌, if◌then◌else◌, Bool-cases, Option-cases, ltb→lt, ltb-false, lt→ltb,
  le→leb, leb→le, ==_iff, ==_refl, ◌>>=◌, length, get_elem?, set, All,
}
use sampled_mgpu_sim.Prelude.Int.{ℤ, pos, ◌+ℤ◌, ◌*ℤ◌}
use sampled_mgpu_sim.Emu.Layout.{SoppLayout, as_int64, int64_to_bits}
use sampled_mgpu_sim.Emu.Sopk.{imm16}
use sampled_mgpu_sim.Emu.Switch.{switch}

-- `sp.PC = uint64(int64(sp.PC) + int64(imm)*4)`; the sum that leaves an `int64` wraps around and
-- keeps its bits.
unfoldable pub jump : SoppLayout → SoppLayout
jump sp = record sp { pc = int64_to_bits (as_int64 (sp.pc) +ℤ imm16 (sp.imm) *ℤ pos 4) }

-- `S_NOP` and `S_WAITCNT`
unfoldable pub run_s_nop : SoppLayout → SoppLayout
run_s_nop sp = sp

unfoldable pub run_s_cbranch : SoppLayout → SoppLayout
run_s_cbranch sp = jump sp

unfoldable pub run_s_cbranch_scc0 : SoppLayout → SoppLayout
run_s_cbranch_scc0 sp = if sp.scc == 0 then jump sp else sp

unfoldable pub run_s_cbranch_scc1 : SoppLayout → SoppLayout
run_s_cbranch_scc1 sp = if sp.scc == 1 then jump sp else sp

unfoldable pub run_s_cbranch_vccz : SoppLayout → SoppLayout
run_s_cbranch_vccz sp = if sp.vcc == 0 then jump sp else sp

unfoldable pub run_s_cbranch_vccnz : SoppLayout → SoppLayout
run_s_cbranch_vccnz sp = if sp.vcc == 0 then sp else jump sp

unfoldable pub run_s_cbranch_execz : SoppLayout → SoppLayout
run_s_cbranch_execz sp = if sp.exec == 0 then jump sp else sp

unfoldable pub run_s_cbranch_execnz : SoppLayout → SoppLayout
run_s_cbranch_execnz sp = if sp.exec == 0 then sp else jump sp

abbrev pub sopp_cases : List (ℕ × (SoppLayout → SoppLayout))
sopp_cases =
    (0, run_s_nop)
    ∷ (2, run_s_cbranch)
    ∷ (4, run_s_cbranch_scc0)
    ∷ (5, run_s_cbranch_scc1)
    ∷ (6, run_s_cbranch_vccz)
    ∷ (7, run_s_cbranch_vccnz)
    ∷ (8, run_s_cbranch_execz)
    ∷ (9, run_s_cbranch_execnz)
    ∷ (12, run_s_nop)
    ∷ []

-- `none` for an opcode that is not implemented.
unfoldable pub run_sopp : ℕ → SoppLayout → Option SoppLayout
run_sopp opcode sp = do handler ← switch opcode sopp_cases; some (handler sp)
