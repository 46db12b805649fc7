-- ===== src/Emu/Sopc.antt =====
-- The scalar comparisons (emu/alusopc.go).
pub mod Tests
use sampled_mgpu_sim.Prelude.{
  ℕ, zero, suc, ◌+◌, ◌-◌, ◌*◌, ◌/◌, ◌%◌, ◌^◌, ◌≤◌, ◌<◌, min, max, ◌≡◌, refl, sym, ap, ap₂, subst,
  ◌≢◌, ◌↔◌, ◌⊎◌, inl, inr, Bool, true, false, not, ◌&&◌, ◌||◌, Option, none, some, List, [], ◌∷◌,
  map, arith, ltb, leb, ◌==◌, if◌then◌else◌, Bool-cases, Option-cases, ltb→lt, ltb-false, lt→ltb,
  le→leb, leb→le, ==_iff, ==_refl, ◌>>=◌, length, get_elem?, set, All,
}
use sampled_mgpu_sim.Prelude.Int.{ℤ, ltb_ℤ}
use sampled_mgpu_sim.Emu.Layout.{SopcLayout, as_int32}
use sampled_mgpu_sim.Emu.Switch.{switch}

-- `SCC` is 1 where the test holds and 0 elsewhere.
unfoldable pub set_test : SopcLayout → Bool → SopcLayout
set_test sp test = record sp { scc = if test then 1 else 0 }

unfoldable pub run_s_cmp_gt_i32 : SopcLayout → SopcLayout
run_s_cmp_gt_i32 sp =
    set_test sp (ltb_ℤ (as_int32 (sp.src1 % 2 ^ 32)) (as_int32 (sp.src0 % 2 ^ 32)))

unfoldable pub run_s_cmp_lt_i32 : SopcLayout → SopcLayout
run_s_cmp_lt_i32 sp =
    set_test sp (ltb_ℤ (as_int32 (sp.src0 % 2 ^ 32)) (as_int32 (sp.src1 % 2 ^ 32)))

unfoldable pub run_s_cmp_le_i32 : SopcLayout → SopcLayout
run_s_cmp_le_i32 sp =
    set_test sp (not (ltb_ℤ (as_int32 (sp.src1 % 2 ^ 32)) (as_int32 (sp.src0 % 2 ^ 32))))

unfoldable pub run_s_cmp_ge_i32 : SopcLayout → SopcLayout
run_s_cmp_ge_i32 sp =
    set_test sp (not (ltb_ℤ (as_int32 (sp.src0 % 2 ^ 32)) (as_int32 (sp.src1 % 2 ^ 32))))

unfoldable pub run_s_cmp_eq_u32 : SopcLayout → SopcLayout
run_s_cmp_eq_u32 sp = set_test sp (sp.src0 % 2 ^ 32 == sp.src1 % 2 ^ 32)

unfoldable pub run_s_cmp_lg_u32 : SopcLayout → SopcLayout
run_s_cmp_lg_u32 sp = set_test sp (not (sp.src0 % 2 ^ 32 == sp.src1 % 2 ^ 32))

unfoldable pub run_s_cmp_gt_u32 : SopcLayout → SopcLayout
run_s_cmp_gt_u32 sp = set_test sp (ltb (sp.src1 % 2 ^ 32) (sp.src0 % 2 ^ 32))

unfoldable pub run_s_cmp_lt_u32 : SopcLayout → SopcLayout
run_s_cmp_lt_u32 sp = set_test sp (ltb (sp.src0 % 2 ^ 32) (sp.src1 % 2 ^ 32))

abbrev pub sopc_cases : List (ℕ × (SopcLayout → SopcLayout))
sopc_cases =
    (0, run_s_cmp_eq_u32)
    ∷ (1, run_s_cmp_lg_u32)
    ∷ (2, run_s_cmp_gt_i32)
    ∷ (3, run_s_cmp_ge_i32)
    ∷ (4, run_s_cmp_lt_i32)
    ∷ (5, run_s_cmp_le_i32)
    ∷ (6, run_s_cmp_eq_u32)
    ∷ (7, run_s_cmp_lg_u32)
    ∷ (8, run_s_cmp_gt_u32)
    ∷ (10, run_s_cmp_lt_u32)
    ∷ []

-- `none` for an opcode that is not implemented.
unfoldable pub run_sopc : ℕ → SopcLayout → Option SopcLayout
run_sopc opcode sp = do handler ← switch opcode sopc_cases; some (handler sp)
