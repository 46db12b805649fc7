-- ===== src/Emu/Vopc.antt =====
-- The vector comparisons (emu/aluvopc.go). The comparisons of Go's `float32` are a parameter, on the
-- bits of the numbers; `x > y` is `y < x` there.
pub mod Relation
pub mod Cases
use sampled_mgpu_sim.Prelude.{
  ℕ, zero, suc, ◌+◌, ◌-◌, ◌*◌, ◌/◌, ◌%◌, ◌^◌, ◌≤◌, ◌<◌, min, max, ◌≡◌, refl, sym, ap, ap₂, subst,
  ◌≢◌, ◌↔◌, ◌⊎◌, inl, inr, Bool, true, false, not, ◌&&◌, ◌||◌, Option, none, some, List, [], ◌∷◌,
  map, arith, ltb, leb, ◌==◌, if◌then◌else◌, Bool-cases, Option-cases, ltb→lt, ltb-false, lt→ltb,
  le→leb, leb→le, ==_iff, ==_refl, ◌>>=◌, length, get_elem?, set, All,
}
use sampled_mgpu_sim.Prelude.Int.{ℤ, ltb_ℤ, leb_ℤ, ◌==ℤ◌}
use sampled_mgpu_sim.Emu.Layout.{VopcLayout, as_int32}
use sampled_mgpu_sim.Emu.Lanes.{compare_lanes, clear_below}
use sampled_mgpu_sim.Emu.Switch.{switch}

-- The three comparisons of a type of operands.
pub record Comparisons : Type 0 where
  pub less : ℕ → ℕ → Bool
  pub less_equal : ℕ → ℕ → Bool
  pub equal : ℕ → ℕ → Bool

module _ (floats : Comparisons) where
  unfoldable pub run_v_cmp_lt_f32 : VopcLayout → VopcLayout
  run_v_cmp_lt_f32 sp = compare_lanes sp (λ a b. floats.less (a % 2 ^ 32) (b % 2 ^ 32))

  unfoldable pub run_v_cmp_eq_f32 : VopcLayout → VopcLayout
  run_v_cmp_eq_f32 sp = compare_lanes sp (λ a b. floats.equal (a % 2 ^ 32) (b % 2 ^ 32))

  unfoldable pub run_v_cmp_le_f32 : VopcLayout → VopcLayout
  run_v_cmp_le_f32 sp = compare_lanes sp (λ a b. floats.less_equal (a % 2 ^ 32) (b % 2 ^ 32))

  unfoldable pub run_v_cmp_gt_f32 : VopcLayout → VopcLayout
  run_v_cmp_gt_f32 sp = compare_lanes sp (λ a b. floats.less (b % 2 ^ 32) (a % 2 ^ 32))

  unfoldable pub run_v_cmp_lg_f32 : VopcLayout → VopcLayout
  run_v_cmp_lg_f32 sp = compare_lanes sp (λ a b. not (floats.equal (a % 2 ^ 32) (b % 2 ^ 32)))

  unfoldable pub run_v_cmp_ge_f32 : VopcLayout → VopcLayout
  run_v_cmp_ge_f32 sp = compare_lanes sp (λ a b. floats.less_equal (b % 2 ^ 32) (a % 2 ^ 32))

  unfoldable pub run_v_cmp_nge_f32 : VopcLayout → VopcLayout
  run_v_cmp_nge_f32 sp = compare_lanes sp (λ a b. not (floats.less_equal (b % 2 ^ 32) (a % 2 ^ 32)))

  unfoldable pub run_v_cmp_nlg_f32 : VopcLayout → VopcLayout
  run_v_cmp_nlg_f32 sp =
      compare_lanes sp (λ a b. not (not (floats.equal (a % 2 ^ 32) (b % 2 ^ 32))))

  unfoldable pub run_v_cmp_ngt_f32 : VopcLayout → VopcLayout
  run_v_cmp_ngt_f32 sp = compare_lanes sp (λ a b. not (floats.less (b % 2 ^ 32) (a % 2 ^ 32)))

  unfoldable pub run_v_cmp_nle_f32 : VopcLayout → VopcLayout
  run_v_cmp_nle_f32 sp = compare_lanes sp (λ a b. not (floats.less_equal (a % 2 ^ 32) (b % 2 ^ 32)))

  unfoldable pub run_v_cmp_neq_f32 : VopcLayout → VopcLayout
  run_v_cmp_neq_f32 sp = compare_lanes sp (λ a b. not (floats.equal (a % 2 ^ 32) (b % 2 ^ 32)))

  unfoldable pub run_v_cmp_nlt_f32 : VopcLayout → VopcLayout
  run_v_cmp_nlt_f32 sp = compare_lanes sp (λ a b. not (floats.less (a % 2 ^ 32) (b % 2 ^ 32)))

unfoldable pub run_v_cmp_lt_i32 : VopcLayout → VopcLayout
run_v_cmp_lt_i32 sp =
    compare_lanes sp (λ a b. ltb_ℤ (as_int32 (a % 2 ^ 32)) (as_int32 (b % 2 ^ 32)))

unfoldable pub run_v_cmp_le_i32 : VopcLayout → VopcLayout
run_v_cmp_le_i32 sp =
    compare_lanes sp (λ a b. leb_ℤ (as_int32 (a % 2 ^ 32)) (as_int32 (b % 2 ^ 32)))

unfoldable pub run_v_cmp_gt_i32 : VopcLayout → VopcLayout
run_v_cmp_gt_i32 sp =
    compare_lanes sp (λ a b. ltb_ℤ (as_int32 (b % 2 ^ 32)) (as_int32 (a % 2 ^ 32)))

unfoldable pub run_v_cmp_lg_i32 : VopcLayout → VopcLayout
run_v_cmp_lg_i32 sp =
    compare_lanes sp (λ a b. not (as_int32 (a % 2 ^ 32) ==ℤ as_int32 (b % 2 ^ 32)))

unfoldable pub run_v_cmp_ge_i32 : VopcLayout → VopcLayout
run_v_cmp_ge_i32 sp =
    compare_lanes sp (λ a b. leb_ℤ (as_int32 (b % 2 ^ 32)) (as_int32 (a % 2 ^ 32)))

unfoldable pub run_v_cmp_lt_u32 : VopcLayout → VopcLayout
run_v_cmp_lt_u32 sp = compare_lanes sp (λ a b. ltb a b)

unfoldable pub run_v_cmp_eq_u32 : VopcLayout → VopcLayout
run_v_cmp_eq_u32 sp = compare_lanes sp (λ a b. (a % 2 ^ 32) == (b % 2 ^ 32))

unfoldable pub run_v_cmp_le_u32 : VopcLayout → VopcLayout
run_v_cmp_le_u32 sp = compare_lanes sp (λ a b. leb a b)

unfoldable pub run_v_cmp_gt_u32 : VopcLayout → VopcLayout
run_v_cmp_gt_u32 sp = compare_lanes sp (λ a b. ltb b a)

unfoldable pub run_v_cmp_ne_u32 : VopcLayout → VopcLayout
run_v_cmp_ne_u32 sp = compare_lanes sp (λ a b. not (a == b))

unfoldable pub run_v_cmp_ge_u32 : VopcLayout → VopcLayout
run_v_cmp_ge_u32 sp = compare_lanes sp (λ a b. leb b a)

unfoldable pub run_v_cmp_f_u64 : VopcLayout → VopcLayout
run_v_cmp_f_u64 sp = record sp { vcc = clear_below sp 64 }

unfoldable pub run_v_cmp_lt_u64 : VopcLayout → VopcLayout
run_v_cmp_lt_u64 sp = compare_lanes sp (λ a b. ltb a b)

unfoldable pub run_v_cmp_eq_u64 : VopcLayout → VopcLayout
run_v_cmp_eq_u64 sp = compare_lanes sp (λ a b. a == b)

unfoldable pub run_v_cmp_le_u64 : VopcLayout → VopcLayout
run_v_cmp_le_u64 sp = compare_lanes sp (λ a b. leb a b)

unfoldable pub run_v_cmp_gt_u64 : VopcLayout → VopcLayout
run_v_cmp_gt_u64 sp = compare_lanes sp (λ a b. ltb b a)

unfoldable pub run_v_cmp_lg_u64 : VopcLayout → VopcLayout
run_v_cmp_lg_u64 sp = compare_lanes sp (λ a b. not (a == b))

unfoldable pub run_v_cmp_ge_u64 : VopcLayout → VopcLayout
run_v_cmp_ge_u64 sp = compare_lanes sp (λ a b. leb b a)

unfoldable pub run_v_cmp_tru_u64 : VopcLayout → VopcLayout
run_v_cmp_tru_u64 sp = compare_lanes sp (λ a b. true)

abbrev pub vopc_cases : Comparisons → List (ℕ × (VopcLayout → VopcLayout))
vopc_cases floats =
    (0x41, run_v_cmp_lt_f32 floats)
    ∷ (0x42, run_v_cmp_eq_f32 floats)
    ∷ (0x43, run_v_cmp_le_f32 floats)
    ∷ (0x44, run_v_cmp_gt_f32 floats)
    ∷ (0x45, run_v_cmp_lg_f32 floats)
    ∷ (0x46, run_v_cmp_ge_f32 floats)
    ∷ (0x49, run_v_cmp_nge_f32 floats)
    ∷ (0x4a, run_v_cmp_nlg_f32 floats)
    ∷ (0x4b, run_v_cmp_ngt_f32 floats)
    ∷ (0x4c, run_v_cmp_nle_f32 floats)
    ∷ (0x4d, run_v_cmp_neq_f32 floats)
    ∷ (0x4e, run_v_cmp_nlt_f32 floats)
    ∷ (0xc1, run_v_cmp_lt_i32)
    ∷ (0xc3, run_v_cmp_le_i32)
    ∷ (0xc4, run_v_cmp_gt_i32)
    ∷ (0xc5, run_v_cmp_lg_i32)
    ∷ (0xc6, run_v_cmp_ge_i32)
    ∷ (0xc9, run_v_cmp_lt_u32)
    ∷ (0xca, run_v_cmp_eq_u32)
    ∷ (0xcb, run_v_cmp_le_u32)
    ∷ (0xcc, run_v_cmp_gt_u32)
    ∷ (0xcd, run_v_cmp_ne_u32)
    ∷ (0xce, run_v_cmp_ge_u32)
    ∷ (0xe8, run_v_cmp_f_u64)
    ∷ (0xe9, run_v_cmp_lt_u64)
    ∷ (0xea, run_v_cmp_eq_u64)
    ∷ (0xeb, run_v_cmp_le_u64)
    ∷ (0xec, run_v_cmp_gt_u64)
    ∷ (0xed, run_v_cmp_lg_u64)
    ∷ (0xee, run_v_cmp_ge_u64)
    ∷ (0xef, run_v_cmp_tru_u64)
    ∷ []

-- `none` for an opcode that is not implemented.
unfoldable pub run_vopc : Comparisons → ℕ → VopcLayout → Option VopcLayout
run_vopc floats opcode sp = do handler ← switch opcode (vopc_cases floats); some (handler sp)
