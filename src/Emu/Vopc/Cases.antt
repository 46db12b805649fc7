-- ===== src/Emu/Vopc/Cases.antt =====
-- Each vector comparison computes its relation in the lanes that are on.
use sampled_mgpu_sim.Prelude.{
  ℕ, zero, suc, ◌/◌, ◌%◌, ◌≤◌, ◌<◌, ◌≡◌, refl, sym, ap, subst, inl, inr, Bool, true, false, not,
  ◌&&◌, ◌||◌, arith, leb, ◌==◌, if◌then◌else◌, lt→ltb, All,
}
use sampled_mgpu_sim.Prelude.Bits.{bit}
use sampled_mgpu_sim.Emu.Layout.{VopcLayout}
use sampled_mgpu_sim.Emu.Lanes.{compare_below, compare_lanes}
use sampled_mgpu_sim.Emu.Lanes.Vcc.{
  compare_below-lt, bit-compare_below, clear_below-zero, lane_masked-bit,
}
use sampled_mgpu_sim.Emu.Switch.{Outcome, run-Outcome, is_case, is_case-implements}
use sampled_mgpu_sim.Emu.Vopc.Relation.{relation, vopc_relation, Fits, IsCompared}
use sampled_mgpu_sim.Emu.Vopc.{
  Comparisons, vopc_cases, run_vopc, run_v_cmp_lt_f32, run_v_cmp_eq_f32, run_v_cmp_le_f32,
  run_v_cmp_gt_f32, run_v_cmp_lg_f32, run_v_cmp_ge_f32, run_v_cmp_nge_f32, run_v_cmp_nlg_f32,
  run_v_cmp_ngt_f32, run_v_cmp_nle_f32, run_v_cmp_neq_f32, run_v_cmp_nlt_f32, run_v_cmp_lt_i32,
  run_v_cmp_le_i32, run_v_cmp_gt_i32, run_v_cmp_lg_i32, run_v_cmp_ge_i32, run_v_cmp_lt_u32,
  run_v_cmp_eq_u32, run_v_cmp_le_u32, run_v_cmp_gt_u32, run_v_cmp_ne_u32, run_v_cmp_ge_u32,
  run_v_cmp_f_u64, run_v_cmp_lt_u64, run_v_cmp_eq_u64, run_v_cmp_le_u64, run_v_cmp_gt_u64,
  run_v_cmp_lg_u64, run_v_cmp_ge_u64, run_v_cmp_tru_u64,
}

with_vcc : VopcLayout → ℕ → VopcLayout
with_vcc sp vcc = record sp { vcc = vcc }

module _ (sp : VopcLayout) where
  compare_below-false : (n : ℕ) → compare_below sp (λ a b. false) n ≡ 0
  unfolding compare_below
  compare_below-false zero = refl
  compare_below-false (suc n) = ground (arith, compare_below-false n)

  compare_below-agree :
      (f g : ℕ → ℕ → Bool)
      → ((lane : ℕ) → f (sp.src0 lane) (sp.src1 lane) ≡ g (sp.src0 lane) (sp.src1 lane))
      → (n : ℕ) → compare_below sp f n ≡ compare_below sp g n
  unfolding compare_below
  compare_below-agree f g same zero = refl
  compare_below-agree f g same (suc n) = rw (same n, compare_below-agree f g same n) refl

-- Each case does what its opcode says.
IsRelated : Comparisons → VopcLayout → ℕ → VopcLayout → Type 0
IsRelated floats sp opcode after =
    Fits opcode sp → after ≡ compare_lanes sp (vopc_relation floats opcode)

vopc_cases-IsRelated :
    (floats : Comparisons) (sp : VopcLayout)
    → All (λ c. IsRelated floats sp (c.0) (c.1 sp)) (vopc_cases floats)
unfolding IsRelated with_vcc compare_lanes vopc_relation relation run_v_cmp_lt_f32 run_v_cmp_eq_f32
    run_v_cmp_le_f32 run_v_cmp_gt_f32 run_v_cmp_lg_f32 run_v_cmp_ge_f32 run_v_cmp_nge_f32
    run_v_cmp_nlg_f32 run_v_cmp_ngt_f32 run_v_cmp_nle_f32 run_v_cmp_neq_f32 run_v_cmp_nlt_f32
    run_v_cmp_lt_i32 run_v_cmp_le_i32 run_v_cmp_gt_i32 run_v_cmp_lg_i32 run_v_cmp_ge_i32
    run_v_cmp_lt_u32 run_v_cmp_eq_u32 run_v_cmp_le_u32 run_v_cmp_gt_u32 run_v_cmp_ne_u32
    run_v_cmp_ge_u32 run_v_cmp_f_u64 run_v_cmp_lt_u64 run_v_cmp_eq_u64 run_v_cmp_le_u64
    run_v_cmp_gt_u64 run_v_cmp_lg_u64 run_v_cmp_ge_u64 run_v_cmp_tru_u64
vopc_cases-IsRelated floats sp = (
  (λ fits. refl),
  (
    (λ fits. refl),
    (
      (λ fits. refl),
      (
        (λ fits. refl),
        (
          (λ fits. refl),
          (
            (λ fits. refl),
            (
              (λ fits. refl),
              (
                (λ fits. refl),
                (
                  (λ fits. refl),
                  (
                    (λ fits. refl),
                    (
                      (λ fits. refl),
                      (
                        (λ fits. refl),
                        (
                          (λ fits. refl),
                          (
                            (λ fits. refl),
                            (
                              (λ fits. refl),
                              (
                                (λ fits. refl),
                                (
                                  (λ fits. refl),
                                  (
                                    (λ fits. ap (with_vcc sp) (
                                        compare_below-agree sp _ _
                                          (λ lane. ground (arith, fits refl lane)) 64)),
                                    (
                                      (λ fits. ap (with_vcc sp) (
                                          compare_below-agree sp _ _
                                            (λ lane. ground (arith, fits refl lane)) 64)),
                                      (
                                        (λ fits. ap (with_vcc sp) (
                                            compare_below-agree sp _ _
                                              (λ lane. ground (arith, fits refl lane)) 64)),
                                        (
                                          (λ fits. ap (with_vcc sp) (
                                              compare_below-agree sp _ _
                                                (λ lane. ground (arith, fits refl lane)) 64)),
                                          (
                                            (λ fits. ap (with_vcc sp) (
                                                compare_below-agree sp _ _
                                                  (λ lane. ground (arith, fits refl lane)) 64)),
                                            (
                                              (λ fits. ap (with_vcc sp) (
                                                  compare_below-agree sp _ _
                                                    (λ lane. ground (arith, fits refl lane)) 64)),
                                              (
                                                (λ fits.
                                                    rw
                                                      (
                                                        clear_below-zero sp 64,
                                                        compare_below-false sp 64,
                                                      )
                                                      refl),
                                                (
                                                  (λ fits. refl),
                                                  (
                                                    (λ fits. refl),
                                                    (
                                                      (λ fits. refl),
                                                      (
                                                        (λ fits. refl),
                                                        (
                                                          (λ fits. refl),
                                                          ((λ fits. refl), ((λ fits. refl), tt)),
                                                        ),
                                                      ),
                                                    ),
                                                  ),
                                                ),
                                              ),
                                            ),
                                          ),
                                        ),
                                      ),
                                    ),
                                  ),
                                ),
                              ),
                            ),
                          ),
                        ),
                      ),
                    ),
                  ),
                ),
              ),
            ),
          ),
        ),
      ),
    ),
  ),
)

compare_lanes-IsCompared :
    (sp : VopcLayout) (test : ℕ → ℕ → Bool) → IsCompared sp test (compare_lanes sp test)
unfolding compare_lanes
compare_lanes-IsCompared sp test = (refl, compare_below-lt sp test 64 (omega arith), bits)
  where
    bits :
        (lane : ℕ)
        → lane < 64
        → bit (compare_below sp test 64) lane
          ≡ (if (bit (sp.exec) lane == 1) && test (sp.src0 lane) (sp.src1 lane) then 1 else 0)
    bits lane h =
        rw
          (
            bit-compare_below sp test 64 lane (omega arith),
            lt→ltb lane 64 h,
            lane_masked-bit (sp.exec) lane h,
          )
          refl

-- The opcodes that are implemented: no false or true on 32-bit operands, and no = on signed ones.
unfoldable pub vopc_implements : ℕ → Bool
vopc_implements opcode =
    let family = opcode / 8 in
    let condition = opcode % 8 in
    let inner = leb 1 condition && leb condition 6 in
    if family == 24
    then inner && not (condition == 2)
    else if family == 29
    then true
    else inner && (family == 8 || family == 9 || family == 25)

vopc_cases-implements :
    (floats : Comparisons) (opcode : ℕ)
    → is_case opcode (vopc_cases floats) ≡ vopc_implements opcode
unfolding vopc_implements
vopc_cases-implements floats opcode =
    is_case-implements (vopc_cases floats) vopc_implements 256 refl refl above opcode
  where
    above : (opcode : ℕ) → 256 ≤ opcode → vopc_implements opcode ≡ false
    above opcode h = ground arith

-- An opcode that is not implemented is refused. Each other one gives a result, which differs from
-- the operands in `VCC` alone; `VCC` is a 64-bit word in which bit `lane` is 1 exactly where the
-- lane is on in `EXEC` and its operands are related as the opcode says. The operands of the
-- unsigned 32-bit comparisons have empty upper halves.
pub run_vopc-IsCompared :
    (floats : Comparisons) (opcode : ℕ) (sp : VopcLayout)
    → Fits opcode sp
    → Outcome
        (vopc_implements opcode)
        (IsCompared sp (vopc_relation floats opcode))
        (run_vopc floats opcode sp)
unfolding run_vopc IsRelated
run_vopc-IsCompared floats opcode sp fits =
    elim (run-Outcome (IsRelated floats sp) (vopc_cases floats) vopc_implements sp
      (vopc_cases-implements floats) (vopc_cases-IsRelated floats sp) opcode) [
        | inl refused ↦ inl refused
        | inr (implemented, after, run, related) ↦ inr (
          implemented,
          after,
          run,
          subst (IsCompared sp (vopc_relation floats opcode)) (sym (related fits))
              (compare_lanes-IsCompared sp (vopc_relation floats opcode)),
        )
      ]
