-- ===== src/Emu/Sop2/Arith.antt =====
-- The arithmetic instructions on 32-bit operands.
use sampled_mgpu_sim.Prelude.{
  ℕ, ◌+◌, ◌-◌, ◌/◌, ◌%◌, ◌^◌, ◌≤◌, ◌<◌, min, max, ◌≡◌, inl, inr, true, ◌||◌, some, arith, leb, ltb,
  ◌==◌, if◌then◌else◌, All,
}
use native.Mathlib.Nat.{mod-eq_of_lt}
use sampled_mgpu_sim.Prelude.Int.{ℤ, ◌-ℤ◌}
use sampled_mgpu_sim.Emu.Layout.{Sop2Layout, as_int32, int32_to_bits}
use sampled_mgpu_sim.Emu.Switch.{run-Outcome}
use sampled_mgpu_sim.Emu.Sop2.{
  sop2_cases, run_sop2, copy_low, run_s_add_u32, run_s_sub_u32, run_s_add_i32, run_s_sub_i32,
  run_s_addc_u32, run_s_subb_u32, run_s_min_i32, run_s_min_u32, run_s_max_i32, run_s_max_u32,
  run_s_cselect_b32,
}
use sampled_mgpu_sim.Emu.Sop2.Words.{sop2_implements, sop2_cases-implements}

-- A 32-bit word in the order of the signed numbers: the negative ones come first.
abbrev pub biased : ℕ → ℕ
biased x = (x + 2 ^ 31) % 2 ^ 32

-- The 32-bit result of each instruction.
unfoldable pub arithmetic : (opcode x y scc : ℕ) → ℕ
arithmetic opcode x y scc =
    if opcode == 0 || opcode == 2
    then (x + y) % 2 ^ 32
    else if opcode == 1 || opcode == 3
    then (x + 2 ^ 32 - y) % 2 ^ 32
    else if opcode == 4
    then (x + y + scc) % 2 ^ 32
    else if opcode == 5
    then (x + 2 ^ 33 - y - scc) % 2 ^ 32
    else if opcode == 6
    then if ltb (biased x) (biased y) then x else y
    else if opcode == 7
    then min x y
    else if opcode == 8
    then if ltb (biased x) (biased y) then y else x
    else if opcode == 9
    then max x y
    else if scc == 1
    then x
    else y

-- The condition code after it. The minimum and maximum, and the first subtraction, only ever set it; the
-- addition with carry sets it for sums from 2 ^ 32 - 1 on.
unfoldable pub condition : (opcode x y scc : ℕ) → ℕ
condition opcode x y scc =
    if opcode == 0 || opcode == 2
    then (x + y) / 2 ^ 32
    else if opcode == 1 || opcode == 7
    then if ltb x y then 1 else scc
    else if opcode == 3
    then if ltb (biased x + 2 ^ 31) (biased y) || leb (biased y + 2 ^ 31) (biased x) then 1 else 0
    else if opcode == 4
    then if y + scc == 2 ^ 32
      then if x == 2 ^ 32 - 1 then 1 else 0
      else if leb (2 ^ 32 - 1) (x + y + scc)
      then 1
      else 0
    else if opcode == 5
    then if ltb x (y + scc) then 1 else 0
    else if opcode == 6
    then if ltb (biased x) (biased y) then 1 else scc
    else if opcode == 8
    then if ltb (biased y) (biased x) then 1 else scc
    else if opcode == 9
    then if ltb y x then 1 else scc
    else scc

abbrev pub IsArithmetic : ℕ → Sop2Layout → Sop2Layout → Type 0
IsArithmetic opcode sp after =
    (after.dst % 2 ^ 32 ≡ arithmetic opcode (sp.src0) (sp.src1) (sp.scc))
    × (after.scc ≡ condition opcode (sp.src0) (sp.src1) (sp.scc))

as_int32-lt : (n : ℤ) → int32_to_bits n < 2 ^ 32
as_int32-lt n = ground arith

int32_to_bits-as_int32 : (x : ℕ) → x < 2 ^ 32 → int32_to_bits (as_int32 x) ≡ x
int32_to_bits-as_int32 x h = ground arith

bits_of_difference :
    (x y : ℕ)
    → x < 2 ^ 32
    → y < 2 ^ 32
    → int32_to_bits (as_int32 x -ℤ as_int32 y) ≡ (x + 2 ^ 32 - y) % 2 ^ 32
unfolding ◌-ℤ◌
bits_of_difference x y p q = ground arith

module _ (sp : Sop2Layout) (p : sp.src0 < 2 ^ 32) (q : sp.src1 < 2 ^ 32) (r : sp.scc < 2) where
  sub_i32-IsArithmetic : IsArithmetic 3 sp (run_s_sub_i32 sp)
  unfolding arithmetic condition run_s_sub_i32
  sub_i32-IsArithmetic =
      let x : sp.src0 % 2 ^ 32 ≡ sp.src0 = mod-eq_of_lt p in
      let y : sp.src1 % 2 ^ 32 ≡ sp.src1 = mod-eq_of_lt q in
      let d = bits_of_difference (sp.src0) (sp.src1) p q in
      rw (x, y, d) (ground arith, ground arith)

  add_u32-IsArithmetic : IsArithmetic 0 sp (run_s_add_u32 sp)
  unfolding arithmetic condition copy_low run_s_add_u32
  add_u32-IsArithmetic = (ground arith, ground arith)

  sub_u32-IsArithmetic : IsArithmetic 1 sp (run_s_sub_u32 sp)
  unfolding arithmetic condition copy_low run_s_sub_u32
  sub_u32-IsArithmetic = (ground arith, ground arith)

  add_i32-IsArithmetic : IsArithmetic 2 sp (run_s_add_i32 sp)
  unfolding arithmetic condition copy_low run_s_add_i32
  add_i32-IsArithmetic = (ground arith, ground arith)

  addc_u32-IsArithmetic : IsArithmetic 4 sp (run_s_addc_u32 sp)
  unfolding arithmetic condition copy_low run_s_addc_u32
  addc_u32-IsArithmetic = (ground arith, ground arith)

  subb_u32-IsArithmetic : IsArithmetic 5 sp (run_s_subb_u32 sp)
  unfolding arithmetic condition copy_low run_s_subb_u32
  subb_u32-IsArithmetic = (ground arith, ground arith)

  min_i32-IsArithmetic : IsArithmetic 6 sp (run_s_min_i32 sp)
  unfolding arithmetic condition copy_low run_s_min_i32
  min_i32-IsArithmetic = (ground arith, ground arith)

  min_u32-IsArithmetic : IsArithmetic 7 sp (run_s_min_u32 sp)
  unfolding arithmetic condition copy_low run_s_min_u32
  min_u32-IsArithmetic = (ground arith, ground arith)

  max_i32-IsArithmetic : IsArithmetic 8 sp (run_s_max_i32 sp)
  unfolding arithmetic condition copy_low run_s_max_i32
  max_i32-IsArithmetic = (ground arith, ground arith)

  max_u32-IsArithmetic : IsArithmetic 9 sp (run_s_max_u32 sp)
  unfolding arithmetic condition copy_low run_s_max_u32
  max_u32-IsArithmetic = (ground arith, ground arith)

  cselect_b32-IsArithmetic : IsArithmetic 10 sp (run_s_cselect_b32 sp)
  unfolding arithmetic condition copy_low run_s_cselect_b32
  cselect_b32-IsArithmetic = (ground arith, ground arith)

  Computes : ℕ → Sop2Layout → Type 0
  Computes opcode after = leb opcode 10 ≡ true → IsArithmetic opcode sp after

  sop2_cases-IsArithmetic : All (λ c. Computes (c.0) (c.1 sp)) sop2_cases
  unfolding Computes
  sop2_cases-IsArithmetic = (
    λ h. add_u32-IsArithmetic,
    (
      λ h. sub_u32-IsArithmetic,
      (
        λ h. add_i32-IsArithmetic,
        (
          λ h. sub_i32-IsArithmetic,
          (
            λ h. addc_u32-IsArithmetic,
            (
              λ h. subb_u32-IsArithmetic,
              (
                λ h. min_i32-IsArithmetic,
                (
                  λ h. min_u32-IsArithmetic,
                  (
                    λ h. max_i32-IsArithmetic,
                    (
                      λ h. max_u32-IsArithmetic,
                      (
                        λ h. cselect_b32-IsArithmetic,
                        (
                          λ h. cc h,
                          (
                            λ h. cc h,
                            (
                              λ h. cc h,
                              (
                                λ h. cc h,
                                (
                                  λ h. cc h,
                                  (
                                    λ h. cc h,
                                    (
                                      λ h. cc h,
                                      (
                                        λ h. cc h,
                                        (
                                          λ h. cc h,
                                          (
                                            λ h. cc h,
                                            (λ h. cc h, (λ h. cc h, (λ h. cc h, (λ h. cc h, tt)))),
                                          ),
                                        ),
                                      ),
                                    ),
                                  ),
                                ),
                              ),
                            ),
                          ),
                        ),
                      ),
                    ),
                  ),
                ),
              ),
            ),
          ),
        ),
      ),
    ),
  )

-- For each opcode up to 10, operands below 2 ^ 32 and `SCC` 0 or 1, the low word of the result is that of
-- the table of sums, differences, minima, maxima and selections, where the signed order is that of
-- the words with bit 31 flipped; and `SCC` afterwards is that of the table of conditions.
pub run_sop2-IsArithmetic :
    (opcode : ℕ) (sp : Sop2Layout)
    → opcode ≤ 10
    → sp.src0 < 2 ^ 32
    → sp.src1 < 2 ^ 32
    → sp.scc < 2
    → (after : Sop2Layout) × (run_sop2 opcode sp ≡ some after) × IsArithmetic opcode sp after
unfolding run_sop2 Computes sop2_implements
run_sop2-IsArithmetic opcode sp small p q r =
    elim (run-Outcome (Computes sp p q r) sop2_cases sop2_implements sp sop2_cases-implements
      (sop2_cases-IsArithmetic sp p q r) opcode) [
        | inl (refused, e) ↦ ground arith
        | inr (_, after, run, computed) ↦ (after, run, computed (ground arith))
      ]
