-- ===== src/Emu/Sop2.antt =====
-- The scalar instructions with two operands (emu/alusop2.go). `uint32(x)` is `% 2 ^ 32`; `SCC` is
-- the byte that the preparation of the scratchpad read from the wavefront.
pub mod Halves
pub mod Words
pub mod Arith
pub mod Logic
use sampled_mgpu_sim.Prelude.{
  ℕ, zero, suc, ◌+◌, ◌-◌, ◌*◌, ◌/◌, ◌%◌, ◌^◌, ◌≤◌, ◌<◌, min, max, ◌≡◌, refl, sym, ap, ap₂, subst,
  ◌≢◌, ◌↔◌, ◌⊎◌, inl, inr, Bool, true, false, not, ◌&&◌, ◌||◌, Option, none, some, List, [], ◌∷◌,
  map, arith, ltb, leb, ◌==◌, if◌then◌else◌, Bool-cases, Option-cases, ltb→lt, ltb-false, lt→ltb,
  le→leb, leb→le, ==_iff, ==_refl, ◌>>=◌, length, get_elem?, set, All,
}
use sampled_mgpu_sim.Prelude.Int.{ℤ, pos, ltb_ℤ, ◌-ℤ◌, ◌*ℤ◌, ◌==ℤ◌, quot_ℤ, shift_right_ℤ}
use sampled_mgpu_sim.Prelude.Bits.{bit_and, bit_or, bit_xor}
use sampled_mgpu_sim.Prelude.Words.{sub_word, complement, shift_left, shift_right}
use sampled_mgpu_sim.Bitops.{extract_bits_from_u32}
use sampled_mgpu_sim.Emu.Layout.{Sop2Layout, as_int32, int32_to_bits}
use sampled_mgpu_sim.Emu.Switch.{switch}

-- `copy(sp[16:24], insts.Uint32ToBytes(dst))` writes the low four bytes of `DST` alone.
unfoldable pub copy_low : ℕ → ℕ → ℕ
copy_low old dst = old / 2 ^ 32 * 2 ^ 32 + dst

unfoldable pub set_scc : Sop2Layout → ℕ → Sop2Layout
set_scc sp dst = record sp { dst = dst; scc = if dst == 0 then 0 else 1 }

unfoldable pub run_s_add_u32 : Sop2Layout → Sop2Layout
run_s_add_u32 sp =
    let src0 = sp.src0 % 2 ^ 32 in
    let src1 = sp.src1 % 2 ^ 32 in
    record sp {
      dst = copy_low (sp.dst) ((src0 + src1) % 2 ^ 32);
      scc = if ltb (2 ^ 32 - 1 - src1) src0 then 1 else 0;
    }

unfoldable pub run_s_sub_u32 : Sop2Layout → Sop2Layout
run_s_sub_u32 sp = record sp {
  dst = sub_word 64 (sp.src0) (sp.src1);
  scc = if ltb (sp.src0) (sp.src1) then 1 else sp.scc;
}

unfoldable pub run_s_add_i32 : Sop2Layout → Sop2Layout
run_s_add_i32 sp =
    let src0 = sp.src0 % 2 ^ 32 in
    let src1 = sp.src1 % 2 ^ 32 in
    record sp {
      dst = copy_low (sp.dst) ((src0 + src1) % 2 ^ 32);
      scc = if ltb (2 ^ 32 - 1 - src1) src0 then 1 else 0;
    }

unfoldable pub run_s_sub_i32 : Sop2Layout → Sop2Layout
run_s_sub_i32 sp =
    let src0 = as_int32 (sp.src0 % 2 ^ 32) in
    let src1 = as_int32 (sp.src1 % 2 ^ 32) in
    let dst = as_int32 (int32_to_bits (src0 -ℤ src1)) in
    record sp {
      dst = int32_to_bits dst;
      scc =
          if ltb_ℤ (pos 0) src1 && ltb_ℤ src0 dst
          then 1
          else if ltb_ℤ src1 (pos 0) && ltb_ℤ dst src0
          then 1
          else 0;
    }

-- `math.MaxUint32 - uint32(scc) - src1` may wrap around.
unfoldable pub run_s_addc_u32 : Sop2Layout → Sop2Layout
run_s_addc_u32 sp =
    let src0 = sp.src0 % 2 ^ 32 in
    let src1 = sp.src1 % 2 ^ 32 in
    let limit = sub_word 32 (sub_word 32 (2 ^ 32 - 1) (sp.scc)) src1 in
    record sp {
      dst = copy_low (sp.dst) ((src0 + src1 + sp.scc) % 2 ^ 32);
      scc = if ltb src0 limit then 0 else 1;
    }

unfoldable pub run_s_subb_u32 : Sop2Layout → Sop2Layout
run_s_subb_u32 sp = record sp {
  dst = sub_word 64 (sub_word 64 (sp.src0) (sp.src1)) (sp.scc);
  scc = if ltb (sp.src0) ((sp.src1 + sp.scc) % 2 ^ 64) then 1 else 0;
}

unfoldable pub run_s_min_i32 : Sop2Layout → Sop2Layout
run_s_min_i32 sp =
    let src0 = as_int32 (sp.src0 % 2 ^ 32) in
    let src1 = as_int32 (sp.src1 % 2 ^ 32) in
    if ltb_ℤ src0 src1 then record sp { dst = sp.src0; scc = 1 } else record sp { dst = sp.src1 }

unfoldable pub run_s_min_u32 : Sop2Layout → Sop2Layout
run_s_min_u32 sp =
    if ltb (sp.src0) (sp.src1)
    then record sp { dst = sp.src0; scc = 1 }
    else record sp { dst = sp.src1 }

unfoldable pub run_s_max_i32 : Sop2Layout → Sop2Layout
run_s_max_i32 sp =
    let src0 = as_int32 (sp.src0 % 2 ^ 32) in
    let src1 = as_int32 (sp.src1 % 2 ^ 32) in
    if ltb_ℤ src1 src0 then record sp { dst = sp.src0; scc = 1 } else record sp { dst = sp.src1 }

unfoldable pub run_s_max_u32 : Sop2Layout → Sop2Layout
run_s_max_u32 sp =
    if ltb (sp.src1) (sp.src0)
    then record sp { dst = sp.src0; scc = 1 }
    else record sp { dst = sp.src1 }

unfoldable pub run_s_cselect_b32 : Sop2Layout → Sop2Layout
run_s_cselect_b32 sp =
    if sp.scc == 1 then record sp { dst = sp.src0 } else record sp { dst = sp.src1 }

unfoldable pub run_s_and_b32 : Sop2Layout → Sop2Layout
run_s_and_b32 sp = set_scc sp (bit_and (sp.src0) (sp.src1))

unfoldable pub run_s_and_b64 : Sop2Layout → Sop2Layout
run_s_and_b64 sp = set_scc sp (bit_and (sp.src0) (sp.src1))

unfoldable pub run_s_or_b64 : Sop2Layout → Sop2Layout
run_s_or_b64 sp = set_scc sp (bit_or (sp.src0) (sp.src1))

unfoldable pub run_s_xor_b64 : Sop2Layout → Sop2Layout
run_s_xor_b64 sp = set_scc sp (bit_xor (sp.src0) (sp.src1))

-- `&^` clears the bits of the second operand.
unfoldable pub run_s_andn2_b64 : Sop2Layout → Sop2Layout
run_s_andn2_b64 sp = set_scc sp (bit_and (sp.src0) (complement 64 (sp.src1)))

-- `uint8(sp.SRC1) & 0x1f`
unfoldable pub run_s_lshl_b32 : Sop2Layout → Sop2Layout
run_s_lshl_b32 sp = set_scc sp (shift_left 32 (sp.src0 % 2 ^ 32) (bit_and (sp.src1 % 2 ^ 8) 0x1f))

unfoldable pub run_s_lshl_b64 : Sop2Layout → Sop2Layout
run_s_lshl_b64 sp = set_scc sp (shift_left 64 (sp.src0) (bit_and (sp.src1 % 2 ^ 8) 0x3f))

unfoldable pub run_s_lshr_b32 : Sop2Layout → Sop2Layout
run_s_lshr_b32 sp = set_scc sp (shift_right (sp.src0) (bit_and (sp.src1) 0x1f))

unfoldable pub run_s_lshr_b64 : Sop2Layout → Sop2Layout
run_s_lshr_b64 sp = set_scc sp (shift_right (sp.src0) (bit_and (sp.src1) 0x3f))

unfoldable pub run_s_ashr_i32 : Sop2Layout → Sop2Layout
run_s_ashr_i32 sp =
    let src0 = as_int32 (sp.src0 % 2 ^ 32) in
    set_scc sp (int32_to_bits (shift_right_ℤ src0 (sp.src1 % 2 ^ 8)))

unfoldable pub run_s_bfm_b32 : Sop2Layout → Sop2Layout
run_s_bfm_b32 sp =
    let ones = sub_word 64 (shift_left 64 1 (bit_and (sp.src0) 0x1f)) 1 in
    record sp { dst = shift_left 64 ones (bit_and (sp.src1) 0x1f) }

unfoldable pub run_s_mul_i32 : Sop2Layout → Sop2Layout
run_s_mul_i32 sp =
    let src0 = as_int32 (sp.src0 % 2 ^ 32) in
    let src1 = as_int32 (sp.src1 % 2 ^ 32) in
    let dst = as_int32 (int32_to_bits (src0 *ℤ src1)) in
    let back = as_int32 (int32_to_bits (quot_ℤ dst src0)) in
    record sp {
      dst = int32_to_bits dst;
      scc = if not (src0 ==ℤ pos 0) && not (back ==ℤ src1) then 1 else sp.scc;
    }

-- Bits 0 to 4 of `SRC1` are the offset and bits 16 to 22 the width.
unfoldable pub run_s_bfe_i32 : Sop2Layout → Sop2Layout
run_s_bfe_i32 sp =
    let src0 = as_int32 (sp.src0 % 2 ^ 32) in
    let src1 = sp.src1 % 2 ^ 32 in
    let offset = extract_bits_from_u32 src1 0 4 in
    let width = extract_bits_from_u32 src1 16 22 in
    let ones = sub_word 32 (shift_left 32 1 width) 1 in
    set_scc sp (bit_and (int32_to_bits (shift_right_ℤ src0 offset)) ones)

abbrev pub sop2_cases : List (ℕ × (Sop2Layout → Sop2Layout))
sop2_cases =
    (0, run_s_add_u32)
    ∷ (1, run_s_sub_u32)
    ∷ (2, run_s_add_i32)
    ∷ (3, run_s_sub_i32)
    ∷ (4, run_s_addc_u32)
    ∷ (5, run_s_subb_u32)
    ∷ (6, run_s_min_i32)
    ∷ (7, run_s_min_u32)
    ∷ (8, run_s_max_i32)
    ∷ (9, run_s_max_u32)
    ∷ (10, run_s_cselect_b32)
    ∷ (12, run_s_and_b32)
    ∷ (13, run_s_and_b64)
    ∷ (15, run_s_or_b64)
    ∷ (16, run_s_xor_b64)
    ∷ (17, run_s_xor_b64)
    ∷ (19, run_s_andn2_b64)
    ∷ (28, run_s_lshl_b32)
    ∷ (29, run_s_lshl_b64)
    ∷ (30, run_s_lshr_b32)
    ∷ (31, run_s_lshr_b64)
    ∷ (32, run_s_ashr_i32)
    ∷ (34, run_s_bfm_b32)
    ∷ (36, run_s_mul_i32)
    ∷ (38, run_s_bfe_i32)
    ∷ []

-- `none` for an opcode that is not implemented.
unfoldable pub run_sop2 : ℕ → Sop2Layout → Option Sop2Layout
run_sop2 opcode sp = do handler ← switch opcode sop2_cases; some (handler sp)
