-- ===== src/Emu/Sopk.antt =====
-- The scalar instructions with an immediate (emu/alusopk.go).
pub mod Signed
use sampled_mgpu_sim.Prelude.{ℕ, ◌%◌, ◌^◌, Option, some, List, [], ◌∷◌, if◌then◌else◌, ◌>>=◌}
use sampled_mgpu_sim.Prelude.Int.{ℤ, ◌*ℤ◌, ◌==ℤ◌}
use sampled_mgpu_sim.Prelude.Bits.{bit_and}
use sampled_mgpu_sim.Emu.Layout.{SopkLayout, as_int16, as_int32, int32_to_bits, int64_to_bits}
use sampled_mgpu_sim.Emu.Switch.{switch}

-- `asInt16(uint16(sp.IMM & 0xffff))`
unfoldable pub imm16 : ℕ → ℤ
imm16 imm = as_int16 (bit_and imm 0xffff % 2 ^ 16)

unfoldable pub run_s_movk_i32 : SopkLayout → SopkLayout
run_s_movk_i32 sp = record sp { dst = int64_to_bits (imm16 (sp.imm)) }

unfoldable pub run_s_cmpk_lg_i32 : SopkLayout → SopkLayout
run_s_cmpk_lg_i32 sp = record sp {
  scc = if as_int16 (sp.dst % 2 ^ 16) ==ℤ imm16 (sp.imm) then 0 else 1;
}

-- The product is an `int32`.
unfoldable pub run_s_mulk_i32 : SopkLayout → SopkLayout
run_s_mulk_i32 sp =
    let dst = as_int32 (sp.dst % 2 ^ 32) in
    record sp { dst = int64_to_bits (as_int32 (int32_to_bits (imm16 (sp.imm) *ℤ dst))) }

abbrev pub sopk_cases : List (ℕ × (SopkLayout → SopkLayout))
sopk_cases = (0, run_s_movk_i32) ∷ (3, run_s_cmpk_lg_i32) ∷ (15, run_s_mulk_i32) ∷ []

-- `none` for an opcode that is not implemented.
unfoldable pub run_sopk : ℕ → SopkLayout → Option SopkLayout
run_sopk opcode sp = do handler ← switch opcode sopk_cases; some (handler sp)
