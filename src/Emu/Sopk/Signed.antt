-- ===== src/Emu/Sopk/Signed.antt =====
-- The immediates as signed numbers.
use sampled_mgpu_sim.Prelude.{ℕ, ◌%◌, ◌^◌, ◌<◌, ◌≡◌, refl, ap, arith, ◌==◌, if◌then◌else◌}
use sampled_mgpu_sim.Prelude.Int.{ℤ, pos, negsuc, ◌*ℤ◌, ◌==ℤ◌}
use sampled_mgpu_sim.Prelude.Bits.Field.{bit_and-ones}
use sampled_mgpu_sim.Emu.Layout.{
  SopkLayout, as_int16, as_int32, as_int64, int32_to_bits, int64_to_bits,
}
use sampled_mgpu_sim.Emu.Sopk.{imm16, run_s_movk_i32, run_s_cmpk_lg_i32, run_s_mulk_i32}

imm16-signed : (imm : ℕ) → imm16 imm ≡ as_int16 (imm % 2 ^ 16)
unfolding imm16
imm16-signed imm = ap as_int16 (rw (bit_and-ones 16 imm) (omega arith))

-- A signed word of 16 bits keeps its value as one of 64 bits.
extended : (bits : ℕ) → bits < 2 ^ 16 → as_int64 (int64_to_bits (as_int16 bits)) ≡ as_int16 bits
extended bits h = ground arith

-- A signed word of 32 bits keeps its bits as one of 64 bits.
low_bits : (bits : ℕ) → bits < 2 ^ 32 → int64_to_bits (as_int32 bits) % 2 ^ 32 ≡ bits
low_bits bits h = ground arith

as_int16-eq : (a b : ℕ) → a < 2 ^ 16 → b < 2 ^ 16 → (as_int16 a ==ℤ as_int16 b) ≡ (a == b)
as_int16-eq a b h l = ground arith

int32_to_bits-lt : (n : ℤ) → int32_to_bits n < 2 ^ 32
int32_to_bits-lt (pos n) = omega arith
int32_to_bits-lt (negsuc n) = omega arith

-- The move extends the sign of the immediate to 64 bits; the low 32 bits of the product are those of
-- the immediate times the register, both signed; and the comparison sets `SCC` to 0 where the low 16
-- bits are equal and to 1 elsewhere.
run_sopk-signed :
    (sp : SopkLayout)
    → (as_int64 ((run_s_movk_i32 sp).dst) ≡ as_int16 (sp.imm % 2 ^ 16))
      × ((run_s_mulk_i32 sp).dst % 2 ^ 32
          ≡ int32_to_bits (as_int16 (sp.imm % 2 ^ 16) *ℤ as_int32 (sp.dst % 2 ^ 32)))
      × ((run_s_cmpk_lg_i32 sp).scc ≡ (if sp.dst % 2 ^ 16 == sp.imm % 2 ^ 16 then 0 else 1))
unfolding run_s_movk_i32 run_s_mulk_i32 run_s_cmpk_lg_i32
run_sopk-signed sp = (
  rw (imm16-signed (sp.imm)) (extended (sp.imm % 2 ^ 16) (omega arith)),
  rw (imm16-signed (sp.imm)) (low_bits _ (int32_to_bits-lt _)),
  rw
      (
        imm16-signed (sp.imm),
        as_int16-eq (sp.dst % 2 ^ 16) (sp.imm % 2 ^ 16) (omega arith) (omega arith),
      )
      refl,
)
