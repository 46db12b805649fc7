-- ===== src/Emu/Sdwa.antt =====
-- The sub-dword selections (emu/alu.go, insts/sdwa.go).
pub mod Fields
use sampled_mgpu_sim.Prelude.{
  ℕ, zero, suc, ◌+◌, ◌-◌, ◌*◌, ◌/◌, ◌%◌, ◌^◌, ◌≤◌, ◌<◌, min, max, ◌≡◌, refl, sym, ap, ap₂, subst,
  ◌≢◌, ◌↔◌, ◌⊎◌, inl, inr, Bool, true, false, not, ◌&&◌, ◌||◌, Option, none, some, List, [], ◌∷◌,
  map, arith, ltb, leb, ◌==◌, if◌then◌else◌, Bool-cases, Option-cases, ltb→lt, ltb-false, lt→ltb,
  le→leb, leb→le, ==_iff, ==_refl, ◌>>=◌, length, get_elem?, set, All,
}
use sampled_mgpu_sim.Prelude.Bits.{bit_and}
use sampled_mgpu_sim.Prelude.Words.{shift_left, shift_right}

-- The named constants; the decoder makes no others.
pub data SdwaSelect : Type 0 where
  byte0 : SdwaSelect
  byte1 : SdwaSelect
  byte2 : SdwaSelect
  byte3 : SdwaSelect
  word0 : SdwaSelect
  word1 : SdwaSelect
  dword : SdwaSelect

pub data SdwaUnused : Type 0 where
  pad : SdwaUnused
  sext : SdwaUnused
  preserve : SdwaUnused

unfoldable pub sdwa_src_select : ℕ → SdwaSelect → ℕ
sdwa_src_select src byte0 = bit_and src 0x000000ff
sdwa_src_select src byte1 = shift_right (bit_and src 0x0000ff00) 8
sdwa_src_select src byte2 = shift_right (bit_and src 0x00ff0000) 16
sdwa_src_select src byte3 = shift_right (bit_and src 0xff000000) 24
sdwa_src_select src word0 = bit_and src 0x0000ffff
sdwa_src_select src word1 = shift_right (bit_and src 0xffff0000) 16
sdwa_src_select src dword = src

-- The old value and the treatment of unused bits are arguments that the source does not read.
unfoldable pub sdwa_dst_select : (dst_old dst_new : ℕ) → SdwaSelect → SdwaUnused → ℕ
sdwa_dst_select dst_old dst_new byte0 unused = bit_and dst_new 0x000000ff
sdwa_dst_select dst_old dst_new byte1 unused = bit_and (shift_left 32 dst_new 8) 0x0000ff00
sdwa_dst_select dst_old dst_new byte2 unused = bit_and (shift_left 32 dst_new 16) 0x00ff0000
sdwa_dst_select dst_old dst_new byte3 unused = bit_and (shift_left 32 dst_new 24) 0xff000000
sdwa_dst_select dst_old dst_new word0 unused = bit_and dst_new 0x0000ffff
sdwa_dst_select dst_old dst_new word1 unused = bit_and (shift_left 32 dst_new 16) 0xffff0000
sdwa_dst_select dst_old dst_new dword unused = dst_new
