-- ===== src/Emu/Sdwa/Fields.antt =====
-- A selection as a field of bits: where it starts and how wide it is.
use sampled_mgpu_sim.Prelude.{ℕ, ◌-◌, ◌*◌, ◌/◌, ◌%◌, ◌^◌, ◌<◌, ◌≡◌, refl, arith}
use sampled_mgpu_sim.Prelude.Bits.{bit_and}
use sampled_mgpu_sim.Prelude.Bits.Field.{bit_and-ones, bit_and-shifted}
use sampled_mgpu_sim.Prelude.Words.{shift_left}
use sampled_mgpu_sim.Emu.Sdwa.{
  SdwaSelect, SdwaUnused, byte0, byte1, byte2, byte3, word0, word1, dword, sdwa_src_select,
  sdwa_dst_select,
}

abbrev pub offset : SdwaSelect → ℕ
offset byte0 = 0
offset byte1 = 8
offset byte2 = 16
offset byte3 = 24
offset word0 = 0
offset word1 = 16
offset dword = 0

abbrev pub width : SdwaSelect → ℕ
width byte0 = 8
width byte1 = 8
width byte2 = 8
width byte3 = 8
width word0 = 16
width word1 = 16
width dword = 32

-- A mask of `k` ones that stands `j` bits higher.
masked : (k j a : ℕ) → bit_and a ((2 ^ k - 1) * 2 ^ j) ≡ a / 2 ^ j % 2 ^ k * 2 ^ j
masked k j a = rw (bit_and-shifted j (2 ^ k - 1) a, bit_and-ones k (a / 2 ^ j)) refl

-- For a 32-bit word, the source selection is the field that starts at the offset of the selection,
-- and the destination selection puts the low bits of the new value in that field and clears the
-- other bits, so that selecting the source gives them back.
pub select-field :
    (old : ℕ) (unused : SdwaUnused) (word : ℕ) (select : SdwaSelect)
    → word < 2 ^ 32
    → (sdwa_src_select word select ≡ word / 2 ^ offset select % 2 ^ width select)
      × (sdwa_dst_select old word select unused ≡ word % 2 ^ width select * 2 ^ offset select)
      × (sdwa_src_select (sdwa_dst_select old word select unused) select ≡ word % 2 ^ width select)
unfolding sdwa_src_select sdwa_dst_select
select-field old unused word byte0 h =
    let src : bit_and word 0xff ≡ word / 2 ^ 0 % 2 ^ 8 * 2 ^ 0 = masked 8 0 word in
    let dst : bit_and word 0xff ≡ word / 2 ^ 0 % 2 ^ 8 * 2 ^ 0 = masked 8 0 word in
    let back : bit_and (bit_and word 0xff) 0xff ≡ bit_and word 0xff / 2 ^ 0 % 2 ^ 8 * 2 ^ 0 =
      masked 8 0 (bit_and word 0xff) in
    (omega (arith, src), omega (arith, dst), omega (arith, dst, back))
select-field old unused word byte1 h =
    let src : bit_and word 0xff00 ≡ word / 2 ^ 8 % 2 ^ 8 * 2 ^ 8 = masked 8 8 word in
    let dst : bit_and (shift_left 32 word 8) 0xff00
        ≡ (shift_left 32 word 8) / 2 ^ 8 % 2 ^ 8 * 2 ^ 8 =
      masked 8 8 (shift_left 32 word 8) in
    let back : bit_and (bit_and (shift_left 32 word 8) 0xff00) 0xff00
        ≡ bit_and (shift_left 32 word 8) 0xff00 / 2 ^ 8 % 2 ^ 8 * 2 ^ 8 =
      masked 8 8 (bit_and (shift_left 32 word 8) 0xff00) in
    (omega (arith, src), omega (arith, dst), omega (arith, dst, back))
select-field old unused word byte2 h =
    let src : bit_and word 0xff0000 ≡ word / 2 ^ 16 % 2 ^ 8 * 2 ^ 16 = masked 8 16 word in
    let dst : bit_and (shift_left 32 word 16) 0xff0000
        ≡ (shift_left 32 word 16) / 2 ^ 16 % 2 ^ 8 * 2 ^ 16 =
      masked 8 16 (shift_left 32 word 16) in
    let back : bit_and (bit_and (shift_left 32 word 16) 0xff0000) 0xff0000
        ≡ bit_and (shift_left 32 word 16) 0xff0000 / 2 ^ 16 % 2 ^ 8 * 2 ^ 16 =
      masked 8 16 (bit_and (shift_left 32 word 16) 0xff0000) in
    (omega (arith, src), omega (arith, dst), omega (arith, dst, back))
select-field old unused word byte3 h =
    let src : bit_and word 0xff000000 ≡ word / 2 ^ 24 % 2 ^ 8 * 2 ^ 24 = masked 8 24 word in
    let dst : bit_and (shift_left 32 word 24) 0xff000000
        ≡ (shift_left 32 word 24) / 2 ^ 24 % 2 ^ 8 * 2 ^ 24 =
      masked 8 24 (shift_left 32 word 24) in
    let back : bit_and (bit_and (shift_left 32 word 24) 0xff000000) 0xff000000
        ≡ bit_and (shift_left 32 word 24) 0xff000000 / 2 ^ 24 % 2 ^ 8 * 2 ^ 24 =
      masked 8 24 (bit_and (shift_left 32 word 24) 0xff000000) in
    (omega (arith, src), omega (arith, dst), omega (arith, dst, back))
select-field old unused word word0 h =
    let src : bit_and word 0xffff ≡ word / 2 ^ 0 % 2 ^ 16 * 2 ^ 0 = masked 16 0 word in
    let dst : bit_and word 0xffff ≡ word / 2 ^ 0 % 2 ^ 16 * 2 ^ 0 = masked 16 0 word in
    let back : bit_and (bit_and word 0xffff) 0xffff ≡ bit_and word 0xffff / 2 ^ 0 % 2 ^ 16 * 2 ^ 0 =
      masked 16 0 (bit_and word 0xffff) in
    (omega (arith, src), omega (arith, dst), omega (arith, dst, back))
select-field old unused word word1 h =
    let src : bit_and word 0xffff0000 ≡ word / 2 ^ 16 % 2 ^ 16 * 2 ^ 16 = masked 16 16 word in
    let dst : bit_and (shift_left 32 word 16) 0xffff0000
        ≡ (shift_left 32 word 16) / 2 ^ 16 % 2 ^ 16 * 2 ^ 16 =
      masked 16 16 (shift_left 32 word 16) in
    let back : bit_and (bit_and (shift_left 32 word 16) 0xffff0000) 0xffff0000
        ≡ bit_and (shift_left 32 word 16) 0xffff0000 / 2 ^ 16 % 2 ^ 16 * 2 ^ 16 =
      masked 16 16 (bit_and (shift_left 32 word 16) 0xffff0000) in
    (omega (arith, src), omega (arith, dst), omega (arith, dst, back))
select-field old unused word dword h = (omega arith, omega arith, omega arith)
