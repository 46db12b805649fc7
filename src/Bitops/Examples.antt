-- ===== src/Bitops/Examples.antt =====
-- A theorem at one input, and tests of the bit operations.
use sampled_mgpu_sim.Prelude.{◌%◌, ◌^◌, ◌≡◌, refl, arith}
use sampled_mgpu_sim.Prelude.Words.{signed, word_of}
use sampled_mgpu_sim.Bitops.{extract_bits_from_u64, field_mask, sign_ext}
use sampled_mgpu_sim.Bitops.SignExt.{sign_ext_lem}

sign_ext_lem_example : sign_ext 0xff80 7 ≡ word_of 64 (signed 8 (0xff80 % 2 ^ 8))
sign_ext_lem_example = sign_ext_lem 0xff80 7 (omega arith) (omega arith)

byte_extended : sign_ext 0x80 7 ≡ 0xffffffffffffff80
unfolding sign_ext
byte_extended = refl

low_byte : extract_bits_from_u64 0xabcd 0 7 ≡ 0xcd
unfolding extract_bits_from_u64 field_mask
low_byte = refl
