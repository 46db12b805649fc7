-- ===== src/Bitops.antt =====
-- The bit fields of machine words (bitops/ops.go). The bounds of a field are Go ints, and the
-- width is written out: a shift by the word's size or more gives 0.
mod Field
mod SignExt
mod Examples
use sampled_mgpu_sim.Prelude.{
  ℕ, zero, suc, ◌+◌, ◌-◌, ◌*◌, ◌/◌, ◌%◌, ◌^◌, ◌≤◌, ◌<◌, min, max, ◌≡◌, refl, sym, ap, ap₂, subst,
  ◌≢◌, ◌↔◌, ◌⊎◌, inl, inr, Bool, true, false, not, ◌&&◌, ◌||◌, Option, none, some, List, [], ◌∷◌,
  map, arith, ltb, leb, ◌==◌, if◌then◌else◌, Bool-cases, Option-cases, ltb→lt, ltb-false, lt→ltb,
  le→leb, leb→le, ==_iff, ==_refl, ◌>>=◌, length, get_elem?, set, All,
}
use sampled_mgpu_sim.Prelude.Bits.{bit_and, bit_or}
use sampled_mgpu_sim.Prelude.Words.{sub_word, complement, shift_left, shift_right}

-- `((1 << (hiInclude - loInclude + 1)) - 1) << loInclude` on `w` bits, where `lo ≤ hi + 1`: Go
-- panics on a negative shift, and no caller has one.
unfoldable pub field_mask : ℕ → ℕ → ℕ → ℕ
field_mask w lo hi = shift_left w (sub_word w (shift_left w 1 (hi + 1 - lo)) 1) lo

unfoldable pub extract_bits_from_u64 : ℕ → ℕ → ℕ → ℕ
extract_bits_from_u64 num lo hi = shift_right (bit_and num (field_mask 64 lo hi)) lo

unfoldable pub extract_bits_from_u32 : ℕ → ℕ → ℕ → ℕ
extract_bits_from_u32 num lo hi = shift_right (bit_and num (field_mask 32 lo hi)) lo

-- `mask` is `^((1 << (signBit + 1)) - 1)`.
unfoldable pub sign_ext : ℕ → ℕ → ℕ
sign_ext word sign_bit =
    let low = sub_word 64 (shift_left 64 1 (sign_bit + 1)) 1 in
    let mask = complement 64 low in
    let sign = bit_and (shift_right word sign_bit) 1 in
    if ltb 0 sign then bit_or word mask else bit_and word (complement 64 mask)
