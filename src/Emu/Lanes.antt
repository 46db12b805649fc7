-- ===== src/Emu/Lanes.antt =====
-- The lanes of a vector instruction (emu/alu.go, emu/aluvopc.go).
pub mod Vcc
use sampled_mgpu_sim.Prelude.{
  ℕ, zero, suc, ◌+◌, ◌-◌, ◌*◌, ◌/◌, ◌%◌, ◌^◌, ◌≤◌, ◌<◌, min, max, ◌≡◌, refl, sym, ap, ap₂, subst,
  ◌≢◌, ◌↔◌, ◌⊎◌, inl, inr, Bool, true, false, not, ◌&&◌, ◌||◌, Option, none, some, List, [], ◌∷◌,
  map, arith, ltb, leb, ◌==◌, if◌then◌else◌, Bool-cases, Option-cases, ltb→lt, ltb-false, lt→ltb,
  le→leb, leb→le, ==_iff, ==_refl, ◌>>=◌, length, get_elem?, set, All,
}
use sampled_mgpu_sim.Prelude.Bits.{bit_and, bit_or}
use sampled_mgpu_sim.Prelude.Words.{complement, shift_left}
use sampled_mgpu_sim.Emu.Layout.{VopcLayout}

unfoldable pub lane_masked : ℕ → ℕ → Bool
lane_masked exec lane = ltb 0 (bit_and exec (shift_left 64 1 lane))

-- What the comparisons share: the loop over the lanes, which sets the bit of a lane that is on and
-- for which the test holds. This is `VCC` after the lanes below `n`.
unfoldable pub compare_below : VopcLayout → (ℕ → ℕ → Bool) → ℕ → ℕ
compare_below sp test zero = 0
compare_below sp test (suc n) =
    let vcc = compare_below sp test n in
    if lane_masked (sp.exec) n && test (sp.src0 n) (sp.src1 n)
    then bit_or vcc (shift_left 64 1 n)
    else vcc

unfoldable pub compare_lanes : VopcLayout → (ℕ → ℕ → Bool) → VopcLayout
compare_lanes sp test = record sp { vcc = compare_below sp test 64 }

-- The loop of `runVCmpFU64`, which clears the bits of the lanes that are on.
unfoldable pub clear_below : VopcLayout → ℕ → ℕ
clear_below sp zero = 0
clear_below sp (suc n) =
    let vcc = clear_below sp n in
    if lane_masked (sp.exec) n then bit_and vcc (complement 64 (shift_left 64 1 n)) else vcc
