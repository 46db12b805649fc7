-- ===== src/Emu/Vopc/Relation.antt =====
-- The vector comparisons against one relation per operand type and condition, which the opcode's
-- two octal parts give.
use sampled_mgpu_sim.Prelude.{
  ℕ, ◌-◌, ◌/◌, ◌%◌, ◌^◌, ◌<◌, ◌≡◌, Bool, true, false, not, ◌&&◌, ltb, leb, ◌==◌, if◌then◌else◌,
}
use sampled_mgpu_sim.Prelude.Bits.{bit}
use sampled_mgpu_sim.Prelude.Int.{ltb_ℤ, leb_ℤ, ◌==ℤ◌}
use sampled_mgpu_sim.Emu.Layout.{VopcLayout, as_int32}
use sampled_mgpu_sim.Emu.Vopc.{Comparisons}

-- The condition in the low three bits.
unfoldable pub relation : Comparisons → (condition : ℕ) → ℕ → ℕ → Bool
relation by condition a b =
    if condition == 0
    then false
    else if condition == 1
    then by.less a b
    else if condition == 2
    then by.equal a b
    else if condition == 3
    then by.less_equal a b
    else if condition == 4
    then by.less b a
    else if condition == 5
    then not (by.equal a b)
    else if condition == 6
    then by.less_equal b a
    else true

abbrev pub unsigned : Comparisons
unsigned = record { less = ltb; less_equal = leb; equal = λ a b. a == b }

abbrev pub signed_32 : Comparisons
signed_32 = record {
  less = λ a b. ltb_ℤ (as_int32 a) (as_int32 b);
  less_equal = λ a b. leb_ℤ (as_int32 a) (as_int32 b);
  equal = λ a b. as_int32 a ==ℤ as_int32 b;
}

-- The type is the rest of the opcode; in the second class of floats the condition is negated.
unfoldable pub vopc_relation : Comparisons → (opcode : ℕ) → ℕ → ℕ → Bool
vopc_relation floats opcode a b =
    let family = opcode / 8 in
    let condition = opcode % 8 in
    let a32 = a % 2 ^ 32 in
    let b32 = b % 2 ^ 32 in
    if family == 8
    then relation floats condition a32 b32
    else if family == 9
    then not (relation floats (7 - condition) a32 b32)
    else if family == 24
    then relation signed_32 condition a32 b32
    else if family == 25
    then relation unsigned condition a32 b32
    else relation unsigned condition a b

-- The operands of the unsigned 32-bit comparisons have nothing in their upper halves.
abbrev pub Fits : ℕ → VopcLayout → Type 0
Fits opcode sp = opcode / 8 ≡ 25 → (lane : ℕ) → (sp.src0 lane < 2 ^ 32) × (sp.src1 lane < 2 ^ 32)

-- `after` is `sp` but for `VCC`, which has the bits of the lanes that are on in `EXEC` and whose
-- operands pass the test, and no others.
abbrev pub IsCompared : VopcLayout → (ℕ → ℕ → Bool) → VopcLayout → Type 0
IsCompared sp test after =
    (after ≡ record sp { vcc = after.vcc })
    × (after.vcc < 2 ^ 64)
    × ((lane : ℕ)
        → lane < 64
        → bit (after.vcc) lane
          ≡ (if (bit (sp.exec) lane == 1) && test (sp.src0 lane) (sp.src1 lane) then 1 else 0))
