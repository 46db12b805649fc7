-- ===== src/Emu/Layout.antt =====
-- The scratchpad's layouts (utils/scratchpad.go) and the reading of words as signed numbers
-- (emu/util.go).
use sampled_mgpu_sim.Prelude.{ℕ}
use sampled_mgpu_sim.Prelude.Int.{ℤ}
use sampled_mgpu_sim.Prelude.Words.{signed, word_of}

pub record Sop1Layout : Type 0 where
  pub src0 : ℕ
  pub dst : ℕ
  pub exec : ℕ
  pub scc : ℕ
  pub pc : ℕ

pub record Sop2Layout : Type 0 where
  pub src0 : ℕ
  pub src1 : ℕ
  pub dst : ℕ
  pub scc : ℕ

pub record SopcLayout : Type 0 where
  pub src0 : ℕ
  pub src1 : ℕ
  pub scc : ℕ

pub record SoppLayout : Type 0 where
  pub exec : ℕ
  pub pc : ℕ
  pub imm : ℕ
  pub scc : ℕ
  pub vcc : ℕ

pub record SopkLayout : Type 0 where
  pub dst : ℕ
  pub imm : ℕ
  pub scc : ℕ

-- `[64]uint64` is read at the ids of the 64 lanes.
pub record VopcLayout : Type 0 where
  pub exec : ℕ
  pub vcc : ℕ
  pub src0 : ℕ → ℕ
  pub src1 : ℕ → ℕ

abbrev pub as_int16 : ℕ → ℤ
as_int16 bits = signed 16 bits

abbrev pub as_int32 : ℕ → ℤ
as_int32 bits = signed 32 bits

abbrev pub as_int64 : ℕ → ℤ
as_int64 bits = signed 64 bits

abbrev pub int32_to_bits : ℤ → ℕ
int32_to_bits num = word_of 32 num

abbrev pub int64_to_bits : ℤ → ℕ
int64_to_bits num = word_of 64 num
