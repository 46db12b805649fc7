-- ===== src/Emu.antt =====
-- The functional emulator's arithmetic unit (emu).
mod Switch
pub mod Lanes
pub mod Layout
pub mod Sop1
pub mod Sop2
pub mod Sopc
pub mod Sopk
pub mod Sopp
pub mod Sdwa
pub mod Vopc
mod Examples
