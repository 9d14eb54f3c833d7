-- ===== src/Emu.antt =====
-- The SymphonyPlus instruction simulator: emu/emu.c and emu/emu.h. `Emu/State` is the machine,
-- `Emu/Decode` the labels of the switch, `Emu/Exec` its cases, `Emu/Run` the loop.
pub mod State
pub mod Decode
pub mod Exec
pub mod Run
pub mod Bytes
pub mod Store
pub mod Valid
pub mod Preserve
pub mod Frame
pub mod Outcome
pub mod Call
mod Tests
