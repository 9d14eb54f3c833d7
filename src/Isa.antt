-- ===== src/Isa.antt =====
-- The instruction encodings: emu/isa.h and emu/isa.c.
pub mod Table
pub mod Encode
pub mod Fields
pub mod Writes
pub mod Operands
pub mod Decode
pub mod Known
mod Tests
