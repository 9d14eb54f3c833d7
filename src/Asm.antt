-- ===== src/Asm.antt =====
-- The assembler: emu/asm.c, as it is built for the machine itself (SP_NATIVE).
pub mod Scan
pub mod Labels
pub mod Operands
pub mod Emit
pub mod Passes
pub mod Variants
pub mod Agree
pub mod Lines
pub mod Addresses
pub mod Output
pub mod Table
pub mod Loop
mod Tests
