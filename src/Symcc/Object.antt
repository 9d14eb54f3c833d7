-- ===== src/Symcc/Object.antt =====
-- The relocatable objects of symcc/src/obj.c and obj.h, and their text.
pub mod Lines
pub mod Model
pub mod Write
pub mod Read
pub mod Clean
pub mod Reread
pub mod Scan
pub mod Declared
pub mod Symbols
pub mod Written
pub mod Roundtrip
mod Tests
