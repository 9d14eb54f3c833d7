-- ===== src/Symcc.antt =====
-- The C compiler and its linker: symcc/src.
pub mod Object
pub mod Image
