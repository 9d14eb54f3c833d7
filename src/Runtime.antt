-- ===== src/Runtime.antt =====
-- Runtime routines that compiled programs link with: runtime/divsi3.c.
pub mod Divide
mod Tests
