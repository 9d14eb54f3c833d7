-- ===== src/Kernel/Exec.antt =====
-- The loader of programs: Reference/Linux-0.11-main/fs/symexec.c.
pub mod Arguments
pub mod Image
pub mod Load
pub mod Vectors
pub mod Given
pub mod Words
pub mod Layout
pub mod Fuel
pub mod Same
pub mod Commit
pub mod Handover
mod Tests
