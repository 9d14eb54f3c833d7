-- ===== src/Kernel.antt =====
-- The kernel's SymphonyPlus port: Reference/Linux-0.11-main/kernel/symplus.
pub mod Tick
pub mod Process
pub mod Exec
pub mod Disk
mod Tests
