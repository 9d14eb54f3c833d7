-- ===== src/Kernel/Disk.antt =====
-- The disk of the port: Reference/Linux-0.11-main/fs/minix_disk.c and kernel/blk_drv/symdisk.c beside it.
pub mod Minix
pub mod Inode
pub mod Reread
pub mod Request
pub mod Transfer
pub mod Queue
mod Tests
