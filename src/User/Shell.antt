-- ===== src/User/Shell.antt =====
-- The command line of the shell: user/lib/shell_parse.c.
pub mod Words
pub mod Parse
pub mod Limits
pub mod Storage
pub mod Stores
pub mod Stored
pub mod Left
pub mod Loop
mod Tests
