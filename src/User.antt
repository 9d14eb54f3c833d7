-- ===== src/User.antt =====
-- The programs of the user: the library in user/native and the shell's command line in user/lib.
pub mod Convert
pub mod Value
pub mod Copy
pub mod Search
pub mod Shell
mod Tests
