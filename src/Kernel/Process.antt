-- ===== src/Kernel/Process.antt =====
-- Cooperative processes: Reference/Linux-0.11-main/kernel/symplus/process.c. `State` is its static
-- variables, `Users` the checks of user addresses, `Tasks` fork, exit and wait, `Terminal` the keyboard line.
pub mod State
pub mod Users
pub mod Tasks
pub mod Switch
pub mod Wait
pub mod Exit
pub mod Handoff
pub mod Terminal
pub mod Line
pub mod Read
pub mod System
pub mod Interrupt
pub mod Calls
pub mod Dispatch
pub mod Valid
pub mod Kept
pub mod Performed
pub mod Scheduled
pub mod Served
pub mod Ended
pub mod Still
pub mod Swept
pub mod Resume
pub mod Turn
mod Tests
mod Turns
