-- ===== src/Kernel/Process/System.antt =====
-- All static variables of Reference/Linux-0.11-main/kernel/symplus/process.c, and the rest of the kernel
-- that its calls use, as parameters.
use linux_0_11_symcc_on_turi.Base.{ℕ, Bool, List}
use linux_0_11_symcc_on_turi.Emu.State.{Memory}
use linux_0_11_symcc_on_turi.Kernel.Process.State.{Task, TaskState, Context, Kernel, FileSystem}
use linux_0_11_symcc_on_turi.Kernel.Process.Terminal.{Terminal}

-- `last_low`, `last_high`, `tick_remainder`, `clock_ready` and the kernel's `jiffies`.
pub record Clock : Type 0 where
  pub last_low : ℕ
  pub last_high : ℕ
  pub tick_remainder : ℕ
  pub ready : Bool
  pub jiffies : ℕ

-- `arg1`, `arg2` and `arg3` are the arguments of the calls that wait.
pub record System (Files World : Type 0) : Type 0 where
  pub kernel : Kernel Files World
  pub terminal : Terminal
  pub clock : Clock
  pub arg1 : Memory
  pub arg2 : Memory
  pub arg3 : Memory
  pub foreground_pid : ℕ
  pub foreground_owner : ℕ

-- What the hardware answers in one `poll_io`: the keyboard event, and the two halves of the time.
pub record Poll : Type 0 where
  pub event : ℕ
  pub low : ℕ
  pub high : ℕ

-- The calls of the kernel's file system.
pub data SysCall : Type 0 where
  sys_read sys_write sys_open sys_close sys_unlink sys_chdir sys_chmod sys_stat sys_lseek : SysCall
  sys_fstat sys_sync sys_rename sys_mkdir sys_rmdir sys_dup sys_dup2 : SysCall

-- What a call of the file system gives back: its result, and what it changes.
pub record Answer (Files World : Type 0) : Type 0 where
  pub result : ℕ
  pub files : Files
  pub world : World
  pub window : Memory

-- What `sp_execve` gives back: also the new program's context, and the bounds of its heap.
pub record ExecAnswer (Files World : Type 0) : Type 0 where
  pub answer : Answer Files World
  pub context : Context
  pub end_data : ℕ
  pub start_stack : ℕ
  pub brk : ℕ

-- The file system as the calls use it. `has_file` says whether a descriptor below `NR_OPEN` is open and
-- `is_char` whether it is a character device; `echo` is `tty_write` and `report` the line of `printk` for a task.
pub record Platform (Files World : Type 0) : Type 0 where
  pub files : FileSystem Files World
  pub sys : SysCall → ℕ → ℕ → ℕ → Files → World → Memory → Answer Files World
  pub execve : ℕ → ℕ → ℕ → Task Files → World → Memory → Context → ExecAnswer Files World
  pub has_file : Files → ℕ → Bool
  pub is_char : Files → World → ℕ → Bool
  pub echo : List ℕ → World → World
  pub report : ℕ → ℕ → TaskState → World → World
  pub stat_size : ℕ
