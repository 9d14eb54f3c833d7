-- ===== src/Kernel/Process/State.antt =====
-- The static variables of Reference/Linux-0.11-main/kernel/symplus/process.c. The arrays have the slots 1
-- to 8, and are functions here. `current` always points to the task of the slot `active`, so it is that
-- task. What a task holds of the file system (open files, directories, executable) is the abstract type
-- `Files`, and the file system itself the abstract type `World`.
use linux_0_11_symcc_on_turi.Base.{ℕ, ◌-◌, ◌^◌, Bool, true, false, if◌then◌else◌, ◌==◌}
use linux_0_11_symcc_on_turi.Emu.State.{Memory}

-- runtime/platform.h
abbrev pub sp_user_base : ℕ
sp_user_base = 0x200000

abbrev pub sp_user_size : ℕ
sp_user_size = 0x200000

-- `-e` as an unsigned result.
abbrev pub fail : ℕ → ℕ
fail e = 2 ^ 32 - e

abbrev pub eintr : ℕ
eintr = fail 4

abbrev pub echild : ℕ
echild = fail 10

abbrev pub eagain : ℕ
eagain = fail 11

abbrev pub einval : ℕ
einval = fail 22

abbrev pub ebadf : ℕ
ebadf = fail 9

abbrev pub efault : ℕ
efault = fail 14

abbrev pub enosys : ℕ
enosys = fail 38

-- TASK_RUNNING, TASK_INTERRUPTIBLE and TASK_ZOMBIE of include/linux/sched.h: the states that this port
-- uses.
pub data TaskState : Type 0 where
  running interruptible zombie : TaskState

abbrev pub is_running : TaskState → Bool
is_running running = true
is_running _ = false

abbrev pub is_zombie : TaskState → Bool
is_zombie zombie = true
is_zombie _ = false

pub record Task (Files : Type 0) : Type 0 where
  pub pid : ℕ
  pub father : ℕ
  pub state : TaskState
  pub exit_code : ℕ
  pub end_data : ℕ
  pub start_stack : ℕ
  pub brk : ℕ
  pub files : Files

-- `SpContext`
pub record Context : Type 0 where
  pub regs : Memory
  pub pc : ℕ

-- A write of one slot of an array.
abbrev pub put {ℓ} : {A : Type ℓ} → (ℕ → A) → ℕ → A → ℕ → A
put f i v j = if j == i then v else f j

-- `window` is the memory of the running process, and `snapshot` what is kept of the others.
pub record Kernel (Files World : Type 0) : Type 0 where
  pub process : ℕ → Task Files
  pub contexts : ℕ → Context
  pub occupied : ℕ → Bool
  pub pending : ℕ → ℕ
  pub interrupted : ℕ → Bool
  pub deferred : ℕ → Bool
  pub cancel_read : ℕ → Bool
  pub active : ℕ
  pub next_pid : ℕ
  pub snapshot : ℕ → Memory
  pub window : Memory
  pub world : World

-- What the file system does when a task is copied (the counts of its files, directories and executable
-- go up) and when one exits (they are closed and released).
pub record FileSystem (Files World : Type 0) : Type 0 where
  pub hold : Files → World → World
  pub drop : Files → World → Files × World
