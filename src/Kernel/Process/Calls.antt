-- ===== src/Kernel/Process/Calls.antt =====
-- The system calls: `perform` of Reference/Linux-0.11-main/kernel/symplus/process.c.
use linux_0_11_symcc_on_turi.Base.{
  ℕ, Bool, true, false, not, ◌&&◌, ◌||◌, leb, ◌==◌, if◌then◌else◌, List, [], ◌∷◌,
}
use linux_0_11_symcc_on_turi.Kernel.Process.State.{
  Task, put, Kernel, eintr, echild, ebadf, efault, enosys,
}
use linux_0_11_symcc_on_turi.Kernel.Process.Users.{sp_user_range, user_string}
use linux_0_11_symcc_on_turi.Kernel.Process.Tasks.{
  slots, current, fork_current, exit_current, wait_current,
}
use linux_0_11_symcc_on_turi.Kernel.Process.Terminal.{tty_read_user}
use linux_0_11_symcc_on_turi.Kernel.Process.System.{
  System, SysCall, Answer, Platform, sys_read, sys_write, sys_open, sys_close, sys_unlink,
  sys_chdir, sys_chmod, sys_stat, sys_lseek, sys_fstat, sys_sync, sys_rename, sys_mkdir, sys_rmdir,
  sys_dup, sys_dup2,
}
use linux_0_11_symcc_on_turi.Kernel.Process.Interrupt.{descendant}

-- The cases of the switch. `checked` is a call of the file system whose arguments are tested first.
pub data Call : Type 0 where
  exit fork read write waitpid execve stat fstat getpid rename brk getppid processes : Call
  nothing foreground defer cancelled unknown : Call
  by_name plain : SysCall → Call

abbrev pub calls : List (ℕ × Call)
calls =
    (1, exit)
    ∷ (2, fork)
    ∷ (3, read)
    ∷ (4, write)
    ∷ (5, by_name sys_open)
    ∷ (6, plain sys_close)
    ∷ (10, by_name sys_unlink)
    ∷ (7, waitpid)
    ∷ (11, execve)
    ∷ (12, by_name sys_chdir)
    ∷ (15, by_name sys_chmod)
    ∷ (18, stat)
    ∷ (19, plain sys_lseek)
    ∷ (20, getpid)
    ∷ (28, fstat)
    ∷ (36, plain sys_sync)
    ∷ (38, rename)
    ∷ (39, by_name sys_mkdir)
    ∷ (40, by_name sys_rmdir)
    ∷ (41, plain sys_dup)
    ∷ (45, brk)
    ∷ (63, plain sys_dup2)
    ∷ (64, getppid)
    ∷ (100, processes)
    ∷ (101, nothing)
    ∷ (102, nothing)
    ∷ (103, foreground)
    ∷ (104, defer)
    ∷ (105, cancelled)
    ∷ []

unfoldable pub call_in : List (ℕ × Call) → ℕ → Call
call_in [] nr = unknown
call_in ((n, call) ∷ rest) nr = let later = call_in rest nr in if nr == n then call else later

unfoldable pub call_of : ℕ → Call
unfolding call_in
call_of nr = call_in calls nr

abbrev pub flag : Bool → ℕ
flag b = if b then 1 else 0

module _ {Files World : Type 0} where
  -- The process `pid` is a child of the running one.
  unfoldable pub has_child : Kernel Files World → ℕ → List ℕ → Bool
  has_child k pid [] = false
  has_child k pid (i ∷ is) =
      (k.occupied i && (((k.process i).pid == pid) && ((k.process i).father == (current k).pid)))
      || has_child k pid is

  -- `if(occupied[i] && descendant(i,a))interrupted[i]=1;` over the slots.
  unfoldable pub interrupt_tree : ℕ → Kernel Files World → List ℕ → Kernel Files World
  unfolding descendant
  interrupt_tree root k [] = k
  interrupt_tree root k (i ∷ is) =
      interrupt_tree root
        (if k.occupied i && descendant k i root
          then record k { interrupted = put k.interrupted i true }
          else k)
        is

  -- The process `a` gets the interrupts; one that came before goes to its tree.
  unfoldable pub set_foreground : System Files World → ℕ → ℕ × System Files World
  unfolding has_child interrupt_tree
  set_foreground s a =
      let k = s.kernel in
      let k' =
        if not (a == 0) && k.cancel_read k.active
        then interrupt_tree a (record k { cancel_read = put k.cancel_read k.active false }) slots
        else k in
      if not (a == 0) && not (has_child k a slots)
      then (echild, s)
      else (0, record s { kernel = k'; foreground_owner = (current k).pid; foreground_pid = a })

  -- The running task is `t` now.
  abbrev pub with_task : Kernel Files World → Task Files → Kernel Files World
  with_task k t = record k { process = put k.process k.active t }

  module _ (p : Platform Files World) where
    -- The state after a call of the file system.
    abbrev pub answered : Kernel Files World → Answer Files World → Kernel Files World
    answered k r = record (with_task k (record (current k) { files = r.files })) {
      world = r.world;
      window = r.window;
    }

    unfoldable pub invoke : System Files World → SysCall → ℕ → ℕ → ℕ → ℕ × System Files World
    invoke s f a b c =
        let k = s.kernel in
        let r = p.sys f a b c (current k).files k.world k.window in
        (r.result, record s { kernel = answered k r })

    unfoldable pub run_program : System Files World → ℕ → ℕ → ℕ → ℕ × System Files World
    run_program s a b c =
        let k = s.kernel in
        let r = p.execve a b c (current k) k.world k.window (k.contexts k.active) in
        let t = record (current k) {
          files = r.answer.files;
          end_data = r.end_data;
          start_stack = r.start_stack;
          brk = r.brk;
        } in
        (
          r.answer.result,
          record s {
            kernel = record (with_task k t) {
              world = r.answer.world;
              window = r.answer.window;
              contexts = put k.contexts k.active r.context;
            };
          },
        )

    -- From the keyboard.
    unfoldable pub read_line : System Files World → ℕ → ℕ → ℕ × System Files World
    unfolding tty_read_user
    read_line s b c =
        let k = s.kernel in
        let r = tty_read_user (k.cancel_read k.active) s.terminal k.window b c in
        (
          r.result,
          record s {
            terminal = r.terminal;
            kernel = record k {
              window = r.window;
              cancel_read = put k.cancel_read k.active r.cancel_read;
            };
          },
        )

    unfoldable pub report_all : Kernel Files World → List ℕ → World → World
    report_all k [] w = w
    report_all k (i ∷ is) w = report_all k is (
        if k.occupied i
        then p.report (k.process i).pid (k.process i).father (k.process i).state w
        else w)

    -- A call on the kernel alone.
    abbrev pub on_kernel : System Files World → ℕ × Kernel Files World → ℕ × System Files World
    on_kernel s (result, k) = (result, record s { kernel = k })

    unfoldable pub perform_call : System Files World → Call → ℕ → ℕ → ℕ → ℕ × System Files World
    unfolding sp_user_range user_string exit_current fork_current wait_current set_foreground invoke
        run_program read_line report_all
    perform_call s exit a b c = on_kernel s (0, exit_current p.files s.kernel a)
    perform_call s fork a b c =
        on_kernel s (fork_current p.files s.kernel (s.kernel.contexts s.kernel.active))
    perform_call s read a b c =
        if not (sp_user_range b c)
        then (efault, s)
        else if leb 20 a || not (p.has_file (current s.kernel).files a)
        then (ebadf, s)
        else if p.is_char (current s.kernel).files s.kernel.world a
        then read_line s b c
        else invoke s sys_read a b c
    perform_call s write a b c =
        if not (sp_user_range b c) then (efault, s) else invoke s sys_write a b c
    perform_call s waitpid a b c =
        if not (b == 0) && not (sp_user_range b 4)
        then (efault, s)
        else on_kernel s (wait_current s.kernel a b c)
    perform_call s execve a b c =
        if not (user_string s.kernel.window a) then (efault, s) else run_program s a b c
    perform_call s stat a b c =
        if not (user_string s.kernel.window a) || not (sp_user_range b p.stat_size)
        then (efault, s)
        else invoke s sys_stat a b c
    perform_call s fstat a b c =
        if not (sp_user_range b p.stat_size) then (efault, s) else invoke s sys_fstat a b c
    perform_call s getpid a b c = ((current s.kernel).pid, s)
    perform_call s rename a b c =
        let k = s.kernel in
        if k.deferred k.active && k.interrupted k.active
        then (eintr, s)
        else if not (user_string k.window a) || not (user_string k.window b)
        then (efault, s)
        else invoke s sys_rename a b c
    perform_call s brk a b c =
        let t = current s.kernel in
        if leb t.end_data a && leb a t.start_stack
        then (a, record s { kernel = with_task s.kernel (record t { brk = a }) })
        else (t.brk, s)
    perform_call s getppid a b c = ((current s.kernel).father, s)
    perform_call s processes a b c = (
      0,
      record s { kernel = record s.kernel { world = report_all s.kernel slots s.kernel.world } },
    )
    perform_call s nothing a b c = (0, s)
    perform_call s foreground a b c = set_foreground s a
    perform_call s defer a b c =
        let k = s.kernel in
        (
          flag (k.interrupted k.active),
          if a == 0
              then s
              else record s { kernel = record k { deferred = put k.deferred k.active true } },
        )
    perform_call s cancelled a b c =
        let k = s.kernel in
        (
          flag (k.cancel_read k.active),
          record s { kernel = record k { cancel_read = put k.cancel_read k.active false } },
        )
    perform_call s unknown a b c = (enosys, s)
    perform_call s (by_name f) a b c =
        if not (user_string s.kernel.window a) then (efault, s) else invoke s f a b c
    perform_call s (plain f) a b c = invoke s f a b c

    unfoldable pub perform : System Files World → ℕ → ℕ → ℕ → ℕ → ℕ × System Files World
    unfolding call_of perform_call
    perform s nr a b c = perform_call s (call_of nr) a b c
