-- ===== src/Kernel/Tests.antt =====
-- Two processes of the kernel in Reference/Linux-0.11-main/kernel/symplus, and the theorems of this part at
-- them.
use linux_0_11_symcc_on_turi.Base.{
  ℕ, ◌+◌, ◌%◌, ◌^◌, ◌<◌, ◌≤◌, ◌≡◌, ◌≢◌, ◌↔◌, ◌⊎◌, inl, refl, arith, true, false, not, ◌==◌,
  if◌then◌else◌, ◌||◌,
}
use linux_0_11_symcc_on_turi.Base.Word.{◌<<◌}
use linux_0_11_symcc_on_turi.Emu.State.{rd32}
use linux_0_11_symcc_on_turi.Emu.Run.{blank}
use linux_0_11_symcc_on_turi.Kernel.Tick.{sp_tick_elapsed, sp_tick_elapsed_lem}
use linux_0_11_symcc_on_turi.Kernel.Process.State.{
  Task, Context, Kernel, FileSystem, running, sp_user_base, eagain,
}
use linux_0_11_symcc_on_turi.Kernel.Process.Users.{user_string, IsString, user_string_iff}
use linux_0_11_symcc_on_turi.Kernel.Process.Tasks.{
  free_slot, any_child, current, activate, fork_current, exit_current, wait_current, wait_ready,
}
use linux_0_11_symcc_on_turi.Kernel.Process.Switch.{
  IsLive, activate-activate, fork_current-activate,
}
use linux_0_11_symcc_on_turi.Kernel.Process.Wait.{wait_ready-wait_current}
use linux_0_11_symcc_on_turi.Kernel.Process.Handoff.{HasParent, exit_current-wait_current}

sp_tick_elapsed_lem_example : sp_tick_elapsed 0 0 25000000 1 7 ≡ (431, 9967303)
sp_tick_elapsed_lem_example =
    sp_tick_elapsed_lem 0 0 25000000 1 7 (omega arith) (omega arith) (omega arith) (omega arith)
      (omega arith)

user_string_iff_example : (user_string blank sp_user_base ≡ true) ↔ IsString blank sp_user_base
user_string_iff_example = user_string_iff blank sp_user_base

-- A file system of which nothing is kept.
abbrev no_files : FileSystem Unit Unit
no_files = record { hold = λ f w. w; drop = λ f w. (f, w) }

abbrev task_of : ℕ → ℕ → Task Unit
task_of pid father = record {
  pid = pid;
  father = father;
  state = running;
  exit_code = 0;
  end_data = 0;
  start_stack = 0;
  brk = 0;
  files = tt;
}

-- Process 1 in slot 1 and its child 2 in slot 2, which is running.
abbrev family : Kernel Unit Unit
family = record {
  process = λ i. if i == 1 then task_of 1 0 else if i == 2 then task_of 2 1 else task_of 0 0;
  contexts = λ i. record { regs = blank; pc = 0 };
  occupied = λ i. (i == 1) || (i == 2);
  pending = blank;
  interrupted = λ i. false;
  deferred = λ i. false;
  cancel_read = λ i. false;
  active = 2;
  next_pid = 2;
  snapshot = λ i a. i;
  window = λ a. 7;
  world = tt;
}

child_lives : IsLive family 2
child_lives = record { above = omega arith; taken = refl; alive = refl }

activate-activate_example :
    let away = activate family 1 in
    let back = activate (record away { window = blank }) 2 in
    (away.window ≡ family.snapshot 1)
    × (back.window ≡ family.window)
    × (back.active ≡ 2)
    × (IsLive family 1 → back.snapshot 1 ≡ blank)
    × ((c : ℕ) → c ≢ 2 → c ≢ 1 → back.snapshot c ≡ family.snapshot c)
activate-activate_example = activate-activate family 1 blank (omega arith) child_lives

-- The child forks, then, in another run, ends.
abbrev child_files : Context
child_files = record { regs = λ i. 5; pc = 0x200010 }

fork_current-activate_example :
    let (pid, forked) = fork_current no_files family child_files in
    let child = activate forked 3 in
    let parent = activate (record child { window = blank }) 2 in
    (pid ≡ 3)
    × (family.occupied 3 ≡ false)
    × ((current child).pid ≡ pid)
    × ((current child).father ≡ 2)
    × (child.window ≡ family.window)
    × ((child.contexts 3).regs 1 ≡ 0)
    × ((child.contexts 3).pc ≡ 0x200010)
    × (parent.window ≡ family.window)
    × (parent.snapshot 3 ≡ blank)
unfolding free_slot
fork_current-activate_example =
    fork_current-activate no_files family child_files blank 3 child_lives refl refl (omega arith)

small_pids : (i : ℕ) → (family.process i).pid < 2 ^ 31
small_pids i = ground arith

wait_ready-wait_current_example :
    wait_ready family 2 any_child ≡ not ((wait_current family any_child 0 0).0 == eagain)
wait_ready-wait_current_example =
    wait_ready-wait_current family any_child 0 (inl refl) (omega arith) small_pids

has_parent : HasParent family 1
has_parent = record {
  above = omega arith;
  below = omega arith;
  taken = refl;
  other = omega arith;
  father = refl;
  own = omega arith;
  init = omega arith;
  up = omega arith;
  positive = omega arith;
  small = omega arith;
  single = λ j ne o. others j ne o;
}
  where
    others : (j : ℕ) → j ≢ 2 → family.occupied j ≡ true → (family.process j).pid ≢ 2
    others j ne o = ground arith

exit_current-wait_current_example :
    let (result, after) = wait_current (activate (exit_current no_files family 3) 1) 2 0x200100 0 in
    (result ≡ 2)
    × (rd32 after.window 0x200100 ≡ (3 % 256) << 8)
    × (after.occupied 2 ≡ false)
    × ((a : ℕ) → (a < 0x200100) ⊎ (0x200100 + 4 ≤ a) → after.window a ≡ family.snapshot 1 a)
unfolding exit_current
exit_current-wait_current_example =
    exit_current-wait_current no_files family 3 1 0x200100 has_parent (omega arith)
