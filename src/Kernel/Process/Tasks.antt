-- ===== src/Kernel/Process/Tasks.antt =====
-- fork, exit and wait: `activate`, `fork_current`, `exit_current`, `wait_current` and `wait_ready` of
-- Reference/Linux-0.11-main/kernel/symplus/process.c.
use linux_0_11_symcc_on_turi.Base.{
  ℕ, ◌+◌, ◌-◌, ◌%◌, ◌^◌, Bool, true, false, not, ◌&&◌, ◌||◌, ltb, leb, ◌==◌, if◌then◌else◌, List,
  [], ◌∷◌, Option, none, some,
}
use linux_0_11_symcc_on_turi.Base.Word.{◌<<◌, u32}
use linux_0_11_symcc_on_turi.Emu.State.{Memory, poke, wr32}
use linux_0_11_symcc_on_turi.Kernel.Process.State.{
  eintr, echild, eagain, einval, running, zombie, is_zombie, Task, Context, put, Kernel, FileSystem,
}

-- The slots, in the order of the loops.
abbrev pub slots : List ℕ
slots = 1 ∷ 2 ∷ 3 ∷ 4 ∷ 5 ∷ 6 ∷ 7 ∷ 8 ∷ []

-- `for(slot=1;slot<=8;slot++)if(!occupied[slot])break;`
unfoldable pub free_slot : (ℕ → Bool) → List ℕ → Option ℕ
free_slot occupied [] = none
free_slot occupied (i ∷ is) = if occupied i then free_slot occupied is else some i

-- The child sees 0 in r1.
abbrev pub child_context : Context → Context
child_context ctx = record ctx { regs = poke ctx.regs 1 0 }

-- The `pid` -1.
abbrev pub any_child : ℕ
any_child = 2 ^ 32 - 1

-- `if(occupied[i] && task[i]->father==current->pid)task[i]->father=1;` over the slots.
unfoldable pub adopt :
    {Files : Type 0} → ℕ → (ℕ → Bool) → (ℕ → Task Files) → List ℕ → ℕ → Task Files
adopt pid occupied process [] = process
adopt pid occupied process (i ∷ is) =
    adopt pid occupied
      (if occupied i && ((process i).father == pid)
        then put process i (record (process i) { father = 1 })
        else process)
      is

module _ {Files World : Type 0} where
  abbrev pub current : Kernel Files World → Task Files
  current k = k.process k.active

  -- `snapshot(slot)` is kept of a process that may run again.
  unfoldable pub save_active : Kernel Files World → ℕ → Memory
  save_active k =
      if ltb 0 k.active && (k.occupied k.active && not (is_zombie (current k).state))
      then put k.snapshot k.active k.window
      else k.snapshot

  unfoldable pub activate : Kernel Files World → ℕ → Kernel Files World
  unfolding save_active
  activate k slot =
      if slot == k.active
      then k
      else record k { snapshot = save_active k; window = save_active k slot; active = slot }

  -- The child's task. The other fields of a `task_struct` that fork clears are not read in this file.
  abbrev pub child_task : Kernel Files World → Task Files
  child_task k = record (current k) {
    pid = u32 (k.next_pid + 1);
    father = (current k).pid;
    state = running;
    exit_code = 0;
  }

  module _ (fs : FileSystem Files World) where
    -- Into a free slot. `next_pid` is an `int`, kept as its 32 bits.
    unfoldable pub fork_into : Kernel Files World → Context → ℕ → ℕ × Kernel Files World
    fork_into k ctx slot = (
      u32 (k.next_pid + 1),
      record k {
        process = put k.process slot (child_task k);
        next_pid = u32 (k.next_pid + 1);
        contexts = put k.contexts slot (child_context ctx);
        snapshot = put k.snapshot slot k.window;
        world = fs.hold (current k).files k.world;
        occupied = put k.occupied slot true;
        pending = put k.pending slot 0;
        interrupted = put k.interrupted slot false;
        deferred = put k.deferred slot false;
        cancel_read = put k.cancel_read slot false;
      },
    )

    unfoldable pub fork_at : Kernel Files World → Context → Option ℕ → ℕ × Kernel Files World
    fork_at k ctx none = (eagain, k)
    fork_at k ctx (some slot) = fork_into k ctx slot

    unfoldable pub fork_current : Kernel Files World → Context → ℕ × Kernel Files World
    unfolding fork_at
    fork_current k ctx =
        if k.deferred k.active && k.interrupted k.active
        then (eintr, k)
        else fork_at k ctx (free_slot k.occupied slots)

    unfoldable pub exit_current : Kernel Files World → ℕ → Kernel Files World
    exit_current k code =
        let (files, world) = fs.drop (current k).files k.world in
        let dead = record (current k) {
          state = zombie;
          exit_code = (code % 256) << 8;
          files = files;
        } in
        record k {
          process = adopt (current k).pid k.occupied (put k.process k.active dead) slots;
          world = world;
        }

  -- Whether the slot `i` holds a child of the current process that `wait` asks for.
  unfoldable pub is_awaited : Kernel Files World → ℕ → ℕ → Bool
  is_awaited k pid i =
      k.occupied i
      && (not (i == k.active)
          && (((k.process i).father == (current k).pid)
              && ((pid == any_child) || (pid == (k.process i).pid))))

  -- `*status=task[i]->exit_code`, where there is a place for it, and the slot is free again.
  unfoldable pub reap : Kernel Files World → ℕ → ℕ → ℕ × Kernel Files World
  reap k status i = (
    (k.process i).pid,
    record k {
      window = if status == 0 then k.window else wr32 k.window status (k.process i).exit_code;
      occupied = put k.occupied i false;
      pending = put k.pending i 0;
    },
  )

  -- The loop over the slots; `found` says whether there was a child.
  unfoldable pub wait_loop : Kernel Files World → ℕ → ℕ → ℕ → Bool → List ℕ → ℕ × Kernel Files World
  wait_loop k pid status options found [] =
      (if found then (if options % 2 == 1 then 0 else eagain) else echild, k)
  wait_loop k pid status options found (i ∷ is) =
      let reaped = reap k status i in
      let rest = wait_loop k pid status options (found || is_awaited k pid i) is in
      if is_awaited k pid i && is_zombie (k.process i).state then reaped else rest

  -- `pid` and `options` are 32-bit patterns; the `int` `pid` is valid if it is -1 or positive.
  unfoldable pub wait_current : Kernel Files World → ℕ → ℕ → ℕ → ℕ × Kernel Files World
  unfolding wait_loop
  wait_current k pid status options =
      if not (pid == any_child) && ((pid == 0) || leb (2 ^ 31) pid)
      then (einval, k)
      else if ltb 1 options
      then (einval, k)
      else wait_loop k pid status options false slots

  -- Whether the slot `i` holds a child that the blocked `wait` of the process in `slot` asks for.
  unfoldable pub is_counted : Kernel Files World → ℕ → ℕ → ℕ → Bool
  is_counted k slot pid i =
      k.occupied i
      && (((k.process i).father == (k.process slot).pid)
          && ((pid == any_child) || (pid == (k.process i).pid)))

  -- Whether that `wait` can go on.
  unfoldable pub ready_loop : Kernel Files World → ℕ → ℕ → Bool → List ℕ → Bool
  ready_loop k slot pid found [] = not found
  ready_loop k slot pid found (i ∷ is) =
      let rest = ready_loop k slot pid (found || is_counted k slot pid i) is in
      if is_counted k slot pid i && is_zombie (k.process i).state then true else rest

  unfoldable pub wait_ready : Kernel Files World → ℕ → ℕ → Bool
  unfolding ready_loop
  wait_ready k slot pid = ready_loop k slot pid false slots
