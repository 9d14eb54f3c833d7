-- ===== src/Kernel/Process/Dispatch.antt =====
-- The scheduler: `sp_dispatch` of Reference/Linux-0.11-main/kernel/symplus/process.c.
use linux_0_11_symcc_on_turi.Base.{
  ℕ, ◌+◌, ◌-◌, ◌%◌, Bool, not, ◌&&◌, ◌||◌, ◌==◌, if◌then◌else◌, List, [], ◌∷◌, Option, none, some,
}
use linux_0_11_symcc_on_turi.Emu.State.{poke}
use linux_0_11_symcc_on_turi.Kernel.Process.State.{
  Context, put, Kernel, eagain, running, interruptible, is_running, is_zombie,
}
use linux_0_11_symcc_on_turi.Kernel.Process.Tasks.{
  slots, current, activate, exit_current, wait_ready,
}
use linux_0_11_symcc_on_turi.Kernel.Process.Terminal.{line_ready}
use linux_0_11_symcc_on_turi.Kernel.Process.System.{System, Poll, Platform}
use linux_0_11_symcc_on_turi.Kernel.Process.Interrupt.{poll_io}
use linux_0_11_symcc_on_turi.Kernel.Process.Calls.{perform, with_task}

-- What `sp_execve` returns when it has set the new program's registers.
abbrev pub exec_done : ℕ
exec_done = 0x70000000

module _ {Files World : Type 0} where
  -- The slot `slot` is interrupted, and has not asked to end by itself.
  abbrev pub is_doomed : Kernel Files World → ℕ → Bool
  is_doomed k slot = k.interrupted slot && not (k.deferred slot)

  -- The circular order of the slots, from the one behind the running one on.
  unfoldable pub next_running : Kernel Files World → List ℕ → Option ℕ
  next_running k [] = none
  next_running k (i ∷ is) =
      let candidate = (k.active - 1 + i) % 8 + 1 in
      let rest = next_running k is in
      if k.occupied candidate && is_running (k.process candidate).state
      then some candidate
      else rest

  -- The process that goes on: the running one, unless the call was 101.
  unfoldable pub choose : Kernel Files World → ℕ → Option ℕ
  unfolding next_running
  choose k nr =
      if not (nr == 101) && (k.occupied k.active && is_running (current k).state)
      then some k.active
      else next_running k slots

  -- `regs[1]=result` in the context of the running process.
  abbrev pub give_result : Kernel Files World → ℕ → Kernel Files World
  give_result k result = record k {
    contexts =
        put k.contexts k.active
          (record (k.contexts k.active) { regs = poke (k.contexts k.active).regs 1 result });
  }

  module _ (p : Platform Files World) where
    -- `exit_current(0);current->exit_code=2;`
    unfoldable pub end_interrupted : Kernel Files World → Kernel Files World
    unfolding exit_current
    end_interrupted k =
        let k' = exit_current p.files k 0 in with_task k' (record (current k') { exit_code = 2 })

    -- The call of the running process, with its result: it waits, or has its result in r1.
    unfoldable pub settle_call : ℕ → ℕ → ℕ → ℕ → ℕ × System Files World → System Files World
    settle_call nr a b c (result, s) =
        let k = s.kernel in
        if (result == eagain) && ((nr == 3) || (nr == 7))
        then record s {
          kernel = record (with_task k (record (current k) { state = interruptible })) {
            pending = put k.pending k.active nr;
          };
          arg1 = put s.arg1 k.active a;
          arg2 = put s.arg2 k.active b;
          arg3 = put s.arg3 k.active c;
        }
        else if result == exec_done
        then s
        else record s { kernel = give_result k result }

    -- A new call of the running process, whose registers are `saved`.
    unfoldable pub start_call : System Files World → Context → Poll → System Files World
    unfolding end_interrupted settle_call poll_io perform
    start_call s saved poll =
        let entered = record s {
          kernel = record s.kernel { contexts = put s.kernel.contexts s.kernel.active saved };
        } in
        let polled = poll_io p entered poll in
        let nr = saved.regs 1 in
        let a = saved.regs 2 in
        let b = saved.regs 3 in
        let c = saved.regs 4 in
        settle_call nr a b c (
          if is_doomed polled.kernel polled.kernel.active
          then (0, record polled { kernel = end_interrupted polled.kernel })
          else perform p polled nr a b c)

    -- An interrupted process ends, with its own memory and files.
    unfoldable pub end_slot : Kernel Files World → ℕ → Kernel Files World
    unfolding end_interrupted activate
    end_slot k slot =
        let there = activate k slot in
        if k.occupied slot && (is_doomed k slot && not (is_zombie (k.process slot).state))
        then end_interrupted (record there { pending = put there.pending slot 0 })
        else k

    unfoldable pub end_slots : Kernel Files World → List ℕ → Kernel Files World
    unfolding end_slot
    end_slots k [] = k
    end_slots k (i ∷ is) = end_slots (end_slot k i) is

    -- The call of a process that waits is tried again.
    unfoldable pub retried : ℕ → ℕ × System Files World → System Files World
    retried slot (result, s) =
        let k = s.kernel in
        let done = give_result k result in
        if result == eagain then s else record s {
          kernel = record (with_task done (record (current done) { state = running })) {
            pending = put k.pending slot 0;
          };
        }

    unfoldable pub serve_slot : System Files World → ℕ → System Files World
    unfolding retried activate perform line_ready wait_ready
    serve_slot s slot =
        let k = s.kernel in
        let nr = k.pending slot in
        if not (k.occupied slot) || (nr == 0)
        then s
        else if (nr == 3) && (not (line_ready s.terminal) && not (k.cancel_read slot))
        then s
        else if (nr == 7) && not (wait_ready k slot (s.arg1 slot))
        then s
        else retried slot (
            perform p (record s { kernel = activate k slot }) nr (s.arg1 slot) (s.arg2 slot)
              (s.arg3 slot))

    unfoldable pub serve_slots : System Files World → List ℕ → System Files World
    unfolding serve_slot
    serve_slots s [] = s
    serve_slots s (i ∷ is) = serve_slots (serve_slot s i) is

    -- One pass of the scheduler, up to the choice.
    unfoldable pub sweep : System Files World → System Files World
    unfolding end_slots serve_slots
    sweep s = serve_slots (record s { kernel = end_slots s.kernel slots }) slots

    abbrev pub resume : System Files World → Option ℕ → Option (System Files World)
    resume s none = none
    resume s (some slot) = some (record s { kernel = activate s.kernel slot })

    -- The loop, for the polls that the hardware answers: `none` is still in the loop after them.
    unfoldable pub schedule : ℕ → System Files World → List Poll → Option (System Files World)
    unfolding sweep choose
    schedule nr s [] = let s' = sweep s in resume s' (choose s'.kernel nr)
    schedule nr s (poll ∷ polls) =
        let s' = sweep s in
        let later = schedule nr (poll_io p s' poll) polls in
        elim (choose s'.kernel nr) [ none ↦ later | some slot ↦ resume s' (some slot) ]

    -- The process that goes on is the running one of the result, with the context of its slot.
    unfoldable pub sp_dispatch :
        System Files World → Context → Poll → List Poll → Option (System Files World)
    unfolding start_call schedule
    sp_dispatch s saved poll polls = schedule (saved.regs 1) (start_call s saved poll) polls
