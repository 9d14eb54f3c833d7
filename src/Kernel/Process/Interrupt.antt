-- ===== src/Kernel/Process/Interrupt.antt =====
-- Interrupts from the keyboard and the clock: `descendant`, `terminal_interrupt` and `poll_io` of
-- Reference/Linux-0.11-main/kernel/symplus/process.c.
use linux_0_11_symcc_on_turi.Base.{
  ℕ, zero, suc, ◌+◌, Bool, true, false, not, ◌&&◌, ltb, ◌==◌, if◌then◌else◌, List, [], ◌∷◌, Option,
  none, some,
}
use linux_0_11_symcc_on_turi.Base.Word.{u32}
use linux_0_11_symcc_on_turi.Kernel.Tick.{sp_tick_elapsed}
use linux_0_11_symcc_on_turi.Kernel.Process.State.{put, Kernel}
use linux_0_11_symcc_on_turi.Kernel.Process.Tasks.{slots}
use linux_0_11_symcc_on_turi.Kernel.Process.Terminal.{interrupts, typed, key_event}
use linux_0_11_symcc_on_turi.Kernel.Process.System.{Clock, System, Poll, Platform}

module _ {Files World : Type 0} where
  -- `for(i=1;i<=8;i++)if(occupied[i] && task[i]->pid==pid)break;`
  unfoldable pub slot_of : Kernel Files World → ℕ → List ℕ → Option ℕ
  slot_of k pid [] = none
  slot_of k pid (i ∷ is) =
      let rest = slot_of k pid is in
      if k.occupied i && ((k.process i).pid == pid) then some i else rest

  -- The loop of `descendant` from the process `pid` up, for at most `depth` fathers.
  unfoldable pub climb : Kernel Files World → ℕ → ℕ → ℕ → Bool
  unfolding slot_of
  climb k root zero pid = false
  climb k root (suc depth) pid =
      if not (ltb 1 pid) then false else if pid == root then true else elim (slot_of k pid slots) [
        | none ↦ false
        | some i ↦ climb k root depth (k.process i).father
      ]

  unfoldable pub descendant : Kernel Files World → ℕ → ℕ → Bool
  unfolding climb
  descendant k slot root = climb k root 9 (k.process slot).pid

  -- What an interrupt does to one slot, for the foreground process and the process that chose it.
  unfoldable pub interrupt_slot : ℕ → ℕ → Kernel Files World → ℕ → Kernel Files World
  unfolding descendant
  interrupt_slot pid owner k i =
      if k.occupied i
      then (if not (pid == 0) && descendant k i pid
          then record k { interrupted = put k.interrupted i true }
          else if (pid == 0) && ((k.process i).pid == owner)
          then record k { cancel_read = put k.cancel_read i true }
          else k)
      else k

  unfoldable pub interrupt_slots : ℕ → ℕ → Kernel Files World → List ℕ → Kernel Files World
  unfolding interrupt_slot
  interrupt_slots pid owner k [] = k
  interrupt_slots pid owner k (i ∷ is) = interrupt_slots pid owner (interrupt_slot pid owner k i) is

  module _ (p : Platform Files World) where
    -- `tty_write(0,...)` of the characters, if there are any.
    abbrev pub echoed : List ℕ → Kernel Files World → Kernel Files World
    echoed [] k = k
    echoed (c ∷ cs) k = record k { world = p.echo (c ∷ cs) k.world }

    unfoldable pub terminal_interrupt : System Files World → System Files World
    unfolding interrupt_slots
    terminal_interrupt s = record s {
      terminal = record s.terminal { tail = s.terminal.head };
      kernel =
          interrupt_slots s.foreground_pid s.foreground_owner
            (echoed (b'^' ∷ b'C' ∷ b'\n' ∷ []) s.kernel) slots;
    }

    -- The end of `poll_io`. The first poll starts the clock.
    unfoldable pub read_clock : Clock → ℕ → ℕ → Clock
    unfolding sp_tick_elapsed
    read_clock c low high =
        let (ticks, left) =
          if c.ready
          then sp_tick_elapsed c.last_low c.last_high low high c.tick_remainder
          else sp_tick_elapsed low high low high c.tick_remainder in
        record {
          last_low = low;
          last_high = high;
          tick_remainder = left;
          ready = true;
          jiffies = u32 (c.jiffies + ticks);
        }

    unfoldable pub keyboard : System Files World → ℕ → System Files World
    unfolding terminal_interrupt key_event
    keyboard s event = elim (key_event s.terminal event) [
      | interrupts ↦ terminal_interrupt s
      | typed t echo ↦ record s { terminal = t; kernel = echoed echo s.kernel }
    ]

    unfoldable pub poll_io : System Files World → Poll → System Files World
    unfolding keyboard read_clock
    poll_io s poll =
        let s' = keyboard s poll.event in
        record s' { clock = read_clock s'.clock poll.low poll.high }
