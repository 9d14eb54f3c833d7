-- ===== src/Kernel/Process/Performed.antt =====
-- Every system call of Reference/Linux-0.11-main/kernel/symplus/process.c, and every poll of the keyboard,
-- keeps the process numbers in order.
use linux_0_11_symcc_on_turi.Base.{
  ℕ, refl, Bool, true, false, not, ◌&&◌, ◌||◌, leb, ◌==◌, if◌then◌else◌, List, [], ◌∷◌,
}
use linux_0_11_symcc_on_turi.Kernel.Process.State.{put, Kernel, efault, ebadf, eintr, echild}
use linux_0_11_symcc_on_turi.Kernel.Process.Tasks.{slots, current, wait_current}
use linux_0_11_symcc_on_turi.Kernel.Process.Users.{sp_user_range, user_string}
use linux_0_11_symcc_on_turi.Kernel.Process.Valid.{Quiet, Quiet-refl, Quiet-trans}
use linux_0_11_symcc_on_turi.Kernel.Process.Kept.{
  either, wait_current-Quiet, with_task-Quiet, no_task-Quiet, untouched, interrupt_tree-Quiet,
  interrupt_slots-Quiet,
}
use linux_0_11_symcc_on_turi.Kernel.Process.Terminal.{Typed, interrupts, typed, key_event}
use linux_0_11_symcc_on_turi.Kernel.Process.System.{
  System, SysCall, Poll, Platform, sys_read, sys_write, sys_stat, sys_fstat, sys_rename,
}
use linux_0_11_symcc_on_turi.Kernel.Process.Interrupt.{
  echoed, terminal_interrupt, keyboard, poll_io,
}
use linux_0_11_symcc_on_turi.Kernel.Process.Calls.{
  Call, exit, fork, read, write, waitpid, execve, stat, fstat, getpid, rename, brk, getppid,
  processes, nothing, foreground, defer, cancelled, unknown, by_name, plain, on_kernel, has_child,
  set_foreground, with_task, invoke, run_program, read_line, report_all, perform_call,
}

module _ {Files World : Type 0} where
  -- What a call in the state `s` leaves, with its result.
  pub record After (s : System Files World) (r : ℕ × System Files World) : Type 0 where
    pub quiet : Quiet s.kernel r.1.kernel

  choice :
      (s : System Files World) (b : Bool) (r r' : ℕ × System Files World)
      → After s r
      → After s r'
      → After s (if b then r else r')
  choice s true r r' h k = h
  choice s false r r' h k = k

  same_state : (s : System Files World) (e : ℕ) → After s (e, s)
  same_state s e = record { quiet = Quiet-refl s.kernel }

  -- An error, or what the call does in the end.
  refused :
      (s : System Files World) (b : Bool) (e : ℕ) (r : ℕ × System Files World)
      → After s r
      → After s (if b then (e, s) else r)
  refused s b e r h = choice s b (e, s) r (same_state s e) h

  set_foreground-After : (s : System Files World) (a : ℕ) → After s (set_foreground s a)
  unfolding set_foreground
  set_foreground-After s a =
      let k = s.kernel in
      let off = record k { cancel_read = put k.cancel_read k.active false } in
      refused s (not (a == 0) && not (has_child k a slots)) echild _ (record {
        quiet =
            either (Quiet k) (not (a == 0) && k.cancel_read k.active) _ k
              (Quiet-trans k off _ (no_task-Quiet k off refl (untouched k off refl refl refl refl))
                (interrupt_tree-Quiet a slots off))
              (Quiet-refl k);
      })

  module _ (p : Platform Files World) where
    invoke-After : (s : System Files World) (f : SysCall) (a b c : ℕ) → After s (invoke p s f a b c)
    unfolding invoke
    invoke-After s f a b c = record {
      quiet =
          with_task-Quiet s.kernel (invoke p s f a b c).1.kernel _ refl refl refl
            (untouched s.kernel _ refl refl refl refl);
    }

    run_program-After : (s : System Files World) (a b c : ℕ) → After s (run_program p s a b c)
    unfolding run_program
    run_program-After s a b c = record {
      quiet =
          with_task-Quiet s.kernel (run_program p s a b c).1.kernel _ refl refl refl
            (untouched s.kernel _ refl refl refl refl);
    }

    pub read_line-After : (s : System Files World) (b c : ℕ) → After s (read_line p s b c)
    unfolding read_line
    read_line-After s b c = record {
      quiet =
          no_task-Quiet s.kernel (read_line p s b c).1.kernel refl
            (untouched s.kernel _ refl refl refl refl);
    }

    -- The calls but exit and fork.
    abbrev pub IsQuiet : Call → Type 0
    IsQuiet exit = ⊥
    IsQuiet fork = ⊥
    IsQuiet _ = Unit

    pub perform_call-After :
        (s : System Files World) (call : Call) (a b c : ℕ)
        → IsQuiet call
        → After s (perform_call p s call a b c)
    unfolding perform_call
    perform_call-After s exit a b c h = absurd h
    perform_call-After s fork a b c h = absurd h
    perform_call-After s read a b c h = refused s (not (sp_user_range b c)) efault _ (
        refused s (leb 20 a || not (p.has_file (current s.kernel).files a)) ebadf _ (
          choice s (p.is_char (current s.kernel).files s.kernel.world a) (read_line p s b c)
            (invoke p s sys_read a b c) (read_line-After s b c) (invoke-After s sys_read a b c)))
    perform_call-After s write a b c h =
        refused s (not (sp_user_range b c)) efault _ (invoke-After s sys_write a b c)
    perform_call-After s waitpid a b c h =
        refused s (not (b == 0) && not (sp_user_range b 4)) efault
          (on_kernel p s (wait_current s.kernel a b c))
          (record { quiet = wait_current-Quiet s.kernel a b c })
    perform_call-After s execve a b c h =
        refused s (not (user_string s.kernel.window a)) efault _ (run_program-After s a b c)
    perform_call-After s stat a b c h =
        refused s (not (user_string s.kernel.window a) || not (sp_user_range b p.stat_size)) efault
          _ (invoke-After s sys_stat a b c)
    perform_call-After s fstat a b c h =
        refused s (not (sp_user_range b p.stat_size)) efault _ (invoke-After s sys_fstat a b c)
    perform_call-After s getpid a b c h = same_state s _
    perform_call-After s rename a b c h =
        refused s (s.kernel.deferred s.kernel.active && s.kernel.interrupted s.kernel.active) eintr
          _
          (refused s (not (user_string s.kernel.window a) || not (user_string s.kernel.window b))
            efault _ (invoke-After s sys_rename a b c))
    perform_call-After s brk a b c h =
        choice s (leb (current s.kernel).end_data a && leb a (current s.kernel).start_stack)
          (a, record s { kernel = with_task s.kernel (record (current s.kernel) { brk = a }) })
          ((current s.kernel).brk, s)
          (record {
            quiet =
                with_task-Quiet s.kernel
                  (with_task s.kernel (record (current s.kernel) { brk = a })) _ refl refl refl
                  (untouched s.kernel _ refl refl refl refl);
          })
          (same_state s _)
    perform_call-After s getppid a b c h = same_state s _
    perform_call-After s processes a b c h = record {
      quiet =
          no_task-Quiet s.kernel
            (record s.kernel { world = report_all p s.kernel slots s.kernel.world }) refl
            (untouched s.kernel _ refl refl refl refl);
    }
    perform_call-After s nothing a b c h = same_state s _
    perform_call-After s foreground a b c h = set_foreground-After s a
    perform_call-After s defer a b c h = record {
      quiet =
          either {A = System Files World} (λ r. Quiet s.kernel r.kernel) (a == 0) s _
            (Quiet-refl s.kernel)
            (no_task-Quiet s.kernel
              (record s.kernel { deferred = put s.kernel.deferred s.kernel.active true }) refl
              (untouched s.kernel _ refl refl refl refl));
    }
    perform_call-After s cancelled a b c h = record {
      quiet =
          no_task-Quiet s.kernel
            (record s.kernel { cancel_read = put s.kernel.cancel_read s.kernel.active false }) refl
            (untouched s.kernel _ refl refl refl refl);
    }
    perform_call-After s unknown a b c h = same_state s _
    perform_call-After s (by_name f) a b c h =
        refused s (not (user_string s.kernel.window a)) efault _ (invoke-After s f a b c)
    perform_call-After s (plain f) a b c h = invoke-After s f a b c

    echoed-Quiet : (echo : List ℕ) (k : Kernel Files World) → Quiet k (echoed p echo k)
    echoed-Quiet [] k = Quiet-refl k
    echoed-Quiet (c ∷ cs) k =
        no_task-Quiet k (echoed p (c ∷ cs) k) refl (untouched k _ refl refl refl refl)

    pub poll_io-Quiet :
        (s : System Files World) (poll : Poll) → Quiet s.kernel (poll_io p s poll).kernel
    unfolding poll_io keyboard terminal_interrupt
    poll_io-Quiet s poll = of (key_event s.terminal poll.event)
      where
        of :
            (t : Typed)
            → Quiet s.kernel
                (elim t as (λ _. System Files World) [
                  | interrupts ↦ terminal_interrupt p s
                  | typed t echo ↦ record s { terminal = t; kernel = echoed p echo s.kernel }
                ]).kernel
        of interrupts =
            Quiet-trans s.kernel (echoed p (b'^' ∷ b'C' ∷ b'\n' ∷ []) s.kernel) _
              (echoed-Quiet (b'^' ∷ b'C' ∷ b'\n' ∷ []) s.kernel)
              (interrupt_slots-Quiet s.foreground_pid s.foreground_owner slots _)
        of (typed t echo) = echoed-Quiet echo s.kernel
