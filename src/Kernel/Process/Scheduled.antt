-- ===== src/Kernel/Process/Scheduled.antt =====
-- The scheduler of Reference/Linux-0.11-main/kernel/symplus/process.c keeps the process numbers in order.
use linux_0_11_symcc_on_turi.Base.{
  ℕ, ◌+◌, ◌^◌, ◌<◌, ◌≤◌, ◌≡◌, ◌≢◌, ◌⊎◌, inl, inr, refl, sym, ◌∙◌, ap, arith, Bool, true, not, ◌&&◌,
  ◌||◌, ◌==◌, if◌then◌else◌, ==_iff, List, [], ◌∷◌, All, Bool-cases,
}
use mathlib.Core.Path.{subst}
use linux_0_11_symcc_on_turi.Kernel.Process.State.{
  Task, Context, put, Kernel, eagain, running, interruptible, is_zombie,
}
use linux_0_11_symcc_on_turi.Kernel.Process.Tasks.{current, activate, exit_current}
use linux_0_11_symcc_on_turi.Kernel.Process.Switch.{same, put_same, put_other, put_field}
use linux_0_11_symcc_on_turi.Kernel.Process.Exit.{apart}
use linux_0_11_symcc_on_turi.Kernel.Process.Valid.{
  IsValid, Keeps-IsValid, Quiet, Quiet-IsValid, Quiet-trans, activate-IsValid, exit_current-IsValid,
}
use linux_0_11_symcc_on_turi.Kernel.Process.Kept.{
  either, by_test, put_cases, fork_current-IsValid, with_task-Quiet, no_task-Quiet, untouched,
}
use linux_0_11_symcc_on_turi.Kernel.Process.Performed.{After, perform_call-After, poll_io-Quiet}
use linux_0_11_symcc_on_turi.Kernel.Process.System.{System, Poll, Platform}
use linux_0_11_symcc_on_turi.Kernel.Process.Interrupt.{poll_io}
use linux_0_11_symcc_on_turi.Kernel.Process.Calls.{
  Call, exit, fork, read, waitpid, call_in, call_of, with_task, perform_call, perform,
}
use linux_0_11_symcc_on_turi.Kernel.Process.Dispatch.{
  exec_done, is_doomed, give_result, end_interrupted, settle_call, start_call, end_slot, end_slots,
  retried,
}

module _ {Files World : Type 0} where
  pub activate-active : (k : Kernel Files World) (slot : ℕ) → (activate k slot).active ≡ slot
  unfolding activate
  activate-active k slot = elim (Bool-cases (slot == k.active)) [
    | inl e ↦ rw e (sym ((==_iff slot k.active).0 e))
    | inr e ↦ rw e refl
  ]

  give_result-Quiet : (k : Kernel Files World) (result : ℕ) → Quiet k (give_result k result)
  give_result-Quiet k result =
      no_task-Quiet k (give_result k result) refl (untouched k _ refl refl refl refl)

  module _ (p : Platform Files World) where
    perform_call-IsValid :
        (s : System Files World) (call : Call) (a b c : ℕ)
        → s.kernel.pending s.kernel.active ≡ 0
        → s.kernel.next_pid + 1 < 2 ^ 31
        → IsValid s.kernel
        → IsValid (perform_call p s call a b c).1.kernel
    unfolding perform_call
    perform_call-IsValid s exit a b c free small v = exit_current-IsValid p.files s.kernel a free v
    perform_call-IsValid s fork a b c free small v =
        fork_current-IsValid p.files s.kernel (s.kernel.contexts s.kernel.active) small v
    perform_call-IsValid s call a b c free small v =
        Quiet-IsValid s.kernel _ (perform_call-After p s call a b c tt).quiet v

    -- The calls that are tried again.
    pub perform-After :
        (s : System Files World) (nr a b c : ℕ)
        → (nr ≡ 3) ⊎ (nr ≡ 7)
        → After s (perform p s nr a b c)
    unfolding perform call_of call_in
    perform-After s nr a b c (inl e) =
        subst (λ n. After s (perform p s n a b c)) (sym e) (perform_call-After p s read a b c tt)
    perform-After s nr a b c (inr e) =
        subst (λ n. After s (perform p s n a b c)) (sym e) (perform_call-After p s waitpid a b c tt)

    end_interrupted-IsValid :
        (k : Kernel Files World)
        → k.pending k.active ≡ 0
        → IsValid k
        → IsValid (end_interrupted p k)
    unfolding end_interrupted
    end_interrupted-IsValid k free v =
        let k' = exit_current p.files k 0 in
        Quiet-IsValid k' _
          (with_task-Quiet k' (with_task k' (record (current k') { exit_code = 2 })) _ refl refl
            refl (untouched k' _ refl refl refl refl))
          (exit_current-IsValid p.files k 0 free v)

    end_slot-IsValid :
        (k : Kernel Files World) (slot : ℕ)
        → (0 < slot) × (slot ≤ 8)
        → IsValid k
        → IsValid (end_slot p k slot)
    unfolding end_slot
    end_slot-IsValid k slot room v =
        let there = activate k slot in
        let freed = record there { pending = put there.pending slot 0 } in
        either IsValid
          (k.occupied slot && (is_doomed k slot && not (is_zombie (k.process slot).state))) _ k
          (end_interrupted-IsValid freed
            (ap freed.pending (activate-active k slot) ∙ put_same there.pending slot 0)
            (Quiet-IsValid there freed
              (record {
                active = refl;
                occupied = λ i o. o;
                pid = λ i. refl;
                state = λ i. refl;
                next_pid = refl;
                pending = put_cases there.pending slot 0;
              })
              (activate-IsValid k slot room.0 room.1 v)))
          v

    pub end_slots-IsValid :
        (is : List ℕ) (k : Kernel Files World)
        → All (λ i. (0 < i) × (i ≤ 8)) is
        → IsValid k
        → IsValid (end_slots p k is)
    unfolding end_slots
    end_slots-IsValid [] k all v = v
    end_slots-IsValid (i ∷ is) k (room, all) v =
        end_slots-IsValid is (end_slot p k i) all (end_slot-IsValid k i room v)

    -- The running task in another state, with another pending call.
    changed-IsValid :
        (k k' : Kernel Files World) (t : Task Files)
        → k'.process ≡ put k.process k.active t
        → t.pid ≡ (current k).pid
        → k'.active ≡ k.active
        → k'.occupied ≡ k.occupied
        → k'.next_pid ≡ k.next_pid
        → ((i : ℕ) → i ≢ k.active → k'.pending i ≡ k.pending i)
        → (k'.pending k.active ≡ 0)
          ⊎ (((k'.pending k.active ≡ 3) ⊎ (k'.pending k.active ≡ 7)) × (t.state ≡ interruptible))
        → IsValid k
        → IsValid k'
    changed-IsValid k k' t e pid a o n others mine v = Keeps-IsValid k k' v (record {
      active = rw a (v.low, v.high);
      occupied = λ i q. rw (← o) q;
      pid = λ i. ap (λ f. (f i).pid) e ∙ put_field (λ x. x.pid) k.process k.active t pid i;
      next_pid = n;
      waits = λ i q. elim (Bool-cases (i == k.active)) [
        | inl d ↦ rw e (rw ((==_iff i k.active).0 d) (rw (same k.active) mine))
        | inr d ↦ rw (others i (apart i k.active d)) (rw e (rw d (v.waits i (rw (← o) q))))
      ];
    })

    waiting_call :
        (r : Bool) (nr : ℕ) → (r && ((nr == 3) || (nr == 7))) ≡ true → (nr ≡ 3) ⊎ (nr ≡ 7)
    waiting_call r nr h = ground arith

    settle_call-IsValid :
        (nr a b c : ℕ) (r : ℕ × System Files World)
        → IsValid r.1.kernel
        → IsValid (settle_call p nr a b c r).kernel
    unfolding settle_call
    settle_call-IsValid nr a b c (result, s) v =
        let k = s.kernel in
        let t = record (current k) { state = interruptible } in
        by_test {A = System Files World} (λ r. IsValid r.kernel)
          ((result == eagain) && ((nr == 3) || (nr == 7))) _ _
          (λ h.
            changed-IsValid k _ t refl refl refl refl refl
              (λ i ne. put_other k.pending k.active nr i ne)
              (inr
                (rw (put_same k.pending k.active nr) (waiting_call (result == eagain) nr h), refl))
              v)
          (λ h.
            either {A = System Files World} (λ r. IsValid r.kernel) (result == exec_done) s _ v
              (Quiet-IsValid k _ (give_result-Quiet k result) v))

    -- A running process does not wait.
    idle :
        (k : Kernel Files World)
        → IsValid k
        → k.occupied k.active ≡ true
        → (current k).state ≡ running
        → k.pending k.active ≡ 0
    idle k v o r = elim (v.waits k.active o) [ inl free ↦ free | inr (called, s) ↦ cc ]

    -- A call leaves the numbers in order, the poll before it included.
    pub start_call-IsValid :
        (s : System Files World) (saved : Context) (poll : Poll)
        → IsValid s.kernel
        → s.kernel.occupied s.kernel.active ≡ true
        → (current s.kernel).state ≡ running
        → s.kernel.next_pid + 1 < 2 ^ 31
        → IsValid (start_call p s saved poll).kernel
    unfolding start_call perform
    start_call-IsValid s saved poll v o r small =
        settle_call-IsValid (saved.regs 1) (saved.regs 2) (saved.regs 3) (saved.regs 4)
          (if is_doomed polled.kernel polled.kernel.active
            then (0, record polled { kernel = end_interrupted p polled.kernel })
            else perform p polled (saved.regs 1) (saved.regs 2) (saved.regs 3) (saved.regs 4))
          (either {A = ℕ × System Files World} (λ r. IsValid r.1.kernel)
            (is_doomed polled.kernel polled.kernel.active)
            (0, record polled { kernel = end_interrupted p polled.kernel })
            (perform p polled (saved.regs 1) (saved.regs 2) (saved.regs 3) (saved.regs 4))
            (end_interrupted-IsValid polled.kernel free ready)
            (perform_call-IsValid polled (call_of (saved.regs 1)) (saved.regs 2) (saved.regs 3)
              (saved.regs 4) free (rw quiet.next_pid small) ready))
      where
        entered : System Files World
        entered = record s {
          kernel = record s.kernel { contexts = put s.kernel.contexts s.kernel.active saved };
        }

        polled : System Files World
        polled = poll_io p entered poll

        quiet : Quiet s.kernel polled.kernel
        quiet =
            Quiet-trans s.kernel entered.kernel polled.kernel
              (no_task-Quiet s.kernel entered.kernel refl
                (untouched s.kernel _ refl refl refl refl))
              (poll_io-Quiet p entered poll)

        ready : IsValid polled.kernel
        ready = Quiet-IsValid s.kernel polled.kernel quiet v

        free : polled.kernel.pending polled.kernel.active ≡ 0
        free = rw quiet.active (elim (quiet.pending s.kernel.active) [
          | inl kept ↦ kept ∙ idle s.kernel v o r
          | inr gone ↦ gone
        ])

    pub retried-IsValid :
        (slot : ℕ) (r : ℕ × System Files World)
        → r.1.kernel.active ≡ slot
        → IsValid r.1.kernel
        → IsValid (retried p slot r).kernel
    unfolding retried
    retried-IsValid slot (result, s) a v =
        let k = s.kernel in
        let done = give_result k result in
        either {A = System Files World} (λ r. IsValid r.kernel) (result == eagain) s _ v
          (changed-IsValid done _ (record (current done) { state = running }) refl refl refl refl
            refl (λ i ne. put_other k.pending slot 0 i (λ e. ne (e ∙ sym a)))
            (inl (rw a (put_same k.pending slot 0)))
            (Quiet-IsValid k done (give_result-Quiet k result) v))
