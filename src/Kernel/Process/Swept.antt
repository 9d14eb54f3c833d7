-- ===== src/Kernel/Process/Swept.antt =====
-- A pass of `sp_dispatch` of Reference/Linux-0.11-main/kernel/symplus/process.c leaves no interrupted process
-- awake that has not asked to end by itself.
use linux_0_11_symcc_on_turi.Base.{
  ℕ, ◌<◌, ◌≤◌, ◌≡◌, inl, inr, sym, ◌∙◌, ap, true, not, ◌&&◌, ◌==◌, ==_iff, List, [], ◌∷◌, All,
  Bool-cases,
}
use linux_0_11_symcc_on_turi.Kernel.Process.State.{Kernel, zombie, interruptible, eagain}
use linux_0_11_symcc_on_turi.Kernel.Process.Tasks.{slots, activate}
use linux_0_11_symcc_on_turi.Kernel.Process.Exit.{slots-has}
use linux_0_11_symcc_on_turi.Kernel.Process.Valid.{IsValid}
use linux_0_11_symcc_on_turi.Kernel.Process.Kept.{either, slots_inside}
use linux_0_11_symcc_on_turi.Kernel.Process.Scheduled.{
  activate-active, perform-After, end_slots-IsValid,
}
use linux_0_11_symcc_on_turi.Kernel.Process.Served.{
  Retries, retry, serve_slot-cases, serve_slot-IsValid,
}
use linux_0_11_symcc_on_turi.Kernel.Process.System.{System, Platform}
use linux_0_11_symcc_on_turi.Kernel.Process.Dispatch.{
  end_slots, retried, serve_slot, serve_slots, sweep,
}
use linux_0_11_symcc_on_turi.Kernel.Process.Ended.{
  Ended, Calm, activate-Calm, Calm-Ended, end_slots-Ended,
}
use linux_0_11_symcc_on_turi.Kernel.Process.Still.{perform-Still}

module _ {Files World : Type 0} where
  module _ (p : Platform Files World) where
    retry-Calm :
        (s : System Files World) (slot : ℕ)
        → Retries p s.kernel slot
        → Calm s.kernel (retry p s slot).1.kernel
    retry-Calm s slot r =
        let there = record s { kernel = activate s.kernel slot } in
        let moved = activate-Calm s.kernel slot in
        let nr = s.kernel.pending slot in
        let done = perform-After p there nr (s.arg1 slot) (s.arg2 slot) (s.arg3 slot) r.call in
        let quiet = perform-Still p there nr (s.arg1 slot) (s.arg2 slot) (s.arg3 slot) r.call in
        record {
          occupied = λ i o. moved.occupied i (done.quiet.occupied i o);
          state = λ i. done.quiet.state i ∙ moved.state i;
          interrupted = quiet.interrupted ∙ moved.interrupted;
          deferred = quiet.deferred ∙ moved.deferred;
        }

    retried-Ended :
        (k : Kernel Files World) (slot : ℕ) (r : ℕ × System Files World)
        → Calm k r.1.kernel
        → r.1.kernel.active ≡ slot
        → Retries p k slot
        → ((i : ℕ) → Ended k i)
        → (i : ℕ) → Ended (retried p slot r).kernel i
    unfolding retried
    retried-Ended k slot (result, s) calm a r ended i =
        either {A = System Files World} (λ x. Ended x.kernel i) (result == eagain) s _
          (Calm-Ended k s.kernel i calm (ended i))
          (λ o d. elim (Bool-cases (i == s.kernel.active)) [
            | inl e ↦ absurd (asleep ((==_iff i s.kernel.active).0 e ∙ a) o d)
            | inr e ↦ rw e (Calm-Ended k s.kernel i calm (ended i) o d)
          ])
      where
        asleep :
            i ≡ slot
            → s.kernel.occupied i ≡ true
            → (s.kernel.interrupted i && not (s.kernel.deferred i)) ≡ true
            → ⊥
        asleep e o d =
            let z = ended i (calm.occupied i o) (rw (← calm.interrupted, ← calm.deferred) d) in
            let w : (k.process i).state ≡ interruptible =
              ap (λ x. (k.process x).state) e ∙ r.state in
            clash (sym z ∙ w)
          where
            clash : zombie ≡ interruptible → ⊥
            clash q = cc

    serve_slot-Ended :
        (s : System Files World) (slot : ℕ)
        → IsValid s.kernel
        → ((i : ℕ) → Ended s.kernel i)
        → (i : ℕ) → Ended (serve_slot p s slot).kernel i
    serve_slot-Ended s slot v ended i =
        serve_slot-cases p (λ r. Ended r.kernel i) s slot v (ended i)
          (λ r.
            let there = record s { kernel = activate s.kernel slot } in
            let done =
              perform-After p there (s.kernel.pending slot) (s.arg1 slot) (s.arg2 slot)
                (s.arg3 slot) r.call in
            retried-Ended s.kernel slot (retry p s slot) (retry-Calm s slot r)
              (done.quiet.active ∙ activate-active s.kernel slot) r ended i)

    serve_slots-Ended :
        (is : List ℕ) (s : System Files World)
        → All (λ i. (0 < i) × (i ≤ 8)) is
        → IsValid s.kernel
        → ((i : ℕ) → Ended s.kernel i)
        → (i : ℕ) → Ended (serve_slots p s is).kernel i
    unfolding serve_slots
    serve_slots-Ended [] s all v ended = ended
    serve_slots-Ended (j ∷ is) s (room, all) v ended =
        serve_slots-Ended is (serve_slot p s j) all (serve_slot-IsValid p s j room v)
          (serve_slot-Ended s j v ended)

    pub sweep-Ended :
        (s : System Files World) → IsValid s.kernel → (i : ℕ) → Ended (sweep p s).kernel i
    unfolding sweep
    sweep-Ended s v =
        let v' = end_slots-IsValid p slots s.kernel slots_inside v in
        serve_slots-Ended slots (record s { kernel = end_slots p s.kernel slots }) slots_inside v'
          (λ i o d.
            end_slots-Ended p slots s.kernel i
              (inl (slots-has i (v'.inside i o).0 (v'.inside i o).1)) o d)
