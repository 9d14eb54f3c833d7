-- ===== src/Kernel/Process/Served.antt =====
-- The second half of a pass of `sp_dispatch` in Reference/Linux-0.11-main/kernel/symplus/process.c: calls that
-- wait are tried again.
use linux_0_11_symcc_on_turi.Base.{
  ℕ, ◌<◌, ◌≤◌, ◌≡◌, ◌⊎◌, inl, inr, ◌∙◌, arith, true, false, not, ◌&&◌, ◌||◌, ◌==◌, List, [], ◌∷◌,
  All,
}
use linux_0_11_symcc_on_turi.Kernel.Process.State.{Kernel, interruptible}
use linux_0_11_symcc_on_turi.Kernel.Process.Tasks.{slots, activate, wait_ready}
use linux_0_11_symcc_on_turi.Kernel.Process.Terminal.{line_ready}
use linux_0_11_symcc_on_turi.Kernel.Process.Valid.{IsValid, Quiet-IsValid, activate-IsValid}
use linux_0_11_symcc_on_turi.Kernel.Process.Kept.{either, by_test, slots_inside}
use linux_0_11_symcc_on_turi.Kernel.Process.System.{System, Platform}
use linux_0_11_symcc_on_turi.Kernel.Process.Calls.{perform}
use linux_0_11_symcc_on_turi.Kernel.Process.Dispatch.{
  end_slots, retried, serve_slot, serve_slots, sweep,
}
use linux_0_11_symcc_on_turi.Kernel.Process.Scheduled.{
  activate-active, perform-After, retried-IsValid, end_slots-IsValid,
}

module _ {Files World : Type 0} where
  module _ (p : Platform Files World) where
    -- A slot whose call waits, with what `read` or `wait` leaves of the kernel there.
    pub record Retries (k : Kernel Files World) (slot : ℕ) : Type 0 where
      pub taken : k.occupied slot ≡ true
      pub call : (k.pending slot ≡ 3) ⊎ (k.pending slot ≡ 7)
      pub state : (k.process slot).state ≡ interruptible

    pub waiting_slot :
        (k : Kernel Files World) (slot : ℕ)
        → (not (k.occupied slot) || (k.pending slot == 0)) ≡ false
        → IsValid k
        → Retries k slot
    waiting_slot k slot h v =
        let o : k.occupied slot ≡ true = ground arith in
        elim (v.waits slot o) [
          | inl free ↦ absurd (ground (arith, h, free))
          | inr (call, state) ↦ record { taken = o; call = call; state = state }
        ]

    -- The call of `slot`, tried again.
    abbrev pub retry : System Files World → ℕ → ℕ × System Files World
    retry s slot =
        perform p (record s { kernel = activate s.kernel slot }) (s.kernel.pending slot)
          (s.arg1 slot) (s.arg2 slot) (s.arg3 slot)

    -- What holds of a state and of what a retried call leaves holds of what `serve_slot` leaves.
    pub serve_slot-cases :
        (P : System Files World → Type 0) (s : System Files World) (slot : ℕ)
        → IsValid s.kernel
        → P s
        → (Retries s.kernel slot → P (retried p slot (retry s slot)))
        → P (serve_slot p s slot)
    unfolding serve_slot
    serve_slot-cases P s slot v h k =
        by_test P (not (s.kernel.occupied slot) || (s.kernel.pending slot == 0)) s _ (λ e. h)
          (λ e.
            either P
              ((s.kernel.pending slot == 3)
                && (not (line_ready s.terminal) && not (s.kernel.cancel_read slot)))
              s _ h
              (either P
                ((s.kernel.pending slot == 7) && not (wait_ready s.kernel slot (s.arg1 slot))) s _ h
                (k (waiting_slot s.kernel slot e v))))

    pub serve_slot-IsValid :
        (s : System Files World) (slot : ℕ)
        → (0 < slot) × (slot ≤ 8)
        → IsValid s.kernel
        → IsValid (serve_slot p s slot).kernel
    serve_slot-IsValid s slot room v =
        serve_slot-cases (λ r. IsValid r.kernel) s slot v v
          (λ r.
            let there = record s { kernel = activate s.kernel slot } in
            let done =
              perform-After p there (s.kernel.pending slot) (s.arg1 slot) (s.arg2 slot)
                (s.arg3 slot) r.call in
            retried-IsValid p slot (retry s slot)
              (done.quiet.active ∙ activate-active s.kernel slot)
              (Quiet-IsValid there.kernel _ done.quiet
                (activate-IsValid s.kernel slot room.0 room.1 v)))

    pub serve_slots-IsValid :
        (is : List ℕ) (s : System Files World)
        → All (λ i. (0 < i) × (i ≤ 8)) is
        → IsValid s.kernel
        → IsValid (serve_slots p s is).kernel
    unfolding serve_slots
    serve_slots-IsValid [] s all v = v
    serve_slots-IsValid (i ∷ is) s (room, all) v =
        serve_slots-IsValid is (serve_slot p s i) all (serve_slot-IsValid s i room v)

    pub sweep-IsValid : (s : System Files World) → IsValid s.kernel → IsValid (sweep p s).kernel
    unfolding sweep
    sweep-IsValid s v =
        serve_slots-IsValid slots (record s { kernel = end_slots p s.kernel slots }) slots_inside
          (end_slots-IsValid p slots s.kernel slots_inside v)
