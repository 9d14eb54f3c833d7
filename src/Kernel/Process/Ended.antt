-- ===== src/Kernel/Process/Ended.antt =====
-- Interrupted processes in `sp_dispatch` of Reference/Linux-0.11-main/kernel/symplus/process.c: a pass ends
-- every one of them that has not asked to end by itself.
use linux_0_11_symcc_on_turi.Base.{
  ℕ, ◌≡◌, ◌≢◌, ◌⊎◌, inl, inr, refl, sym, ◌∙◌, ap, arith, Bool, true, false, not, ◌&&◌, ◌==◌, ==_iff,
  List, [], ◌∷◌, Bool-cases,
}
use mathlib.Core.Path.{subst}
use linux_0_11_symcc_on_turi.Kernel.Process.State.{
  put, Kernel, zombie, running, interruptible, is_zombie, TaskState,
}
use linux_0_11_symcc_on_turi.Kernel.Process.Tasks.{current, activate, exit_current}
use linux_0_11_symcc_on_turi.Kernel.Process.Switch.{put_field}
use linux_0_11_symcc_on_turi.Kernel.Process.Exit.{
  has, has-rest, apart, exit_current-field, exit_current-zombie,
}
use linux_0_11_symcc_on_turi.Kernel.Process.Kept.{either, by_test}
use linux_0_11_symcc_on_turi.Kernel.Process.Scheduled.{activate-active}
use linux_0_11_symcc_on_turi.Kernel.Process.System.{Platform}
use linux_0_11_symcc_on_turi.Kernel.Process.Dispatch.{
  is_doomed, end_interrupted, end_slot, end_slots,
}

module _ {Files World : Type 0} where
  -- If the process in the slot `i` is interrupted, and has not asked to end by itself, it has ended.
  abbrev pub Ended : Kernel Files World → ℕ → Type 0
  Ended k i = k.occupied i ≡ true → is_doomed k i ≡ true → (k.process i).state ≡ zombie

  -- Nothing of `k'` is interrupted or awake that was not in `k`.
  pub record Calm (k k' : Kernel Files World) : Type 0 where
    pub occupied : (i : ℕ) → k'.occupied i ≡ true → k.occupied i ≡ true
    pub state : (i : ℕ) → (k'.process i).state ≡ (k.process i).state
    pub interrupted : k'.interrupted ≡ k.interrupted
    pub deferred : k'.deferred ≡ k.deferred

  pub activate-Calm : (k : Kernel Files World) (slot : ℕ) → Calm k (activate k slot)
  unfolding activate
  activate-Calm k slot =
      either (Calm k) (slot == k.active) k _
        (record { occupied = λ i o. o; state = λ i. refl; interrupted = refl; deferred = refl })
        (record { occupied = λ i o. o; state = λ i. refl; interrupted = refl; deferred = refl })

  pub Calm-Ended : (k k' : Kernel Files World) (i : ℕ) → Calm k k' → Ended k i → Ended k' i
  Calm-Ended k k' i h e o d = h.state i ∙ e (h.occupied i o) (rw (← h.interrupted, ← h.deferred) d)

  module _ (p : Platform Files World) where
    state_after :
        (k : Kernel Files World) (i : ℕ)
        → i ≢ k.active
        → ((end_interrupted p k).process i).state ≡ (k.process i).state
    unfolding end_interrupted
    state_after k i ne =
        let k' = exit_current p.files k 0 in
        put_field (λ t. t.state) k'.process k'.active (record (current k') { exit_code = 2 }) refl i
        ∙ exit_current-field p.files k 0 (λ t. t.state) (λ t. refl) i ne

    zombie_after :
        (k : Kernel Files World) → ((end_interrupted p k).process k.active).state ≡ zombie
    unfolding end_interrupted exit_current
    zombie_after k =
        let k' = exit_current p.files k 0 in
        put_field (λ t. t.state) k'.process k'.active (record (current k') { exit_code = 2 }) refl
          k.active
        ∙ exit_current-zombie p.files k 0

    -- The process in the slot `j` ends, and the others stay as they are.
    end_interrupted-Ended :
        (k : Kernel Files World) (j i : ℕ)
        → k.active ≡ j
        → (i ≡ j) ⊎ Ended k i
        → Ended (end_interrupted p k) i
    unfolding end_interrupted exit_current
    end_interrupted-Ended k j i a h o d = elim (Bool-cases (i == k.active)) [
      | inl e ↦
          ap (λ x. ((end_interrupted p k).process x).state) ((==_iff i k.active).0 e)
          ∙ zombie_after k
      | inr e ↦ state_after k i (apart i k.active e) ∙ kept (apart i k.active e) h
    ]
      where
        kept : i ≢ k.active → (i ≡ j) ⊎ Ended k i → (k.process i).state ≡ zombie
        kept ne (inl q) = absurd (ne (q ∙ sym a))
        kept ne (inr ended) = ended o d

    end_slot-Ended :
        (k : Kernel Files World) (j i : ℕ) → (i ≡ j) ⊎ Ended k i → Ended (end_slot p k j) i
    unfolding end_slot
    end_slot-Ended k j i h =
        by_test (λ r. Ended r i)
          (k.occupied j && (is_doomed k j && not (is_zombie (k.process j).state))) _ k
          (λ e. end_interrupted-Ended freed j i (activate-active k j) (before h)) (λ e. over e h)
      where
        there : Kernel Files World
        there = activate k j

        freed : Kernel Files World
        freed = record there { pending = put there.pending j 0 }

        calm : Calm k freed
        calm =
            let c = activate-Calm k j in
            record {
              occupied = c.occupied;
              state = c.state;
              interrupted = c.interrupted;
              deferred = c.deferred;
            }

        before : (i ≡ j) ⊎ Ended k i → (i ≡ j) ⊎ Ended freed i
        before (inl q) = inl q
        before (inr ended) = inr (Calm-Ended k freed i calm ended)

        zombie_of :
            (t : TaskState) (o d : Bool)
            → (o && (d && not (is_zombie t))) ≡ false
            → o ≡ true
            → d ≡ true
            → t ≡ zombie
        zombie_of zombie o d e f g = refl
        zombie_of running o d e f g = absurd (ground arith)
        zombie_of interruptible o d e f g = absurd (ground arith)

        over :
            (k.occupied j && (is_doomed k j && not (is_zombie (k.process j).state))) ≡ false
            → (i ≡ j) ⊎ Ended k i
            → Ended k i
        over e (inl q) =
            subst (Ended k) (sym q)
              (λ o d. zombie_of (k.process j).state (k.occupied j) (is_doomed k j) e o d)
        over e (inr ended) = ended

    pub end_slots-Ended :
        (is : List ℕ) (k : Kernel Files World) (i : ℕ)
        → (has is i ≡ true) ⊎ Ended k i
        → Ended (end_slots p k is) i
    unfolding end_slots
    end_slots-Ended [] k i (inl h) = absurd (ground arith)
    end_slots-Ended [] k i (inr ended) = ended
    end_slots-Ended (j ∷ is) k i h = end_slots-Ended is (end_slot p k j) i (next h)
      where
        next : (has (j ∷ is) i ≡ true) ⊎ Ended k i → (has is i ≡ true) ⊎ Ended (end_slot p k j) i
        next (inr ended) = inr (end_slot-Ended k j i (inr ended))
        next (inl h) = elim (Bool-cases (i == j)) [
          | inl e ↦ inr (end_slot-Ended k j i (inl ((==_iff i j).0 e)))
          | inr e ↦ inl (has-rest i j is e h)
        ]
