-- ===== src/Kernel/Process/Wait.antt =====
-- A blocked `wait`: the test that the scheduler makes before it tries again, and the call itself, in
-- Reference/Linux-0.11-main/kernel/symplus/process.c.
use linux_0_11_symcc_on_turi.Base.{
  ℕ, ◌^◌, ◌<◌, ◌≡◌, ◌≢◌, refl, arith, Bool, true, false, not, ◌&&◌, ◌||◌, leb, ◌==◌, ==_iff, List,
  [], ◌∷◌, Bool-cases, inl, inr, ◌⊎◌,
}
use mathlib.Core.Path.{subst}
use linux_0_11_symcc_on_turi.Kernel.Process.State.{Kernel, eagain, is_zombie}
use linux_0_11_symcc_on_turi.Kernel.Process.Tasks.{
  slots, any_child, current, is_counted, is_awaited, reap, wait_loop, wait_current, ready_loop,
  wait_ready,
}

none_of : (a b : ℕ) → a ≢ b → (a == b) ≡ false
none_of a b h = ground arith

not_eagain : (n : ℕ) → n < 2 ^ 31 → (n == eagain) ≡ false
not_eagain n h = ground arith

asks :
    (p : ℕ)
    → (p ≡ any_child) ⊎ ((0 < p) × (p < 2 ^ 31))
    → (not (p == any_child) && ((p == 0) || leb (2 ^ 31) p)) ≡ false
asks p h = ground arith

module _ {Files World : Type 0} (k : Kernel Files World) (pid status : ℕ) where
  -- A process that is not its own father is counted by both.
  counted-awaited :
      (i : ℕ)
      → (current k).father ≢ (current k).pid
      → is_counted k k.active pid i ≡ is_awaited k pid i
  unfolding is_counted is_awaited
  counted-awaited i h = elim (Bool-cases (i == k.active)) [
    | inl e ↦ rw e (own ((==_iff i k.active).0 e))
    | inr e ↦ rw e refl
  ]
    where
      chosen : Bool
      chosen = (pid == any_child) || (pid == (k.process i).pid)

      own :
          i ≡ k.active
          → (k.occupied i && (((k.process i).father == (k.process k.active).pid) && chosen)) ≡ (
              k.occupied i
              && (not true && (((k.process i).father == (k.process k.active).pid) && chosen)))
      own e =
          rw
            (none_of (k.process i).father (k.process k.active).pid
              (λ q. h (subst (λ x. (k.process x).father ≡ (k.process k.active).pid) e q)))
            refl

  loops_agree :
      (is : List ℕ) (found : Bool)
      → (current k).father ≢ (current k).pid
      → ((i : ℕ) → (k.process i).pid < 2 ^ 31)
      → ready_loop k k.active pid found is ≡ not ((wait_loop k pid status 0 found is).0 == eagain)
  unfolding ready_loop wait_loop
  loops_agree [] true h small = refl
  loops_agree [] false h small = refl
  loops_agree (i ∷ is) found h small =
      rw (counted-awaited i h)
        (elim (Bool-cases (is_awaited k pid i && is_zombie (k.process i).state)) [
          | inl e ↦ rw e (unfold reap in rw (not_eagain (k.process i).pid (small i)) refl)
          | inr e ↦ rw e (loops_agree is (found || is_awaited k pid i) h small)
        ])

  -- Where `wait` asks for all children or for a positive process id, with no option, process ids are
  -- below 2 ^ 31 and the process is not its own father: `wait_ready` holds exactly if the call does not
  -- end with `-EAGAIN`, so that a blocked `wait` is tried again only when it can end.
  pub wait_ready-wait_current :
      (pid ≡ any_child) ⊎ ((0 < pid) × (pid < 2 ^ 31))
      → (current k).father ≢ (current k).pid
      → ((i : ℕ) → (k.process i).pid < 2 ^ 31)
      → wait_ready k k.active pid ≡ not ((wait_current k pid status 0).0 == eagain)
  unfolding wait_ready wait_current
  wait_ready-wait_current valid h small = rw (asks pid valid) (loops_agree slots false h small)
