-- ===== src/Kernel/Process/Resume.antt =====
-- Who goes on after `sp_dispatch` of Reference/Linux-0.11-main/kernel/symplus/process.c.
use linux_0_11_symcc_on_turi.Base.{
  ℕ, ◌+◌, ◌-◌, ◌%◌, ◌^◌, ◌<◌, ◌≡◌, inl, inr, refl, sym, ◌∙◌, ap, arith, Bool, true, false, not,
  ◌&&◌, ◌==◌, if◌then◌else◌, List, [], ◌∷◌, Bool-cases, Option, none, some,
}
use mathlib.Core.Path.{subst}
use linux_0_11_symcc_on_turi.Kernel.Process.State.{
  Kernel, zombie, running, interruptible, TaskState,
}
use linux_0_11_symcc_on_turi.Kernel.Process.Tasks.{slots, current, activate}
use linux_0_11_symcc_on_turi.Kernel.Process.Valid.{IsValid}
use linux_0_11_symcc_on_turi.Kernel.Process.Kept.{either}
use linux_0_11_symcc_on_turi.Kernel.Process.Scheduled.{activate-active, start_call-IsValid}
use linux_0_11_symcc_on_turi.Kernel.Process.Served.{sweep-IsValid}
use linux_0_11_symcc_on_turi.Kernel.Process.System.{System, Platform}
use linux_0_11_symcc_on_turi.Kernel.Process.Dispatch.{is_doomed, sweep}
use linux_0_11_symcc_on_turi.Kernel.Process.Ended.{Ended}
use linux_0_11_symcc_on_turi.Kernel.Process.Swept.{sweep-Ended}
use linux_0_11_symcc_on_turi.Kernel.Process.State.{Context, is_running}
use linux_0_11_symcc_on_turi.Kernel.Process.System.{Poll}
use linux_0_11_symcc_on_turi.Kernel.Process.Interrupt.{poll_io}
use linux_0_11_symcc_on_turi.Kernel.Process.Performed.{poll_io-Quiet}
use linux_0_11_symcc_on_turi.Kernel.Process.Valid.{Quiet-IsValid, activate-IsValid}
use linux_0_11_symcc_on_turi.Kernel.Process.Dispatch.{
  next_running, choose, resume, schedule, start_call, sp_dispatch,
}

running_of : (t : TaskState) → is_running t ≡ true → t ≡ running
running_of running h = refl
running_of interruptible h = absurd (ground arith)
running_of zombie h = absurd (ground arith)

module _ {Files World : Type 0} where
  -- A process of the kernel that can go on.
  pub record Awake (k : Kernel Files World) (i : ℕ) : Type 0 where
    pub taken : k.occupied i ≡ true
    pub state : (k.process i).state ≡ running

  woken :
      (k : Kernel Files World) (i : ℕ)
      → (k.occupied i && is_running (k.process i).state) ≡ true
      → Awake k i
  woken k i h = record {
    taken = ground arith;
    state = running_of (k.process i).state (ground arith);
  }

  next_running-Awake :
      (k : Kernel Files World) (is : List ℕ) (c : ℕ) → next_running k is ≡ some c → Awake k c
  unfolding next_running
  next_running-Awake k [] c h = absurd (ground arith)
  next_running-Awake k (i ∷ is) c h =
      found (k.occupied n && is_running (k.process n).state) refl h (next_running-Awake k is c)
    where
      n : ℕ
      n = (k.active - 1 + i) % 8 + 1

      found :
          (b : Bool)
          → (k.occupied n && is_running (k.process n).state) ≡ b
          → (if b then some n else next_running k is) ≡ some c
          → (next_running k is ≡ some c → Awake k c)
          → Awake k c
      found true e q ih = let same : n ≡ c = cc in subst (Awake k) same (woken k n e)
      found false e q ih = ih q

  pub choose-Awake : (k : Kernel Files World) (nr c : ℕ) → choose k nr ≡ some c → Awake k c
  unfolding choose
  choose-Awake k nr c h =
      own (not (nr == 101) && (k.occupied k.active && is_running (current k).state)) refl h
    where
      own :
          (b : Bool)
          → (not (nr == 101) && (k.occupied k.active && is_running (current k).state)) ≡ b
          → (if b then some k.active else next_running k slots) ≡ some c
          → Awake k c
      own true e q =
          let same : k.active ≡ c = cc in subst (Awake k) same (woken k k.active (ground arith))
      own false e q = next_running-Awake k slots c q

  -- The process that goes on has a slot and is running; if it is interrupted, it has asked to end by itself.
  pub record Resumed (k : Kernel Files World) : Type 0 where
    pub valid : IsValid k
    pub awake : Awake k k.active
    pub allowed : is_doomed k k.active ≡ false

  resumed :
      (k : Kernel Files World) (c : ℕ)
      → IsValid k
      → ((i : ℕ) → Ended k i)
      → Awake k c
      → Resumed (activate k c)
  resumed k c v ended awake = record {
    valid = activate-IsValid k c (v.inside c awake.taken).0 (v.inside c awake.taken).1 v;
    awake = subst (Awake (activate k c)) (sym (activate-active k c)) parts.0;
    allowed = ap (is_doomed (activate k c)) (activate-active k c) ∙ parts.1;
  }
    where
      spared : is_doomed k c ≡ false
      spared = elim (Bool-cases (is_doomed k c)) [
        | inl d ↦ absurd (clash (sym awake.state ∙ ended c awake.taken d))
        | inr d ↦ d
      ]
        where
          clash : running ≡ zombie → ⊥
          clash e = cc

      parts : Awake (activate k c) c × (is_doomed (activate k c) c ≡ false)
      parts =
          unfold activate in
          either (λ r. Awake r c × (is_doomed r c ≡ false)) (c == k.active) k _ (awake, spared)
            (record { taken = awake.taken; state = awake.state }, spared)

  module _ (p : Platform Files World) where
    chosen-Resumed :
        (s s' : System Files World) (nr c : ℕ)
        → IsValid s.kernel
        → choose (sweep p s).kernel nr ≡ some c
        → resume p (sweep p s) (some c) ≡ some s'
        → Resumed s'.kernel
    chosen-Resumed s s' nr c v e q =
        let same : record (sweep p s) { kernel = activate (sweep p s).kernel c } ≡ s' = cc in
        subst (λ x. Resumed x.kernel) same
          (resumed (sweep p s).kernel c (sweep-IsValid p s v) (sweep-Ended p s v)
            (choose-Awake (sweep p s).kernel nr c e))

    schedule-Resumed :
        (polls : List Poll) (nr : ℕ) (s s' : System Files World)
        → IsValid s.kernel
        → schedule p nr s polls ≡ some s'
        → Resumed s'.kernel
    unfolding schedule
    schedule-Resumed [] nr s s' v h = chosen (choose (sweep p s).kernel nr) refl h
      where
        chosen :
            (o : Option ℕ)
            → choose (sweep p s).kernel nr ≡ o
            → resume p (sweep p s) o ≡ some s'
            → Resumed s'.kernel
        chosen none e q = absurd (ground arith)
        chosen (some c) e q = chosen-Resumed s s' nr c v e q
    schedule-Resumed (poll ∷ polls) nr s s' v h = chosen (choose (sweep p s).kernel nr) refl h (
        schedule-Resumed polls nr (poll_io p (sweep p s) poll) s' (
          Quiet-IsValid (sweep p s).kernel _ (poll_io-Quiet p (sweep p s) poll)
            (sweep-IsValid p s v)))
      where
        chosen :
            (o : Option ℕ)
            → choose (sweep p s).kernel nr ≡ o
            → elim o as (λ _. Option (System Files World)) [
              | none ↦ schedule p nr (poll_io p (sweep p s) poll) polls
              | some slot ↦ resume p (sweep p s) (some slot)
            ]
              ≡ some s'
            → (schedule p nr (poll_io p (sweep p s) poll) polls ≡ some s' → Resumed s'.kernel)
            → Resumed s'.kernel
        chosen none e q later = later q
        chosen (some c) e q later = chosen-Resumed s s' nr c v e q

    -- Where the process numbers are in order, one more fits in `next_pid` and the running process is
    -- running, a call of it and the scheduling that follows leave the numbers in order again, and the process that goes on has a slot,
    -- is running, and is not interrupted unless it has asked to end by itself.
    pub sp_dispatch-Resumed :
        (s s' : System Files World) (saved : Context) (poll : Poll) (polls : List Poll)
        → IsValid s.kernel
        → Awake s.kernel s.kernel.active
        → s.kernel.next_pid + 1 < 2 ^ 31
        → sp_dispatch p s saved poll polls ≡ some s'
        → Resumed s'.kernel
    unfolding sp_dispatch
    sp_dispatch-Resumed s s' saved poll polls v awake small h =
        schedule-Resumed polls (saved.regs 1) (start_call p s saved poll) s'
          (start_call-IsValid p s saved poll v awake.taken awake.state small) h
