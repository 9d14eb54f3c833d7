-- ===== src/Kernel/Process/Turn.antt =====
-- The choice of the next process in `sp_dispatch` of Reference/Linux-0.11-main/kernel/symplus/process.c.
use linux_0_11_symcc_on_turi.Base.{
  ℕ, ◌+◌, ◌-◌, ◌%◌, ◌<◌, ◌≤◌, ◌≡◌, inl, inr, refl, sym, ap, arith, Bool, true, false, not, ◌&&◌,
  ◌==◌, if◌then◌else◌, ==_iff, List, [], ◌∷◌, Bool-cases, Option, none, some, ltb,
}
use mathlib.Core.Path.{subst}
use linux_0_11_symcc_on_turi.Kernel.Process.State.{Kernel}
use linux_0_11_symcc_on_turi.Kernel.Process.Tasks.{slots, current, activate}
use linux_0_11_symcc_on_turi.Kernel.Process.Exit.{has, has-rest, slots-has}
use linux_0_11_symcc_on_turi.Kernel.Process.Valid.{IsValid}
use linux_0_11_symcc_on_turi.Kernel.Process.Served.{sweep-IsValid}
use linux_0_11_symcc_on_turi.Kernel.Process.System.{System, Platform}
use linux_0_11_symcc_on_turi.Kernel.Process.Dispatch.{sweep}
use linux_0_11_symcc_on_turi.Kernel.Process.State.{is_running}
use linux_0_11_symcc_on_turi.Kernel.Process.System.{Poll}
use linux_0_11_symcc_on_turi.Kernel.Process.Interrupt.{poll_io}
use linux_0_11_symcc_on_turi.Kernel.Process.Dispatch.{next_running, choose, resume, schedule}
use linux_0_11_symcc_on_turi.Kernel.Process.Resume.{Awake, choose-Awake}

module _ {Files World : Type 0} where
  wakes :
      (k : Kernel Files World) (i : ℕ)
      → Awake k i
      → (k.occupied i && is_running (k.process i).state) ≡ true
  wakes k i a = rw (a.taken, a.state) refl

  next_running-none :
      (k : Kernel Files World) (is : List ℕ) (j : ℕ)
      → next_running k is ≡ none
      → has is j ≡ true
      → Awake k ((k.active - 1 + j) % 8 + 1)
      → ⊥
  unfolding next_running
  next_running-none k [] j h m a = absurd (ground arith)
  next_running-none k (i ∷ is) j h m a = elim (Bool-cases (j == i)) [
    | inl e ↦ here (test (at i)) (rw (← wakes k _ a) (ap (λ x. test (at x)) ((==_iff j i).0 e))) h
    | inr e ↦ there (test (at i)) h (λ q. next_running-none k is j q (has-rest j i is e m) a)
  ]
    where
      at : ℕ → ℕ
      at x = (k.active - 1 + x) % 8 + 1

      test : ℕ → Bool
      test n = k.occupied n && is_running (k.process n).state

      here : (b : Bool) → true ≡ b → (if b then some (at i) else next_running k is) ≡ none → ⊥
      here true e q = cc
      here false e q = cc

      there :
          (b : Bool)
          → (if b then some (at i) else next_running k is) ≡ none
          → (next_running k is ≡ none → ⊥)
          → ⊥
      there true q ih = cc
      there false q ih = ih q

-- The distance from one slot to another, around.
distance :
    (a i : ℕ)
    → 0 < a
    → a ≤ 8
    → 0 < i
    → i ≤ 8
    → (j : ℕ) × (0 < j) × (j ≤ 8) × ((a - 1 + j) % 8 + 1 ≡ i)
distance a i la ha li hi = elim (Bool-cases (ltb a i)) [
  | inl e ↦ let f : a < i = ground arith in (i - a, omega (arith, f), omega arith, omega (arith, f))
  | inr e ↦
      let f : i ≤ a = ground arith in
      (i + 8 - a, omega arith, omega (arith, f), omega (arith, f, la, ha, li, hi))
]

module _ {Files World : Type 0} where
  choose-some :
      (k : Kernel Files World) (nr i : ℕ) → IsValid k → Awake k i → (c : ℕ) × (choose k nr ≡ some c)
  unfolding choose
  choose-some k nr i v a =
      own (not (nr == 101) && (k.occupied k.active && is_running (current k).state))
    where
      turn : (o : Option ℕ) → next_running k slots ≡ o → (c : ℕ) × (next_running k slots ≡ some c)
      turn (some c) e = (c, e)
      turn none e =
          let room = v.inside i a.taken in
          let (j, low, high, eq) = distance k.active i v.low v.high room.0 room.1 in
          absurd (next_running-none k slots j e (slots-has j low high) (subst (Awake k) (sym eq) a))

      own : (b : Bool) → (c : ℕ) × ((if b then some k.active else next_running k slots) ≡ some c)
      own true = (k.active, refl)
      own false = turn (next_running k slots) refl

  module _ (p : Platform Files World) where
    -- The scheduler does not wait where a process can go on: if the process numbers are in order, and after
    -- a pass some process has a slot and is running, the call returns with such a process, whatever the
    -- call was, before the keyboard is polled again.
    pub schedule-returns :
        (nr : ℕ) (s : System Files World) (polls : List Poll) (i : ℕ)
        → IsValid s.kernel
        → Awake (sweep p s).kernel i
        → (c : ℕ) × Awake (sweep p s).kernel c
          × (schedule p nr s polls
              ≡ some (record (sweep p s) { kernel = activate (sweep p s).kernel c }))
    unfolding schedule
    schedule-returns nr s polls i v a =
        let (c, e) = choose-some (sweep p s).kernel nr i (sweep-IsValid p s v) a in
        (c, choose-Awake (sweep p s).kernel nr c e, after polls c e)
      where
        after :
            (polls : List Poll) (c : ℕ)
            → choose (sweep p s).kernel nr ≡ some c
            → schedule p nr s polls
              ≡ some (record (sweep p s) { kernel = activate (sweep p s).kernel c })
        after [] c e = ap (resume p (sweep p s)) e
        after (poll ∷ polls) c e =
            ap
              (λ o. elim o as (λ _. Option (System Files World)) [
                | none ↦ schedule p nr (poll_io p (sweep p s) poll) polls
                | some slot ↦ resume p (sweep p s) (some slot)
              ])
              e
