-- ===== src/Kernel/Process/Valid.antt =====
-- The process numbers of Reference/Linux-0.11-main/kernel/symplus/process.c, and which processes wait.
use linux_0_11_symcc_on_turi.Base.{
  ℕ, ◌<◌, ◌≤◌, ◌≡◌, ◌⊎◌, inl, inr, refl, sym, ◌∙◌, ap, true, ◌==◌, ==_iff, Bool-cases,
}
use linux_0_11_symcc_on_turi.Kernel.Process.State.{Kernel, FileSystem, interruptible}
use linux_0_11_symcc_on_turi.Kernel.Process.Tasks.{activate, exit_current}
use linux_0_11_symcc_on_turi.Kernel.Process.Exit.{apart, exit_current-field, exit_current-pid_all}

module _ {Files World : Type 0} where
  -- The running process has a slot, the numbers of the processes are positive, at most the last one
  -- given, and different, and a process that waits is interruptible, in `read` or `wait`.
  pub record IsValid (k : Kernel Files World) : Type 0 where
    pub low : 0 < k.active
    pub high : k.active ≤ 8
    pub inside : (i : ℕ) → k.occupied i ≡ true → (0 < i) × (i ≤ 8)
    pub numbered :
        (i : ℕ) → k.occupied i ≡ true → (0 < (k.process i).pid) × ((k.process i).pid ≤ k.next_pid)
    pub distinct :
        (i j : ℕ)
        → k.occupied i ≡ true
        → k.occupied j ≡ true
        → (k.process i).pid ≡ (k.process j).pid
        → i ≡ j
    pub waits :
        (i : ℕ)
        → k.occupied i ≡ true
        → (k.pending i ≡ 0)
          ⊎ (((k.pending i ≡ 3) ⊎ (k.pending i ≡ 7)) × ((k.process i).state ≡ interruptible))

  -- The slots, numbers and waiting processes of `k'` are those of `k`, or fewer.
  pub record Keeps (k k' : Kernel Files World) : Type 0 where
    pub active : (0 < k'.active) × (k'.active ≤ 8)
    pub occupied : (i : ℕ) → k'.occupied i ≡ true → k.occupied i ≡ true
    pub pid : (i : ℕ) → (k'.process i).pid ≡ (k.process i).pid
    pub next_pid : k'.next_pid ≡ k.next_pid
    pub waits :
        (i : ℕ)
        → k'.occupied i ≡ true
        → (k'.pending i ≡ 0)
          ⊎ (((k'.pending i ≡ 3) ⊎ (k'.pending i ≡ 7)) × ((k'.process i).state ≡ interruptible))

  pub Keeps-IsValid : (k k' : Kernel Files World) → IsValid k → Keeps k k' → IsValid k'
  Keeps-IsValid k k' v h = record {
    low = h.active.0;
    high = h.active.1;
    inside = λ i o. v.inside i (h.occupied i o);
    numbered = λ i o. rw (h.pid i, h.next_pid) (v.numbered i (h.occupied i o));
    distinct =
        λ i j o u e. v.distinct i j (h.occupied i o) (h.occupied j u) (sym (h.pid i) ∙ e ∙ h.pid j);
    waits = h.waits;
  }

  -- `k'` is `k` but for what has nothing to do with numbers, or for processes that are gone or wait no more.
  pub record Quiet (k k' : Kernel Files World) : Type 0 where
    pub active : k'.active ≡ k.active
    pub occupied : (i : ℕ) → k'.occupied i ≡ true → k.occupied i ≡ true
    pub pid : (i : ℕ) → (k'.process i).pid ≡ (k.process i).pid
    pub state : (i : ℕ) → (k'.process i).state ≡ (k.process i).state
    pub next_pid : k'.next_pid ≡ k.next_pid
    pub pending : (i : ℕ) → (k'.pending i ≡ k.pending i) ⊎ (k'.pending i ≡ 0)

  pub Quiet-IsValid : (k k' : Kernel Files World) → Quiet k k' → IsValid k → IsValid k'
  Quiet-IsValid k k' h v = Keeps-IsValid k k' v (record {
    active = rw h.active (v.low, v.high);
    occupied = h.occupied;
    pid = h.pid;
    next_pid = h.next_pid;
    waits = λ i o. elim (h.pending i) [
      | inl same ↦ rw (same, h.state i) (v.waits i (h.occupied i o))
      | inr none_left ↦ inl none_left
    ];
  })

  pub Quiet-refl : (k : Kernel Files World) → Quiet k k
  Quiet-refl k = record {
    active = refl;
    occupied = λ i o. o;
    pid = λ i. refl;
    state = λ i. refl;
    next_pid = refl;
    pending = λ i. inl refl;
  }

  pub Quiet-trans : (k k' k'' : Kernel Files World) → Quiet k k' → Quiet k' k'' → Quiet k k''
  Quiet-trans k k' k'' h g = record {
    active = g.active ∙ h.active;
    occupied = λ i o. h.occupied i (g.occupied i o);
    pid = λ i. g.pid i ∙ h.pid i;
    state = λ i. g.state i ∙ h.state i;
    next_pid = g.next_pid ∙ h.next_pid;
    pending = λ i. elim (g.pending i) [
      | inl same ↦ rw same (h.pending i)
      | inr none_left ↦ inr none_left
    ];
  }

  pub activate-IsValid :
      (k : Kernel Files World) (slot : ℕ)
      → 0 < slot
      → slot ≤ 8
      → IsValid k
      → IsValid (activate k slot)
  unfolding activate
  activate-IsValid k slot lo hi v = elim (Bool-cases (slot == k.active)) [
    | inl e ↦ rw e v
    | inr e ↦ rw e (
        Keeps-IsValid k _ v (record {
          active = (lo, hi);
          occupied = λ i o. o;
          pid = λ i. refl;
          next_pid = refl;
          waits = v.waits;
        }))
  ]

  pub exit_current-IsValid :
      (fs : FileSystem Files World) (k : Kernel Files World) (code : ℕ)
      → k.pending k.active ≡ 0
      → IsValid k
      → IsValid (exit_current fs k code)
  unfolding exit_current
  exit_current-IsValid fs k code free v = Keeps-IsValid k (exit_current fs k code) v (record {
    active = (v.low, v.high);
    occupied = λ i o. o;
    pid = exit_current-pid_all fs k code;
    next_pid = refl;
    waits = λ i o. elim (Bool-cases (i == k.active)) [
      | inl e ↦ inl (ap k.pending ((==_iff i k.active).0 e) ∙ free)
      | inr e ↦
          rw (exit_current-field fs k code (λ t. t.state) (λ t. refl) i (apart i k.active e))
            (v.waits i o)
    ];
  })
