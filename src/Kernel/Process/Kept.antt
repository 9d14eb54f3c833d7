-- ===== src/Kernel/Process/Kept.antt =====
-- The system calls of Reference/Linux-0.11-main/kernel/symplus/process.c keep the process numbers in order.
use linux_0_11_symcc_on_turi.Base.{
  ℕ, ◌+◌, ◌^◌, ◌<◌, ◌≤◌, ◌≡◌, ◌⊎◌, inl, inr, refl, sym, ◌∙◌, ap, arith, Bool, true, false, not,
  ◌&&◌, ◌||◌, ltb, leb, ◌==◌, if◌then◌else◌, ==_iff, List, [], ◌∷◌, All, Bool-cases, Option, none,
  some,
}
use linux_0_11_symcc_on_turi.Kernel.Process.State.{
  Task, Context, put, Kernel, FileSystem, is_zombie,
}
use linux_0_11_symcc_on_turi.Kernel.Process.Tasks.{
  slots, free_slot, current, fork_into, fork_at, fork_current, is_awaited, reap, wait_loop,
  wait_current, any_child,
}
use linux_0_11_symcc_on_turi.Kernel.Process.Switch.{put_other, put_field, free_slot-All}
use linux_0_11_symcc_on_turi.Kernel.Process.Exit.{apart}
use linux_0_11_symcc_on_turi.Kernel.Process.Valid.{IsValid, Quiet, Quiet-refl, Quiet-trans}
use linux_0_11_symcc_on_turi.Kernel.Process.Interrupt.{descendant, interrupt_slot, interrupt_slots}
use linux_0_11_symcc_on_turi.Kernel.Process.Calls.{interrupt_tree}

-- Both branches.
pub either : {A : Type 0} (P : A → Type 0) (b : Bool) (x y : A) → P x → P y → P (if b then x else y)
either P true x y h k = h
either P false x y h k = k

-- Both branches, each with the test.
pub by_test :
    {A : Type 0} (P : A → Type 0) (b : Bool) (x y : A)
    → (b ≡ true → P x)
    → (b ≡ false → P y)
    → P (if b then x else y)
by_test P true x y h k = h refl
by_test P false x y h k = k refl

pub slots_inside : All (λ i. (0 < i) × (i ≤ 8)) slots
slots_inside = (
  (omega arith, omega arith),
  (
    (omega arith, omega arith),
    (
      (omega arith, omega arith),
      (
        (omega arith, omega arith),
        (
          (omega arith, omega arith),
          (
            (omega arith, omega arith),
            ((omega arith, omega arith), ((omega arith, omega arith), tt)),
          ),
        ),
      ),
    ),
  ),
)

pub put_cases : (f : ℕ → ℕ) (i v j : ℕ) → (put f i v j ≡ f j) ⊎ (put f i v j ≡ v)
put_cases f i v j = elim (Bool-cases (j == i)) [ inl e ↦ rw e (inr refl) | inr e ↦ rw e (inl refl) ]

put_false : (f : ℕ → Bool) (i j : ℕ) → put f i false j ≡ true → f j ≡ true
put_false f i j h = elim (Bool-cases (j == i)) [
  | inl e ↦ absurd (ground (arith, h, e))
  | inr e ↦ sym (put_other f i false j (apart j i e)) ∙ h
]

module _ {Files World : Type 0} where
  module _ (fs : FileSystem Files World) (k : Kernel Files World) (ctx : Context) where
    fork_into-IsValid :
        (slot : ℕ)
        → (0 < slot) × (slot ≤ 8)
        → k.occupied slot ≡ false
        → k.next_pid + 1 < 2 ^ 31
        → IsValid k
        → IsValid (fork_into fs k ctx slot).1
    unfolding fork_into
    fork_into-IsValid slot room free small v = record {
      low = v.low;
      high = v.high;
      inside = λ i o. elim (Bool-cases (i == slot)) [
        | inl e ↦ rw ((==_iff i slot).0 e) room
        | inr e ↦ v.inside i (old i e o)
      ];
      numbered = λ i o. elim (Bool-cases (i == slot)) [
        | inl e ↦ rw e (omega (arith, small), omega arith)
        | inr e ↦ rw e (let n = v.numbered i (old i e o) in (n.0, omega (arith, n.1, small)))
      ];
      distinct = λ i j o u. elim (Bool-cases (i == slot)) [
        | inl e ↦ elim (Bool-cases (j == slot)) [
          | inl d ↦ λ q. (==_iff i slot).0 e ∙ sym ((==_iff j slot).0 d)
          | inr d ↦ rw (e, d) (λ q. absurd (omega (arith, small, q, (v.numbered j (old j d u)).1)))
        ]
        | inr e ↦ elim (Bool-cases (j == slot)) [
          | inl d ↦ rw (e, d) (λ q. absurd (omega (arith, small, q, (v.numbered i (old i e o)).1)))
          | inr d ↦ rw (e, d) (v.distinct i j (old i e o) (old j d u))
        ]
      ];
      waits = λ i o. elim (Bool-cases (i == slot)) [
        | inl e ↦ rw e (inl refl)
        | inr e ↦ rw e (v.waits i (old i e o))
      ];
    }
      where
        old :
            (i : ℕ) → (i == slot) ≡ false → put k.occupied slot true i ≡ true → k.occupied i ≡ true
        old i e o = sym (put_other k.occupied slot true i (apart i slot e)) ∙ o

  pub fork_current-IsValid :
      (fs : FileSystem Files World) (k : Kernel Files World) (ctx : Context)
      → k.next_pid + 1 < 2 ^ 31
      → IsValid k
      → IsValid (fork_current fs k ctx).1
  unfolding fork_current fork_at
  fork_current-IsValid fs k ctx small v =
      either {A = ℕ × Kernel Files World} (λ r. IsValid r.1)
        (k.deferred k.active && k.interrupted k.active) _ _ v
        (into (free_slot k.occupied slots) refl)
    where
      into : (o : Option ℕ) → free_slot k.occupied slots ≡ o → IsValid (fork_at fs k ctx o).1
      into none e = v
      into (some slot) e =
          let (room, free) =
            free_slot-All (λ i. (0 < i) × (i ≤ 8)) k.occupied slots slot slots_inside e in
          fork_into-IsValid fs k ctx slot room free small v

  reap-Quiet : (k : Kernel Files World) (status i : ℕ) → Quiet k (reap k status i).1
  unfolding reap
  reap-Quiet k status i = record {
    active = refl;
    occupied = put_false k.occupied i;
    pid = λ j. refl;
    state = λ j. refl;
    next_pid = refl;
    pending = put_cases k.pending i 0;
  }

  wait_loop-Quiet :
      (k : Kernel Files World) (pid status options : ℕ) (found : Bool) (is : List ℕ)
      → Quiet k (wait_loop k pid status options found is).1
  unfolding wait_loop
  wait_loop-Quiet k pid status options found [] = Quiet-refl k
  wait_loop-Quiet k pid status options found (i ∷ is) =
      either {A = ℕ × Kernel Files World} (λ r. Quiet k r.1)
        (is_awaited k pid i && is_zombie (k.process i).state) (reap k status i) _
        (reap-Quiet k status i)
        (wait_loop-Quiet k pid status options (found || is_awaited k pid i) is)

  pub wait_current-Quiet :
      (k : Kernel Files World) (pid status options : ℕ)
      → Quiet k (wait_current k pid status options).1
  unfolding wait_current
  wait_current-Quiet k pid status options =
      either {A = ℕ × Kernel Files World} (λ r. Quiet k r.1)
        (not (pid == any_child) && ((pid == 0) || leb (2 ^ 31) pid)) _ _ (Quiet-refl k)
        (either {A = ℕ × Kernel Files World} (λ r. Quiet k r.1) (ltb 1 options) _ _ (Quiet-refl k)
          (wait_loop-Quiet k pid status options false slots))

  -- A change of the running task, of what the kernel keeps beside the tasks, or of both.
  pub record Beside (k k' : Kernel Files World) : Type 0 where
    pub active : k'.active ≡ k.active
    pub occupied : k'.occupied ≡ k.occupied
    pub next_pid : k'.next_pid ≡ k.next_pid
    pub pending : k'.pending ≡ k.pending

  pub with_task-Quiet :
      (k k' : Kernel Files World) (t : Task Files)
      → t.pid ≡ (current k).pid
      → t.state ≡ (current k).state
      → k'.process ≡ put k.process k.active t
      → Beside k k'
      → Quiet k k'
  with_task-Quiet k k' t p s e b = record {
    active = b.active;
    occupied = λ i o. rw (← b.occupied) o;
    pid = λ i. rw e (put_field (λ x. x.pid) k.process k.active t p i);
    state = λ i. rw e (put_field (λ x. x.state) k.process k.active t s i);
    next_pid = b.next_pid;
    pending = λ i. inl (ap (λ f. f i) b.pending);
  }

  -- No task has changed.
  pub no_task-Quiet :
      (k k' : Kernel Files World) → k'.process ≡ k.process → Beside k k' → Quiet k k'
  no_task-Quiet k k' e b = record {
    active = b.active;
    occupied = λ i o. rw (← b.occupied) o;
    pid = λ i. ap (λ f. (f i).pid) e;
    state = λ i. ap (λ f. (f i).state) e;
    next_pid = b.next_pid;
    pending = λ i. inl (ap (λ f. f i) b.pending);
  }

  pub untouched :
      (k k' : Kernel Files World)
      → k'.active ≡ k.active
      → k'.occupied ≡ k.occupied
      → k'.next_pid ≡ k.next_pid
      → k'.pending ≡ k.pending
      → Beside k k'
  untouched k k' a o n p = record { active = a; occupied = o; next_pid = n; pending = p }

  pub interrupt_tree-Quiet :
      (root : ℕ) (is : List ℕ) (k : Kernel Files World) → Quiet k (interrupt_tree root k is)
  unfolding interrupt_tree
  interrupt_tree-Quiet root [] k = Quiet-refl k
  interrupt_tree-Quiet root (i ∷ is) k =
      Quiet-trans k _ _
        (either (Quiet k) (k.occupied i && descendant k i root) _ _
          (no_task-Quiet k (record k { interrupted = put k.interrupted i true }) refl
            (untouched k _ refl refl refl refl))
          (Quiet-refl k))
        (interrupt_tree-Quiet root is _)

  pub interrupt_slots-Quiet :
      (pid owner : ℕ) (is : List ℕ) (k : Kernel Files World)
      → Quiet k (interrupt_slots pid owner k is)
  unfolding interrupt_slots interrupt_slot
  interrupt_slots-Quiet pid owner [] k = Quiet-refl k
  interrupt_slots-Quiet pid owner (i ∷ is) k =
      Quiet-trans k _ _
        (either (Quiet k) (k.occupied i) _ k
          (either (Quiet k) (not (pid == 0) && descendant k i pid) _ _
            (no_task-Quiet k (record k { interrupted = put k.interrupted i true }) refl
              (untouched k _ refl refl refl refl))
            (either (Quiet k) ((pid == 0) && ((k.process i).pid == owner)) _ k
              (no_task-Quiet k (record k { cancel_read = put k.cancel_read i true }) refl
                (untouched k _ refl refl refl refl))
              (Quiet-refl k)))
          (Quiet-refl k))
        (interrupt_slots-Quiet pid owner is _)
