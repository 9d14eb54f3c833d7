-- ===== src/Kernel/Process/Switch.antt =====
-- The one user window that all processes share: `activate` and `fork_current` of
-- Reference/Linux-0.11-main/kernel/symplus/process.c keep each process's memory.
use linux_0_11_symcc_on_turi.Base.{
  ℕ, ◌+◌, ◌^◌, ◌<◌, ◌≡◌, ◌≢◌, refl, sym, ◌∙◌, ap, arith, Bool, true, false, not, ◌&&◌, ltb, lt→ltb,
  ◌==◌, ==_iff, if◌then◌else◌, some, List, [], ◌∷◌, All, Bool-cases, inl, inr,
}
use mathlib.Core.Path.{subst}
use linux_0_11_symcc_on_turi.Emu.State.{Memory, poke}
use linux_0_11_symcc_on_turi.Kernel.Process.State.{Context, put, Kernel, FileSystem, is_zombie}
use linux_0_11_symcc_on_turi.Kernel.Process.Tasks.{
  slots, free_slot, child_context, current, save_active, activate, child_task, fork_into, fork_at,
  fork_current,
}

pub different : (a b : ℕ) → a ≢ b → (a == b) ≡ false
different a b h = ground arith

pub same : (a : ℕ) → (a == a) ≡ true
same a = ground arith

pub put_same : {A : Type 0} (f : ℕ → A) (i : ℕ) (v : A) → put f i v i ≡ v
put_same f i v = rw (same i) refl

pub put_other : {A : Type 0} (f : ℕ → A) (i : ℕ) (v : A) (j : ℕ) → j ≢ i → put f i v j ≡ f j
put_other f i v j h = rw (different j i h) refl

-- What the value written has in common with the old one stays everywhere.
pub put_field :
    {A B : Type 0} (g : A → B) (f : ℕ → A) (i : ℕ) (v : A)
    → g v ≡ g (f i)
    → (j : ℕ) → g (put f i v j) ≡ g (f j)
put_field g f i v h j = elim (Bool-cases (j == i)) [
  | inl e ↦ rw e (h ∙ ap (λ x. g (f x)) (sym ((==_iff j i).0 e)))
  | inr e ↦ rw e refl
]

pub free_slot-All :
    (P : ℕ → Type 0) (occupied : ℕ → Bool) (is : List ℕ) (i : ℕ)
    → All P is
    → free_slot occupied is ≡ some i
    → P i × (occupied i ≡ false)
unfolding free_slot
free_slot-All P occupied [] i all h = absurd (ground arith)
free_slot-All P occupied (j ∷ is) i (p, all) h =
    go (occupied j) refl h (free_slot-All P occupied is i all)
  where
    go :
        (o : Bool)
        → occupied j ≡ o
        → (if o then free_slot occupied is else some j) ≡ some i
        → (free_slot occupied is ≡ some i → P i × (occupied i ≡ false))
        → P i × (occupied i ≡ false)
    go true e k ih = ih k
    go false e k ih = let eq : j ≡ i = cc in (subst P eq p, subst (λ x. occupied x ≡ false) eq e)

slots-above : All (λ i. 0 < i) slots
slots-above = (
  omega arith,
  (
    omega arith,
    (omega arith, (omega arith, (omega arith, (omega arith, (omega arith, (omega arith, tt)))))),
  ),
)

taken_clash : {b : Bool} → b ≡ true → b ≡ false → ⊥
taken_clash t f = ground arith

module _ {Files World : Type 0} where
  -- A process that may run again.
  pub record IsLive (k : Kernel Files World) (i : ℕ) : Type 0 where
    pub above : 0 < i
    pub taken : k.occupied i ≡ true
    pub alive : is_zombie (k.process i).state ≡ false

  save_active-live :
      (k : Kernel Files World)
      → IsLive k k.active
      → save_active k ≡ put k.snapshot k.active k.window
  unfolding save_active
  save_active-live k l = rw (lt→ltb 0 k.active l.above, l.taken, l.alive) refl

  pub activate-other :
      (k : Kernel Files World) (b : ℕ)
      → b ≢ k.active
      → activate k b ≡ record k { snapshot = save_active k; window = save_active k b; active = b }
  unfolding activate
  activate-other k b h = rw (different b k.active h) refl

  pub saved_other : (k : Kernel Files World) (c : ℕ) → c ≢ k.active → save_active k c ≡ k.snapshot c
  unfolding save_active
  saved_other k c h =
      elim (Bool-cases
        (ltb 0 k.active && (k.occupied k.active && not (is_zombie (current k).state)))) [
          | inl e ↦ rw e (put_other k.snapshot k.active k.window c h)
          | inr e ↦ rw e refl
        ]

  -- The kernel after leaving for `b`, and after `b` has changed the window.
  abbrev visited : Kernel Files World → ℕ → Memory → Kernel Files World
  visited k b left = record k { snapshot = save_active k; window = left; active = b }

  saved_left :
      (k : Kernel Files World) (b : ℕ) (left : Memory)
      → IsLive k b
      → save_active (visited k b left) b ≡ left
  saved_left k b left l =
      rw
        (save_active-live (visited k b left)
          (record { above = l.above; taken = l.taken; alive = l.alive }))
        (put_same (save_active k) b left)

  saved_own : (k : Kernel Files World) → IsLive k k.active → save_active k k.active ≡ k.window
  saved_own k l = rw (save_active-live k l) (put_same k.snapshot k.active k.window)

  -- Away from a live process to the slot `b`, whatever that one then does to the window, and back: the
  -- process has its own memory again, `b` has what it left behind if it is live, and no other process's
  -- memory has changed.
  pub activate-activate :
      (k : Kernel Files World) (b : ℕ) (left : Memory)
      → b ≢ k.active
      → IsLive k k.active
      → let away = activate k b in
        let back = activate (record away { window = left }) k.active in
        (away.window ≡ k.snapshot b)
        × (back.window ≡ k.window)
        × (back.active ≡ k.active)
        × (IsLive k b → back.snapshot b ≡ left)
        × ((c : ℕ) → c ≢ k.active → c ≢ b → back.snapshot c ≡ k.snapshot c)
  activate-activate k b left h l = rw (activate-other k b h) (
      rw (activate-other (visited k b left) k.active (λ e. h (sym e))) (
        saved_other k b h,
        saved_other (visited k b left) k.active (λ e. h (sym e)) ∙ saved_own k l,
        refl,
        λ m. saved_left k b left m,
        λ c p q. saved_other (visited k b left) c q ∙ saved_other k c p,
      ))

  forked-IsLive :
      (fs : FileSystem Files World) (k : Kernel Files World) (ctx : Context) (slot : ℕ)
      → IsLive k k.active
      → k.active ≢ slot
      → IsLive ((fork_into fs k ctx slot).1) k.active
  unfolding fork_into
  forked-IsLive fs k ctx slot l ne = record {
    above = l.above;
    taken = put_other k.occupied slot true k.active ne ∙ l.taken;
    alive = rw (put_other k.process slot (child_task k) k.active ne) l.alive;
  }

  child-IsLive :
      (fs : FileSystem Files World) (k : Kernel Files World) (ctx : Context) (slot : ℕ)
      → 0 < slot
      → IsLive ((fork_into fs k ctx slot).1) slot
  unfolding fork_into
  child-IsLive fs k ctx slot above = record {
    above = above;
    taken = put_same k.occupied slot true;
    alive = rw (put_same k.process slot (child_task k)) refl;
  }

  child_starts :
      (fs : FileSystem Files World) (k : Kernel Files World) (ctx : Context) (slot : ℕ)
      → slot ≢ k.active
      → let child = activate (fork_into fs k ctx slot).1 slot in
        (current child ≡ child_task k) × (child.contexts slot ≡ child_context ctx)
  unfolding fork_into
  child_starts fs k ctx slot ne =
      rw (activate-other (fork_into fs k ctx slot).1 slot ne)
        (put_same k.process slot (child_task k), put_same k.contexts slot (child_context ctx))

  -- Where some slot is free, no interrupt is put off and `next_pid` does not overflow, fork of a live
  -- process gives a child in a slot that was free, with the next process id and the parent's as its
  -- father. When the child is switched to it has the parent's memory and saved program counter, with 0
  -- in r1; and whatever it does to its memory, the parent has its own when it is switched back to.
  pub fork_current-activate :
      (fs : FileSystem Files World) (k : Kernel Files World) (ctx : Context) (left : Memory)
      (slot : ℕ)
      → IsLive k k.active
      → (k.deferred k.active && k.interrupted k.active) ≡ false
      → free_slot k.occupied slots ≡ some slot
      → k.next_pid + 1 < 2 ^ 31
      → let (pid, forked) = fork_current fs k ctx in
        let child = activate forked slot in
        let parent = activate (record child { window = left }) k.active in
        (pid ≡ k.next_pid + 1)
        × (k.occupied slot ≡ false)
        × ((current child).pid ≡ pid)
        × ((current child).father ≡ (current k).pid)
        × (child.window ≡ k.window)
        × ((child.contexts slot).regs 1 ≡ 0)
        × ((child.contexts slot).pc ≡ ctx.pc)
        × (parent.window ≡ k.window)
        × (parent.snapshot slot ≡ left)
  unfolding fork_current fork_at fork_into poke
  fork_current-activate fs k ctx left slot l calm free small =
      let (above, unused) = free_slot-All (λ i. 0 < i) k.occupied slots slot slots-above free in
      let ne : k.active ≢ slot =
        λ e. taken_clash (subst (λ x. k.occupied x ≡ true) e l.taken) unused in
      let forked = (fork_into fs k ctx slot).1 in
      let (image, again, _, kept, _) =
        activate-activate forked slot left (λ e. ne (sym e)) (forked-IsLive fs k ctx slot l ne) in
      let started = child_starts fs k ctx slot (λ e. ne (sym e)) in
      rw (calm, free)
        (
          omega (arith, small),
          unused,
          ap (λ p. p.pid) started.0,
          ap (λ p. p.father) started.0,
          image ∙ put_same k.snapshot slot k.window,
          ap (λ c. c.regs 1) started.1,
          ap (λ c. c.pc) started.1,
          again,
          kept (child-IsLive fs k ctx slot above),
        )
