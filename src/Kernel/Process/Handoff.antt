-- ===== src/Kernel/Process/Handoff.antt =====
-- From the end of a process to the `wait` of its parent: `exit_current`, `activate` and `wait_current`
-- of Reference/Linux-0.11-main/kernel/symplus/process.c, one after the other.
use linux_0_11_symcc_on_turi.Base.{
  ℕ, ◌+◌, ◌%◌, ◌^◌, ◌<◌, ◌≤◌, ◌≡◌, ◌≢◌, refl, sym, ◌∙◌, ap, arith, Bool, true, false, not, ◌&&◌,
  ◌||◌, leb, ◌==◌, if◌then◌else◌, ==_iff, List, [], ◌∷◌, Bool-cases, inl, inr, ◌⊎◌,
}
use mathlib.Core.Path.{subst}
use linux_0_11_symcc_on_turi.Base.Word.{◌<<◌}
use linux_0_11_symcc_on_turi.Emu.State.{rd32}
use linux_0_11_symcc_on_turi.Emu.Bytes.{rd32-wr32, wr32_frame}
use linux_0_11_symcc_on_turi.Kernel.Process.State.{Kernel, FileSystem, is_zombie, zombie}
use linux_0_11_symcc_on_turi.Kernel.Process.Tasks.{
  slots, any_child, current, activate, exit_current, is_awaited, reap, wait_loop, wait_current,
}
use linux_0_11_symcc_on_turi.Kernel.Process.Switch.{
  different, put_same, activate-other, saved_other,
}
use linux_0_11_symcc_on_turi.Kernel.Process.Exit.{
  has, slots-has, apart, has-rest, exit_current_lem, exit_current-pid_all,
}

asks_one :
    (p : ℕ) → 0 < p → p < 2 ^ 31 → (not (p == any_child) && ((p == 0) || leb (2 ^ 31) p)) ≡ false
asks_one p lo hi = ground arith

none_named : (q p : ℕ) → p < 2 ^ 31 → q ≢ p → ((p == any_child) || (p == q)) ≡ false
none_named q p h ne = ground arith

ends_false : (a b c : Bool) → (a && (b && (c && false))) ≡ false
ends_false a b c = ground arith

byte_small : (c : ℕ) → (c % 256) << 8 < 2 ^ 32
byte_small c = omega arith

module _ {Files World : Type 0} where
  -- When the slot `i` is the only one awaited and holds a zombie, it is the one reaped.
  wait_loop-only :
      (k : Kernel Files World) (pid status options : ℕ) (is : List ℕ) (found : Bool) (i : ℕ)
      → has is i ≡ true
      → (is_awaited k pid i && is_zombie (k.process i).state) ≡ true
      → ((j : ℕ) → j ≢ i → is_awaited k pid j ≡ false)
      → wait_loop k pid status options found is ≡ reap k status i
  unfolding wait_loop
  wait_loop-only k pid status options [] found i h z only = absurd (ground arith)
  wait_loop-only k pid status options (j ∷ is) found i h z only = elim (Bool-cases (i == j)) [
    | inl q ↦
        let ij = (==_iff i j).0 q in
        subst
          (λ x.
            (if is_awaited k pid x && is_zombie (k.process x).state
              then reap k status x
              else wait_loop k pid status options (found || is_awaited k pid x) is)
            ≡ reap k status i)
          ij (rw z refl)
    | inr q ↦
        let no = only j (λ e. apart i j q (sym e)) in
        rw no
          (wait_loop-only k pid status options is (found || false) i (has-rest i j is q h) z only)
  ]

  awaited_not :
      (k : Kernel Files World) (pid j : ℕ)
      → pid < 2 ^ 31
      → (k.process j).pid ≢ pid
      → is_awaited k pid j ≡ false
  unfolding is_awaited
  awaited_not k pid j small ne =
      rw (none_named (k.process j).pid pid small ne)
        (ends_false (k.occupied j) (not (j == k.active)) ((k.process j).father == (current k).pid))

  awaited_free :
      (k : Kernel Files World) (pid j : ℕ) → k.occupied j ≡ false → is_awaited k pid j ≡ false
  unfolding is_awaited
  awaited_free k pid j free = rw free refl

  awaited_yes :
      (k : Kernel Files World) (i : ℕ)
      → k.occupied i ≡ true
      → i ≢ k.active
      → (k.process i).father ≡ (current k).pid
      → is_awaited k (k.process i).pid i ≡ true
  unfolding is_awaited
  awaited_yes k i o ne father =
      rw (o, different i k.active ne, (==_iff (k.process i).father (current k).pid).1 father)
        (named (k.process i).pid)
    where
      named : (p : ℕ) → ((p == any_child) || (p == p)) ≡ true
      named p = ground arith

  -- The slot `i` holds a zombie child of the current process, and its number is no other's.
  record IsOrphan (g : Kernel Files World) (i pid : ℕ) : Type 0 where
    listed : has slots i ≡ true
    taken : g.occupied i ≡ true
    other : i ≢ g.active
    father : (g.process i).father ≡ (current g).pid
    number : (g.process i).pid ≡ pid
    state : (g.process i).state ≡ zombie
    single : (j : ℕ) → j ≢ i → g.occupied j ≡ true → (g.process j).pid ≢ pid

  wait_current-one :
      (g : Kernel Files World) (i pid status : ℕ)
      → IsOrphan g i pid
      → 0 < pid
      → pid < 2 ^ 31
      → wait_current g pid status 0 ≡ reap g status i
  unfolding wait_current
  wait_current-one g i pid status o lo hi = rw (asks_one pid lo hi) (
      wait_loop-only g pid status 0 slots false i o.listed
        (rw
          (
            subst (λ x. is_awaited g x i ≡ true) o.number
                (awaited_yes g i o.taken o.other o.father),
            o.state,
          )
          refl)
        only)
    where
      only : (j : ℕ) → j ≢ i → is_awaited g pid j ≡ false
      only j ne = elim (Bool-cases (g.occupied j)) [
        | inl e ↦ awaited_not g pid j hi (o.single j ne e)
        | inr e ↦ awaited_free g pid j e
      ]

  reap-parts :
      (g : Kernel Files World) (i status : ℕ)
      → status ≢ 0
      → (g.process i).exit_code < 2 ^ 32
      → ((reap g status i).0 ≡ (g.process i).pid)
        × (rd32 (reap g status i).1.window status ≡ (g.process i).exit_code)
        × ((reap g status i).1.occupied i ≡ false)
  unfolding reap
  reap-parts g i status ne small = (
    refl,
    rw (different status 0 ne) (rd32-wr32 g.window status (g.process i).exit_code small),
    put_same g.occupied i false,
  )

  reap_frame :
      (g : Kernel Files World) (i status a : ℕ)
      → (a < status) ⊎ (status + 4 ≤ a)
      → (reap g status i).1.window a ≡ g.window a
  unfolding reap
  reap_frame g i status a o = elim (Bool-cases (status == 0)) [
    | inl e ↦ rw e refl
    | inr e ↦ rw e (wr32_frame g.window status (g.process i).exit_code a o)
  ]

  -- What the end of the running process needs of it and of its father, in the slot `p`.
  pub record HasParent (k : Kernel Files World) (p : ℕ) : Type 0 where
    pub above : 0 < k.active
    pub below : k.active ≤ 8
    pub taken : k.occupied k.active ≡ true
    pub other : p ≢ k.active
    pub father : (current k).father ≡ (k.process p).pid
    pub own : (current k).father ≢ (current k).pid
    pub init : (current k).pid ≢ 1
    pub up : (k.process p).father ≢ (current k).pid
    pub positive : 0 < (current k).pid
    pub small : (current k).pid < 2 ^ 31
    pub single : (j : ℕ) → j ≢ k.active → k.occupied j ≡ true → (k.process j).pid ≢ (current k).pid

  module _ (fs : FileSystem Files World) (k : Kernel Files World) (code p status : ℕ) where
    -- The kernel in which the parent, in the slot `p`, goes on.
    abbrev gone : Kernel Files World
    gone = activate (exit_current fs k code) p

    left : HasParent k p → IsOrphan gone k.active (current k).pid
    unfolding exit_current
    left h =
        let ended = exit_current fs k code in
        let (state, _, number, father, others, _) = exit_current_lem fs k code h.own h.init in
        rw (activate-other ended p h.other) (record {
          listed = slots-has k.active h.above h.below;
          taken = h.taken;
          other = λ e. h.other (sym e);
          father = father ∙ (h.father ∙ sym (ap (λ t. t.pid) (others p h.other h.up)));
          number = number;
          state = state;
          single = λ j ne o e. h.single j ne o (sym (exit_current-pid_all fs k code j) ∙ e);
        })

    code_left : HasParent k p → (gone.process k.active).exit_code ≡ (code % 256) << 8
    unfolding exit_current
    code_left h =
        rw (activate-other (exit_current fs k code) p h.other)
          ((exit_current_lem fs k code h.own h.init).1)

    window_left : HasParent k p → gone.window ≡ k.snapshot p
    unfolding exit_current
    window_left h =
        rw (activate-other (exit_current fs k code) p h.other)
          (saved_other (exit_current fs k code) p h.other)

    -- Where the running process ends, and then its father in the slot `p` waits for its number with a
    -- place for the status: the call gives that number, the status is the low byte of the code shifted
    -- by eight, the slot is free again, and the rest of the father's memory is as it was kept. The
    -- process is neither process 1 nor its own father nor its father's, its number is positive, fits an
    -- `int`, and is no other's.
    pub exit_current-wait_current :
        HasParent k p
        → status ≢ 0
        → let (result, after) = wait_current gone (current k).pid status 0 in
          (result ≡ (current k).pid)
          × (rd32 after.window status ≡ (code % 256) << 8)
          × (after.occupied k.active ≡ false)
          × ((a : ℕ) → (a < status) ⊎ (status + 4 ≤ a) → after.window a ≡ k.snapshot p a)
    exit_current-wait_current h ne =
        let orphan = left h in
        let kept = code_left h in
        let (number, word, free) = reap-parts gone k.active status ne (rw kept (byte_small code)) in
        rw (wait_current-one gone k.active (current k).pid status orphan h.positive h.small) (
          number ∙ orphan.number,
          word ∙ kept,
          free,
          λ a o. reap_frame gone k.active status a o ∙ ap (λ m. m a) (window_left h),
        )
