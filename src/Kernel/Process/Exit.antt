-- ===== src/Kernel/Process/Exit.antt =====
-- The end of a process and the `wait` of its parent: `exit_current` and `wait_current` of
-- Reference/Linux-0.11-main/kernel/symplus/process.c.
use linux_0_11_symcc_on_turi.Base.{
  ℕ, ◌%◌, ◌<◌, ◌≤◌, ◌≡◌, ◌≢◌, refl, sym, ◌∙◌, ap, arith, Bool, true, false, ◌&&◌, ◌||◌, ◌==◌,
  if◌then◌else◌, ==_iff, List, [], ◌∷◌, Bool-cases, inl, inr,
}
use mathlib.Core.Path.{subst}
use linux_0_11_symcc_on_turi.Base.Word.{◌<<◌}
use linux_0_11_symcc_on_turi.Kernel.Process.State.{Task, put, Kernel, FileSystem, zombie}
use linux_0_11_symcc_on_turi.Kernel.Process.Tasks.{slots, current, adopt, exit_current}
use linux_0_11_symcc_on_turi.Kernel.Process.Switch.{different, put_same, put_other, put_field}

-- Whether a number is in a list.
abbrev pub has : List ℕ → ℕ → Bool
has [] i = false
has (j ∷ is) i = (i == j) || has is i

pub slots-has : (i : ℕ) → 0 < i → i ≤ 8 → has slots i ≡ true
slots-has i lo hi = ground arith

pub apart : (a b : ℕ) → (a == b) ≡ false → a ≢ b
apart a b h = ground arith

pub has-rest : (i j : ℕ) (is : List ℕ) → (i == j) ≡ false → has (j ∷ is) i ≡ true → has is i ≡ true
has-rest i j is e h = rw (← h) (rw e refl)

-- A task given to the process 1.
abbrev pub fostered : {Files : Type 0} → Task Files → Task Files
fostered t = record t { father = 1 }

module _ {Files : Type 0} (pid : ℕ) (occupied : ℕ → Bool) where
  -- One turn of the loop that gives the children away.
  abbrev given : (ℕ → Task Files) → ℕ → ℕ → Task Files
  given process j =
      if occupied j && ((process j).father == pid)
      then put process j (fostered (process j))
      else process

  given-other : (process : ℕ → Task Files) (j i : ℕ) → i ≢ j → given process j i ≡ process i
  given-other process j i ne = elim (Bool-cases (occupied j && ((process j).father == pid))) [
    | inl e ↦ rw e (put_other process j (fostered (process j)) i ne)
    | inr e ↦ rw e refl
  ]

  given_self :
      (process : ℕ → Task Files) (i : ℕ) → (process i).father ≢ pid → given process i i ≡ process i
  given_self process i ne = rw (different (process i).father pid ne) (kept (occupied i))
    where
      kept :
          (b : Bool)
          → (if b && false then put process i (fostered (process i)) else process) i ≡ process i
      kept true = refl
      kept false = refl

  given-child :
      (process : ℕ → Task Files) (i : ℕ)
      → occupied i ≡ true
      → (process i).father ≡ pid
      → given process i i ≡ fostered (process i)
  given-child process i o e =
      rw (o, (==_iff (process i).father pid).1 e) (put_same process i (fostered (process i)))

  given-miss :
      (process : ℕ → Task Files) (j i : ℕ)
      → (process i).father ≢ pid
      → given process j i ≡ process i
  given-miss process j i ne = elim (Bool-cases (i == j)) [
    | inl e ↦
        subst (λ x. given process x i ≡ process i) ((==_iff i j).0 e) (given_self process i ne)
    | inr e ↦ given-other process j i (apart i j e)
  ]

  adopt-miss :
      (process : ℕ → Task Files) (is : List ℕ) (i : ℕ)
      → (process i).father ≢ pid
      → adopt pid occupied process is i ≡ process i
  unfolding adopt
  adopt-miss process [] i ne = refl
  adopt-miss process (j ∷ is) i ne =
      let one = given-miss process j i ne in
      adopt-miss (given process j) is i (λ e. ne (ap (λ t. t.father) (sym one) ∙ e)) ∙ one

  adopt-child :
      (process : ℕ → Task Files) (is : List ℕ) (i : ℕ)
      → pid ≢ 1
      → has is i ≡ true
      → occupied i ≡ true
      → (process i).father ≡ pid
      → adopt pid occupied process is i ≡ fostered (process i)
  unfolding adopt
  adopt-child process [] i ne h o e = absurd (ground arith)
  adopt-child process (j ∷ is) i ne h o e = elim (Bool-cases (i == j)) [
    | inl q ↦
        let ij = (==_iff i j).0 q in
        let one : given process j i ≡ fostered (process i) =
          subst (λ x. given process x i ≡ fostered (process i)) ij (given-child process i o e) in
        adopt-miss (given process j) is i (λ f. ne (sym f ∙ ap (λ t. t.father) one)) ∙ one
    | inr q ↦
        let one = given-other process j i (apart i j q) in
        adopt-child (given process j) is i ne (has-rest i j is q h) o (ap (λ t. t.father) one ∙ e)
        ∙ ap fostered one
  ]

  module _ {A : Type 0} (g : Task Files → A) (keeps : (t : Task Files) → g (fostered t) ≡ g t) where
    given-field : (process : ℕ → Task Files) (j i : ℕ) → g (given process j i) ≡ g (process i)
    given-field process j i = elim (Bool-cases (occupied j && ((process j).father == pid))) [
      | inl e ↦ rw e (elim (Bool-cases (i == j)) [
        | inl q ↦ rw q (keeps (process j) ∙ ap (λ x. g (process x)) (sym ((==_iff i j).0 q)))
        | inr q ↦ rw q refl
      ])
      | inr e ↦ rw e refl
    ]

    -- Whatever of a task has nothing to do with its father stays.
    adopt-field :
        (process : ℕ → Task Files) (is : List ℕ) (i : ℕ)
        → g (adopt pid occupied process is i) ≡ g (process i)
    unfolding adopt
    adopt-field process [] i = refl
    adopt-field process (j ∷ is) i = adopt-field (given process j) is i ∙ given-field process j i

module _ {Files World : Type 0} (fs : FileSystem Files World) (k : Kernel Files World)
    (code : ℕ) where
  -- What is left of the process.
  abbrev dead : Task Files
  dead = record (current k) {
    state = zombie;
    exit_code = (code % 256) << 8;
    files = (fs.drop (current k).files k.world).0;
  }

  abbrev after : ℕ → Task Files
  after = adopt (current k).pid k.occupied (put k.process k.active dead) slots

  after-dead : (current k).father ≢ (current k).pid → after k.active ≡ dead
  after-dead own =
      let mine = put_same k.process k.active dead in
      adopt-miss (current k).pid k.occupied (put k.process k.active dead) slots k.active
        (λ e. own (ap (λ t. t.father) (sym mine) ∙ e))
      ∙ mine

  after-other :
      (i : ℕ) → i ≢ k.active → (k.process i).father ≢ (current k).pid → after i ≡ k.process i
  after-other i ne father =
      let kept = put_other k.process k.active dead i ne in
      adopt-miss (current k).pid k.occupied (put k.process k.active dead) slots i
        (λ e. father (ap (λ t. t.father) (sym kept) ∙ e))
      ∙ kept

  after-child :
      (i : ℕ)
      → i ≢ k.active
      → has slots i ≡ true
      → (current k).pid ≢ 1
      → k.occupied i ≡ true
      → (k.process i).father ≡ (current k).pid
      → after i ≡ fostered (k.process i)
  after-child i ne h init o father =
      let kept = put_other k.process k.active dead i ne in
      adopt-child (current k).pid k.occupied (put k.process k.active dead) slots i init h o
        (ap (λ t. t.father) kept ∙ father)
      ∙ ap fostered kept

  -- The process that ends, which is neither process 1 nor its own father, is a zombie with its code in
  -- the second byte of the status, and keeps its number and its father. Its children are process 1's,
  -- and the tasks that are not its children are as they were.
  pub exit_current_lem :
      (current k).father ≢ (current k).pid
      → (current k).pid ≢ 1
      → let k' = exit_current fs k code in
        ((current k').state ≡ zombie)
        × ((current k').exit_code ≡ (code % 256) << 8)
        × ((current k').pid ≡ (current k).pid)
        × ((current k').father ≡ (current k).father)
        × ((i : ℕ)
            → i ≢ k.active
            → (k.process i).father ≢ (current k).pid
            → k'.process i ≡ k.process i)
        × ((i : ℕ)
            → i ≢ k.active
            → 0 < i
            → i ≤ 8
            → k.occupied i ≡ true
            → (k.process i).father ≡ (current k).pid
            → k'.process i ≡ fostered (k.process i))
  unfolding exit_current
  exit_current_lem own init =
      let mine = after-dead own in
      (
        ap (λ t. t.state) mine,
        ap (λ t. t.exit_code) mine,
        ap (λ t. t.pid) mine,
        ap (λ t. t.father) mine,
        after-other,
        λ i ne lo hi o father. after-child i ne (slots-has i lo hi) init o father,
      )

  -- A task that goes on keeps what has nothing to do with its father.
  pub exit_current-field :
      {A : Type 0} (g : Task Files → A)
      → ((t : Task Files) → g (fostered t) ≡ g t)
      → (i : ℕ) → i ≢ k.active
      → g ((exit_current fs k code).process i) ≡ g (k.process i)
  unfolding exit_current
  exit_current-field g keeps i ne =
      adopt-field (current k).pid k.occupied g keeps (put k.process k.active dead) slots i
      ∙ ap g (put_other k.process k.active dead i ne)

  -- The process that ends keeps its number.
  pub exit_current-pid_all : (i : ℕ) → ((exit_current fs k code).process i).pid ≡ (k.process i).pid
  unfolding exit_current
  exit_current-pid_all i =
      adopt-field (current k).pid k.occupied (λ t. t.pid) (λ t. refl) (put k.process k.active dead)
        slots i
      ∙ put_field (λ t. t.pid) k.process k.active dead refl i

  -- The process that ends is a zombie.
  pub exit_current-zombie : (current (exit_current fs k code)).state ≡ zombie
  unfolding exit_current
  exit_current-zombie =
      adopt-field (current k).pid k.occupied (λ t. t.state) (λ t. refl)
        (put k.process k.active dead) slots k.active
      ∙ ap (λ t. t.state) (put_same k.process k.active dead)
