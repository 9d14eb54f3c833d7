-- ===== src/Kernel/Exec/Fuel.antt =====
-- The loop of `sp_execve` (Reference/Linux-0.11-main/fs/symexec.c) that reads a program comes to its end.
use linux_0_11_symcc_on_turi.Base.{
  ℕ, zero, suc, ◌+◌, ◌-◌, ◌^◌, ◌<◌, ◌≤◌, ◌≡◌, ◌⊎◌, inl, inr, refl, sym, ◌∙◌, arith, Bool, true,
  false, ltb, ◌==◌, ◌||◌, if◌then◌else◌, some,
}
use linux_0_11_symcc_on_turi.Base.Word.{u32, is_neg}
use linux_0_11_symcc_on_turi.Emu.State.{Memory}
use linux_0_11_symcc_on_turi.Emu.Store.{store}
use linux_0_11_symcc_on_turi.Kernel.Exec.Load.{Io, Loader, read_program}

-- A read fails or gives at most as many bytes as it was asked for.
abbrev pub ReadsAtMost : {Files World : Type 0} → Loader Files World → Type 0
ReadsAtMost {Files} {World} l =
    (fd n : ℕ) (io : Io Files World)
    → (2 ^ 31 ≤ (l.read_file fd n io).0) ⊎ ((l.read_file fd n io).0 ≤ n)

same_then :
    {A : Type 0} (b : Bool) (x y z : A)
    → (b ≡ true → x ≡ y)
    → (if b then x else z) ≡ (if b then y else z)
same_then true x y z h = h refl
same_then false x y z h = refl

same_else :
    {A : Type 0} (b : Bool) (x y z : A)
    → (b ≡ false → x ≡ y)
    → (if b then z else x) ≡ (if b then z else y)
same_else true x y z h = refl
same_else false x y z h = h refl

module _ {Files World : Type 0} (l : Loader Files World) (reads : ReadsAtMost l) (fd loaded : ℕ)
    (word : loaded < 2 ^ 32) where
  all_read :
      (turns n : ℕ) (stage : Memory) (io : Io Files World)
      → loaded ≤ n
      → read_program l turns fd n loaded stage io ≡ (some stage, io)
  unfolding read_program
  all_read zero n stage io le = let e : ltb n loaded ≡ false = ground (arith, le) in rw e refl
  all_read (suc turns) n stage io le =
      let e : ltb n loaded ≡ false = ground (arith, le) in rw e refl

  -- Any two numbers of turns that are at least the number of the missing bytes.
  pub enough_turns :
      (turns turns' n : ℕ) (stage : Memory) (io : Io Files World)
      → loaded ≤ n + turns
      → loaded ≤ n + turns'
      → read_program l turns fd n loaded stage io ≡ read_program l turns' fd n loaded stage io
  unfolding read_program
  enough_turns zero turns' n stage io le le' =
      all_read 0 n stage io (omega (arith, le))
      ∙ sym (all_read turns' n stage io (omega (arith, le)))
  enough_turns (suc turns) zero n stage io le le' =
      all_read (suc turns) n stage io (omega (arith, le'))
      ∙ sym (all_read 0 n stage io (omega (arith, le')))
  enough_turns (suc turns) (suc turns') n stage io le le' =
      let got = (l.read_file fd (loaded - n) io).0 in
      let bytes = (l.read_file fd (loaded - n) io).1 in
      let io' = (l.read_file fd (loaded - n) io).2 in
      same_then (ltb n loaded) _ _ _ (λ more. same_else (is_neg got || (got == 0)) _ _ _ (λ good.
        enough_turns turns turns' (u32 (n + got)) (store stage n bytes) io'
          (further got (reads fd (loaded - n) io) turns more good le)
          (further got (reads fd (loaded - n) io) turns' more good le')))
    where
      further :
          (got : ℕ)
          → (2 ^ 31 ≤ got) ⊎ (got ≤ loaded - n)
          → (t : ℕ) → ltb n loaded ≡ true
          → (is_neg got || (got == 0)) ≡ false
          → loaded ≤ n + suc t
          → loaded ≤ u32 (n + got) + t
      further got (inl neg) t more good fits = absurd (ground (arith, neg, good))
      further got (inr at_most) t more good fits = ground (arith, at_most, more, good, fits, word)
