-- ===== src/Kernel/Exec/Same.antt =====
-- The argument vectors of a new program (`sp_execve`, Reference/Linux-0.11-main/fs/symexec.c) beside those of the caller.
use linux_0_11_symcc_on_turi.Base.{
  ℕ, zero, suc, ◌+◌, ◌^◌, ◌<◌, ◌≤◌, ◌≡◌, ◌≢◌, ◌⊎◌, inl, inr, sym, ◌∙◌, ap, arith, List, [], ◌∷◌,
  ◌++◌, length, length-append, get_or, get_or-append_left, get_or-append_behind,
}
use mathlib.Core.Path.{subst}
use linux_0_11_symcc_on_turi.Base.Word.{u32}
use linux_0_11_symcc_on_turi.Emu.State.{Memory, rd32}
use linux_0_11_symcc_on_turi.Kernel.Exec.Image.{pointers}
use linux_0_11_symcc_on_turi.Kernel.Exec.Vectors.{Reads, At, Vector}
use linux_0_11_symcc_on_turi.Kernel.Exec.Given.{Listed}
use linux_0_11_symcc_on_turi.Kernel.Exec.Words.{Words, Reads_move}

-- The same characters, up to the first NUL, stand at `s` before and at `p` after.
pub record SameString (old new : Memory) (s p : ℕ) : Type 0 where
  pub string : List ℕ
  pub before : Reads old s string
  pub after : Reads new p string

-- Two vectors of `n` pointers with a NULL behind: their strings are the same, one by one.
abbrev pub SameVector : Memory → Memory → ℕ → ℕ → ℕ → Type 0
SameVector old new p q zero = (rd32 old p ≡ 0) × (rd32 new q ≡ 0)
SameVector old new p q (suc n) =
    SameString old new (rd32 old p) (rd32 new q)
    × (rd32 old p ≢ 0)
    × (rd32 new q ≢ 0)
    × SameVector old new (u32 (p + 4)) (q + 4) n

-- A caller's vector that is NULL gives an empty one.
abbrev pub SameArguments : Memory → Memory → ℕ → ℕ → ℕ → Type 0
SameArguments old new p q n = ((p ≡ 0) × (n ≡ 0) × (rd32 new q ≡ 0)) ⊎ SameVector old new p q n

module _ (old new : Memory) (strings : List ℕ) (n : ℕ)
    (stored : (i : ℕ) → i < length strings → new (n + i) ≡ get_or strings i 0) (low : 0 < n)
    (fits : n + length strings < 2 ^ 32) where
  inside : (o s : ℕ) (a : At old strings o s) → o + length a.string ≤ length strings
  inside o s a =
      let whole : length strings ≡ length (a.before ++ (a.string ++ a.after)) = ap length a.split in
      omega (
        arith,
        whole,
        length-append a.before (a.string ++ a.after),
        length-append a.string a.after,
        a.start,
      )

  placed : (o s : ℕ) → At old strings o s → u32 (n + o) ≡ n + o
  placed o s a = omega (arith, inside o s a, fits)

  character :
      (o s : ℕ) (a : At old strings o s) (i : ℕ)
      → i < length a.string
      → get_or strings (o + i) 0 ≡ get_or a.string i 0
  character o s a i lt =
      let at : o + i ≡ length a.before + i = omega (arith, a.start) in
      ap (λ l. get_or l (o + i) 0) a.split
      ∙ (ap (λ j. get_or (a.before ++ (a.string ++ a.after)) j 0) at
          ∙ (get_or-append_behind a.before (a.string ++ a.after) i 0
              ∙ get_or-append_left a.string a.after i 0 lt))

  same_string : (o s : ℕ) → At old strings o s → SameString old new s (u32 (n + o))
  same_string o s a = record {
    string = a.string;
    before = a.reads;
    after =
        Reads_move a.string old new s (u32 (n + o))
          (omega (arith, placed o s a, inside o s a, fits))
          (λ i. λ lt.
            ap new (moved i)
            ∙ (stored (o + i) (omega (arith, lt, inside o s a)) ∙ character o s a i lt))
          a.reads;
  }
    where
      moved : (i : ℕ) → u32 (n + o) + i ≡ n + (o + i)
      moved i = omega (arith, placed o s a)

  same_vector :
      (p q : ℕ) (os : List ℕ)
      → Vector old strings p os
      → Words new q (pointers n os)
      → SameVector old new p q (length os)
  same_vector p q [] v (w, _) = (v, w)
  same_vector p q (o ∷ os) (a, ne, v) (w, ws) = (
    subst (λ x. SameString old new (rd32 old p) x) (sym w) (same_string o (rd32 old p) a),
    ne,
    λ z. omega (arith, z, w, placed o (rd32 old p) a, low),
    same_vector (u32 (p + 4)) (q + 4) os v ws,
  )

  pub same_arguments :
      (p q : ℕ) (os : List ℕ)
      → Listed old strings p os
      → Words new q (pointers n os)
      → SameArguments old new p q (length os)
  same_arguments p q os (inl (z, e)) w =
      inl (z, ap length e, (subst (λ l. Words new q (pointers n l)) e w).0)
  same_arguments p q os (inr v) w = inr (same_vector p q os v w)
