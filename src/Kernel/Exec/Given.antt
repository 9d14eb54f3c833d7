-- ===== src/Kernel/Exec/Given.antt =====
-- The argument vectors that `sp_execve` (Reference/Linux-0.11-main/fs/symexec.c) takes over from its caller.
use linux_0_11_symcc_on_turi.Base.{
  ℕ, zero, suc, ◌+◌, ◌≤◌, ◌≡◌, ◌≢◌, ◌⊎◌, inl, inr, refl, sym, arith, Bool, true, false, ◌==◌,
  ==_iff, if◌then◌else◌, List, [], ◌∷◌, ◌++◌, length,
}
use mathlib.Core.Path.{subst}
use mathlib.Core.List.{append-nil}
use linux_0_11_symcc_on_turi.Base.Word.{u32}
use linux_0_11_symcc_on_turi.Emu.State.{Memory}
use linux_0_11_symcc_on_turi.Kernel.Process.Dispatch.{exec_done}
use linux_0_11_symcc_on_turi.Kernel.Exec.Arguments.{
  Loaded, fine, failed, ◌>>=◌, enametoolong, path_name, Strings, copy_strings, copy_list, Copied,
  copy_arguments, storage_size,
}
use linux_0_11_symcc_on_turi.Kernel.Exec.Vectors.{
  Vector, Vector-append, CopiedList, copy_list-Copied, not_done,
}

-- The offsets are those of the strings of the vector at `p`; a vector that is NULL has none.
abbrev pub Listed : Memory → List ℕ → ℕ → List ℕ → Type 0
Listed mem strings p offsets = ((p ≡ 0) × (offsets ≡ [])) ⊎ Vector mem strings p offsets

-- What is behind `strings` after a vector was copied.
pub record Taken (mem : Memory) (p : ℕ) (strings : List ℕ) (r : Strings) : Type 0 where
  pub listed : Listed mem r.strings p r.offsets
  pub more : List ℕ
  pub grown : r.strings ≡ strings ++ more
  pub room : length r.strings ≤ storage_size
  pub count : length r.offsets ≤ 32

abbrev pub TakenOr : Memory → ℕ → List ℕ → Loaded Strings → Type 0
TakenOr mem p strings (failed e) = e ≢ exec_done
TakenOr mem p strings (fine r) = Taken mem p strings r

-- The arguments of a call, with both vectors.
pub record Given (mem : Memory) (argv envp : ℕ) (c : Copied) : Type 0 where
  pub argv_listed : Listed mem c.strings argv c.argv
  pub envp_listed : Listed mem c.strings envp c.envp
  pub room : length c.strings ≤ storage_size
  pub argv_count : length c.argv ≤ 32
  pub envp_count : length c.envp ≤ 32

abbrev pub GivenOr : Memory → ℕ → ℕ → Loaded Copied → Type 0
GivenOr mem argv envp (failed e) = e ≢ exec_done
GivenOr mem argv envp (fine c) = Given mem argv envp c

abbrev pub NamedOr : Loaded (List ℕ) → Type 0
NamedOr (failed e) = e ≢ exec_done
NamedOr (fine name) = Unit

pub path_name-NamedOr : (left : ℕ) (mem : Memory) (a : ℕ) → NamedOr (path_name left mem a)
unfolding path_name
path_name-NamedOr zero mem a = not_done enametoolong (omega arith)
path_name-NamedOr (suc left) mem a = ended (mem a == 0) (path_name-NamedOr left mem (u32 (a + 1)))
  where
    longer : (r : Loaded (List ℕ)) → NamedOr r → NamedOr (r >>= (λ name. fine (mem a ∷ name)))
    longer (failed e) h = h
    longer (fine name) h = tt

    ended :
        (b : Bool)
        → NamedOr (path_name left mem (u32 (a + 1)))
        → NamedOr (elim b as (λ _. Loaded (List ℕ)) [
          | true ↦ fine []
          | false ↦ path_name left mem (u32 (a + 1)) >>= (λ name. fine (mem a ∷ name))
        ])
    ended true h = tt
    ended false h = longer (path_name left mem (u32 (a + 1))) h

copy_strings-TakenOr :
    (mem : Memory) (list : ℕ) (strings : List ℕ)
    → length strings ≤ storage_size
    → TakenOr mem list strings (copy_strings mem list strings)
unfolding copy_strings
copy_strings-TakenOr mem list strings le = null (list == 0) refl
  where
    taken : (r : Loaded Strings) → CopiedList mem list strings 32 r → TakenOr mem list strings r
    taken (failed e) h = h
    taken (fine r) h = record {
      listed = inr h.vector;
      more = h.more;
      grown = h.grown;
      room = h.room;
      count = h.turns_left;
    }

    null :
        (b : Bool)
        → (list == 0) ≡ b
        → TakenOr mem list strings (
            if b
            then fine (record { offsets = []; strings = strings })
            else copy_list 32 mem list strings)
    null true e = record {
      listed = inl ((==_iff list 0).0 e, refl);
      more = [];
      grown = sym (append-nil strings);
      room = le;
      count = omega arith;
    }
    null false e = taken (copy_list 32 mem list strings) (copy_list-Copied 32 mem list strings le)

Listed-append :
    (mem : Memory) (l strings more : List ℕ) (p : ℕ) (os : List ℕ)
    → l ≡ strings ++ more
    → Listed mem strings p os
    → Listed mem l p os
Listed-append mem l strings more p os e (inl h) = inl h
Listed-append mem l strings more p os e (inr v) =
    inr (subst (λ k. Vector mem k p os) (sym e) (Vector-append mem strings more p os v))

pub copy_arguments-GivenOr :
    (mem : Memory) (argv envp : ℕ) → GivenOr mem argv envp (copy_arguments mem argv envp)
unfolding copy_arguments
copy_arguments-GivenOr mem argv envp =
    first (copy_strings mem argv []) (copy_strings-TakenOr mem argv [] (omega arith))
  where
    both : Strings → Strings → Loaded Copied
    both a e = fine (record { argv = a.offsets; envp = e.offsets; strings = e.strings })

    second :
        (a : Strings)
        → Taken mem argv [] a
        → (r : Loaded Strings) → TakenOr mem envp a.strings r
        → GivenOr mem argv envp (r >>= both a)
    second a h (failed e) k = k
    second a h (fine r) k = record {
      argv_listed = Listed-append mem r.strings a.strings k.more argv a.offsets k.grown h.listed;
      envp_listed = k.listed;
      room = k.room;
      argv_count = h.count;
      envp_count = k.count;
    }

    first :
        (r : Loaded Strings)
        → TakenOr mem argv [] r
        → GivenOr mem argv envp (r >>= (λ a. copy_strings mem envp a.strings >>= both a))
    first (failed e) h = h
    first (fine a) h =
        second a h (copy_strings mem envp a.strings)
          (copy_strings-TakenOr mem envp a.strings h.room)
