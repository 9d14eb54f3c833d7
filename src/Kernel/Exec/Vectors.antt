-- ===== src/Kernel/Exec/Vectors.antt =====
-- What the loader of Reference/Linux-0.11-main/fs/symexec.c copies: the caller's strings, each at its offset.
use linux_0_11_symcc_on_turi.Base.{
  ℕ, zero, suc, ◌+◌, ◌-◌, ◌^◌, ◌≤◌, ◌≡◌, ◌≢◌, refl, sym, ◌∙◌, ap, arith, Bool, true, false, ◌==◌,
  ==_iff, if◌then◌else◌, List, [], ◌∷◌, ◌++◌, length, length-append,
}
use mathlib.Core.Path.{subst}
use mathlib.Core.List.{append_assoc, append-nil}
use linux_0_11_symcc_on_turi.Base.Word.{u32}
use linux_0_11_symcc_on_turi.Emu.State.{Memory, rd32}
use linux_0_11_symcc_on_turi.Kernel.Process.Users.{sp_user_range}
use linux_0_11_symcc_on_turi.Kernel.Process.Dispatch.{exec_done}
use linux_0_11_symcc_on_turi.Kernel.Process.State.{efault}
use linux_0_11_symcc_on_turi.Kernel.Exec.Arguments.{
  Loaded, fine, failed, ◌>>=◌, e2big, copy_string, Strings, copy_list, storage_size,
}

-- The characters `t` stand at `p`, and the last of them is the first NUL.
abbrev pub Reads : Memory → ℕ → List ℕ → Type 0
Reads mem p [] = ⊥
Reads mem p (c ∷ []) = (mem p ≡ c) × (c ≡ 0)
Reads mem p (c ∷ d ∷ t) = (mem p ≡ c) × (c ≢ 0) × Reads mem (u32 (p + 1)) (d ∷ t)

-- The string at `s` stands in the storage, at an offset.
pub record At (mem : Memory) (strings : List ℕ) (offset s : ℕ) : Type 0 where
  pub before : List ℕ
  pub string : List ℕ
  pub after : List ℕ
  pub split : strings ≡ before ++ (string ++ after)
  pub start : length before ≡ offset
  pub reads : Reads mem s string

-- The pointers from `p` on, up to a NULL, are those of the strings at the offsets.
abbrev pub Vector : Memory → List ℕ → ℕ → List ℕ → Type 0
Vector mem strings p [] = rd32 mem p ≡ 0
Vector mem strings p (o ∷ os) =
    At mem strings o (rd32 mem p) × (rd32 mem p ≢ 0) × Vector mem strings (u32 (p + 4)) os

pub At-append :
    (mem : Memory) (strings more : List ℕ) (o s : ℕ)
    → At mem strings o s
    → At mem (strings ++ more) o s
At-append mem strings more o s a = record {
  before = a.before;
  string = a.string;
  after = a.after ++ more;
  split =
      ap (λ l. l ++ more) a.split
      ∙ (append_assoc a.before (a.string ++ a.after) more
          ∙ ap (λ l. a.before ++ l) (append_assoc a.string a.after more));
  start = a.start;
  reads = a.reads;
}

pub Vector-append :
    (mem : Memory) (strings more : List ℕ) (p : ℕ) (os : List ℕ)
    → Vector mem strings p os
    → Vector mem (strings ++ more) p os
Vector-append mem strings more p [] h = h
Vector-append mem strings more p (o ∷ os) (a, ne, h) = (
  At-append mem strings more o (rd32 mem p) a,
  ne,
  Vector-append mem strings more (u32 (p + 4)) os h,
)

-- A string that was copied, or an error.
abbrev CopiedString : Memory → ℕ → ℕ → Loaded (List ℕ) → Type 0
CopiedString mem s left (failed e) = e ≢ exec_done
CopiedString mem s left (fine t) = Reads mem s t × (length t ≤ left)

pub not_done : (e : ℕ) → 2 ^ 31 ≤ e → e ≢ exec_done
not_done e h q = omega (arith, h, q)

longer :
    (mem : Memory) (s left : ℕ) (r : Loaded (List ℕ))
    → mem s ≢ 0
    → CopiedString mem (u32 (s + 1)) left r
    → CopiedString mem s (suc left) (r >>= (λ t. fine (mem s ∷ t)))
longer mem s left (failed e) ne h = h
longer mem s left (fine []) ne (h, le) = absurd h
longer mem s left (fine (d ∷ t)) ne (h, le) = ((refl, ne, h), omega (arith, le))

copy_string-Copied :
    (left : ℕ) (mem : Memory) (s : ℕ) → CopiedString mem s left (copy_string left mem s)
unfolding copy_string
copy_string-Copied zero mem s = not_done e2big (omega arith)
copy_string-Copied (suc left) mem s =
    tested (sp_user_range s 1) _
      (ended (mem s == 0) refl (copy_string-Copied left mem (u32 (s + 1))))
  where
    rest : Loaded (List ℕ)
    rest = copy_string left mem (u32 (s + 1)) >>= (λ t. fine (mem s ∷ t))

    tested :
        (b : Bool) (r : Loaded (List ℕ))
        → CopiedString mem s (suc left) r
        → CopiedString mem s (suc left) (if b then r else failed efault)
    tested true r h = h
    tested false r h = not_done efault (omega arith)

    ended :
        (b : Bool)
        → (mem s == 0) ≡ b
        → CopiedString mem (u32 (s + 1)) left (copy_string left mem (u32 (s + 1)))
        → CopiedString mem s
            (suc left)
            (elim b as (λ _. Loaded (List ℕ)) [ true ↦ fine (0 ∷ []) | false ↦ rest ])
    ended true e h = (((==_iff (mem s) 0).0 e, refl), omega arith)
    ended false e h = longer mem s left _ (λ z. ground (arith, e, z)) h

-- The strings of a list are in the storage behind those that were there, with their offsets; or an error.
pub record ListCopied (mem : Memory) (p : ℕ) (strings : List ℕ) (turns : ℕ) (r : Strings)
    : Type 0 where
  pub vector : Vector mem r.strings p r.offsets
  pub more : List ℕ
  pub grown : r.strings ≡ strings ++ more
  pub room : length r.strings ≤ storage_size
  pub turns_left : length r.offsets ≤ turns

abbrev pub CopiedList : Memory → ℕ → List ℕ → ℕ → Loaded Strings → Type 0
CopiedList mem p strings turns (failed e) = e ≢ exec_done
CopiedList mem p strings turns (fine r) = ListCopied mem p strings turns r

no_strings :
    (mem : Memory) (p : ℕ) (strings : List ℕ) (turns : ℕ)
    → rd32 mem p ≡ 0
    → length strings ≤ storage_size
    → ListCopied mem p strings turns (record { offsets = []; strings = strings })
no_strings mem p strings turns e le = record {
  vector = e;
  more = [];
  grown = sym (append-nil strings);
  room = le;
  turns_left = omega arith;
}

-- The string that a turn of the loop copied, at its offset.
At-end :
    (mem : Memory) (strings string : List ℕ) (s : ℕ)
    → Reads mem s string
    → At mem (strings ++ string) (length strings) s
At-end mem strings string s h = record {
  before = strings;
  string = string;
  after = [];
  split = ap (λ l. strings ++ l) (sym (append-nil string));
  start = refl;
  reads = h;
}

At-more :
    (mem : Memory) (l strings more : List ℕ) (o s : ℕ)
    → l ≡ strings ++ more
    → At mem strings o s
    → At mem l o s
At-more mem l strings more o s e a =
    subst (λ k. At mem k o s) (sym e) (At-append mem strings more o s a)

-- One turn that copied `string`.
next_string :
    (mem : Memory) (p : ℕ) (strings string : List ℕ) (turns : ℕ) (r : Strings)
    → rd32 mem p ≢ 0
    → Reads mem (rd32 mem p) string
    → ListCopied mem (u32 (p + 4)) (strings ++ string) turns r
    → ListCopied mem p strings (suc turns) (record r { offsets = length strings ∷ r.offsets })
next_string mem p strings string turns r ne h c = record {
  vector = (
    At-more mem r.strings (strings ++ string) c.more (length strings) (rd32 mem p) c.grown
        (At-end mem strings string (rd32 mem p) h),
    ne,
    c.vector,
  );
  more = string ++ c.more;
  grown = c.grown ∙ append_assoc strings string c.more;
  room = c.room;
  turns_left = omega (arith, c.turns_left);
}

pub copy_list-Copied :
    (turns : ℕ) (mem : Memory) (p : ℕ) (strings : List ℕ)
    → length strings ≤ storage_size
    → CopiedList mem p strings turns (copy_list turns mem p strings)
unfolding copy_list
copy_list-Copied zero mem p strings le = tested (sp_user_range p 4) _ (ended (rd32 mem p == 0) refl)
  where
    tested :
        (b : Bool) (r : Loaded Strings)
        → CopiedList mem p strings 0 r
        → CopiedList mem p strings 0 (if b then r else failed efault)
    tested true r h = h
    tested false r h = not_done efault (omega arith)

    ended :
        (b : Bool)
        → (rd32 mem p == 0) ≡ b
        → CopiedList mem p strings 0
            (if b then fine (record { offsets = []; strings = strings }) else failed e2big)
    ended true e = no_strings mem p strings 0 ((==_iff (rd32 mem p) 0).0 e) le
    ended false e = not_done e2big (omega arith)
copy_list-Copied (suc turns) mem p strings le = tested (sp_user_range p 4) _ (
    ended (rd32 mem p == 0) refl
      (λ string. λ fits. copy_list-Copied turns mem (u32 (p + 4)) (strings ++ string) fits))
  where
    pushed : Strings → Loaded Strings
    pushed r = fine (record r { offsets = length strings ∷ r.offsets })

    behind : List ℕ → Loaded Strings
    behind string = copy_list turns mem (u32 (p + 4)) (strings ++ string) >>= pushed

    rest : Loaded Strings
    rest = copy_string (storage_size - length strings) mem (rd32 mem p) >>= behind

    tested :
        (b : Bool) (r : Loaded Strings)
        → CopiedList mem p strings (suc turns) r
        → CopiedList mem p strings (suc turns) (if b then r else failed efault)
    tested true r h = h
    tested false r h = not_done efault (omega arith)

    turned :
        (string : List ℕ)
        → rd32 mem p ≢ 0
        → Reads mem (rd32 mem p) string
        → (l : Loaded Strings) → CopiedList mem (u32 (p + 4)) (strings ++ string) turns l
        → CopiedList mem p strings (suc turns) (l >>= pushed)
    turned string ne h (failed e) c = c
    turned string ne h (fine r) c = next_string mem p strings string turns r ne h c

    copied :
        rd32 mem p ≢ 0
        → ((string : List ℕ)
            → length (strings ++ string) ≤ storage_size
            → CopiedList mem
                (u32 (p + 4))
                (strings ++ string)
                turns
                (copy_list turns mem (u32 (p + 4)) (strings ++ string)))
        → (t : Loaded (List ℕ)) → CopiedString mem (rd32 mem p) (storage_size - length strings) t
        → CopiedList mem p strings (suc turns) (t >>= behind)
    copied ne ih (failed e) h = h
    copied ne ih (fine string) (h, short) =
        turned string ne h (copy_list turns mem (u32 (p + 4)) (strings ++ string))
          (ih string (rw (length-append strings string) (omega (arith, short, le))))

    ended :
        (b : Bool)
        → (rd32 mem p == 0) ≡ b
        → ((string : List ℕ)
            → length (strings ++ string) ≤ storage_size
            → CopiedList mem
                (u32 (p + 4))
                (strings ++ string)
                turns
                (copy_list turns mem (u32 (p + 4)) (strings ++ string)))
        → CopiedList mem p strings (suc turns) (elim b as (λ _. Loaded Strings) [
          | true ↦ fine (record { offsets = []; strings = strings })
          | false ↦ rest
        ])
    ended true e ih = no_strings mem p strings (suc turns) ((==_iff (rd32 mem p) 0).0 e) le
    ended false e ih =
        copied (λ z. ground (arith, e, z)) ih
          (copy_string (storage_size - length strings) mem (rd32 mem p))
          (copy_string-Copied (storage_size - length strings) mem (rd32 mem p))
