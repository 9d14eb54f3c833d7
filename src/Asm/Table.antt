-- ===== src/Asm/Table.antt =====
-- The label table of emu/asm.c: what `add_label` does to the lookups.
use linux_0_11_symcc_on_turi.Base.{
  ℕ, zero, suc, ◌<◌, ◌≤◌, ◌≡◌, ◌≢◌, refl, sym, ◌∙◌, ap, arith, Bool, true, false, not, ◌&&◌, leb,
  if◌then◌else◌, List, [], ◌∷◌, ◌++◌, length, Option, none, some, Bool-cases, inl, inr,
}
use linux_0_11_symcc_on_turi.Base.Text.{str_eq, str_eq_sound, str_eq_refl}
use mathlib.Core.Path.{subst}
use linux_0_11_symcc_on_turi.Isa.Encode.{isa_reg_index}
use linux_0_11_symcc_on_turi.Emu.State.{Memory}
use linux_0_11_symcc_on_turi.Asm.Scan.{is_ident, take}
use linux_0_11_symcc_on_turi.Asm.Labels.{
  Result, ok, err, Label, find_label, is_some, max_labels, at_capacity, add_label,
}
use linux_0_11_symcc_on_turi.Asm.Passes.{Pass, asm_assemble}
use linux_0_11_symcc_on_turi.Asm.Output.{asm_assemble-IsDefined}

length-take : (n : ℕ) (cs : List ℕ) → length (take n cs) ≤ n
length-take zero cs = omega arith
length-take (suc n) [] = omega arith
length-take (suc n) (c ∷ cs) = let h = length-take n cs in omega (arith, h)

take_short : (n : ℕ) (cs : List ℕ) → length cs ≤ n → take n cs ≡ cs
take_short zero [] h = refl
take_short zero (c ∷ cs) h = absurd (omega (arith, h))
take_short (suc n) [] h = refl
take_short (suc n) (c ∷ cs) h = ap (λ r. c ∷ r) (take_short n cs (omega (arith, h)))

-- A name of more than 63 characters is stored without the rest of it: after a successful assembly no
-- lookup of such a name finds a label, so that no line can refer to it.
pub find_label-none_long :
    (grows : ℕ → Bool) (cap : ℕ) (out : Memory) (text : List ℕ) (q : Pass) (name : List ℕ)
    → asm_assemble grows cap out text ≡ ok q
    → 63 < length name
    → find_label q.labels name ≡ none
find_label-none_long grows cap out text q name h long = missing (find_label q.labels name) refl
  where
    missing : (r : Option ℕ) → find_label q.labels name ≡ r → r ≡ none
    missing none e = refl
    missing (some v) e =
        let d = asm_assemble-IsDefined grows cap out text q h name v e in
        absurd (omega (arith, long, length-take 63 d.full, ap length d.kept))

-- The lookup of `name` after its definition at `off`: the first definition wins.
abbrev pub first_of : Option ℕ → ℕ → ℕ
first_of none off = off
first_of (some v) off = v

abbrev pub Entered : List Label → List ℕ → ℕ → Result (List Label) → Type 0
Entered ls name off (err n why) = Unit
Entered ls name off (ok ls') =
    (find_label ls' name ≡ some (first_of (find_label ls name) off))
    × ((other : List ℕ) → other ≢ name → find_label ls' other ≡ find_label ls other)

find_label-append_here :
    (ls : List Label) (name : List ℕ) (off : ℕ)
    → find_label ls name ≡ none
    → find_label (ls ++ (record { name = name; off = off } ∷ [])) name ≡ some off
unfolding find_label
find_label-append_here [] name off h = rw (str_eq_refl name) refl
find_label-append_here (l ∷ ls) name off h =
    first (str_eq l.name name) (find_label ls name) _ h (find_label-append_here ls name off)
  where
    first :
        (b : Bool) (r t : Option ℕ)
        → (if b then some l.off else r) ≡ none
        → (r ≡ none → t ≡ some off)
        → (if b then some l.off else t) ≡ some off
    first true r t k ih = cc
    first false r t k ih = ih k

find_label-append_other :
    (ls : List Label) (x : Label) (other : List ℕ)
    → str_eq x.name other ≡ false
    → find_label (ls ++ (x ∷ [])) other ≡ find_label ls other
unfolding find_label
find_label-append_other [] x other h = rw h refl
find_label-append_other (l ∷ ls) x other h =
    ap (λ r. if str_eq l.name other then some l.off else r) (find_label-append_other ls x other h)

-- A definition that `add_label` accepts, of a name of at most 63 characters, can be looked up: at its own
-- offset, or at that of its first definition. No other lookup changes.
pub add_label-Entered :
    (grows : ℕ → Bool) (ls : List Label) (name : List ℕ) (off n : ℕ)
    → length name ≤ 63
    → Entered ls name off (add_label grows ls name off n)
unfolding add_label
add_label-Entered grows ls name off n short = choice (not (is_ident name)) _ _ tt (
    choice (is_some (isa_reg_index name)) _ _ tt (
      known (find_label ls name) refl _ (λ new.
        choice (leb max_labels (length ls)) _ _ tt
          (choice (at_capacity (length ls) && not (grows (length ls))) _ _ tt (fresh new)))))
  where
    choice :
        (b : Bool) (r t : Result (List Label))
        → Entered ls name off r
        → Entered ls name off t
        → Entered ls name off (if b then r else t)
    choice true r t h k = h
    choice false r t h k = k

    known :
        (o : Option ℕ)
        → find_label ls name ≡ o
        → (t : Result (List Label)) → (find_label ls name ≡ none → Entered ls name off t)
        → Entered ls name off (if is_some o then ok ls else t)
    known none e t h = h e
    known (some v) e t h = (e ∙ ap (λ o. some (first_of o off)) (sym e), λ other different. refl)

    apart : (other : List ℕ) → other ≢ name → str_eq name other ≡ false
    apart other different = elim (Bool-cases (str_eq name other)) [
      | inl same ↦ absurd (different (sym (str_eq_sound name other same)))
      | inr differ ↦ differ
    ]

    fresh :
        find_label ls name ≡ none
        → Entered ls name off (ok (ls ++ (record { name = take 63 name; off = off } ∷ [])))
    fresh new =
        subst (λ s. Entered ls name off (ok (ls ++ (record { name = s; off = off } ∷ []))))
          (sym (take_short 63 name short))
          (
            find_label-append_here ls name off new ∙ ap (λ o. some (first_of o off)) (sym new),
            λ other different.
                find_label-append_other ls (record { name = name; off = off }) other
                  (apart other different),
          )
