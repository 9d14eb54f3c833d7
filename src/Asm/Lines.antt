-- ===== src/Asm/Lines.antt =====
-- A whole line of emu/asm.c in both passes: the label in front of it and what follows.
use linux_0_11_symcc_on_turi.Base.{
  ℕ, ◌≡◌, refl, Bool, true, false, not, ◌&&◌, leb, if◌then◌else◌, ◌⊎◌, List, [], ◌∷◌, ◌++◌, length,
  Option, none, some, inl, inr,
}
use linux_0_11_symcc_on_turi.Isa.Encode.{isa_reg_index}
use linux_0_11_symcc_on_turi.Asm.Scan.{is_ident, trim, trim_end, take}
use linux_0_11_symcc_on_turi.Asm.Labels.{
  Result, ok, err, ◌>>=◌, Label, find_label, is_some, max_labels, at_capacity, add_label,
}
use linux_0_11_symcc_on_turi.Asm.Operands.{split_at}
use linux_0_11_symcc_on_turi.Asm.Emit.{
  Emitted, Place, emit_line, enter, cut_line, process_colon, process_line,
}
use linux_0_11_symcc_on_turi.Asm.Agree.{Agrees, emit_line-Agrees}

-- The name that the text before a colon defines, if it is one.
abbrev pub named : Option (List ℕ × List ℕ) → Option (List ℕ)
named none = none
named (some (before, behind)) = if is_ident (trim_end before) then some (trim_end before) else none

-- The label that a line defines.
abbrev pub label_of : List ℕ → Option (List ℕ)
label_of line = named (split_at b':' (trim line))

-- What `add_label` may return.
abbrev Grown : List Label → List ℕ → ℕ → Result (List Label) → Type 0
Grown ls name off (ok l) = (l ≡ ls) ⊎ (l ≡ ls ++ (record { name = take 63 name; off = off } ∷ []))
Grown ls name off (err n why) = Unit

add_label-Grown :
    (grows : ℕ → Bool) (ls : List Label) (name : List ℕ) (off n : ℕ)
    → Grown ls name off (add_label grows ls name off n)
unfolding add_label
add_label-Grown grows ls name off n = split (not (is_ident name)) _ _ tt (
    split (is_some (isa_reg_index name)) _ _ tt (
      split (is_some (find_label ls name)) _ _ (inl refl) (
        split (leb max_labels (length ls)) _ _ tt
          (split (at_capacity (length ls) && not (grows (length ls))) _ _ tt (inr refl)))))
  where
    split :
        (b : Bool) (r t : Result (List Label))
        → Grown ls name off r
        → Grown ls name off t
        → Grown ls name off (if b then r else t)
    split true r t h k = h
    split false r t h k = k

-- A line in both passes: the label table grows in the first one only, by the label of the line.
module _ (off : ℕ) (ls ms : List Label) (name : Option (List ℕ)) where
  pub record LineAgrees (d e : List Label × Emitted) : Type 0 where
    pub size : d.1.size ≡ e.1.size
    pub silent : d.1.bytes ≡ []
    pub written : length e.1.bytes ≡ e.1.size
    pub kept : e.0 ≡ ms
    pub grown :
        (d.0 ≡ ls)
        ⊎ ((l : List ℕ) × (name ≡ some l)
            × (d.0 ≡ ls ++ (record { name = take 63 l; off = off } ∷ [])))

  abbrev pub BothAgree : Result (List Label × Emitted) → Result (List Label × Emitted) → Type 0
  BothAgree (ok d) (ok e) = LineAgrees d e
  BothAgree (ok d) (err l why) = Unit
  BothAgree (err l why) r = Unit

  labelled :
      (l : List Label) (r r' : Result Emitted)
      → Agrees r r'
      → (l ≡ ls)
        ⊎ ((s : List ℕ) × (name ≡ some s)
            × (l ≡ ls ++ (record { name = take 63 s; off = off } ∷ [])))
      → BothAgree (r >>= (λ e. ok (l, e))) (r' >>= (λ e. ok (ms, e)))
  labelled l (ok d) (ok e) h g = record {
    size = h.0;
    silent = h.1;
    written = h.2;
    kept = refl;
    grown = g;
  }
  labelled l (ok d) (err n why) h g = tt
  labelled l (err n why) r' h g = tt

module _ (grows : ℕ → Bool) (off cap n : ℕ) (ls ms : List Label) where
  abbrev before : Place
  before = record { resolve = false; labels = ls; off = off; cap = cap; lineno = n }

  abbrev again : Place
  again = record { resolve = true; labels = ms; off = off; cap = cap; lineno = n }

  process_colon-agrees :
      (line : List ℕ) (o : Option (List ℕ × List ℕ))
      → BothAgree off ls ms
          (named o)
          (process_colon grows before line o)
          (process_colon grows again line o)
  unfolding process_colon enter
  process_colon-agrees line none =
      labelled off ls ms none ls _ _ (emit_line-Agrees off cap n ls ms line) (inl refl)
  process_colon-agrees line (some (s, behind)) = chosen (is_ident (trim_end s))
    where
      defined :
          (r : Result (List Label))
          → Grown ls (trim_end s) off r
          → BothAgree off ls ms
              (some (trim_end s))
              (r >>= (λ l.
                emit_line (record before { labels = l }) (trim behind) >>= (λ e. ok (l, e))))
              (emit_line again (trim behind) >>= (λ e. ok (ms, e)))
      defined (err m why) g = tt
      defined (ok l) (inl same) =
          labelled off ls ms (some (trim_end s)) l _ _
            (emit_line-Agrees off cap n l ms (trim behind)) (inl same)
      defined (ok l) (inr more) =
          labelled off ls ms (some (trim_end s)) l _ _
            (emit_line-Agrees off cap n l ms (trim behind)) (inr (trim_end s, refl, more))

      chosen :
          (b : Bool)
          → BothAgree off ls ms
              (if b then some (trim_end s) else none)
              (if b
                then add_label grows ls (trim_end s) off n >>= (λ l.
                  emit_line (record before { labels = l }) (trim behind) >>= (λ e. ok (l, e)))
                else emit_line before (cut_line s line) >>= (λ e. ok (ls, e)))
              (if b
                then emit_line again (trim behind) >>= (λ e. ok (ms, e))
                else emit_line again (cut_line s line) >>= (λ e. ok (ms, e)))
      chosen true =
          defined (add_label grows ls (trim_end s) off n)
            (add_label-Grown grows ls (trim_end s) off n)
      chosen false =
          labelled off ls ms none ls _ _ (emit_line-Agrees off cap n ls ms (cut_line s line))
            (inl refl)

  pub process_line-agrees :
      (line : List ℕ)
      → BothAgree off ls ms
          (label_of line)
          (process_line grows before line)
          (process_line grows again line)
  unfolding process_line
  process_line-agrees line = process_colon-agrees (trim line) (split_at b':' (trim line))
