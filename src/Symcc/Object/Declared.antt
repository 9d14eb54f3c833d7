-- ===== src/Symcc/Object/Declared.antt =====
-- The declarations in the text of an object (symcc/src/obj.c) are read one by one.
use linux_0_11_symcc_on_turi.Base.{
  ℕ, zero, suc, ◌+◌, ◌/◌, ◌%◌, ◌≡◌, inr, refl, sym, ◌∙◌, ap, arith, Bool, true, false, ltb, ◌==◌,
  not, ◌&&◌, ◌||◌, if◌then◌else◌, List, [], ◌∷◌, ◌++◌, All,
}
use mathlib.Core.List.{append_assoc, append-nil}
use linux_0_11_symcc_on_turi.Base.Int.{ℤ, pos, negsuc}
use linux_0_11_symcc_on_turi.Symcc.Object.Model.{Obj, obj_add_text, obj_add_data}
use linux_0_11_symcc_on_turi.Symcc.Object.Write.{decimal, print_long}
use linux_0_11_symcc_on_turi.Symcc.Object.Read.{
  Reader, kind_of, read_lines, use_line, add_content, take_lines,
}
use linux_0_11_symcc_on_turi.Symcc.Object.Reread.{
  with_lines, NameChars, NameChars-append, NameChars-Chars, NameChars-Uncommented, take_first,
  add_all,
}

-- The second object has the lines of the first.
abbrev pub SameLines : Obj → Obj → Type 0
SameLines o p = (p.text_lines ≡ o.text_lines) × (p.data_lines ≡ o.data_lines)

pub add_all-text :
    (ls : List (List ℕ)) (o : Obj)
    → ((add_all 1 o ls).text_lines ≡ o.text_lines ++ ls)
      × ((add_all 1 o ls).data_lines ≡ o.data_lines)
unfolding add_content obj_add_text
add_all-text [] o = (sym (append-nil o.text_lines), refl)
add_all-text (l ∷ ls) o =
    let rest = add_all-text ls (obj_add_text o l) in
    (rest.0 ∙ append_assoc o.text_lines (l ∷ []) ls, rest.1)

pub add_all-data :
    (ls : List (List ℕ)) (o : Obj)
    → ((add_all 2 o ls).data_lines ≡ o.data_lines ++ ls)
      × ((add_all 2 o ls).text_lines ≡ o.text_lines)
unfolding add_content obj_add_data
add_all-data [] o = (sym (append-nil o.data_lines), refl)
add_all-data (l ∷ ls) o =
    let rest = add_all-data ls (obj_add_data o l) in
    (rest.0 ∙ append_assoc o.data_lines (l ∷ []) ls, rest.1)

-- The objects after one update for each element.
abbrev pub apply_all : {A : Type 0} → (A → Obj → Obj) → List A → Obj → Obj
apply_all update [] o = o
apply_all update (a ∷ l) o = apply_all update l (update a o)

-- A line that declares something: it updates the object.
pub record Declares (l : List ℕ) (update : Obj → Obj) : Type 0 where
  pub chars : NameChars l
  pub updates : (r : Reader) → use_line r l (kind_of l) ≡ record r { obj = update r.obj }

pub take_declared :
    {A : Type 0} (native : Bool) (line : A → List ℕ) (update : A → Obj → Obj) (all : List A)
    (s : List ℕ) (r : Reader)
    → All (λ a. Declares (line a) (update a)) all
    → take_lines native (read_lines (with_lines line all s)) r
      ≡ take_lines native (read_lines s) (record r { obj = apply_all update all r.obj })
take_declared native line update [] s r h = refl
take_declared native line update (a ∷ all) s r (d, h) =
    take_first native (line a) (with_lines line all s) r (NameChars-Chars (line a) d.chars)
      (inr (inr (NameChars-Uncommented (line a) d.chars)))
    ∙ (ap (take_lines native (read_lines (with_lines line all s))) (d.updates r)
        ∙ take_declared native line update all s (record r { obj = update a r.obj }) h)

decimal-NameChars : (digits n : ℕ) → NameChars (decimal digits n)
unfolding decimal
decimal-NameChars zero n = tt
decimal-NameChars (suc digits) n = branch (ltb n 10) refl (decimal-NameChars digits (n / 10))
  where
    branch :
        (b : Bool)
        → ltb n 10 ≡ b
        → NameChars (decimal digits (n / 10))
        → NameChars
            (if b then (b'0' + n) ∷ [] else decimal digits (n / 10) ++ ((b'0' + n % 10) ∷ []))
    branch true e h =
        ((((λ z. omega (arith, z)), (λ z. omega (arith, z))), (λ z. ground (arith, z, e))), tt)
    branch false e h =
        NameChars-append (decimal digits (n / 10)) ((b'0' + n % 10) ∷ []) h
          ((((λ z. omega (arith, z)), (λ z. omega (arith, z))), (λ z. omega (arith, z))), tt)

pub print_long-NameChars : (n : ℤ) → NameChars (print_long n)
unfolding print_long
print_long-NameChars (pos n) = decimal-NameChars 20 n
print_long-NameChars (negsuc n) = (
  (((λ z. ground (arith, z)), (λ z. ground (arith, z))), (λ z. ground (arith, z))),
  decimal-NameChars 20 (suc n),
)

-- A fixed text is tested character by character.
abbrev pub is_name : List ℕ → Bool
is_name [] = true
is_name (c ∷ l) = not ((c == 10) || ((c == 13) || (c == b';'))) && is_name l

pub is_name-NameChars : (l : List ℕ) → is_name l ≡ true → NameChars l
is_name-NameChars [] e = tt
is_name-NameChars (c ∷ l) e = (
  (((λ z. ground (arith, z, e)), (λ z. ground (arith, z, e))), (λ z. ground (arith, z, e))),
  is_name-NameChars l (ground (arith, e)),
)

pub spaced : (l : List ℕ) → NameChars l → NameChars ((b' ' ∷ []) ++ l)
spaced l h = NameChars-append (b' ' ∷ []) l (is_name-NameChars (b' ' ∷ []) refl) h
