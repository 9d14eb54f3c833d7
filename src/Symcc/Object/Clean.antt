-- ===== src/Symcc/Object/Clean.antt =====
-- A line that symcc/src/obj.c wrote is the line that it reads.
use linux_0_11_symcc_on_turi.Base.{
  ℕ, ◌≡◌, ◌≢◌, ◌⊎◌, inl, inr, refl, ◌∙◌, ap, arith, Bool, true, false, not, ◌&&◌, ◌||◌, ◌==◌,
  if◌then◌else◌, List, [], ◌∷◌, ◌++◌, All,
}
use linux_0_11_symcc_on_turi.Symcc.Object.Lines.{is_newline, trim_last}
use linux_0_11_symcc_on_turi.Symcc.Object.Read.{
  push_char, read_lines, before_char, is_quoted, clean_line,
}

-- No newline and no return is among the characters.
abbrev pub Chars : List ℕ → Type 0
Chars = All (λ c. (c ≢ 10) × (c ≢ 13))

-- Of a line, the native program leaves the comment out.
abbrev pub Uncommented : Bool → List ℕ → Type 0
Uncommented native l = (native ≡ false) ⊎ ((is_quoted l ≡ true) ⊎ All (λ c. c ≢ b';') l)

trim_more :
    (drop : ℕ → Bool) (c : ℕ) (rest l : List ℕ)
    → trim_last drop l ≡ rest
    → drop c ≡ false
    → trim_last drop (c ∷ l) ≡ c ∷ rest
unfolding trim_last
trim_more drop c rest l e f =
    ap (λ r. elim r as (λ _. List ℕ) [ [] ↦ if drop c then [] else c ∷ [] | d ∷ t ↦ c ∷ d ∷ t ]) e
    ∙ again rest
  where
    again :
        (r : List ℕ)
        → elim r as (λ _. List ℕ) [ [] ↦ if drop c then [] else c ∷ [] | d ∷ t ↦ c ∷ d ∷ t ] ≡ c ∷ r
    again [] = rw f refl
    again (d ∷ t) = refl

trim_newline_end : trim_last is_newline (10 ∷ []) ≡ []
unfolding trim_last
trim_newline_end = refl

trim_newline : (l : List ℕ) → Chars l → trim_last is_newline (l ++ (10 ∷ [])) ≡ l
trim_newline [] h = trim_newline_end
trim_newline (c ∷ l) ((nl, cr), h) =
    trim_more is_newline c l (l ++ (10 ∷ [])) (trim_newline l h) (ground (arith, nl, cr))

trim_behind :
    (drop : ℕ → Bool) (c : ℕ) (l : List ℕ) (d : ℕ) (t : List ℕ)
    → trim_last drop l ≡ d ∷ t
    → trim_last drop (c ∷ l) ≡ c ∷ d ∷ t
unfolding trim_last
trim_behind drop c l d t e =
    ap (λ r. elim r as (λ _. List ℕ) [ [] ↦ if drop c then [] else c ∷ [] | x ∷ u ↦ c ∷ x ∷ u ]) e

-- A line that ends in a character that stays.
trim_kept :
    (drop : ℕ → Bool) (l : List ℕ) (c : ℕ)
    → drop c ≡ false
    → trim_last drop (l ++ (c ∷ [])) ≡ l ++ (c ∷ [])
unfolding trim_last
trim_kept drop [] c e = rw e refl
trim_kept drop (d ∷ []) c e = trim_behind drop d (c ∷ []) c [] (trim_kept drop [] c e)
trim_kept drop (d ∷ b ∷ l) c e =
    trim_behind drop d (b ∷ (l ++ (c ∷ []))) b (l ++ (c ∷ [])) (trim_kept drop (b ∷ l) c e)

uncut :
    (l s : List ℕ)
    → All (λ c. c ≢ b';') l
    → All (λ c. c ≢ b';') s
    → before_char b';' (l ++ s) ≡ l ++ s
unfolding before_char
uncut [] [] h k = refl
uncut [] (c ∷ s) h (ne, k) =
    let test : (c == b';') ≡ false = ground (arith, ne) in
    rw test (ap (λ t. c ∷ t) (uncut [] s tt k))
uncut (c ∷ l) s (ne, h) k =
    let test : (c == b';') ≡ false = ground (arith, ne) in rw test (ap (λ t. c ∷ t) (uncut l s h k))

quoted_end : (l : List ℕ) → is_quoted l ≡ true → is_quoted (l ++ (10 ∷ [])) ≡ true
quoted_end [] e = e
quoted_end (c ∷ l) e = e

both_ways : (P : List ℕ → Type 0) (b : Bool) (x y : List ℕ) → P x → P y → P (if b then x else y)
both_ways P true x y h k = h
both_ways P false x y h k = k

pub clean_line_lem :
    (native : Bool) (l : List ℕ)
    → Chars l
    → Uncommented native l
    → clean_line native (l ++ (10 ∷ [])) ≡ l
unfolding clean_line
clean_line_lem false l h u = trim_newline l h
clean_line_lem true l h (inl z) = absurd (ground (arith, z))
clean_line_lem true l h (inr (inl q)) = rw (quoted_end l q) (trim_newline l h)
clean_line_lem true l h (inr (inr n)) =
    both_ways (λ t. trim_last is_newline t ≡ l) (true && not (is_quoted (l ++ (10 ∷ [])))) _ _
      (rw
        (
          uncut l (10 ∷ []) n ((λ e. omega (arith, e)), tt),
          trim_kept (λ c. (c == b' ') || (c == 9)) l 10 refl,
        )
        (trim_newline l h))
      (trim_newline l h)

-- The first line of a text.
pub read_lines_first :
    (l s : List ℕ) → Chars l → read_lines (l ++ (10 ∷ s)) ≡ (l ++ (10 ∷ [])) ∷ read_lines s
unfolding read_lines
read_lines_first [] s h = refl
read_lines_first (c ∷ l) s ((nl, cr), h) =
    let test : (c == 10) ≡ false = ground (arith, nl) in
    rw test (ap (push_char c) (read_lines_first l s h))
