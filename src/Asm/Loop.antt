-- ===== src/Asm/Loop.antt =====
-- The loop over `next_line` in emu/asm.c.
use linux_0_11_symcc_on_turi.Base.{
  ℕ, zero, suc, ◌≤◌, ◌≡◌, refl, arith, Bool, true, false, not, ◌==◌, if◌then◌else◌, List, [], ◌∷◌,
  length, ap,
}
use linux_0_11_symcc_on_turi.Asm.Scan.{skip_line, scan_line, next_line, take}
use linux_0_11_symcc_on_turi.Asm.Passes.{lines_of, text_lines}

choice-le :
    {A : Type 0} (f : A → List ℕ) (b : Bool) (x y : A) (n : ℕ)
    → length (f x) ≤ n
    → length (f y) ≤ n
    → length (f (if b then x else y)) ≤ n
choice-le f true x y n h k = h
choice-le f false x y n h k = k

skip_line-cons :
    (c : ℕ) (p : List ℕ) → length (skip_line p) ≤ length p → length (skip_line (c ∷ p)) ≤ length p
unfolding skip_line
skip_line-cons c p h = choice-le (λ x. x) (c == b'\n') p (skip_line p) (length p) (omega arith) h

skip_line-le : (p : List ℕ) → length (skip_line p) ≤ length p
skip_line-le [] = unfold skip_line in omega arith
skip_line-le (c ∷ p) = let h = skip_line-cons c p (skip_line-le p) in omega (arith, h)

-- What follows the first character shrinks by it.
scan_line-cons :
    (in_str : Bool) (c : ℕ) (p : List ℕ)
    → ((b : Bool) → length (scan_line b p).1 ≤ length p)
    → length (scan_line in_str (c ∷ p)).1 ≤ length p
unfolding scan_line
scan_line-cons in_str c p h =
    choice-le {A = List ℕ × List ℕ} (λ x. x.1) (c == b'\n') ([], p) _ (length p) (omega arith)
      (choice-le {A = List ℕ × List ℕ} (λ x. x.1) (c == b'\r') (scan_line in_str p) _ (length p)
        (h in_str)
        (choice-le {A = List ℕ × List ℕ} (λ x. x.1) _ ([], skip_line (c ∷ p)) _ (length p)
          (skip_line-cons c p (skip_line-le p)) (h (if c == b'"' then not in_str else in_str))))

scan_line-le : (p : List ℕ) (in_str : Bool) → length (scan_line in_str p).1 ≤ length p
scan_line-le [] in_str = unfold scan_line in omega arith
scan_line-le (c ∷ p) in_str = let h = scan_line-cons in_str c p (scan_line-le p) in omega (arith, h)

lines_of-same :
    (f g : ℕ) (text : List ℕ)
    → length text ≤ f
    → length text ≤ g
    → lines_of f text ≡ lines_of g text
unfolding lines_of next_line
lines_of-same zero zero text h k = refl
lines_of-same zero (suc g) [] h k = refl
lines_of-same zero (suc g) (c ∷ p) h k = absurd (omega (arith, h))
lines_of-same (suc f) zero [] h k = refl
lines_of-same (suc f) zero (c ∷ p) h k = absurd (omega (arith, k))
lines_of-same (suc f) (suc g) [] h k = refl
lines_of-same (suc f) (suc g) (c ∷ p) h k =
    let less = scan_line-cons false c p (scan_line-le p) in
    ap (λ ls. take 4095 (scan_line false (c ∷ p)).0 ∷ ls)
      (lines_of-same f g (scan_line false (c ∷ p)).1 (omega (arith, less, h))
        (omega (arith, less, k)))

-- The loop over the lines ends: with as many calls as the text has characters, or more, it gives the
-- same lines, so that `text_lines` has all of them.
pub lines_of-text_lines :
    (fuel : ℕ) (text : List ℕ) → length text ≤ fuel → lines_of fuel text ≡ text_lines text
unfolding text_lines
lines_of-text_lines fuel text h = lines_of-same fuel (length text) text h (omega arith)
