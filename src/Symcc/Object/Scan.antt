-- ===== src/Symcc/Object/Scan.antt =====
-- What `fprintf` prints of a name and of a number in symcc/src/obj.c, `sscanf` reads there.
use linux_0_11_symcc_on_turi.Base.{
  ℕ, zero, suc, ◌+◌, ◌-◌, ◌*◌, ◌/◌, ◌%◌, ◌^◌, ◌<◌, ◌≤◌, ◌≡◌, refl, ◌∙◌, ap, arith, Bool, true,
  false, ltb, leb, ◌==◌, ◌&&◌, if◌then◌else◌, List, [], ◌∷◌, ◌++◌, length, Option, none, some, All,
}
use mathlib.Core.List.{append_assoc}
use native.Mathlib.Nat.{pow-suc}
use linux_0_11_symcc_on_turi.Base.Int.{ℤ, pos, negsuc}
use linux_0_11_symcc_on_turi.Symcc.Object.Write.{decimal, print_long}
use linux_0_11_symcc_on_turi.Symcc.Object.Read.{
  is_space_char, skip_spaces, word_chars, scan_string, digit_chars, starts_digit, negated,
  scan_long,
}

-- A word without spaces.
abbrev pub Spaceless : List ℕ → Type 0
Spaceless = All (λ c. is_space_char c ≡ false)

word_chars_lem :
    (l s : List ℕ) (width : ℕ)
    → Spaceless l
    → length l ≤ width
    → word_chars width (l ++ (b' ' ∷ s)) ≡ (l, b' ' ∷ s)
unfolding word_chars
word_chars_lem [] s zero h le = refl
word_chars_lem [] s (suc width) h le = refl
word_chars_lem (c ∷ l) s zero h le = absurd (omega (arith, le))
word_chars_lem (c ∷ l) s (suc width) (e, h) le =
    rw e (ap (λ r. (c ∷ r.0, r.1)) (word_chars_lem l s width h (omega (arith, le))))

skip_spaces_lem : (c : ℕ) (s : List ℕ) → is_space_char c ≡ false → skip_spaces (c ∷ s) ≡ c ∷ s
unfolding skip_spaces
skip_spaces_lem c s e = rw e refl

-- A word of at most `width` characters.
pub scan_string_lem :
    (c : ℕ) (l s : List ℕ) (width : ℕ)
    → Spaceless (c ∷ l)
    → length (c ∷ l) ≤ width
    → scan_string width ((c ∷ l) ++ (b' ' ∷ s)) ≡ some (c ∷ l, b' ' ∷ s)
unfolding scan_string
scan_string_lem c l s width (e, h) le =
    ap (λ t. finish_word (word_chars width t)) (skip_spaces_lem c (l ++ (b' ' ∷ s)) e)
    ∙ ap finish_word (word_chars_lem (c ∷ l) s width (e, h) le)
  where
    finish_word : List ℕ × List ℕ → Option (List ℕ × List ℕ)
    finish_word r = elim r.0 as (λ _. Option (List ℕ × List ℕ)) [
      | [] ↦ none
      | d ∷ t ↦ some (d ∷ t, r.1)
    ]

pub scan_string_space :
    (s : List ℕ) (width : ℕ) → scan_string width (b' ' ∷ s) ≡ scan_string width s
unfolding scan_string skip_spaces
scan_string_space s width = refl

pub scan_long_space : (s : List ℕ) → scan_long (b' ' ∷ s) ≡ scan_long s
unfolding scan_long skip_spaces
scan_long_space s = refl

digit_step :
    (n m : ℕ) (s : List ℕ) → m < 10 → digit_chars n ((b'0' + m) ∷ s) ≡ digit_chars (n * 10 + m) s
unfolding digit_chars
digit_step n m s lt =
    let test : (leb b'0' (b'0' + m) && leb (b'0' + m) b'9') ≡ true = ground (arith, lt) in
    let value : b'0' + m - b'0' ≡ m = omega arith in rw (test, value) refl

pub digits_lem :
    (d m : ℕ) (s : List ℕ) → m < 10 ^ d → digit_chars 0 (decimal d m ++ s) ≡ digit_chars m s
unfolding decimal
digits_lem zero m s lt = let e : 0 ≡ m = omega (arith, lt) in ap (λ k. digit_chars k s) e
digits_lem (suc d) m s lt =
    short (ltb m 10) refl
      (digits_lem d (m / 10) ((b'0' + m % 10) ∷ s) (omega (arith, lt, pow-suc 10 d)))
  where
    short :
        (b : Bool)
        → ltb m 10 ≡ b
        → digit_chars 0 (decimal d (m / 10) ++ ((b'0' + m % 10) ∷ s))
          ≡ digit_chars (m / 10) ((b'0' + m % 10) ∷ s)
        → digit_chars 0
            ((if b then (b'0' + m) ∷ [] else decimal d (m / 10) ++ ((b'0' + m % 10) ∷ [])) ++ s)
          ≡ digit_chars m s
    short true e h = digit_step 0 m s (ground (arith, e)) ∙ ap (λ k. digit_chars k s) (omega arith)
    short false e h =
        ap (digit_chars 0) (append_assoc (decimal d (m / 10)) ((b'0' + m % 10) ∷ []) s)
        ∙ (h
            ∙ (digit_step (m / 10) (m % 10) s (omega arith)
                ∙ ap (λ k. digit_chars k s) (omega arith)))

starts_digit_lem : (d m : ℕ) (s : List ℕ) → starts_digit (decimal (suc d) m ++ s) ≡ true
unfolding decimal
starts_digit_lem zero m s = first (ltb m 10) refl
  where
    first :
        (b : Bool)
        → ltb m 10 ≡ b
        → starts_digit ((if b then (b'0' + m) ∷ [] else (b'0' + m % 10) ∷ []) ++ s) ≡ true
    first true e = ground (arith, e)
    first false e = ground arith
starts_digit_lem (suc d) m s =
    first (ltb m 10) refl (starts_digit_lem d (m / 10) ((b'0' + m % 10) ∷ s))
  where
    first :
        (b : Bool)
        → ltb m 10 ≡ b
        → starts_digit (decimal (suc d) (m / 10) ++ ((b'0' + m % 10) ∷ s)) ≡ true
        → starts_digit (
            (if b then (b'0' + m) ∷ [] else decimal (suc d) (m / 10) ++ ((b'0' + m % 10) ∷ []))
            ++ s)
          ≡ true
    first true e h = ground (arith, e)
    first false e h =
        ap starts_digit (append_assoc (decimal (suc d) (m / 10)) ((b'0' + m % 10) ∷ []) s) ∙ h

-- Nothing that is a digit follows a number.
ended : (n : ℕ) (s : List ℕ) → starts_digit s ≡ false → digit_chars n s ≡ (n, s)
unfolding digit_chars
ended n [] e = refl
ended n (c ∷ s) e = rw e refl

-- A text that begins with a digit.
scan_digits :
    (s : List ℕ)
    → starts_digit s ≡ true
    → scan_long s ≡ some (pos (digit_chars 0 s).0, (digit_chars 0 s).1)
unfolding scan_long skip_spaces
scan_digits [] e = absurd (ground (arith, e))
scan_digits (c ∷ s) e =
    let space : is_space_char c ≡ false = ground (arith, e) in
    let minus : (c == b'-') ≡ false = ground (arith, e) in
    let plus : (c == b'+') ≡ false = ground (arith, e) in rw (space, minus, plus, e) refl

scan_minus :
    (s : List ℕ)
    → starts_digit s ≡ true
    → scan_long (b'-' ∷ s) ≡ some (negated (digit_chars 0 s).0, (digit_chars 0 s).1)
unfolding scan_long skip_spaces
scan_minus s e = rw e refl

-- A number that a `long` of 64 bits has.
abbrev pub IsLong : ℤ → Type 0
IsLong (pos n) = n < 10 ^ 20
IsLong (negsuc n) = suc n < 10 ^ 20

pub scan_long_lem :
    (z : ℤ) (s : List ℕ)
    → IsLong z
    → starts_digit s ≡ false
    → scan_long (print_long z ++ s) ≡ some (z, s)
unfolding print_long
scan_long_lem (pos n) s lt e =
    scan_digits (decimal 20 n ++ s) (starts_digit_lem 19 n s)
    ∙ ap (λ r. some (pos r.0, r.1)) (digits_lem 20 n s lt ∙ ended n s e)
scan_long_lem (negsuc n) s lt e =
    scan_minus (decimal 20 (suc n) ++ s) (starts_digit_lem 19 (suc n) s)
    ∙ ap (λ r. some (negated r.0, r.1)) (digits_lem 20 (suc n) s lt ∙ ended (suc n) s e)
