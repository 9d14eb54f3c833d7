-- ===== src/User/Search.antt =====
-- Comparing and searching strings in user/native/string.c. A string is the list of its characters without
-- the final NUL; a pointer into it is what is left of the list, and `none` is NULL.
use linux_0_11_symcc_on_turi.Base.{
  ℕ, zero, suc, ◌<◌, ◌≤◌, ◌≡◌, refl, sym, ◌∙◌, ap, arith, Bool, true, false, ◌==◌, ==_iff,
  if◌then◌else◌, List, [], ◌∷◌, ◌++◌, length, length-append, All, get_or, Option, none, some,
}
use mathlib.Core.Path.{subst}
use linux_0_11_symcc_on_turi.Base.Word.{sub32}

unfoldable pub strncmp : List ℕ → List ℕ → ℕ → ℕ
strncmp a b zero = 0
strncmp [] b (suc n) = sub32 0 (get_or b 0 0)
strncmp (c ∷ a) [] (suc n) = sub32 c 0
strncmp (c ∷ a) (d ∷ b) (suc n) = let rest = strncmp a b n in if c == d then rest else sub32 c d

unfoldable pub strstr : List ℕ → List ℕ → Option (List ℕ)
unfolding strncmp
strstr [] needle = if length needle == 0 then some [] else none
strstr (c ∷ s) needle =
    let rest = strstr s needle in
    if strncmp (c ∷ s) needle (length needle) == 0 then some (c ∷ s) else rest

-- The characters of a string are bytes, and no NUL.
abbrev pub IsChar : ℕ → Type 0
IsChar c = (0 < c) × (c < 256)

-- `s` starts with `needle`.
pub record Starts (s needle : List ℕ) : Type 0 where
  pub rest : List ℕ
  pub split : s ≡ needle ++ rest

unequal : (c d : ℕ) → IsChar c → IsChar d → (c == d) ≡ false → sub32 c d ≡ 0 → ⊥
unequal c d h k e z = ground (arith, h.0, h.1, k.0, k.1, e, z)

strncmp-Starts :
    (s needle : List ℕ)
    → All IsChar s
    → All IsChar needle
    → strncmp s needle (length needle) ≡ 0
    → Starts s needle
unfolding strncmp
strncmp-Starts s [] hs hn z = record { rest = s; split = refl }
strncmp-Starts [] (d ∷ needle) hs (hd, hn) z = absurd (ground (arith, hd.0, hd.1, z))
strncmp-Starts (c ∷ s) (d ∷ needle) (hc, hs) (hd, hn) z =
    of (c == d) refl z (strncmp-Starts s needle hs hn)
  where
    of :
        (b : Bool)
        → (c == d) ≡ b
        → (if b then strncmp s needle (length needle) else sub32 c d) ≡ 0
        → (strncmp s needle (length needle) ≡ 0 → Starts s needle)
        → Starts (c ∷ s) (d ∷ needle)
    of true e q ih =
        let r = ih q in
        record {
          rest = r.rest;
          split = ap (λ x. x ∷ s) ((==_iff c d).0 e) ∙ ap (λ t. d ∷ t) r.split;
        }
    of false e q ih = absurd (unequal c d hc hd e q)

strncmp-append : (needle rest : List ℕ) → strncmp (needle ++ rest) needle (length needle) ≡ 0
unfolding strncmp
strncmp-append [] rest = refl
strncmp-append (d ∷ needle) rest = rw ((==_iff d d).1 refl) (strncmp-append needle rest)

-- Where a search ends: at the first place at which `s` has the needle, or nowhere.
abbrev pub First : List ℕ → List ℕ → Option (List ℕ) → Type 0
First s needle none = (before rest : List ℕ) → s ≡ before ++ (needle ++ rest) → ⊥
First s needle (some t) =
    Starts t needle
    × ((before : List ℕ) × (s ≡ before ++ t))
    × ((before rest : List ℕ) → s ≡ before ++ (needle ++ rest) → length (needle ++ rest) ≤ length t)

suffix-le : (s before t : List ℕ) → s ≡ before ++ t → length t ≤ length s
suffix-le s before t e =
    let a = length-append before t in let b = ap length e in omega (arith, a, b)

tail : List ℕ → List ℕ
tail [] = []
tail (c ∷ s) = s

-- No place at the first character: the places are those behind it.
First-cons :
    (c : ℕ) (s needle : List ℕ) (o : Option (List ℕ))
    → ((rest : List ℕ) → c ∷ s ≡ needle ++ rest → ⊥)
    → First s needle o
    → First (c ∷ s) needle o
First-cons c s needle none away h = behind
  where
    behind : (before rest : List ℕ) → c ∷ s ≡ before ++ (needle ++ rest) → ⊥
    behind [] rest e = away rest e
    behind (b ∷ before) rest e = h before rest (unfold tail in ap tail e)
First-cons c s needle (some t) away (starts, (before, split), longest) =
    (starts, (c ∷ before, ap (λ x. c ∷ x) split), behind)
  where
    behind :
        (before rest : List ℕ)
        → c ∷ s ≡ before ++ (needle ++ rest)
        → length (needle ++ rest) ≤ length t
    behind [] rest e = absurd (away rest e)
    behind (b ∷ before) rest e = longest before rest (unfold tail in ap tail e)

-- `strstr` finds the first place of the needle, and NULL only if there is none.
pub strstr-First :
    (s needle : List ℕ) → All IsChar s → All IsChar needle → First s needle (strstr s needle)
unfolding strstr
strstr-First [] [] hs hn =
    (record { rest = []; split = refl }, ([], refl), λ before rest e. suffix-le [] before rest e)
strstr-First [] (d ∷ needle) hs hn = of (length (d ∷ needle) == 0) (ground arith)
  where
    of : (b : Bool) → b ≡ false → First [] (d ∷ needle) (if b then some [] else none)
    of true e = absurd (ground (arith, e))
    of false e = λ before rest q.
        let le = suffix-le [] before (d ∷ (needle ++ rest)) q in absurd (omega (arith, le))
strstr-First (c ∷ s) needle (hc, hs) hn =
    of (strncmp (c ∷ s) needle (length needle) == 0) refl (strstr-First s needle hs hn)
  where
    of :
        (b : Bool)
        → (strncmp (c ∷ s) needle (length needle) == 0) ≡ b
        → First s needle (strstr s needle)
        → First (c ∷ s) needle (if b then some (c ∷ s) else strstr s needle)
    of true e ih = (
      strncmp-Starts (c ∷ s) needle (hc, hs) hn
          ((==_iff (strncmp (c ∷ s) needle (length needle)) 0).0 e),
      ([], refl),
      λ before rest q. suffix-le (c ∷ s) before (needle ++ rest) q,
    )
    of false e ih =
        First-cons c s needle (strstr s needle)
          (λ rest q.
            let zero_there =
              subst (λ x. strncmp x needle (length needle) ≡ 0) (sym q)
                (strncmp-append needle rest) in
            absurd (ground (arith, e, zero_there)))
          ih
