-- ===== src/User/Shell/Left.antt =====
-- What a word leaves of a command line in user/lib/shell_parse.c: less than there was.
use linux_0_11_symcc_on_turi.Base.{
  ℕ, suc, ◌+◌, ◌≤◌, ◌≡◌, refl, arith, Bool, true, false, ◌||◌, leb, ◌==◌, if◌then◌else◌, List, [],
  ◌∷◌, length, Option, none, some,
}
use linux_0_11_symcc_on_turi.User.Shell.Words.{
  scan_word, scan_token, skip_gaps, Scanned, Mode, action, Action, stop, refuse, skip, keep, plain,
  quoted, escaped, cons_text, Kind, word, less, here, greater, twice, and, or, behind_twin, sign,
  is_gap, is_operator,
}

module _ (capacity : ℕ) where
  -- At most `n` characters are left.
  abbrev Left : ℕ → Option Scanned → Type 0
  Left n none = Unit
  Left n (some r) = length r.rest ≤ n

  cons_text-Left : (c n : ℕ) (r : Option Scanned) → Left n r → Left n (cons_text c r)
  cons_text-Left c n none h = tt
  cons_text-Left c n (some r) h = h

  one_more : (n : ℕ) (r : Option Scanned) → Left n r → Left (suc n) r
  one_more n none h = tt
  one_more n (some r) h = omega (arith, h)

  -- A character that does not end the word is taken.
  abbrev Takes : Action → Type 0
  Takes stop = ⊥
  Takes _ = Unit

  acted :
      (a : Action) (c used : ℕ) (p : List ℕ) (n : ℕ)
      → ((a ≡ stop) → length (c ∷ p) ≤ n)
      → ((next : Mode) (u : ℕ) → Left n (scan_word capacity next u p))
      → Left n (elim a as (λ _. Option Scanned) [
        | stop ↦ some (record { text = []; used = used; rest = c ∷ p })
        | refuse ↦ none
        | skip next ↦ scan_word capacity next used p
        | keep next ↦
            if leb capacity (used + 1)
            then none
            else cons_text c (scan_word capacity next (used + 1) p)
      ])
  acted stop c used p n h k = h refl
  acted refuse c used p n h k = tt
  acted (skip next) c used p n h k = k next used
  acted (keep next) c used p n h k = kept (leb capacity (used + 1))
    where
      kept :
          (b : Bool)
          → Left n (if b then none else cons_text c (scan_word capacity next (used + 1) p))
      kept true = tt
      kept false = cons_text-Left c n _ (k next (used + 1))

  scan_word-Left :
      (p : List ℕ) (mode : Mode) (used : ℕ) → Left (length p) (scan_word capacity mode used p)
  unfolding scan_word
  scan_word-Left [] plain used = omega arith
  scan_word-Left [] (quoted q) used = tt
  scan_word-Left [] escaped used = tt
  scan_word-Left (c ∷ p) mode used =
      acted (action mode c) c used p (suc (length p)) (λ e. omega arith)
        (λ next u. one_more (length p) _ (scan_word-Left p next u))

  scan_word-cons :
      (c used : ℕ) (p : List ℕ)
      → (is_gap c || is_operator c) ≡ false
      → Left (length p) (scan_word capacity plain used (c ∷ p))
  unfolding scan_word action
  scan_word-cons c used p e =
      acted (action plain c) c used p (length p)
        (λ s.
          absurd (taken (is_gap c || is_operator c) ((c == b'\'') || (c == b'"')) (c == b'\\') e s))
        (λ next u. scan_word-Left p next u)
    where
      taken :
          (b d f : Bool)
          → b ≡ false
          → (if b
              then stop
              else if d
              then skip (quoted c)
              else if f
              then skip escaped
              else keep plain)
            ≡ stop
          → ⊥
      taken true d f e s = absurd (ground arith)
      taken false true f e s = cc
      taken false false true e s = cc
      taken false false false e s = cc

  abbrev pub LeftToken : ℕ → Option (Kind × Scanned) → Type 0
  LeftToken n none = Unit
  LeftToken n (some (kind, r)) = length r.rest ≤ n

  abbrev Behind : ℕ → Option (List ℕ) → Type 0
  Behind n none = Unit
  Behind n (some q) = length q ≤ n

  behind_twin-Behind : (c : ℕ) (p : List ℕ) → Behind (length p) (behind_twin capacity c p)
  behind_twin-Behind c [] = tt
  behind_twin-Behind c (d ∷ p) = found (d == c)
    where
      found : (b : Bool) → Behind (suc (length p)) (if b then some p else none)
      found true = omega arith
      found false = tt

  pub scan_token-LeftToken :
      (c used : ℕ) (p : List ℕ)
      → is_gap c ≡ false
      → LeftToken (length p) (scan_token capacity c used p)
  unfolding scan_token
  scan_token-LeftToken c used p gap =
      test ((c == b'<') || (c == b'>')) _ _
        (λ e. twins (behind_twin capacity c p) (behind_twin-Behind c p))
        (λ e.
          test ((c == b'&') || (c == b'|')) _ _
            (λ f. pairs (behind_twin capacity c p) (behind_twin-Behind c p))
            (λ f.
              test (c == b';') _ _ (λ g. omega arith)
                (λ g. words (scan_word capacity plain used (c ∷ p)) (
                  scan_word-cons c used p (
                    in_word (is_gap c) (c == b'<') (c == b'>') (c == b'&') (c == b'|') (c == b';')
                      gap e f g)))))
    where
      in_word :
          (s a b d g h : Bool)
          → s ≡ false
          → (a || b) ≡ false
          → (d || g) ≡ false
          → h ≡ false
          → (s || (a || (b || (d || (g || h))))) ≡ false
      in_word s a b d g h x y z w = ground arith

      test :
          (b : Bool) (r t : Option (Kind × Scanned))
          → (b ≡ true → LeftToken (length p) r)
          → (b ≡ false → LeftToken (length p) t)
          → LeftToken (length p) (if b then r else t)
      test true r t h k = h refl
      test false r t h k = k refl

      twins :
          (q : Option (List ℕ))
          → Behind (length p) q
          → LeftToken (length p) (elim q as (λ _. Option (Kind × Scanned)) [
            | some q ↦ sign capacity (if c == b'<' then here else twice) used q
            | none ↦ sign capacity (if c == b'<' then less else greater) used p
          ])
      twins none h = omega arith
      twins (some q) h = h

      pairs :
          (q : Option (List ℕ))
          → Behind (length p) q
          → LeftToken (length p) (elim q as (λ _. Option (Kind × Scanned)) [
            | some q ↦ sign capacity (if c == b'&' then and else or) used q
            | none ↦ none
          ])
      pairs none h = tt
      pairs (some q) h = h

      words :
          (r : Option Scanned)
          → Left (length p) r
          → LeftToken
              (length p)
              (elim r as (λ _. Option (Kind × Scanned)) [ none ↦ none | some r ↦ some (word, r) ])
      words none h = tt
      words (some r) h = h

  -- What is behind the gaps starts with no gap.
  abbrev pub Trimmed : ℕ → List ℕ → Type 0
  Trimmed n [] = Unit
  Trimmed n (c ∷ q) = (is_gap c ≡ false) × (suc (length q) ≤ n)

  pub skip_gaps-Trimmed : (p : List ℕ) → Trimmed (length p) (skip_gaps capacity p)
  unfolding skip_gaps
  skip_gaps-Trimmed [] = tt
  skip_gaps-Trimmed (c ∷ p) = of (is_gap c) refl (skip_gaps capacity p) (skip_gaps-Trimmed p)
    where
      of :
          (b : Bool)
          → is_gap c ≡ b
          → (rest : List ℕ) → Trimmed (length p) rest
          → Trimmed (suc (length p)) (if b then rest else c ∷ p)
      of true e [] h = tt
      of true e (d ∷ q) h = (h.0, omega (arith, h.1))
      of false e rest h = (e, omega arith)
