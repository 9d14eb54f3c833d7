-- ===== src/User/Shell/Loop.antt =====
-- The loop over the words of a command line in user/lib/shell_parse.c ends.
use linux_0_11_symcc_on_turi.Base.{
  ℕ, zero, suc, ◌+◌, ◌≤◌, ◌≡◌, refl, sym, ◌∙◌, ap, arith, ◌||◌, leb, ◌==◌, if◌then◌else◌, List, [],
  ◌∷◌, length, Option, none, some,
}
use linux_0_11_symcc_on_turi.User.Shell.Words.{
  Word, scan_token, skip_gaps, scan_words, Scanned, cons_word, Kind,
}
use linux_0_11_symcc_on_turi.User.Shell.Left.{
  LeftToken, scan_token-LeftToken, Trimmed, skip_gaps-Trimmed,
}

module _ (capacity : ℕ) where
  abbrev scan_rest : ℕ → ℕ → Option (Kind × Scanned) → Option (List Word)
  scan_rest fuel n none = none
  scan_rest fuel n (some (kind, r)) =
      cons_word capacity (record { kind = kind; text = r.text })
        (scan_words capacity fuel (n + 1) (r.used + 1) r.rest)

  abbrev scan_line : ℕ → ℕ → ℕ → List ℕ → Option (List Word)
  scan_line fuel n used [] = some []
  scan_line fuel n used (c ∷ q) =
      if (n == 64) || leb capacity used
      then none
      else scan_rest fuel n (scan_token capacity c used q)

  scan_words-line :
      (fuel n used : ℕ) (p : List ℕ)
      → scan_words capacity (suc fuel) n used p ≡ scan_line fuel n used (skip_gaps capacity p)
  unfolding scan_words
  scan_words-line fuel n used p = of (skip_gaps capacity p)
    where
      token :
          (r : Option (Kind × Scanned))
          → (elim r as (λ _. Option (List Word)) [
            | none ↦ none
            | some (kind, r) ↦
                cons_word capacity
                  (record { kind = kind; text = r.text })
                  (scan_words capacity fuel (n + 1) (r.used + 1) r.rest)
          ])
            ≡ scan_rest fuel n r
      token none = refl
      token (some (kind, r)) = refl

      of :
          (l : List ℕ)
          → (elim l as (λ _. Option (List Word)) [
            | [] ↦ some []
            | c ∷ q ↦
                if (n == 64) || leb capacity used
                then none
                else elim (scan_token capacity c used q) as (λ _. Option (List Word)) [
                  | none ↦ none
                  | some (kind, r) ↦
                      cons_word capacity
                        (record { kind = kind; text = r.text })
                        (scan_words capacity fuel (n + 1) (r.used + 1) r.rest)
                ]
          ])
            ≡ scan_line fuel n used l
      of [] = refl
      of (c ∷ q) =
          ap (λ r. if (n == 64) || leb capacity used then none else r)
            (token (scan_token capacity c used q))

  -- The loop ends: with as many turns as the line has characters, or more, the words are the same, so that
  -- no word of a line is lost.
  pub scan_words-same :
      (f g n used : ℕ) (p : List ℕ)
      → length p ≤ f
      → length p ≤ g
      → scan_words capacity f n used p ≡ scan_words capacity g n used p
  scan_words-same zero zero n used p h k = refl
  scan_words-same zero (suc g) n used [] h k = unfold scan_words skip_gaps in refl
  scan_words-same zero (suc g) n used (c ∷ p) h k = absurd (omega (arith, h))
  scan_words-same (suc f) zero n used [] h k = unfold scan_words skip_gaps in refl
  scan_words-same (suc f) zero n used (c ∷ p) h k = absurd (omega (arith, k))
  scan_words-same (suc f) (suc g) n used p h k =
      scan_words-line f n used p
      ∙ (lines (skip_gaps capacity p) (skip_gaps-Trimmed capacity p) (λ m u rest le lf lg.
            scan_words-same f g m u rest (omega (arith, lf)) (omega (arith, lg)))
          ∙ sym (scan_words-line g n used p))
    where
      tokens :
          (r : Option (Kind × Scanned)) (q : ℕ)
          → LeftToken capacity q r
          → ((m u : ℕ) (rest : List ℕ)
              → length rest ≤ q
              → scan_words capacity f m u rest ≡ scan_words capacity g m u rest)
          → scan_rest f n r ≡ scan_rest g n r
      tokens none q l ih = refl
      tokens (some (kind, r)) q l ih =
          ap (cons_word capacity (record { kind = kind; text = r.text }))
            (ih (n + 1) (r.used + 1) r.rest l)

      lines :
          (l : List ℕ)
          → Trimmed capacity (length p) l
          → ((m u : ℕ) (rest : List ℕ)
              → suc (length rest) ≤ length p
              → length rest ≤ f
              → length rest ≤ g
              → scan_words capacity f m u rest ≡ scan_words capacity g m u rest)
          → scan_line f n used l ≡ scan_line g n used l
      lines [] t ih = refl
      lines (c ∷ q) t ih =
          ap (λ r. if (n == 64) || leb capacity used then none else r)
            (tokens (scan_token capacity c used q) (length q)
              (scan_token-LeftToken capacity c used q t.0)
              (λ m u rest le.
                ih m u rest (omega (arith, le, t.1)) (omega (arith, le, t.1, h))
                  (omega (arith, le, t.1, k))))
