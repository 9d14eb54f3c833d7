-- ===== src/User/Shell/Storage.antt =====
-- The room in the storage of the words behind a word: user/lib/shell_parse.c.
use linux_0_11_symcc_on_turi.Base.{
  ℕ, ◌+◌, ◌<◌, ◌≡◌, refl, arith, Bool, true, false, ◌||◌, leb, ◌==◌, if◌then◌else◌, List, [], ◌∷◌,
  length, Option, none, some,
}
use linux_0_11_symcc_on_turi.User.Shell.Words.{
  scan_word, scan_token, Scanned, Mode, action, Action, stop, refuse, skip, keep, plain, quoted,
  escaped, cons_text, Kind, word, less, here, greater, twice, and, or, behind_twin, sign,
}

module _ (capacity : ℕ) where
  -- The part of a word, with `used` characters before it, leaves room for a NUL.
  abbrev Within : ℕ → Option Scanned → Type 0
  Within used none = Unit
  Within used (some r) = (r.used ≡ used + length r.text) × (r.used < capacity)

  cons_text-Within :
      (c used : ℕ) (r : Option Scanned) → Within (used + 1) r → Within used (cons_text c r)
  cons_text-Within c used none h = tt
  cons_text-Within c used (some r) h = (omega (arith, h.0), h.1)

  scan_word-Within :
      (p : List ℕ) (mode : Mode) (used : ℕ)
      → used < capacity
      → Within used (scan_word capacity mode used p)
  unfolding scan_word
  scan_word-Within [] plain used room = (omega arith, room)
  scan_word-Within [] (quoted q) used room = tt
  scan_word-Within [] escaped used room = tt
  scan_word-Within (c ∷ p) mode used room =
      of (action mode c) (λ next. scan_word-Within p next used room)
        (λ next more. scan_word-Within p next (used + 1) more)
    where
      kept :
          (b : Bool) (r : Option Scanned)
          → leb capacity (used + 1) ≡ b
          → (used + 1 < capacity → Within (used + 1) r)
          → Within used (if b then none else cons_text c r)
      kept true r e h = tt
      kept false r e h = cons_text-Within c used r (h (ground arith))

      of :
          (a : Action)
          → ((next : Mode) → Within used (scan_word capacity next used p))
          → ((next : Mode)
              → used + 1 < capacity
              → Within (used + 1) (scan_word capacity next (used + 1) p))
          → Within used (elim a as (λ _. Option Scanned) [
            | stop ↦ some (record { text = []; used = used; rest = c ∷ p })
            | refuse ↦ none
            | skip next ↦ scan_word capacity next used p
            | keep next ↦
                if leb capacity (used + 1)
                then none
                else cons_text c (scan_word capacity next (used + 1) p)
          ])
      of stop h k = (omega arith, room)
      of refuse h k = tt
      of (skip next) h k = h next
      of (keep next) h k =
          kept (leb capacity (used + 1)) (scan_word capacity next (used + 1) p) refl (k next)

  abbrev pub Token : ℕ → Option (Kind × Scanned) → Type 0
  Token used none = Unit
  Token used (some (kind, r)) = (r.used ≡ used + length r.text) × (r.used < capacity)

  pub scan_token-Token :
      (c used : ℕ) (p : List ℕ) → used < capacity → Token used (scan_token capacity c used p)
  unfolding scan_token
  scan_token-Token c used p room =
      choice ((c == b'<') || (c == b'>')) _ _ (twins (behind_twin capacity c p)) (
        choice ((c == b'&') || (c == b'|')) _ _ (pairs (behind_twin capacity c p)) (
          choice (c == b';') _ _ (omega arith, room)
            (words (scan_word capacity plain used (c ∷ p))
              (scan_word-Within (c ∷ p) plain used room))))
    where
      choice :
          (b : Bool) (r t : Option (Kind × Scanned))
          → Token used r
          → Token used t
          → Token used (if b then r else t)
      choice true r t h k = h
      choice false r t h k = k

      twins :
          (q : Option (List ℕ))
          → Token used (elim q as (λ _. Option (Kind × Scanned)) [
            | some q ↦ sign capacity (if c == b'<' then here else twice) used q
            | none ↦ sign capacity (if c == b'<' then less else greater) used p
          ])
      twins none = (omega arith, room)
      twins (some q) = (omega arith, room)

      pairs :
          (q : Option (List ℕ))
          → Token used (elim q as (λ _. Option (Kind × Scanned)) [
            | some q ↦ sign capacity (if c == b'&' then and else or) used q
            | none ↦ none
          ])
      pairs none = tt
      pairs (some q) = (omega arith, room)

      words :
          (r : Option Scanned)
          → Within used r
          → Token used
              (elim r as (λ _. Option (Kind × Scanned)) [ none ↦ none | some r ↦ some (word, r) ])
      words none h = tt
      words (some r) h = h
