-- ===== src/User/Shell/Words.antt =====
-- The words of a command line: the first loop of `sh_parse` in user/lib/shell_parse.c. A string is the list of
-- its characters without the final NUL, and a word of the storage is such a list too.
use linux_0_11_symcc_on_turi.Base.{
  ℕ, zero, suc, ◌+◌, Bool, ◌||◌, leb, ◌==◌, if◌then◌else◌, List, [], ◌∷◌, Option, none, some,
}

-- The kinds of words, 0 to 7.
pub data Kind : Type 0 where
  word : Kind
  less here greater twice : Kind
  and or semicolon : Kind

pub record Word : Type 0 where
  pub kind : Kind
  pub text : List ℕ

abbrev pub is_gap : ℕ → Bool
is_gap c = (c == b' ') || ((c == b'\t') || ((c == b'\n') || (c == b'\r')))

abbrev pub is_operator : ℕ → Bool
is_operator c = (c == b'<') || ((c == b'>') || ((c == b'&') || ((c == b'|') || (c == b';'))))

-- Where the loop over the characters of a word is: outside of quotes, inside, or behind a backslash.
pub data Mode : Type 0 where
  plain : Mode
  quoted : ℕ → Mode
  escaped : Mode

-- What it does with a character.
pub data Action : Type 0 where
  stop refuse : Action
  skip keep : Mode → Action

unfoldable pub action : Mode → ℕ → Action
action plain c =
    if is_gap c || is_operator c
    then stop
    else if (c == b'\'') || (c == b'"')
    then skip (quoted c)
    else if c == b'\\'
    then skip escaped
    else keep plain
action (quoted q) c = if c == q then skip plain else keep (quoted q)
action escaped c = if c == b'\n' then refuse else keep plain

-- What `p` leaves of a word: its characters, how much of the storage is used then, and the rest of the line.
pub record Scanned : Type 0 where
  pub text : List ℕ
  pub used : ℕ
  pub rest : List ℕ

abbrev pub cons_text : ℕ → Option Scanned → Option Scanned
cons_text c none = none
cons_text c (some r) = some (record r { text = c ∷ r.text })

module _ (capacity : ℕ) where
  unfoldable pub scan_word : Mode → ℕ → List ℕ → Option Scanned
  unfolding action
  scan_word plain used [] = some (record { text = []; used = used; rest = [] })
  scan_word (quoted q) used [] = none
  scan_word escaped used [] = none
  scan_word mode used (c ∷ p) = elim (action mode c) [
    | stop ↦ some (record { text = []; used = used; rest = c ∷ p })
    | refuse ↦ none
    | skip next ↦ scan_word next used p
    | keep next ↦
        if leb capacity (used + 1) then none else cons_text c (scan_word next (used + 1) p)
  ]

  -- What is behind a second `c`.
  abbrev pub behind_twin : ℕ → List ℕ → Option (List ℕ)
  behind_twin c [] = none
  behind_twin c (d ∷ p) = if d == c then some p else none

  abbrev pub sign : Kind → ℕ → List ℕ → Option (Kind × Scanned)
  sign kind used p = some (kind, record { text = []; used = used; rest = p })

  -- `<`, `<<`, `>` and `>>`; `&&` and `||`; `;`; or a word.
  unfoldable pub scan_token : ℕ → ℕ → List ℕ → Option (Kind × Scanned)
  unfolding scan_word
  scan_token c used p =
      if (c == b'<') || (c == b'>')
      then elim (behind_twin c p) [
        | some q ↦ sign (if c == b'<' then here else twice) used q
        | none ↦ sign (if c == b'<' then less else greater) used p
      ]
      else if (c == b'&') || (c == b'|')
      then elim (behind_twin c p) [
        | some q ↦ sign (if c == b'&' then and else or) used q
        | none ↦ none
      ]
      else if c == b';'
      then sign semicolon used p
      else elim (scan_word plain used (c ∷ p)) [ none ↦ none | some r ↦ some (word, r) ]

  unfoldable pub skip_gaps : List ℕ → List ℕ
  skip_gaps [] = []
  skip_gaps (c ∷ p) = let rest = skip_gaps p in if is_gap c then rest else c ∷ p

  abbrev pub cons_word : Word → Option (List Word) → Option (List Word)
  cons_word w none = none
  cons_word w (some ws) = some (w ∷ ws)

  -- The words of the line, with `n` words and `used` characters so far, for at most `fuel` words.
  unfoldable pub scan_words : ℕ → ℕ → ℕ → List ℕ → Option (List Word)
  unfolding scan_token skip_gaps
  scan_words zero n used p = some []
  scan_words (suc fuel) n used p = elim (skip_gaps p) [
    | [] ↦ some []
    | c ∷ q ↦ if (n == 64) || leb capacity used then none else elim (scan_token c used q) [
      | none ↦ none
      | some (kind, r) ↦
          cons_word (record { kind = kind; text = r.text })
            (scan_words fuel (n + 1) (r.used + 1) r.rest)
    ]
  ]
