-- ===== src/User/Shell/Stores.antt =====
-- The stores of user/lib/shell_parse.c into the storage of the words, of lines that it takes and of lines
-- that it refuses.
use linux_0_11_symcc_on_turi.Base.{
  ℕ, zero, suc, ◌+◌, ◌||◌, leb, ◌==◌, if◌then◌else◌, List, [], ◌∷◌, ◌++◌, none, some,
}
use linux_0_11_symcc_on_turi.User.Shell.Words.{
  scan_token, skip_gaps, Mode, action, stop, refuse, skip, keep, plain,
}

-- A store is the index and the character.
abbrev pub Store : Type 0
Store = ℕ × ℕ

module _ (capacity : ℕ) where
  -- `storage[used++]=*p++` in the loop over a word.
  unfoldable pub word_stores : Mode → ℕ → List ℕ → List Store
  word_stores mode used [] = []
  word_stores mode used (c ∷ p) = elim (action mode c) [
    | stop ↦ []
    | refuse ↦ []
    | skip next ↦ word_stores next used p
    | keep next ↦ if leb capacity (used + 1) then [] else (used, c) ∷ word_stores next (used + 1) p
  ]

  -- The operators store nothing here.
  unfoldable pub token_stores : ℕ → ℕ → List ℕ → List Store
  unfolding word_stores
  token_stores c used p =
      if (c == b'<') || (c == b'>')
      then []
      else if (c == b'&') || (c == b'|')
      then []
      else if c == b';'
      then []
      else word_stores plain used (c ∷ p)

  -- `storage[used++]=0` behind each word and operator.
  unfoldable pub line_stores : ℕ → ℕ → ℕ → List ℕ → List Store
  unfolding token_stores
  line_stores zero n used p = []
  line_stores (suc fuel) n used p = elim (skip_gaps capacity p) [
    | [] ↦ []
    | c ∷ q ↦
        if (n == 64) || leb capacity used
        then []
        else (token_stores c used q ++ elim (scan_token capacity c used q) [
          | none ↦ []
          | some (kind, r) ↦ (r.used, 0) ∷ line_stores fuel (n + 1) (r.used + 1) r.rest
        ])
  ]
