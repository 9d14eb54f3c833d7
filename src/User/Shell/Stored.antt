-- ===== src/User/Shell/Stored.antt =====
-- What a command line stores in user/lib/shell_parse.c, taken or refused.
use linux_0_11_symcc_on_turi.Base.{
  ℕ, zero, suc, ◌+◌, ◌<◌, ◌≤◌, ◌≡◌, refl, ap, arith, Bool, true, false, ◌||◌, leb, ◌==◌,
  if◌then◌else◌, List, [], ◌∷◌, ◌++◌, All, length, Option, none, some,
}
use linux_0_11_symcc_on_turi.User.Shell.Words.{
  Word, scan_word, scan_token, skip_gaps, scan_words, Scanned, Mode, action, Action, stop, refuse,
  skip, keep, plain, quoted, escaped, cons_text, cons_word, Kind, word, less, here, greater, twice,
  and, or, behind_twin, sign,
}
use linux_0_11_symcc_on_turi.User.Shell.Storage.{scan_token-Token, Token}
use linux_0_11_symcc_on_turi.User.Shell.Stores.{Store, word_stores, token_stores, line_stores}

-- Characters one behind the other.
abbrev pub chars : ℕ → List ℕ → List Store
chars used [] = []
chars used (c ∷ s) = (used, c) ∷ chars (used + 1) s

-- The texts of the words one behind the other, each with its NUL.
abbrev pub texts : ℕ → List Word → List Store
texts used [] = []
texts used (w ∷ ws) =
    chars used w.text ++ ((used + length w.text, 0) ∷ texts (used + length w.text + 1) ws)

abbrev pub Inside : ℕ → Store → Type 0
Inside capacity s = s.0 < capacity

All-append : (P : Store → Type 0) (l m : List Store) → All P l → All P m → All P (l ++ m)
All-append P [] m h k = k
All-append P (s ∷ l) m (h, hs) k = (h, All-append P l m hs k)

module _ (capacity : ℕ) where
  -- The stores `l` of a scan are inside, and are its text if it succeeds.
  abbrev Wrote : ℕ → Option Scanned → List Store → Type 0
  Wrote used none l = All (Inside capacity) l
  Wrote used (some r) l = All (Inside capacity) l × (l ≡ chars used r.text)

  cons_text-Wrote :
      (c used : ℕ) (r : Option Scanned) (l : List Store)
      → used + 1 < capacity
      → Wrote (used + 1) r l
      → Wrote used (cons_text c r) ((used, c) ∷ l)
  cons_text-Wrote c used none l room h = (omega (arith, room), h)
  cons_text-Wrote c used (some r) l room (h, e) =
      ((omega (arith, room), h), ap (λ m. (used, c) ∷ m) e)

  scan_word-Wrote :
      (p : List ℕ) (mode : Mode) (used : ℕ)
      → Wrote used (scan_word capacity mode used p) (word_stores capacity mode used p)
  unfolding scan_word word_stores
  scan_word-Wrote [] plain used = (tt, refl)
  scan_word-Wrote [] (quoted q) used = tt
  scan_word-Wrote [] escaped used = tt
  scan_word-Wrote (c ∷ p) mode used = of (action mode c) (λ next u. scan_word-Wrote p next u)
    where
      kept :
          (b : Bool) (next : Mode)
          → leb capacity (used + 1) ≡ b
          → Wrote
              (used + 1)
              (scan_word capacity next (used + 1) p)
              (word_stores capacity next (used + 1) p)
          → Wrote used
              (if b then none else cons_text c (scan_word capacity next (used + 1) p))
              (if b then [] else (used, c) ∷ word_stores capacity next (used + 1) p)
      kept true next e h = tt
      kept false next e h = cons_text-Wrote c used _ _ (ground (arith, e)) h

      of :
          (a : Action)
          → ((next : Mode) (u : ℕ)
              → Wrote u (scan_word capacity next u p) (word_stores capacity next u p))
          → Wrote used
              (elim a as (λ _. Option Scanned) [
                | stop ↦ some (record { text = []; used = used; rest = c ∷ p })
                | refuse ↦ none
                | skip next ↦ scan_word capacity next used p
                | keep next ↦
                    if leb capacity (used + 1)
                    then none
                    else cons_text c (scan_word capacity next (used + 1) p)
              ])
              (elim a as (λ _. List Store) [
                | stop ↦ []
                | refuse ↦ []
                | skip next ↦ word_stores capacity next used p
                | keep next ↦
                    if leb capacity (used + 1)
                    then []
                    else (used, c) ∷ word_stores capacity next (used + 1) p
              ])
      of stop h = (tt, refl)
      of refuse h = tt
      of (skip next) h = h next used
      of (keep next) h = kept (leb capacity (used + 1)) next refl (h next (used + 1))

  abbrev TokenWrote : ℕ → Option (Kind × Scanned) → List Store → Type 0
  TokenWrote used none l = All (Inside capacity) l
  TokenWrote used (some (kind, r)) l = All (Inside capacity) l × (l ≡ chars used r.text)

  scan_token-Wrote :
      (c used : ℕ) (p : List ℕ)
      → TokenWrote used (scan_token capacity c used p) (token_stores capacity c used p)
  unfolding scan_token token_stores
  scan_token-Wrote c used p =
      choice ((c == b'<') || (c == b'>')) _ _ _ _ (twins (behind_twin capacity c p)) (
        choice ((c == b'&') || (c == b'|')) _ _ _ _ (pairs (behind_twin capacity c p)) (
          choice (c == b';') _ _ _ _ (tt, refl)
            (words (scan_word capacity plain used (c ∷ p)) _ (scan_word-Wrote (c ∷ p) plain used))))
    where
      choice :
          (b : Bool) (r t : Option (Kind × Scanned)) (l m : List Store)
          → TokenWrote used r l
          → TokenWrote used t m
          → TokenWrote used (if b then r else t) (if b then l else m)
      choice true r t l m h k = h
      choice false r t l m h k = k

      twins :
          (q : Option (List ℕ))
          → TokenWrote used
              (elim q as (λ _. Option (Kind × Scanned)) [
                | some q ↦ sign capacity (if c == b'<' then here else twice) used q
                | none ↦ sign capacity (if c == b'<' then less else greater) used p
              ])
              []
      twins none = (tt, refl)
      twins (some q) = (tt, refl)

      pairs :
          (q : Option (List ℕ))
          → TokenWrote used
              (elim q as (λ _. Option (Kind × Scanned)) [
                | some q ↦ sign capacity (if c == b'&' then and else or) used q
                | none ↦ none
              ])
              []
      pairs none = tt
      pairs (some q) = (tt, refl)

      words :
          (r : Option Scanned) (l : List Store)
          → Wrote used r l
          → TokenWrote used
              (elim r as (λ _. Option (Kind × Scanned)) [ none ↦ none | some r ↦ some (word, r) ])
              l
      words none l h = h
      words (some r) l h = h

  -- What a line has stored: inside, and if it is taken, its at most 64 words.
  abbrev pub Stored : ℕ → ℕ → Option (List Word) → List Store → Type 0
  Stored n used none l = All (Inside capacity) l
  Stored n used (some ws) l = All (Inside capacity) l × (n + length ws ≤ 64) × (l ≡ texts used ws)

  cons_word-Stored :
      (n used : ℕ) (w : Word) (front l : List Store) (u : ℕ) (r : Option (List Word))
      → u ≡ used + length w.text
      → u < capacity
      → All (Inside capacity) front
      → front ≡ chars used w.text
      → Stored (n + 1) (u + 1) r l
      → Stored n used (cons_word capacity w r) (front ++ ((u, 0) ∷ l))
  cons_word-Stored n used w front l u none e room f g h =
      All-append (Inside capacity) front ((u, 0) ∷ l) f (room, h)
  cons_word-Stored n used w front l u (some ws) e room f g (h, few, same) = (
    All-append (Inside capacity) front ((u, 0) ∷ l) f (room, h),
    omega (arith, few),
    rw (g, same, e) refl,
  )

  -- What scanning a line stores, whether the line is taken or refused, is inside the storage. If it is
  -- taken, there are at most 64 words in all, and the stores are their characters and a NUL behind each, one
  -- behind the other.
  pub scan_words-Stored :
      (fuel n used : ℕ) (p : List ℕ)
      → n ≤ 64
      → Stored n used (scan_words capacity fuel n used p) (line_stores capacity fuel n used p)
  unfolding scan_words line_stores
  scan_words-Stored zero n used p few = (tt, omega (arith, few), refl)
  scan_words-Stored (suc fuel) n used p few =
      line (skip_gaps capacity p) (λ m u rest k. scan_words-Stored fuel m u rest k)
    where
      Later : Type 0
      Later =
          (m u : ℕ) (rest : List ℕ)
          → m ≤ 64
          → Stored m u (scan_words capacity fuel m u rest) (line_stores capacity fuel m u rest)

      token :
          (r : Option (Kind × Scanned)) (front : List Store)
          → Token capacity used r
          → TokenWrote used r front
          → (n == 64) ≡ false
          → Later
          → Stored n used
              (elim r as (λ _. Option (List Word)) [
                | none ↦ none
                | some (kind, r) ↦
                    cons_word capacity
                      (record { kind = kind; text = r.text })
                      (scan_words capacity fuel (n + 1) (r.used + 1) r.rest)
              ])
              (front ++ elim r as (λ _. List Store) [
                | none ↦ []
                | some (kind, r) ↦
                    (r.used, 0) ∷ line_stores capacity fuel (n + 1) (r.used + 1) r.rest
              ])
      token none front t w e ih = All-append (Inside capacity) front [] w tt
      token (some (kind, r)) front t w e ih =
          cons_word-Stored n used (record { kind = kind; text = r.text }) front _ r.used _ t.0 t.1
            w.0 w.1 (ih (n + 1) (r.used + 1) r.rest (ground (arith, few, e)))

      tested :
          (b : Bool) (c : ℕ) (q : List ℕ)
          → ((n == 64) || leb capacity used) ≡ b
          → Later
          → Stored n used
              (if b
                then none
                else elim (scan_token capacity c used q) as (λ _. Option (List Word)) [
                  | none ↦ none
                  | some (kind, r) ↦
                      cons_word capacity
                        (record { kind = kind; text = r.text })
                        (scan_words capacity fuel (n + 1) (r.used + 1) r.rest)
                ])
              (if b
                then []
                else (token_stores capacity c used q
                    ++ elim (scan_token capacity c used q) as (λ _. List Store) [
                      | none ↦ []
                      | some (kind, r) ↦
                          (r.used, 0) ∷ line_stores capacity fuel (n + 1) (r.used + 1) r.rest
                    ]))
      tested true c q e ih = tt
      tested false c q e ih =
          token (scan_token capacity c used q) (token_stores capacity c used q)
            (scan_token-Token capacity c used q (ground (arith, e))) (scan_token-Wrote c used q)
            (ground (arith, e)) ih

      line :
          (l : List ℕ)
          → Later
          → Stored n used
              (elim l as (λ _. Option (List Word)) [
                | [] ↦ some []
                | c ∷ q ↦
                    if (n == 64) || leb capacity used
                    then none
                    else elim (scan_token capacity c used q) as (λ _. Option (List Word)) [
                      | none ↦ none
                      | some (kind, r) ↦
                          cons_word capacity
                            (record { kind = kind; text = r.text })
                            (scan_words capacity fuel (n + 1) (r.used + 1) r.rest)
                    ]
              ])
              (elim l as (λ _. List Store) [
                | [] ↦ []
                | c ∷ q ↦
                    if (n == 64) || leb capacity used
                    then []
                    else (token_stores capacity c used q
                        ++ elim (scan_token capacity c used q) as (λ _. List Store) [
                          | none ↦ []
                          | some (kind, r) ↦
                              (r.used, 0) ∷ line_stores capacity fuel (n + 1) (r.used + 1) r.rest
                        ])
              ])
      line [] ih = (tt, omega (arith, few), refl)
      line (c ∷ q) ih = tested ((n == 64) || leb capacity used) c q refl ih
