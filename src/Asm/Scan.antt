-- ===== src/Asm/Scan.antt =====
-- Text in emu/asm.c: blanks, lines, numbers and names. A string is the list of its characters without the
-- final NUL. Where the source writes a NUL into a string, the list ends there.
use linux_0_11_symcc_on_turi.Base.{
  ℕ, zero, suc, Bool, true, false, not, ◌&&◌, ◌||◌, ◌==◌, if◌then◌else◌, List, [], ◌∷◌, get_or,
  Option, none, some,
}
use linux_0_11_symcc_on_turi.User.Convert.{is_alpha, is_digit, Number, erange_set, number}

abbrev pub is_blank : ℕ → Bool
is_blank c = (c == b' ') || (c == b'\t')

unfoldable pub skip_ws : List ℕ → List ℕ
skip_ws [] = []
skip_ws (c ∷ s) = let rest = skip_ws s in if is_blank c then rest else c ∷ s

abbrev pub cons_unless_last_blank : ℕ → List ℕ → List ℕ
cons_unless_last_blank c [] = if is_blank c then [] else c ∷ []
cons_unless_last_blank c (d ∷ s) = c ∷ d ∷ s

-- Without the blanks at the end.
unfoldable pub trim_end : List ℕ → List ℕ
trim_end [] = []
trim_end (c ∷ s) = cons_unless_last_blank c (trim_end s)

unfoldable pub trim : List ℕ → List ℕ
unfolding skip_ws trim_end
trim s = trim_end (skip_ws s)

-- From a comment on: the rest of the line, with its end.
unfoldable pub skip_line : List ℕ → List ℕ
skip_line [] = []
skip_line (c ∷ p) = let rest = skip_line p in if c == b'\n' then p else rest

-- The loop of `next_line`: the characters of the line, and where the next one starts.
unfoldable pub scan_line : Bool → List ℕ → List ℕ × List ℕ
unfolding skip_line
scan_line in_str [] = ([], [])
scan_line in_str (c ∷ p) =
    let quoted = if c == b'"' then not in_str else in_str in
    let same = scan_line in_str p in
    let (cs, rest) = scan_line quoted p in
    if c == b'\n'
    then ([], p)
    else if c == b'\r'
    then same
    else if not quoted && ((c == b';') || ((c == b'/') && (get_or p 0 0 == b'/')))
    then ([], skip_line (c ∷ p))
    else (c ∷ cs, rest)

abbrev pub take : ℕ → List ℕ → List ℕ
take zero cs = []
take (suc n) [] = []
take (suc n) (c ∷ cs) = c ∷ take n cs

-- `MAX_LINE`
abbrev pub max_line : ℕ
max_line = 4096

-- `none` is NULL; the buffer keeps the first `MAX_LINE - 1` characters.
unfoldable pub next_line : List ℕ → Option (List ℕ × List ℕ)
unfolding scan_line
next_line [] = none
next_line (c ∷ p) = let (cs, rest) = scan_line false (c ∷ p) in some (take 4095 cs, rest)

abbrev pub whole : Number → List ℕ → Option ℕ
whole r s = elim r.errno [
  | erange_set ↦ none
  | _ ↦ elim r.end [ [] ↦ elim s [ [] ↦ none | _ ∷ _ ↦ some r.result ] | _ ∷ _ ↦ none ]
]

-- All of the text is one number, read by the user library's `strtoul`.
unfoldable pub parse_num : List ℕ → Option ℕ
unfolding number
parse_num s = if get_or s 0 0 == b'-' then none else whole (number s 0 false) s

unfoldable pub is_word : ℕ → Bool
unfolding is_alpha is_digit
is_word c = (c == b'_') || (is_alpha c || is_digit c)

unfoldable pub all_word : List ℕ → Bool
unfolding is_word
all_word [] = true
all_word (c ∷ s) = is_word c && all_word s

unfoldable pub is_ident : List ℕ → Bool
unfolding all_word
is_ident [] = false
is_ident (c ∷ s) = ((c == b'_') || is_alpha c) && all_word s
