-- ===== src/Symcc/Object/Lines.antt =====
-- What symcc/src/obj.c finds in one line of assembly text: a label's name, and the bytes that it takes.
use linux_0_11_symcc_on_turi.Base.{
  ℕ, zero, suc, ◌-◌, Bool, true, false, not, ◌&&◌, ◌||◌, ltb, leb, ◌==◌, if◌then◌else◌, List, [],
  ◌∷◌, length, get_or, Option, none, some,
}
use linux_0_11_symcc_on_turi.Base.Text.{codes}

abbrev pub is_ident_char : ℕ → Bool
is_ident_char c =
    (leb b'a' c && leb c b'z')
    || ((leb b'A' c && leb c b'Z') || ((leb b'0' c && leb c b'9') || (c == b'_')))

-- `'\n'` or `'\r'`
abbrev pub is_newline : ℕ → Bool
is_newline c = (c == 10) || (c == 13)

-- A loop that takes characters off the end of a line.
unfoldable pub trim_last : (ℕ → Bool) → List ℕ → List ℕ
trim_last drop [] = []
trim_last drop (c ∷ l) =
    let rest = trim_last drop l in
    elim rest as (λ _. List ℕ) [ [] ↦ if drop c then [] else c ∷ [] | d ∷ t ↦ c ∷ d ∷ t ]

-- A loop that takes characters off its beginning.
unfoldable pub trim_start : (ℕ → Bool) → List ℕ → List ℕ
trim_start drop [] = []
trim_start drop (c ∷ l) = if drop c then trim_start drop l else c ∷ l

-- The first `n` characters.
unfoldable pub all_ident : ℕ → List ℕ → Bool
all_ident zero l = true
all_ident (suc n) [] = true
all_ident (suc n) (c ∷ l) = is_ident_char c && all_ident n l

unfoldable pub label_length : List ℕ → ℕ
unfolding all_ident
label_length line =
    let n = length line in
    let c = get_or line 0 0 in
    if ltb n 2 || not (get_or line (n - 1) 0 == b':')
    then 0
    else if (c == b' ') || ((c == b';') || (c == b'"'))
    then 0
    else if all_ident (n - 1) line
    then n - 1
    else 0

unfoldable pub obj_label_name_len : List ℕ → ℕ
unfolding trim_last trim_start label_length
obj_label_name_len line = label_length (trim_start is_newline (trim_last is_newline line))

-- `strncmp(s, prefix, strlen(prefix)) == 0`
unfoldable pub starts_with : List ℕ → List ℕ → Bool
starts_with [] s = true
starts_with (c ∷ prefix) [] = false
starts_with (c ∷ prefix) (d ∷ s) = (c == d) && starts_with prefix s

-- `strchr(s, c)`: the number of characters before it.
unfoldable pub index_of : ℕ → List ℕ → Option ℕ
index_of c [] = none
index_of c (d ∷ s) =
    let rest = index_of c s in
    if d == c then some 0 else elim rest as (λ _. Option ℕ) [ none ↦ none | some i ↦ some (suc i) ]

unfoldable pub instruction_size : List ℕ → ℕ
unfolding starts_with
instruction_size s =
    if starts_with (codes "U8 ") s
    then 1
    else if starts_with (codes "U16 ") s
    then 2
    else if starts_with (codes "U32 ") s
    then 4
    else if starts_with (codes "push ") s
    then 8
    else if starts_with (codes "pop ") s
    then 8
    else if starts_with (codes "call ") s
    then 20
    else if starts_with (codes "ret") s
    then 12
    else 4

-- `s` is the line without its blanks; a string without a closing quote ends the program.
unfoldable pub size_of : List ℕ → List ℕ → Option ℕ
unfolding obj_label_name_len index_of instruction_size
size_of line [] = some 0
size_of line (c ∷ s) =
    if (c == b';') || (c == 10)
    then some 0
    else if not (obj_label_name_len line == 0)
    then some 0
    else if c == b'"'
    then index_of b'"' s
    else some (instruction_size (c ∷ s))

unfoldable pub obj_line_size : List ℕ → Option ℕ
unfolding trim_start size_of
obj_line_size line = size_of line (trim_start (λ c. c == b' ') line)
