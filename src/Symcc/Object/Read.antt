-- ===== src/Symcc/Object/Read.antt =====
-- `obj_read` of symcc/src/obj.c, for a file of characters other than NUL. `native` is whether SP_NATIVE is defined.
use linux_0_11_symcc_on_turi.Base.{
  ℕ, zero, suc, ◌+◌, ◌-◌, ◌*◌, Bool, false, not, ◌&&◌, ◌||◌, leb, ◌==◌, if◌then◌else◌, List, [],
  ◌∷◌, get_or, Option, none, some,
}
use linux_0_11_symcc_on_turi.Base.Int.{ℤ, pos, negsuc}
use linux_0_11_symcc_on_turi.Base.Text.{codes, str_eq}
use linux_0_11_symcc_on_turi.Symcc.Object.Lines.{is_newline, trim_last, starts_with}
use linux_0_11_symcc_on_turi.Symcc.Object.Model.{
  Obj, obj_add_text, obj_add_data, obj_add_symbol, obj_add_bss,
}

-- The lines that the inner loop reads, each with its newline; the last one may have none.
abbrev pub push_char : ℕ → List (List ℕ) → List (List ℕ)
push_char c [] = (c ∷ []) ∷ []
push_char c (line ∷ lines) = (c ∷ line) ∷ lines

unfoldable pub read_lines : List ℕ → List (List ℕ)
read_lines [] = []
read_lines (c ∷ s) = if c == 10 then (c ∷ []) ∷ read_lines s else push_char c (read_lines s)

unfoldable pub before_char : ℕ → List ℕ → List ℕ
before_char c [] = []
before_char c (d ∷ s) = if d == c then [] else d ∷ before_char c s

abbrev pub is_quoted : List ℕ → Bool
is_quoted line = get_or line 0 0 == b'"'

-- The line without its comment, where the program is the native one, and without the newline at its end.
unfoldable pub clean_line : Bool → List ℕ → List ℕ
unfolding trim_last before_char
clean_line native line = trim_last is_newline (
    if native && not (is_quoted line)
    then trim_last (λ c. (c == b' ') || (c == 9)) (before_char b';' line)
    else line)

-- `isspace`
abbrev pub is_space_char : ℕ → Bool
is_space_char c = (c == b' ') || (leb 9 c && leb c 13)

unfoldable pub skip_spaces : List ℕ → List ℕ
skip_spaces [] = []
skip_spaces (c ∷ s) = if is_space_char c then skip_spaces s else c ∷ s

-- The characters of a word, `width` at most, and what is behind them.
unfoldable pub word_chars : ℕ → List ℕ → List ℕ × List ℕ
word_chars zero s = ([], s)
word_chars (suc width) [] = ([], [])
word_chars (suc width) (c ∷ s) =
    let rest = word_chars width s in if is_space_char c then ([], c ∷ s) else (c ∷ rest.0, rest.1)

-- `%511s` and the like, which fails at the end of the text.
unfoldable pub scan_string : ℕ → List ℕ → Option (List ℕ × List ℕ)
unfolding skip_spaces word_chars
scan_string width s =
    let (w, rest) = word_chars width (skip_spaces s) in
    elim w as (λ _. Option (List ℕ × List ℕ)) [ [] ↦ none | c ∷ t ↦ some (c ∷ t, rest) ]

unfoldable pub digit_chars : ℕ → List ℕ → ℕ × List ℕ
digit_chars n [] = (n, [])
digit_chars n (c ∷ s) =
    let rest = digit_chars (n * 10 + (c - b'0')) s in
    if leb b'0' c && leb c b'9' then rest else (n, c ∷ s)

abbrev pub starts_digit : List ℕ → Bool
starts_digit [] = false
starts_digit (c ∷ s) = leb b'0' c && leb c b'9'

abbrev pub negated : ℕ → ℤ
negated zero = pos 0
negated (suc n) = negsuc n

-- `%ld`, for a number that a `long` has.
unfoldable pub scan_long : List ℕ → Option (ℤ × List ℕ)
unfolding skip_spaces digit_chars
scan_long s =
    let t = skip_spaces s in
    let minus = get_or t 0 0 == b'-' in
    let digits = if minus || (get_or t 0 0 == b'+') then behind t else t in
    let r = digit_chars 0 digits in
    if starts_digit digits then some (if minus then negated r.0 else pos r.0, r.1) else none
  where
    behind : List ℕ → List ℕ
    behind [] = []
    behind (c ∷ s) = s

infixl 5 ◌>>=◌
abbrev pub ◌>>=◌ : {A B : Type 0} → Option A → (A → Option B) → Option B
none >>= next = none
some a >>= next = next a

-- The number of the section, and the object so far.
pub record Reader : Type 0 where
  pub section : ℕ
  pub obj : Obj

-- A line that is `.bss` and a name and a size.
unfoldable pub read_bss : Obj → List ℕ → Option Obj
unfolding scan_string scan_long
read_bss o s = do
  (name, at_size) ← scan_string 511 s
  (size, _) ← scan_long at_size
  some (obj_add_bss o name size)

unfoldable pub read_symbol : Obj → List ℕ → Option Obj
unfolding scan_string scan_long
read_symbol o s = do
  (name, at_kind) ← scan_string 511 s
  (kind, at_seg) ← scan_string 7 at_kind
  (seg, at_offset) ← scan_string 15 at_seg
  (offset, at_size) ← scan_long at_offset
  (size, _) ← scan_long at_size
  some (
      obj_add_symbol o name (get_or kind 0 0 == b'D') (if str_eq seg (codes "data") then 1 else 0)
        offset size)

-- What a line is for the reader.
pub data LineKind : Type 0 where
  skipped to_text to_data bss_entry symbol_entry content : LineKind

unfoldable pub kind_of : List ℕ → LineKind
unfolding starts_with
kind_of [] = skipped
kind_of (c ∷ s) =
    if c == b';'
    then skipped
    else if str_eq (c ∷ s) (codes ".text")
    then to_text
    else if str_eq (c ∷ s) (codes ".data")
    then to_data
    else if starts_with (codes ".bss ") (c ∷ s)
    then bss_entry
    else if starts_with (codes ".sym ") (c ∷ s)
    then symbol_entry
    else content

-- `line+5`
unfoldable pub drop_chars : ℕ → List ℕ → List ℕ
drop_chars zero s = s
drop_chars (suc n) [] = []
drop_chars (suc n) (c ∷ s) = drop_chars n s

abbrev pub or_same : Option Obj → Obj → Obj
or_same none o = o
or_same (some p) o = p

-- A line of the section 1 or 2; those before the first section are left out.
unfoldable pub add_content : ℕ → Obj → List ℕ → Obj
unfolding obj_add_text obj_add_data
add_content section o line =
    if section == 1 then obj_add_text o line else if section == 2 then obj_add_data o line else o

unfoldable pub use_line : Reader → List ℕ → LineKind → Reader
unfolding read_bss read_symbol drop_chars add_content
use_line r line skipped = r
use_line r line to_text = record r { section = 1 }
use_line r line to_data = record r { section = 2 }
use_line r line bss_entry = record r { obj = or_same (read_bss r.obj (drop_chars 5 line)) r.obj }
use_line r line symbol_entry = record r {
  obj = or_same (read_symbol r.obj (drop_chars 5 line)) r.obj;
}
use_line r line content = record r { obj = add_content r.section r.obj line }

unfoldable pub take_lines : Bool → List (List ℕ) → Reader → Reader
unfolding clean_line kind_of use_line
take_lines native [] r = r
take_lines native (raw ∷ lines) r =
    let line = clean_line native raw in take_lines native lines (use_line r line (kind_of line))

-- The object that the file is read into.
unfoldable pub obj_read : Bool → Obj → List ℕ → Obj
unfolding read_lines take_lines
obj_read native o file = (take_lines native (read_lines file) (record { section = 0; obj = o })).obj
