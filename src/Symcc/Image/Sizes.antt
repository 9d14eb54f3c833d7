-- ===== src/Symcc/Image/Sizes.antt =====
-- The size of a line in an image, and the labels of a section: symcc/src/link_image.c.
use linux_0_11_symcc_on_turi.Base.{
  ℕ, zero, suc, Bool, true, false, not, ◌&&◌, ◌||◌, ◌==◌, if◌then◌else◌, List, [], ◌∷◌, Option,
  none, some,
}
use linux_0_11_symcc_on_turi.Base.Text.{codes, str_eq}
use linux_0_11_symcc_on_turi.Isa.Encode.{isa_reg_index}
use linux_0_11_symcc_on_turi.Symcc.Object.Lines.{starts_with, obj_line_size}
use linux_0_11_symcc_on_turi.Symcc.Object.Model.{ObjSymbol}
use linux_0_11_symcc_on_turi.Symcc.Object.Read.{skip_spaces, word_chars}

abbrev pub poll_bytes : ℕ
poll_bytes = 60

abbrev pub poll_prefix : List ℕ
poll_prefix = codes "__sp_poll_L"

abbrev any_of : List ℕ → List (List ℕ) → Bool
any_of op [] = false
any_of op (name ∷ names) = str_eq op name || any_of op names

unfoldable pub cond : List ℕ → Bool
cond op = any_of op (
    codes "je"
    ∷ codes "jne"
    ∷ codes "jb"
    ∷ codes "jae"
    ∷ codes "jbe"
    ∷ codes "ja"
    ∷ codes "jl"
    ∷ codes "jge"
    ∷ codes "jle"
    ∷ codes "jg"
    ∷ [])

-- The characters that end an argument.
abbrev is_arg_end : ℕ → Bool
is_arg_end c = (c == b' ') || ((c == b';') || ((c == 9) || ((c == 13) || (c == 10))))

unfoldable pub arg_chars : ℕ → List ℕ → List ℕ
arg_chars zero s = []
arg_chars (suc width) [] = []
arg_chars (suc width) (c ∷ s) =
    let rest = arg_chars width s in if is_arg_end c then [] else c ∷ rest

-- `sscanf(s,"%31s %511[^ ;\t\r\n]",op,arg)`
unfoldable pub parts : List ℕ → List ℕ × List ℕ
unfolding skip_spaces word_chars arg_chars
parts s = let (op, rest) = word_chars 31 (skip_spaces s) in (op, arg_chars 511 (skip_spaces rest))

abbrev is_reg : List ℕ → Bool
is_reg s = elim (isa_reg_index s) as (λ _. Bool) [ none ↦ false | some i ↦ true ]

-- `none` is the end of the program by `obj_line_size`.
unfoldable pub line_size : List ℕ → Bool → Option ℕ
unfolding parts cond
line_size s polling =
    let (op, arg) = parts s in
    if starts_with poll_prefix op
    then some (if polling then poll_bytes else 0)
    else if cond op
    then some 16
    else if str_eq op (codes "call")
    then some 32
    else if str_eq op (codes "jmp") && not (is_reg arg)
    then some 16
    else obj_line_size s

unfoldable pub exported : List ObjSymbol → List ℕ → Bool
exported [] name = false
exported (s ∷ l) name = str_eq s.name name || exported l name
