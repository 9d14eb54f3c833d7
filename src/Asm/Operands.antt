-- ===== src/Asm/Operands.antt =====
-- The operands of an instruction in emu/asm.c.
use linux_0_11_symcc_on_turi.Base.{
  ℕ, ◌-◌, ◌^◌, Bool, true, false, not, ◌&&◌, ltb, ◌==◌, if◌then◌else◌, List, [], ◌∷◌, ◌++◌, length,
  get_or, Option, none, some,
}
use linux_0_11_symcc_on_turi.Isa.Table.{OpKind, op_reg, op_imm, OpField, InsnWord, Insn}
use linux_0_11_symcc_on_turi.Isa.Encode.{isa_reg_index}
use linux_0_11_symcc_on_turi.Asm.Scan.{trim, parse_num, is_ident}
use linux_0_11_symcc_on_turi.Asm.Labels.{
  Fault, undefined_label, too_large, Label, label_off, is_some,
}

-- 0 with the value, -1 and -2.
pub data Operand : Type 0 where
  value : ℕ → Operand
  mismatch : Operand
  hard : Fault → Operand

-- `strchr(s, c)`: what stands before the first `c`, and behind it.
unfoldable pub split_at : ℕ → List ℕ → Option (List ℕ × List ℕ)
split_at c [] = none
split_at c (d ∷ s) =
    let rest = split_at c s in
    if d == c then some ([], s) else elim rest [ none ↦ none | some (a, b) ↦ some (d ∷ a, b) ]

abbrev pub is_char_literal : List ℕ → Bool
is_char_literal (q ∷ c ∷ r ∷ []) = (q == b'\'') && (r == b'\'')
is_char_literal _ = false

-- A name is an address of the second pass; the first pass takes any name, and its value is not used.
unfoldable pub parse_name : List Label → Bool → List ℕ → Operand
parse_name labels resolve op =
    let off = label_off labels op in
    if not (is_ident op)
    then mismatch
    else if not resolve
    then value 0
    else if off == 2 ^ 32 - 1
    then hard undefined_label
    else value off

unfoldable pub parse_imm : List Label → Bool → List ℕ → Operand
unfolding parse_name
parse_imm labels resolve op =
    if is_char_literal op
    then value (get_or op 1 0)
    else if is_some (isa_reg_index op)
    then mismatch
    else elim (parse_num op) [ some v ↦ value v | none ↦ parse_name labels resolve op ]

-- The text before a `]` at its end.
unfoldable pub before_bracket : List ℕ → Option (List ℕ)
before_bracket [] = none
before_bracket (c ∷ []) = if c == b']' then some [] else none
before_bracket (c ∷ d ∷ s) = elim (before_bracket (d ∷ s)) [ none ↦ none | some t ↦ some (c ∷ t) ]

-- Without the brackets of an address.
unfoldable pub unbracket : List ℕ → List ℕ
unfolding before_bracket
unbracket [] = []
unbracket (c ∷ s) =
    if c == b'[' then elim (before_bracket s) [ none ↦ c ∷ s | some t ↦ t ] else c ∷ s

abbrev reg_operand : Option ℕ → Operand
reg_operand none = mismatch
reg_operand (some r) = value r

-- The second pass takes 16 bits only.
unfoldable pub checked : Bool → Operand → Operand
checked resolve (value v) = if resolve && ltb 0xFFFF v then hard too_large else value v
checked resolve mismatch = mismatch
checked resolve (hard why) = hard why

unfoldable pub operand : List Label → Bool → OpKind → List ℕ → Operand
unfolding checked parse_imm
operand labels resolve op_reg t = reg_operand (isa_reg_index t)
operand labels resolve op_imm t = checked resolve (parse_imm labels resolve t)

-- The text up to the next comma, and the text behind it.
unfoldable pub next_operand : List ℕ → List ℕ × List ℕ
unfolding split_at
next_operand tok = elim (split_at b',' tok) [ none ↦ (tok, []) | some parts ↦ parts ]

pub data Parsed : Type 0 where
  matched : List ℕ → Parsed
  no_match : Parsed
  failed : Fault → Parsed

abbrev pub is_empty : List ℕ → Bool
is_empty [] = true
is_empty (c ∷ s) = false

-- `vals[vi] = v`, and the operands that follow.
abbrev pub add_value : Operand → Parsed → Parsed
add_value (value v) (matched vals) = matched (v ∷ vals)
add_value (value v) no_match = no_match
add_value (value v) (failed why) = failed why
add_value mismatch p = no_match
add_value (hard why) p = failed why

-- The operands of the fields that are left.
unfoldable pub parse_fields : List Label → Bool → List OpField → List ℕ → Parsed
unfolding operand next_operand unbracket
parse_fields labels resolve [] tok = if is_empty (trim tok) then matched [] else no_match
parse_fields labels resolve (f ∷ fields) tok =
    let (t, tok') = next_operand tok in
    let rest = parse_fields labels resolve fields tok' in
    if is_empty (trim t)
    then no_match
    else add_value (operand labels resolve f.kind (unbracket (trim t))) rest

-- The fields of an instruction, word by word.
abbrev pub fields_of : List InsnWord → List OpField
fields_of [] = []
fields_of (w ∷ words) = w.ops ++ fields_of words

-- The number of operands has to be the table's.
abbrev pub counted : Insn → Parsed → Parsed
counted i (matched vals) =
    if length (fields_of i.words) == i.opcount then matched vals else no_match
counted i p = p

unfoldable pub parse_operands : List Label → Bool → Insn → List ℕ → Parsed
unfolding parse_fields
parse_operands labels resolve i text =
    counted i (parse_fields labels resolve (fields_of i.words) text)
