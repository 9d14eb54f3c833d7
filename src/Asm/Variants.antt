-- ===== src/Asm/Variants.antt =====
-- The operands of emu/asm.c in both passes: a variant of an instruction fits in the second pass just as it
-- does in the first, unless the second one fails.
use linux_0_11_symcc_on_turi.Base.{
  ℕ, suc, ◌+◌, ◌-◌, ◌*◌, ◌^◌, ◌≡◌, refl, ◌∙◌, ap, arith, true, false, ltb, ◌==◌, List, [], ◌∷◌,
  length, Option, none, some, Bool-cases, inl, inr,
}
use linux_0_11_symcc_on_turi.Isa.Table.{OpKind, op_reg, op_imm, OpField, InsnWord, Insn}
use linux_0_11_symcc_on_turi.Isa.Encode.{
  isa_encode, isa_reg_index, emit_words, encode_words, big_endian,
}
use linux_0_11_symcc_on_turi.Asm.Scan.{parse_num, is_ident, trim}
use linux_0_11_symcc_on_turi.Asm.Labels.{Label, label_off, is_some}
use linux_0_11_symcc_on_turi.Asm.Operands.{
  Operand, value, mismatch, hard, parse_name, parse_imm, checked, operand, next_operand, unbracket,
  Parsed, matched, no_match, failed, add_value, parse_fields, fields_of, counted, parse_operands,
  is_empty, is_char_literal,
}

-- An operand in the first pass and in the second.
abbrev OperandAgrees : Operand → Operand → Type 0
OperandAgrees o (hard why) = Unit
OperandAgrees (value v) (value w) = Unit
OperandAgrees mismatch mismatch = Unit
OperandAgrees _ _ = ⊥

abbrev pub ParsedAgrees : Parsed → Parsed → Type 0
ParsedAgrees p (failed why) = Unit
ParsedAgrees (matched vs) (matched ws) = Unit
ParsedAgrees no_match no_match = Unit
ParsedAgrees _ _ = ⊥

add_value-agrees :
    (o o' : Operand) (p p' : Parsed)
    → OperandAgrees o o'
    → ParsedAgrees p p'
    → ParsedAgrees (add_value o p) (add_value o' p')
add_value-agrees o (hard why) p p' h k = tt
add_value-agrees (value v) (value w) p (failed why) h k = tt
add_value-agrees (value v) (value w) (matched vs) (matched ws) h k = tt
add_value-agrees (value v) (value w) no_match no_match h k = tt
add_value-agrees mismatch mismatch p p' h k = tt
add_value-agrees (value v) (value w) no_match (matched ws) h k = absurd k
add_value-agrees (value v) (value w) (failed why) (matched ws) h k = absurd k
add_value-agrees (value v) (value w) (matched vs) no_match h k = absurd k
add_value-agrees (value v) (value w) (failed why) no_match h k = absurd k
add_value-agrees mismatch (value w) p p' h k = absurd h
add_value-agrees (hard why) (value w) p p' h k = absurd h
add_value-agrees (value v) mismatch p p' h k = absurd h
add_value-agrees (hard why) mismatch p p' h k = absurd h

checked-agrees :
    (o o' : Operand) → OperandAgrees o o' → OperandAgrees (checked false o) (checked true o')
unfolding checked
checked-agrees o (hard why) h = tt
checked-agrees (value v) (value w) h = elim (Bool-cases (ltb 0xFFFF w)) [
  | inl e ↦ rw e tt
  | inr e ↦ rw e tt
]
checked-agrees mismatch mismatch h = tt
checked-agrees mismatch (value w) h = absurd h
checked-agrees (hard why) (value w) h = absurd h
checked-agrees (value v) mismatch h = absurd h
checked-agrees (hard why) mismatch h = absurd h

parse_name-agrees :
    (ls ms : List Label) (op : List ℕ)
    → OperandAgrees (parse_name ls false op) (parse_name ms true op)
unfolding parse_name
parse_name-agrees ls ms op = elim (Bool-cases (is_ident op)) [
  | inl e ↦
      rw e (elim (Bool-cases (label_off ms op == 2 ^ 32 - 1)) [ inl f ↦ rw f tt | inr f ↦ rw f tt ])
  | inr e ↦ rw e tt
]

parse_imm-agrees :
    (ls ms : List Label) (op : List ℕ)
    → OperandAgrees (parse_imm ls false op) (parse_imm ms true op)
unfolding parse_imm
parse_imm-agrees ls ms op = elim (Bool-cases (is_char_literal op)) [
  | inl e ↦ rw e tt
  | inr e ↦ elim (Bool-cases (is_some (isa_reg_index op))) [
    | inl f ↦ rw (e, f) tt
    | inr f ↦ rw (e, f) (number (parse_num op))
  ]
]
  where
    number :
        (n : Option ℕ)
        → OperandAgrees
            (elim n as (λ _. Operand) [ some v ↦ value v | none ↦ parse_name ls false op ])
            (elim n as (λ _. Operand) [ some v ↦ value v | none ↦ parse_name ms true op ])
    number (some v) = tt
    number none = parse_name-agrees ls ms op

operand-agrees :
    (ls ms : List Label) (k : OpKind) (t : List ℕ)
    → OperandAgrees (operand ls false k t) (operand ms true k t)
unfolding operand
operand-agrees ls ms op_reg t = register (isa_reg_index t)
  where
    register :
        (r : Option ℕ)
        → OperandAgrees
            (elim r as (λ _. Operand) [ none ↦ mismatch | some v ↦ value v ])
            (elim r as (λ _. Operand) [ none ↦ mismatch | some v ↦ value v ])
    register none = tt
    register (some v) = tt
operand-agrees ls ms op_imm t =
    checked-agrees (parse_imm ls false t) (parse_imm ms true t) (parse_imm-agrees ls ms t)

parse_fields-agrees :
    (ls ms : List Label) (fields : List OpField) (tok : List ℕ)
    → ParsedAgrees (parse_fields ls false fields tok) (parse_fields ms true fields tok)
unfolding parse_fields
parse_fields-agrees ls ms [] tok = elim (Bool-cases (is_empty (trim tok))) [
  | inl e ↦ rw e tt
  | inr e ↦ rw e tt
]
parse_fields-agrees ls ms (f ∷ fields) tok =
    elim (Bool-cases (is_empty (trim (next_operand tok).0))) [
      | inl e ↦ rw e tt
      | inr e ↦ rw e (
          add_value-agrees _ _ _ _
            (operand-agrees ls ms f.kind (unbracket (trim (next_operand tok).0)))
            (parse_fields-agrees ls ms fields (next_operand tok).1))
    ]

pub parse_operands-agrees :
    (ls ms : List Label) (i : Insn) (text : List ℕ)
    → ParsedAgrees (parse_operands ls false i text) (parse_operands ms true i text)
unfolding parse_operands
parse_operands-agrees ls ms i text =
    both (parse_fields ls false (fields_of i.words) text)
      (parse_fields ms true (fields_of i.words) text)
      (parse_fields-agrees ls ms (fields_of i.words) text)
  where
    both : (p p' : Parsed) → ParsedAgrees p p' → ParsedAgrees (counted i p) (counted i p')
    both p (failed why) h = tt
    both no_match no_match h = tt
    both (matched vs) (matched ws) h = elim (Bool-cases (length (fields_of i.words) == i.opcount)) [
      | inl e ↦ rw e tt
      | inr e ↦ rw e tt
    ]
    both (matched vs) no_match h = absurd h
    both (failed why) no_match h = absurd h
    both no_match (matched ws) h = absurd h
    both (failed why) (matched ws) h = absurd h

-- An encoding has four bytes for each word.
pub length-isa_encode : (i : Insn) (vals : List ℕ) → length (isa_encode i vals) ≡ length i.words * 4
unfolding isa_encode
length-isa_encode i vals =
    length-emit (encode_words i.words vals 0) ∙ ap (λ n. n * 4) (length-words i.words 0)
  where
    length-words : (ws : List InsnWord) (vi : ℕ) → length (encode_words ws vals vi) ≡ length ws
    length-words [] vi = unfold encode_words in refl
    length-words (w ∷ ws) vi =
        unfold encode_words in ap (λ n. suc n) (length-words ws (vi + length w.ops))

    length-emit : (xs : List ℕ) → length (emit_words xs) ≡ length xs * 4
    length-emit [] = unfold emit_words in refl
    length-emit (x ∷ xs) = unfold emit_words big_endian in omega (arith, length-emit xs)
