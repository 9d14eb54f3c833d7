-- ===== src/Asm/Tests.antt =====
-- Small texts for the assembler of emu/asm.c.
use linux_0_11_symcc_on_turi.Base.{
  ℕ, zero, suc, ◌+◌, ◌^◌, ◌<◌, ◌≤◌, ◌≡◌, refl, arith, Bool, true, List, [], ◌∷◌, Option, none, some,
  length, get_or,
}
use linux_0_11_symcc_on_turi.Base.Text.{codes}
use linux_0_11_symcc_on_turi.Emu.State.{Memory, poke}
use linux_0_11_symcc_on_turi.Emu.Store.{store}
use linux_0_11_symcc_on_turi.Emu.Run.{blank}
use linux_0_11_symcc_on_turi.Isa.Encode.{
  isa_encode, isa_reg_index, emit_words, encode_words, put_ops, put_field, put_second, big_endian,
  index_from,
}
use linux_0_11_symcc_on_turi.User.Convert.{
  number, digits, conclude, based, has_prefix, skip_space, digit_of, is_digit, is_alpha, is_space,
  is_xdigit, to_lower,
}
use linux_0_11_symcc_on_turi.Asm.Scan.{
  skip_ws, trim_end, trim, skip_line, scan_line, next_line, parse_num, is_word, all_word, is_ident,
}
use linux_0_11_symcc_on_turi.Asm.Labels.{
  Result, ok, err, Fault, find_label, label_off, at_capacity, add_label, unterminated,
}
use linux_0_11_symcc_on_turi.Asm.Operands.{
  split_at, parse_name, parse_imm, before_bracket, unbracket, checked, operand, next_operand,
  parse_fields, parse_operands,
}
use linux_0_11_symcc_on_turi.Asm.Emit.{
  deliver, emit_from, emit_insn, after_name, data_of, be_bytes, emit_number, emit_data, emit_string,
  pad_to, emit_pad, split_word, emit_line, enter, process_colon, process_line,
}
use linux_0_11_symcc_on_turi.Asm.Passes.{Pass, lines_of, text_lines, run_pass, asm_assemble}
use linux_0_11_symcc_on_turi.Asm.Addresses.{IsDefined}
use linux_0_11_symcc_on_turi.Asm.Output.{
  program, restart, asm_assemble-IsDefined, asm_assemble-program,
}
use linux_0_11_symcc_on_turi.Asm.Table.{find_label-none_long}
use linux_0_11_symcc_on_turi.Asm.Loop.{lines_of-text_lines}

abbrev always : ℕ → Bool
always n = true

abbrev bytes : Memory → ℕ → ℕ → List ℕ
bytes m p zero = []
bytes m p (suc n) = m p ∷ bytes m (p + 1) n

abbrev code_of : Result Pass → List ℕ
code_of (ok p) = bytes p.out 0 p.off
code_of (err l why) = []

abbrev fault_of : Result Pass → Option (ℕ × Fault)
fault_of (ok p) = none
fault_of (err l why) = some (l, why)

small :
    (code_of (
        asm_assemble always 64 blank
          (codes "start: mov r1, 42 ; forty-two\nend: jmp end\nU16 0x102\n\"ab\"@"))
      ≡ 0x31 ∷ 0x10 ∷ 0 ∷ 42 ∷ 0x58 ∷ 0x0F ∷ 0 ∷ 4 ∷ 1 ∷ 2 ∷ 97 ∷ 98 ∷ [])
    × (fault_of (asm_assemble always 64 blank (codes "\n\"hello : world\""))
        ≡ some (2, unterminated))
    × (fault_of (asm_assemble always 64 blank (codes "\"hello: world\"")) ≡ none)
unfolding asm_assemble run_pass text_lines lines_of next_line scan_line skip_line trim trim_end
    skip_ws parse_num is_word all_word is_ident find_label label_off at_capacity add_label split_at
    parse_name parse_imm before_bracket unbracket checked operand next_operand parse_fields
    parse_operands deliver emit_from emit_insn after_name data_of be_bytes emit_number emit_data
    emit_string pad_to emit_pad split_word emit_line enter process_colon process_line number digits
    conclude based has_prefix skip_space digit_of is_digit is_alpha is_space is_xdigit to_lower
    isa_encode isa_reg_index emit_words encode_words put_ops put_field put_second big_endian
    index_from store poke
small = (refl, refl, refl)

-- A label, a jump to it and a byte.
abbrev looping : List ℕ
looping = codes "l: jmp l\nU8 7"

abbrev passed : Result Pass → Pass
passed (ok q) = q
passed (err l why) = record { labels = []; off = 0; out = blank }

abbrev left : Pass
left = passed (asm_assemble always 64 blank looping)

assembled : asm_assemble always 64 blank looping ≡ ok left
unfolding asm_assemble run_pass text_lines lines_of next_line scan_line skip_line trim trim_end
    skip_ws parse_num is_word all_word is_ident find_label label_off at_capacity add_label split_at
    parse_name parse_imm before_bracket unbracket checked operand next_operand parse_fields
    parse_operands deliver emit_from emit_insn after_name data_of be_bytes emit_number emit_data
    emit_string pad_to emit_pad split_word emit_line enter process_colon process_line number digits
    conclude based has_prefix skip_space digit_of is_digit is_alpha is_space is_xdigit to_lower
    isa_encode isa_reg_index emit_words encode_words put_ops put_field put_second big_endian
    index_from store poke
assembled = refl

label_found : find_label left.labels (codes "l") ≡ some 0
unfolding asm_assemble run_pass text_lines lines_of next_line scan_line skip_line trim trim_end
    skip_ws parse_num is_word all_word is_ident find_label label_off at_capacity add_label split_at
    parse_name parse_imm before_bracket unbracket checked operand next_operand parse_fields
    parse_operands deliver emit_from emit_insn after_name data_of be_bytes emit_number emit_data
    emit_string pad_to emit_pad split_word emit_line enter process_colon process_line number digits
    conclude based has_prefix skip_space digit_of is_digit is_alpha is_space is_xdigit to_lower
    isa_encode isa_reg_index emit_words encode_words put_ops put_field put_second big_endian
    index_from store poke
label_found = refl

program_is :
    program always 64 (restart always 64 blank left) 0 (text_lines looping)
    ≡ 0x58 ∷ 0x0F ∷ 0 ∷ 0 ∷ 7 ∷ []
unfolding program asm_assemble run_pass text_lines lines_of next_line scan_line skip_line trim
    trim_end skip_ws parse_num is_word all_word is_ident find_label label_off at_capacity add_label
    split_at parse_name parse_imm before_bracket unbracket checked operand next_operand parse_fields
    parse_operands deliver emit_from emit_insn after_name data_of be_bytes emit_number emit_data
    emit_string pad_to emit_pad split_word emit_line enter process_colon process_line number digits
    conclude based has_prefix skip_space digit_of is_digit is_alpha is_space is_xdigit to_lower
    isa_encode isa_reg_index emit_words encode_words put_ops put_field put_second big_endian
    index_from store poke
program_is = refl

asm_assemble-IsDefined_example :
    IsDefined always 64 (restart always 64 blank left) 0 (text_lines looping) (codes "l") 0
asm_assemble-IsDefined_example =
    asm_assemble-IsDefined always 64 blank looping left assembled (codes "l") 0 label_found

short_program :
    length (program always 64 (restart always 64 blank left) 0 (text_lines looping)) < 2 ^ 32
short_program = rw program_is (omega arith)

asm_assemble-program_example :
    let code = program always 64 (restart always 64 blank left) 0 (text_lines looping) in
    (left.off ≡ length code)
    × (length code ≤ 64)
    × ((i : ℕ) → i < length code → left.out i ≡ get_or code i 0)
    × ((a : ℕ) → length code ≤ a → left.out a ≡ blank a)
asm_assemble-program_example =
    asm_assemble-program always 64 blank looping left assembled short_program

abbrev long_name : ℕ → List ℕ
long_name zero = []
long_name (suc n) = b'a' ∷ long_name n

find_label-none_long_example : find_label left.labels (long_name 64) ≡ none
find_label-none_long_example =
    find_label-none_long always 64 blank looping left (long_name 64) assembled (omega arith)

lines_of-text_lines_example : lines_of 100 looping ≡ text_lines looping
lines_of-text_lines_example = lines_of-text_lines 100 looping (omega arith)
