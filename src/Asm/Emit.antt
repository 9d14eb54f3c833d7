-- ===== src/Asm/Emit.antt =====
-- The lines of emu/asm.c: instructions, data, strings, padding, and labels in front of them.
use linux_0_11_symcc_on_turi.Base.{
  ℕ, zero, suc, ◌+◌, ◌-◌, ◌*◌, Bool, ◌&&◌, ltb, leb, ◌==◌, if◌then◌else◌, List, [], ◌∷◌, length,
  Option, none, some,
}
use linux_0_11_symcc_on_turi.Base.Text.{codes, str_eq}
use linux_0_11_symcc_on_turi.Base.Word.{u8, u32, ◌<<◌, ◌>>◌}
use linux_0_11_symcc_on_turi.Isa.Table.{Insn, isa_table}
use linux_0_11_symcc_on_turi.Isa.Encode.{isa_encode}
use linux_0_11_symcc_on_turi.User.Convert.{is_alpha}
use linux_0_11_symcc_on_turi.Asm.Scan.{
  is_blank, skip_ws, trim, trim_end, parse_num, is_ident, is_word, take,
}
use linux_0_11_symcc_on_turi.Asm.Labels.{
  output_too_large, unknown_instruction, no_u64, bad_number, value_too_large, unterminated, bad_pad,
  pad_before, bad_line, Result, ok, err, ◌>>=◌, Label, add_label,
}
use linux_0_11_symcc_on_turi.Asm.Operands.{split_at, matched, no_match, failed, parse_operands}

-- The size that a line returns, and the bytes that it writes at its offset: none in the first pass.
pub record Emitted : Type 0 where
  pub size : ℕ
  pub bytes : List ℕ

-- Whether this is the second pass, with the labels; where the line stands, and the room of the output.
pub record Place : Type 0 where
  pub resolve : Bool
  pub labels : List Label
  pub off : ℕ
  pub cap : ℕ
  pub lineno : ℕ

-- The end that instructions, data and strings share.
unfoldable pub deliver : Place → ℕ → List ℕ → Result Emitted
deliver at size bytes =
    if at.resolve
    then (if ltb at.cap (u32 (at.off + size))
        then err at.lineno output_too_large
        else ok (record { size = size; bytes = bytes }))
    else ok (record { size = size; bytes = [] })

-- The first entry of the table with that name whose operands fit.
unfoldable pub emit_from : Place → List ℕ → List ℕ → List Insn → Result Emitted
unfolding deliver parse_operands
emit_from at mnem ops [] = err at.lineno unknown_instruction
emit_from at mnem ops (i ∷ table) =
    let rest = emit_from at mnem ops table in
    if str_eq i.name mnem
    then elim (parse_operands at.labels at.resolve i ops) [
      | matched vals ↦ deliver at (length i.words * 4) (isa_encode i vals)
      | no_match ↦ rest
      | failed why ↦ err at.lineno why
    ]
    else rest

unfoldable pub emit_insn : Place → List ℕ → List ℕ → Result Emitted
unfolding emit_from
emit_insn at mnem ops = emit_from at mnem ops isa_table

-- `strncmp(rest, name, l) == 0` with a blank at `rest[l]`: the text from there on.
unfoldable pub after_name : List ℕ → List ℕ → Option (List ℕ)
after_name [] [] = none
after_name [] (c ∷ s) = if is_blank c then some (c ∷ s) else none
after_name (d ∷ name) [] = none
after_name (d ∷ name) (c ∷ s) = let rest = after_name name s in if d == c then rest else none

-- The first of the names U8, U16, U32 and U64 that fits: the width, and the text of the number.
unfoldable pub data_of : List (List ℕ × ℕ) → List ℕ → Option (ℕ × List ℕ)
unfolding after_name skip_ws
data_of [] rest = none
data_of ((name, width) ∷ datas) rest = elim (after_name name rest) [
  | none ↦ data_of datas rest
  | some p ↦ some (width, skip_ws p)
]

abbrev pub datas : List (List ℕ × ℕ)
datas = (codes "U8", 1) ∷ (codes "U16", 2) ∷ (codes "U32", 4) ∷ (codes "U64", 8) ∷ []

-- The lowest `n` bytes, the highest of them first.
unfoldable pub be_bytes : ℕ → ℕ → List ℕ
be_bytes zero v = []
be_bytes (suc n) v = u8 (v >> (8 * n)) ∷ be_bytes n v

unfoldable pub emit_number : Place → ℕ → Option ℕ → Result Emitted
unfolding deliver be_bytes
emit_number at width none = err at.lineno bad_number
emit_number at width (some v) =
    if ltb width 4 && leb (1 << (width * 8)) v
    then err at.lineno value_too_large
    else deliver at width (be_bytes width v)

abbrev pub data_line : Place → Option (ℕ × List ℕ) → Option (Result Emitted)
data_line at none = none
data_line at (some (width, p)) =
    some (if width == 8 then err at.lineno no_u64 else emit_number at width (parse_num p))

-- `none` is a line without data.
unfoldable pub emit_data : Place → List ℕ → Option (Result Emitted)
unfolding data_of emit_number parse_num
emit_data at rest = data_line at (data_of datas rest)

-- `rest` is the text behind the opening quote.
unfoldable pub emit_string : Place → List ℕ → Result Emitted
unfolding deliver split_at
emit_string at rest = elim (split_at b'"' rest) [
  | none ↦ err at.lineno unterminated
  | some (s, behind) ↦ deliver at (length s) s
]

abbrev pub zeros : ℕ → List ℕ
zeros zero = []
zeros (suc n) = 0 ∷ zeros n

unfoldable pub pad_to : Place → Option ℕ → Result Emitted
pad_to at none = err at.lineno bad_pad
pad_to at (some target) =
    if ltb target at.off
    then err at.lineno pad_before
    else if ltb at.cap (target - at.off)
    then err at.lineno output_too_large
    else ok (record {
      size = target - at.off;
      bytes = if at.resolve then zeros (target - at.off) else [];
    })

-- `rest` is the text behind the `@`.
unfoldable pub emit_pad : Place → List ℕ → Result Emitted
unfolding pad_to parse_num
emit_pad at rest = pad_to at (parse_num rest)

-- The mnemonic, and the text behind it.
unfoldable pub split_word : List ℕ → List ℕ × List ℕ
unfolding is_word
split_word [] = ([], [])
split_word (c ∷ s) =
    let (w, rest) = split_word s in if is_word c then (c ∷ w, rest) else ([], c ∷ s)

abbrev pub or_else : Option (Result Emitted) → Result Emitted → Result Emitted
or_else (some r) s = r
or_else none s = s

-- A line without its label.
unfoldable pub emit_line : Place → List ℕ → Result Emitted
emit_line at [] = ok (record { size = 0; bytes = [] })
emit_line at (c ∷ s) =
    let (mnem, rest) = split_word (c ∷ s) in
    if c == b'@'
    then emit_pad at s
    else if c == b'"'
    then emit_string at s
    else if is_alpha c
    then or_else (emit_data at (c ∷ s)) (emit_insn at (take 63 mnem) (trim rest))
    else err at.lineno bad_line

-- The first pass enters a label into the table.
unfoldable pub enter : (ℕ → Bool) → Place → List ℕ → Result (List Label)
enter grows at name =
    if at.resolve then ok at.labels else add_label grows at.labels name at.off at.lineno

-- What is left of the line when the text before its first colon is no label. `trim` has cut that text at
-- its last blanks by then, and with it the line, since the blanks are NULs now.
abbrev pub cut_line : List ℕ → List ℕ → List ℕ
cut_line before line = if str_eq (trim_end before) before then line else trim_end before

-- The line from its label on; `none` is a line without a colon.
unfoldable pub process_colon :
    (ℕ → Bool) → Place → List ℕ → Option (List ℕ × List ℕ) → Result (List Label × Emitted)
process_colon grows at line none = do e ← emit_line at line; ok (at.labels, e)
process_colon grows at line (some (before, behind)) =
    let name = trim_end before in
    let defined = do
      labels ← enter grows at name
      e ← emit_line (record at { labels = labels }) (trim behind)
      ok (labels, e)
    in if is_ident name
      then defined
      else (do e ← emit_line at (cut_line before line); ok (at.labels, e))

unfoldable pub process_line : (ℕ → Bool) → Place → List ℕ → Result (List Label × Emitted)
process_line grows at line = let p = trim line in process_colon grows at p (split_at b':' p)
