-- ===== src/Isa/Encode.antt =====
-- The functions of emu/isa.c: the search by name, the register names, and the encoder.
use linux_0_11_symcc_on_turi.Base.{
  ℕ, ◌+◌, List, [], ◌∷◌, ◌++◌, Option, none, some, if◌then◌else◌, get_or, bit_or, length,
}
use linux_0_11_symcc_on_turi.Base.Text.{codes, str_eq}
use linux_0_11_symcc_on_turi.Base.Word.{u8, u32, ◌<<◌, ◌>>◌}
use linux_0_11_symcc_on_turi.Isa.Table.{OpField, InsnWord, Insn, isa_table}

-- `isa_find`: the first entry of that name; the table is an argument here.
unfoldable pub find_in : List Insn → List ℕ → Option Insn
find_in [] name = none
find_in (i ∷ table) name = if str_eq i.name name then some i else find_in table name

unfoldable pub isa_find : List ℕ → Option Insn
unfolding find_in
isa_find name = find_in isa_table name

abbrev pub reg_names : List (List ℕ)
reg_names =
    codes "zr"
    ∷ codes "r1"
    ∷ codes "r2"
    ∷ codes "r3"
    ∷ codes "r4"
    ∷ codes "r5"
    ∷ codes "r6"
    ∷ codes "r7"
    ∷ codes "r8"
    ∷ codes "r9"
    ∷ codes "r10"
    ∷ codes "r11"
    ∷ codes "r12"
    ∷ codes "r13"
    ∷ codes "sp"
    ∷ codes "flags"
    ∷ []

-- `isa_reg_index`: the place of the name from `i` on; `none` is -1.
unfoldable pub index_from : ℕ → List (List ℕ) → List ℕ → Option ℕ
index_from i [] name = none
index_from i (r ∷ names) name = if str_eq r name then some i else index_from (i + 1) names name

unfoldable pub isa_reg_index : List ℕ → Option ℕ
unfolding index_from
isa_reg_index name = index_from 0 reg_names name

-- `word |= v << pos[0]`, and the same at `pos[1]` where there is one.
unfoldable pub put_second : Option ℕ → ℕ → ℕ → ℕ
put_second none v x = x
put_second (some q) v x = bit_or x (u32 (v << q))

unfoldable pub put_field : OpField → ℕ → ℕ → ℕ
unfolding put_second
put_field f v x = put_second f.second v (bit_or x (u32 (v << f.pos)))

-- The operands of one word, from `vals[vi]` on.
unfoldable pub put_ops : List OpField → List ℕ → ℕ → ℕ → ℕ
unfolding put_field
put_ops [] vals vi x = x
put_ops (f ∷ ops) vals vi x = put_ops ops vals (vi + 1) (put_field f (get_or vals vi 0) x)

unfoldable pub big_endian : ℕ → List ℕ
big_endian x = u8 (x >> 24) ∷ u8 (x >> 16) ∷ u8 (x >> 8) ∷ u8 x ∷ []

-- The words of an instruction; `vi` runs on from word to word.
unfoldable pub encode_words : List InsnWord → List ℕ → ℕ → List ℕ
unfolding put_ops
encode_words [] vals vi = []
encode_words (w ∷ words) vals vi =
    put_ops w.ops vals vi w.bits ∷ encode_words words vals (vi + length w.ops)

unfoldable pub emit_words : List ℕ → List ℕ
unfolding big_endian
emit_words [] = []
emit_words (x ∷ xs) = big_endian x ++ emit_words xs

-- `isa_encode`: the bytes of `out`. The count that it returns is their number.
unfoldable pub isa_encode : Insn → List ℕ → List ℕ
unfolding encode_words emit_words
isa_encode i vals = emit_words (encode_words i.words vals 0)
