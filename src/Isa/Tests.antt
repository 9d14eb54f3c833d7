-- ===== src/Isa/Tests.antt =====
-- Instructions of emu/isa.c encoded, and the theorems of this part at them.
use linux_0_11_symcc_on_turi.Base.{◌≡◌, ◌≢◌, refl, arith, [], ◌∷◌, All}
use linux_0_11_symcc_on_turi.Base.Word.{◌>>◌}
use linux_0_11_symcc_on_turi.Isa.Table.{Insn, insn, word, reg, imm}
use linux_0_11_symcc_on_turi.Isa.Encode.{encode_words, emit_words}
use linux_0_11_symcc_on_turi.Isa.Decode.{WordsRead, isa_encode-Reads}
use linux_0_11_symcc_on_turi.Isa.Known.{out_imm_bits, isa_table-decode, rd32-emit_words}
use linux_0_11_symcc_on_turi.Emu.State.{rd32}
use linux_0_11_symcc_on_turi.Emu.Decode.{unknown, decode}
use linux_0_11_symcc_on_turi.Emu.Run.{image}

-- The immediate form of `mov`.
abbrev mov_imm : Insn
mov_imm = insn "mov" (word 0x31000000 0xFFF00000 (reg 20 ∷ imm 0 ∷ []) ∷ []) 2

isa_encode-Reads_example :
    WordsRead mov_imm.words (1 ∷ 42 ∷ []) 0 (encode_words mov_imm.words (1 ∷ 42 ∷ []) 0)
isa_encode-Reads_example =
    isa_encode-Reads 11 mov_imm (1 ∷ 42 ∷ []) refl ((omega arith, (omega arith, tt)), tt)

isa_table-decode_example :
    All (λ w. w.bits ≢ out_imm_bits → decode (w.bits >> 24) ≢ unknown) mov_imm.words
isa_table-decode_example = isa_table-decode 11 mov_imm refl

rd32-emit_words_example : rd32 (image (emit_words (0x3110002A ∷ 0x580F0004 ∷ []))) 4 ≡ 0x580F0004
rd32-emit_words_example =
    rd32-emit_words (0x3110002A ∷ 0x580F0004 ∷ []) 1 (omega arith, (omega arith, tt)) (omega arith)

-- The immediate form of `out` is an unknown opcode of the simulator.
out_imm_unknown : decode (out_imm_bits >> 24) ≡ unknown
unfolding decode
out_imm_unknown = refl
