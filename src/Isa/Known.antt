-- ===== src/Isa/Known.antt =====
-- The table of emu/isa.c against the switch of emu/emu.c: which encodings the simulator knows, and the
-- bytes of an encoding as the simulator fetches them.
use linux_0_11_symcc_on_turi.Base.{
  ℕ, zero, suc, ◌*◌, ◌^◌, ◌<◌, ◌≡◌, ◌≢◌, refl, arith, ◌∙◌, Bool, true, false, ◌&&◌, ◌||◌, ◌==◌,
  List, [], ◌∷◌, some, All, get_or, get_elem?, length,
}
use native.Mathlib.Nat.{suc-add}
use linux_0_11_symcc_on_turi.Base.Word.{u8, ◌>>◌}
use linux_0_11_symcc_on_turi.Isa.Writes.{and_parts}
use linux_0_11_symcc_on_turi.Isa.Table.{InsnWord, Insn, isa_table}
use linux_0_11_symcc_on_turi.Isa.Encode.{emit_words, big_endian}
use linux_0_11_symcc_on_turi.Emu.State.{rd32}
use linux_0_11_symcc_on_turi.Emu.Decode.{Instr, unknown, decode}
use linux_0_11_symcc_on_turi.Emu.Bytes.{join4}
use linux_0_11_symcc_on_turi.Emu.Run.{image}

abbrev is_known : Instr → Bool
is_known unknown = false
is_known _ = true

abbrev pub out_imm_bits : ℕ
out_imm_bits = 0x12000000

abbrev known_words : List InsnWord → Bool
known_words [] = true
known_words (w ∷ ws) =
    (is_known (decode (w.bits >> 24)) || (w.bits == out_imm_bits)) && known_words ws

abbrev known_table : List Insn → Bool
known_table [] = true
known_table (i ∷ table) = known_words i.words && known_table table

isa_table_known : known_table isa_table ≡ true
unfolding decode
isa_table_known = refl

known_words-All :
    (ws : List InsnWord)
    → known_words ws ≡ true
    → All (λ w. w.bits ≢ out_imm_bits → decode (w.bits >> 24) ≢ unknown) ws
known_words-All [] h = tt
known_words-All (w ∷ ws) h =
    let both = and_parts (is_known (decode (w.bits >> 24)) || (w.bits == out_imm_bits)) _ h in
    (known (decode (w.bits >> 24)) both.0, known_words-All ws both.1)
  where
    known :
        (i : Instr)
        → (is_known i || (w.bits == out_imm_bits)) ≡ true
        → w.bits ≢ out_imm_bits
        → i ≢ unknown
    known unknown e ne = absurd (ground arith)
    known _ e ne = cc

known_table-get :
    (table : List Insn) (k : ℕ) (i : Insn)
    → known_table table ≡ true
    → get_elem? table k ≡ some i
    → known_words i.words ≡ true
known_table-get [] k i ok e = cc
known_table-get (j ∷ table) zero i ok e =
    let same : j ≡ i = cc in rw same at ((and_parts (known_words j.words) _ ok).0)
known_table-get (j ∷ table) (suc k) i ok e =
    known_table-get table k i (and_parts (known_words j.words) _ ok).1 e

-- Every word of every instruction of the table has an opcode that the simulator's switch knows,
-- but for the immediate form of `out`, whose fixed bits are 0x12000000.
pub isa_table-decode :
    (k : ℕ) (i : Insn)
    → get_elem? isa_table k ≡ some i
    → All (λ w. w.bits ≢ out_imm_bits → decode (w.bits >> 24) ≢ unknown) i.words
isa_table-decode k i e = known_words-All i.words (known_table-get isa_table k i isa_table_known e)

-- Four bytes further.
rd32_skip :
    (a b c d : ℕ) (bytes : List ℕ) (k : ℕ)
    → rd32 (image (a ∷ b ∷ c ∷ d ∷ bytes)) (suc (suc (suc (suc k)))) ≡ rd32 (image bytes) k
unfolding rd32 image
rd32_skip a b c d bytes k = simp suc-add

-- The bytes that the encoder makes of words are fetched as those words: the simulator reads the
-- `j`-th word back at the address `4 * j`.
pub rd32-emit_words :
    (xs : List ℕ) (j : ℕ)
    → All (λ x. x < 2 ^ 32) xs
    → j < length xs
    → rd32 (image (emit_words xs)) (4 * j) ≡ get_or xs j 0
rd32-emit_words [] j h lt = absurd (omega arith)
rd32-emit_words (x ∷ xs) zero h lt =
    unfold rd32 image emit_words big_endian in
    (join4 (u8 (x >> 24)) (u8 (x >> 16)) (u8 (x >> 8)) (u8 x) (omega arith) (omega arith)
        (omega arith)
      ∙ omega (arith, h.0))
rd32-emit_words (x ∷ xs) (suc j) h lt =
    let four : 4 * suc j ≡ suc (suc (suc (suc (4 * j)))) = omega arith in
    rw four (further x xs (4 * j) ∙ rd32-emit_words xs j h.1 (omega arith))
  where
    further :
        (y : ℕ) (ys : List ℕ) (k : ℕ)
        → rd32 (image (emit_words (y ∷ ys))) (suc (suc (suc (suc k))))
          ≡ rd32 (image (emit_words ys)) k
    further y ys k = unfold emit_words big_endian in rd32_skip _ _ _ _ (emit_words ys) k
