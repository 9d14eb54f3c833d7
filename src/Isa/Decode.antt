-- ===== src/Isa/Decode.antt =====
-- The encoder of emu/isa.c against the fields that emu/emu.c takes a word apart into: over the whole
-- table, opcode and operands of an encoded word read back.
use linux_0_11_symcc_on_turi.Base.{
  ℕ, zero, suc, ◌+◌, ◌≡◌, refl, ap, sym, ◌∙◌, Bool, true, ◌&&◌, List, [], ◌∷◌, Option, none, some,
  get_or, map, get_elem?, length,
}
use linux_0_11_symcc_on_turi.Isa.Fields.{slice}
use linux_0_11_symcc_on_turi.Isa.Writes.{
  Write, apart_all, ok_writes, apply-Reads, slice-apply, and_parts,
}
use linux_0_11_symcc_on_turi.Isa.Table.{OpField, InsnWord, Insn, isa_table}
use linux_0_11_symcc_on_turi.Isa.Encode.{put_ops, encode_words}
use linux_0_11_symcc_on_turi.Isa.Operands.{
  width, second_write, writes, put_ops-apply, ValuesFit, OperandsRead, writes-InRange,
  Reads-OperandsRead,
}

-- Whether writes are in order does not depend on their values.
abbrev strip : Write → Write
strip w = record w { value = 0 }

apart_all-strip : (q u : ℕ) (ws : List Write) → apart_all q u (map strip ws) ≡ apart_all q u ws
apart_all-strip q u [] = refl
apart_all-strip q u (w ∷ ws) = rw (apart_all-strip q u ws)

ok_writes-strip : (x : ℕ) (ws : List Write) → ok_writes x (map strip ws) ≡ ok_writes x ws
ok_writes-strip x [] = refl
ok_writes-strip x (w ∷ ws) = rw (apart_all-strip w.pos w.width ws, ok_writes-strip x ws)

same_places :
    (ops : List OpField) (vals : List ℕ) (i j : ℕ)
    → map strip (writes ops vals i) ≡ map strip (writes ops [] j)
same_places [] vals i j = refl
same_places (f ∷ ops) vals i j =
    ap (λ ws. record { pos = f.pos; width = width f.kind; value = 0 } ∷ ws)
      (second (same_places ops vals (i + 1) (j + 1)) f.second)
  where
    second :
        map strip (writes ops vals (i + 1)) ≡ map strip (writes ops [] (j + 1))
        → (q : Option ℕ)
        → map strip (second_write q (width f.kind) (get_or vals i 0) (writes ops vals (i + 1)))
          ≡ map strip (second_write q (width f.kind) 0 (writes ops [] (j + 1)))
    second ih none = ih
    second ih (some q) = ap (λ ws. record { pos = q; width = width f.kind; value = 0 } ∷ ws) ih

abbrev word_ok : InsnWord → Bool
word_ok w = ok_writes w.bits (writes w.ops [] 0) && apart_all 24 8 (writes w.ops [] 0)

abbrev words_ok : List InsnWord → Bool
words_ok [] = true
words_ok (w ∷ ws) = word_ok w && words_ok ws

abbrev table_ok : List Insn → Bool
table_ok [] = true
table_ok (i ∷ table) = words_ok i.words && table_ok table

-- Every word of the table has room for its operands.
isa_table_ok : table_ok isa_table ≡ true
isa_table_ok = refl

module _ (w : InsnWord) (ok : word_ok w ≡ true) (vals : List ℕ) (vi : ℕ) where
  in_order :
      (ok_writes w.bits (writes w.ops vals vi) ≡ true)
      × (apart_all 24 8 (writes w.ops vals vi) ≡ true)
  in_order =
      let both = and_parts (ok_writes w.bits (writes w.ops [] 0)) _ ok in
      let places = same_places w.ops vals vi 0 in
      (
        sym (ok_writes-strip w.bits (writes w.ops vals vi))
            ∙ ap (ok_writes w.bits) places
            ∙ ok_writes-strip w.bits (writes w.ops [] 0)
            ∙ both.0,
        sym (apart_all-strip 24 8 (writes w.ops vals vi))
            ∙ ap (apart_all 24 8) places
            ∙ apart_all-strip 24 8 (writes w.ops [] 0)
            ∙ both.1,
      )

  word-Reads :
      ValuesFit w.ops vals vi
      → (slice 24 8 (put_ops w.ops vals vi w.bits) ≡ slice 24 8 w.bits)
        × OperandsRead w.ops vals vi (put_ops w.ops vals vi w.bits)
  word-Reads fit =
      let range = writes-InRange w.ops vals vi fit in
      rw (put_ops-apply w.ops vals vi w.bits) (
        slice-apply (writes w.ops vals vi) w.bits 24 8 in_order.0 range in_order.1,
        Reads-OperandsRead w.ops vals vi _
            (apply-Reads (writes w.ops vals vi) w.bits in_order.0 range),
      )

abbrev pub WordsFit : List InsnWord → List ℕ → ℕ → Type 0
WordsFit [] vals vi = Unit
WordsFit (w ∷ ws) vals vi = ValuesFit w.ops vals vi × WordsFit ws vals (vi + length w.ops)

-- Word for word: the opcode is the table's, and the operands read back.
abbrev pub WordsRead : List InsnWord → List ℕ → ℕ → List ℕ → Type 0
WordsRead [] vals vi xs = xs ≡ []
WordsRead (w ∷ ws) vals vi [] = ⊥
WordsRead (w ∷ ws) vals vi (x ∷ xs) =
    (slice 24 8 x ≡ slice 24 8 w.bits)
    × OperandsRead w.ops vals vi x
    × WordsRead ws vals (vi + length w.ops) xs

encode_words-Reads :
    (ws : List InsnWord) (vals : List ℕ) (vi : ℕ)
    → words_ok ws ≡ true
    → WordsFit ws vals vi
    → WordsRead ws vals vi (encode_words ws vals vi)
unfolding encode_words
encode_words-Reads [] vals vi ok fit = refl
encode_words-Reads (w ∷ ws) vals vi ok fit =
    let both = and_parts (word_ok w) _ ok in
    let first = word-Reads w both.0 vals vi fit.0 in
    (first.0, first.1, encode_words-Reads ws vals (vi + length w.ops) both.1 fit.1)

table_ok-get :
    (table : List Insn) (k : ℕ) (i : Insn)
    → table_ok table ≡ true
    → get_elem? table k ≡ some i
    → words_ok i.words ≡ true
table_ok-get [] k i ok e = cc
table_ok-get (j ∷ table) zero i ok e =
    let same : j ≡ i = cc in rw same at ((and_parts (words_ok j.words) _ ok).0)
table_ok-get (j ∷ table) (suc k) i ok e =
    table_ok-get table k i (and_parts (words_ok j.words) _ ok).1 e

-- For every instruction of the table and all operand values that fit their fields, each word that
-- the encoder makes keeps the opcode byte of the table, and each operand reads back from its field.
pub isa_encode-Reads :
    (k : ℕ) (i : Insn) (vals : List ℕ)
    → get_elem? isa_table k ≡ some i
    → WordsFit i.words vals 0
    → WordsRead i.words vals 0 (encode_words i.words vals 0)
isa_encode-Reads k i vals e fit =
    encode_words-Reads i.words vals 0 (table_ok-get isa_table k i isa_table_ok e) fit
