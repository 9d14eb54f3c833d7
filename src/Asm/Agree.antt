-- ===== src/Asm/Agree.antt =====
-- The two passes of emu/asm.c on one line: what the second one accepts, the first one has accepted with
-- the same size.
use linux_0_11_symcc_on_turi.Base.{
  ℕ, zero, suc, ◌+◌, ◌-◌, ◌*◌, ◌≡◌, refl, ap, Bool, true, false, ◌&&◌, ltb, leb, ◌==◌,
  if◌then◌else◌, List, [], ◌∷◌, length, Option, none, some, Bool-cases, inl, inr,
}
use linux_0_11_symcc_on_turi.Base.Text.{str_eq}
use linux_0_11_symcc_on_turi.Base.Word.{u32, ◌<<◌}
use linux_0_11_symcc_on_turi.Isa.Table.{Insn, isa_table}
use linux_0_11_symcc_on_turi.Isa.Encode.{isa_encode}
use linux_0_11_symcc_on_turi.User.Convert.{is_alpha}
use linux_0_11_symcc_on_turi.Asm.Scan.{parse_num, trim, take}
use linux_0_11_symcc_on_turi.Asm.Variants.{ParsedAgrees, parse_operands-agrees, length-isa_encode}
use linux_0_11_symcc_on_turi.Asm.Labels.{Result, ok, err, Label, unterminated, bad_line}
use linux_0_11_symcc_on_turi.Asm.Operands.{
  Parsed, matched, no_match, failed, parse_operands, split_at,
}
use linux_0_11_symcc_on_turi.Asm.Emit.{
  Emitted, Place, deliver, emit_from, emit_insn, be_bytes, emit_number, emit_data, data_line,
  or_else, data_of, datas, emit_string, zeros, pad_to, emit_pad, split_word, emit_line,
}

-- The results of a line in the first pass and in the second.
abbrev pub Agrees : Result Emitted → Result Emitted → Type 0
Agrees r (err l why) = Unit
Agrees (ok d) (ok e) = (d.size ≡ e.size) × (d.bytes ≡ []) × (length e.bytes ≡ e.size)
Agrees (err l why) (ok e) = ⊥

-- The first and the second pass at the same line.
module _ (off cap n : ℕ) (ls ms : List Label) where
  abbrev pub first_at : Place
  first_at = record { resolve = false; labels = ls; off = off; cap = cap; lineno = n }

  abbrev pub second_at : Place
  second_at = record { resolve = true; labels = ms; off = off; cap = cap; lineno = n }

  deliver-Agrees :
      (size : ℕ) (bytes bytes' : List ℕ)
      → length bytes' ≡ size
      → Agrees (deliver first_at size bytes) (deliver second_at size bytes')
  unfolding deliver
  deliver-Agrees size bytes bytes' h = elim (Bool-cases (ltb cap (u32 (off + size)))) [
    | inl e ↦ rw e tt
    | inr e ↦ rw e (refl, refl, h)
  ]

  -- What a matching variant leads to.
  abbrev variant : Place → Insn → Parsed → Result Emitted → Result Emitted
  variant at i p rest = elim p [
    | matched vals ↦ deliver at (length i.words * 4) (isa_encode i vals)
    | no_match ↦ rest
    | failed why ↦ err at.lineno why
  ]

  variant-Agrees :
      (i : Insn) (p p' : Parsed) (r r' : Result Emitted)
      → ParsedAgrees p p'
      → Agrees r r'
      → Agrees (variant first_at i p r) (variant second_at i p' r')
  variant-Agrees i p (failed why) r r' h k = tt
  variant-Agrees i no_match no_match r r' h k = k
  variant-Agrees i (matched vs) (matched ws) r r' h k =
      deliver-Agrees (length i.words * 4) (isa_encode i vs) (isa_encode i ws)
        (length-isa_encode i ws)
  variant-Agrees i (matched vs) no_match r r' h k = absurd h
  variant-Agrees i (failed why) no_match r r' h k = absurd h
  variant-Agrees i no_match (matched ws) r r' h k = absurd h
  variant-Agrees i (failed why) (matched ws) r r' h k = absurd h

  emit_from-Agrees :
      (table : List Insn) (mnem ops : List ℕ)
      → Agrees (emit_from first_at mnem ops table) (emit_from second_at mnem ops table)
  unfolding emit_from
  emit_from-Agrees [] mnem ops = tt
  emit_from-Agrees (i ∷ table) mnem ops =
      let more = emit_from-Agrees table mnem ops in
      elim (Bool-cases (str_eq i.name mnem)) [
        | inl e ↦ rw e (
            variant-Agrees i (parse_operands ls false i ops) (parse_operands ms true i ops)
              (emit_from first_at mnem ops table) (emit_from second_at mnem ops table)
              (parse_operands-agrees ls ms i ops) more)
        | inr e ↦ rw e more
      ]

  length-be_bytes : (w v : ℕ) → length (be_bytes w v) ≡ w
  unfolding be_bytes
  length-be_bytes zero v = refl
  length-be_bytes (suc w) v = ap (λ n. suc n) (length-be_bytes w v)

  length-zeros : (w : ℕ) → length (zeros w) ≡ w
  length-zeros zero = refl
  length-zeros (suc w) = ap (λ n. suc n) (length-zeros w)

  emit_number-Agrees :
      (width : ℕ) (v : Option ℕ)
      → Agrees (emit_number first_at width v) (emit_number second_at width v)
  unfolding emit_number
  emit_number-Agrees width none = tt
  emit_number-Agrees width (some v) = elim (Bool-cases (ltb width 4 && leb (1 << (width * 8)) v)) [
    | inl e ↦ rw e tt
    | inr e ↦
        rw e (deliver-Agrees width (be_bytes width v) (be_bytes width v) (length-be_bytes width v))
  ]

  -- A line with data or without.
  abbrev OptionAgrees : Option (Result Emitted) → Option (Result Emitted) → Type 0
  OptionAgrees none none = Unit
  OptionAgrees (some r) (some r') = Agrees r r'
  OptionAgrees _ _ = ⊥

  emit_data-agrees :
      (rest : List ℕ) → OptionAgrees (emit_data first_at rest) (emit_data second_at rest)
  unfolding emit_data
  emit_data-agrees rest = found (data_of datas rest)
    where
      found :
          (d : Option (ℕ × List ℕ)) → OptionAgrees (data_line first_at d) (data_line second_at d)
      found none = tt
      found (some (w, p)) = elim (Bool-cases (w == 8)) [
        | inl e ↦ rw e tt
        | inr e ↦ rw e (emit_number-Agrees w (parse_num p))
      ]

  or_else-Agrees :
      (d d' : Option (Result Emitted)) (r r' : Result Emitted)
      → OptionAgrees d d'
      → Agrees r r'
      → Agrees (or_else d r) (or_else d' r')
  or_else-Agrees none none r r' h k = k
  or_else-Agrees (some d) (some d') r r' h k = h
  or_else-Agrees none (some d) r r' h k = absurd h
  or_else-Agrees (some d) none r r' h k = absurd h

  emit_string-Agrees :
      (rest : List ℕ) → Agrees (emit_string first_at rest) (emit_string second_at rest)
  unfolding emit_string
  emit_string-Agrees rest = quoted (split_at b'"' rest)
    where
      quoted :
          (d : Option (List ℕ × List ℕ))
          → Agrees
              (elim d as (λ _. Result Emitted) [
                | none ↦ err n unterminated
                | some (s, b) ↦ deliver first_at (length s) s
              ])
              (elim d as (λ _. Result Emitted) [
                | none ↦ err n unterminated
                | some (s, b) ↦ deliver second_at (length s) s
              ])
      quoted none = tt
      quoted (some (s, b)) = deliver-Agrees (length s) s s refl

  emit_pad-Agrees : (rest : List ℕ) → Agrees (emit_pad first_at rest) (emit_pad second_at rest)
  unfolding emit_pad
  emit_pad-Agrees rest = padded (parse_num rest)
    where
      padded : (t : Option ℕ) → Agrees (pad_to first_at t) (pad_to second_at t)
      padded none = unfold pad_to in tt
      padded (some t) =
          unfold pad_to in
          elim (Bool-cases (ltb t off)) [
            | inl e ↦ rw e tt
            | inr e ↦ elim (Bool-cases (ltb cap (t - off))) [
              | inl f ↦ rw (e, f) tt
              | inr f ↦ rw (e, f) (refl, refl, length-zeros (t - off))
            ]
          ]

  emit_insn-Agrees :
      (mnem ops : List ℕ) → Agrees (emit_insn first_at mnem ops) (emit_insn second_at mnem ops)
  unfolding emit_insn
  emit_insn-Agrees mnem ops = emit_from-Agrees isa_table mnem ops

  choice-Agrees :
      (b : Bool) (r r' t t' : Result Emitted)
      → Agrees r r'
      → Agrees t t'
      → Agrees (if b then r else t) (if b then r' else t')
  choice-Agrees true r r' t t' h k = h
  choice-Agrees false r r' t t' h k = k

  -- A line without its label that the second pass accepts, with any label table, the first one accepts
  -- with the same size and without bytes, and the second one's bytes are as many as that size.
  pub emit_line-Agrees :
      (line : List ℕ) → Agrees (emit_line first_at line) (emit_line second_at line)
  unfolding emit_line
  emit_line-Agrees [] = (refl, refl, refl)
  emit_line-Agrees (c ∷ s) = choice-Agrees (c == b'@') _ _ _ _ (emit_pad-Agrees s) (
      choice-Agrees (c == b'"') _ _ _ _ (emit_string-Agrees s) (
        choice-Agrees (is_alpha c) _ _ (err n bad_line) (err n bad_line)
          (or_else-Agrees _ _ _ _ (emit_data-agrees (c ∷ s))
            (emit_insn-Agrees (take 63 (split_word (c ∷ s)).0) (trim (split_word (c ∷ s)).1)))
          tt))
