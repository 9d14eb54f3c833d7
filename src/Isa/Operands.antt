-- ===== src/Isa/Operands.antt =====
-- The operands that the encoder of emu/isa.c puts into a word, as writes to places of the word, and what
-- it means that they read back.
use linux_0_11_symcc_on_turi.Base.{
  ℕ, ◌+◌, ◌^◌, ◌<◌, ◌≡◌, refl, List, [], ◌∷◌, Option, none, some, bit_or, All, get_or,
}
use linux_0_11_symcc_on_turi.Base.Word.{u32, ◌<<◌}
use linux_0_11_symcc_on_turi.Isa.Fields.{slice}
use linux_0_11_symcc_on_turi.Isa.Writes.{Write, InRange, Reads, apply}
use linux_0_11_symcc_on_turi.Isa.Table.{OpKind, op_reg, op_imm, OpField}
use linux_0_11_symcc_on_turi.Isa.Encode.{put_second, put_field, put_ops}

-- A register field has four bits, an immediate sixteen.
abbrev pub width : OpKind → ℕ
width op_reg = 4
width op_imm = 16

abbrev pub second_write : Option ℕ → ℕ → ℕ → List Write → List Write
second_write none w v ws = ws
second_write (some q) w v ws = record { pos = q; width = w; value = v } ∷ ws

-- The operands of a word as writes.
abbrev pub writes : List OpField → List ℕ → ℕ → List Write
writes [] vals vi = []
writes (f ∷ ops) vals vi =
    record { pos = f.pos; width = width f.kind; value = get_or vals vi 0 }
    ∷ second_write f.second (width f.kind) (get_or vals vi 0) (writes ops vals (vi + 1))

pub put_ops-apply :
    (ops : List OpField) (vals : List ℕ) (vi x : ℕ)
    → put_ops ops vals vi x ≡ apply (writes ops vals vi) x
unfolding put_ops put_field put_second apply
put_ops-apply [] vals vi x = refl
put_ops-apply (f ∷ ops) vals vi x = second (put_ops-apply ops vals (vi + 1)) f.second
  where
    second :
        ((y : ℕ) → put_ops ops vals (vi + 1) y ≡ apply (writes ops vals (vi + 1)) y)
        → (q : Option ℕ)
        → put_ops ops vals
            (vi + 1)
            (put_second q (get_or vals vi 0) (bit_or x (u32 (get_or vals vi 0 << f.pos))))
          ≡ apply
              (second_write q (width f.kind) (get_or vals vi 0) (writes ops vals (vi + 1)))
              (bit_or x (u32 (get_or vals vi 0 << f.pos)))
    second ih none = ih _
    second ih (some q) = ih _

-- The operand values are within their fields.
abbrev pub ValuesFit : List OpField → List ℕ → ℕ → Type 0
ValuesFit [] vals vi = Unit
ValuesFit (f ∷ ops) vals vi = (get_or vals vi 0 < 2 ^ width f.kind) × ValuesFit ops vals (vi + 1)

abbrev pub SecondReads : Option ℕ → ℕ → ℕ → ℕ → Type 0
SecondReads none w v x = Unit
SecondReads (some q) w v x = slice q w x ≡ v

-- Each operand reads back from the word `x`, at both places where it has two.
abbrev pub OperandsRead : List OpField → List ℕ → ℕ → ℕ → Type 0
OperandsRead [] vals vi x = Unit
OperandsRead (f ∷ ops) vals vi x =
    (slice f.pos (width f.kind) x ≡ get_or vals vi 0)
    × SecondReads f.second (width f.kind) (get_or vals vi 0) x
    × OperandsRead ops vals (vi + 1) x

pub writes-InRange :
    (ops : List OpField) (vals : List ℕ) (vi : ℕ)
    → ValuesFit ops vals vi
    → All InRange (writes ops vals vi)
writes-InRange [] vals vi h = tt
writes-InRange (f ∷ ops) vals vi h = (h.0, second (writes-InRange ops vals (vi + 1) h.1) f.second)
  where
    second :
        All InRange (writes ops vals (vi + 1))
        → (q : Option ℕ)
        → All InRange (second_write q (width f.kind) (get_or vals vi 0) (writes ops vals (vi + 1)))
    second ih none = ih
    second ih (some q) = (h.0, ih)

pub Reads-OperandsRead :
    (ops : List OpField) (vals : List ℕ) (vi x : ℕ)
    → All (Reads x) (writes ops vals vi)
    → OperandsRead ops vals vi x
Reads-OperandsRead [] vals vi x h = tt
Reads-OperandsRead (f ∷ ops) vals vi x h =
    second (Reads-OperandsRead ops vals (vi + 1) x) f.second h.1
  where
    second :
        (All (Reads x) (writes ops vals (vi + 1)) → OperandsRead ops vals (vi + 1) x)
        → (q : Option ℕ)
        → All
            (Reads x)
            (second_write q (width f.kind) (get_or vals vi 0) (writes ops vals (vi + 1)))
        → (slice f.pos (width f.kind) x ≡ get_or vals vi 0)
          × SecondReads q (width f.kind) (get_or vals vi 0) x
          × OperandsRead ops vals (vi + 1) x
    second ih none k = (h.0, tt, ih k)
    second ih (some q) k = (h.0, k.0, ih k.1)
