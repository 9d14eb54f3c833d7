-- ===== src/Isa/Table.antt =====
-- The instruction table of emu/isa.c, in its order. A word is given by its fixed bits, its mask and
-- its operand fields; `OP_NONE` entries, which the encoder skips, are left out.
use linux_0_11_symcc_on_turi.Base.{ℕ, List, [], ◌∷◌, ◌++◌, Option, none, some}
use linux_0_11_symcc_on_turi.Base.Text.{codes}
use Prim.Native.String.{String}

pub data OpKind : Type 0 where
  op_reg op_imm : OpKind

-- `pos[1]` is -1 (`none`), or a second place for the same value.
pub record OpField : Type 0 where
  pub kind : OpKind
  pub pos : ℕ
  pub second : Option ℕ

pub record InsnWord : Type 0 where
  pub bits : ℕ
  pub mask : ℕ
  pub ops : List OpField

-- `nwords` is the number of `words`.
pub record Insn : Type 0 where
  pub name : List ℕ
  pub words : List InsnWord
  pub opcount : ℕ

-- `REG(p)`, `IMM(p)` and the field of `not`, which stands in two places.
abbrev pub reg : ℕ → OpField
reg p = record { kind = op_reg; pos = p; second = none }

abbrev pub imm : ℕ → OpField
imm p = record { kind = op_imm; pos = p; second = none }

abbrev reg_twice : ℕ → ℕ → OpField
reg_twice p q = record { kind = op_reg; pos = p; second = some q }

abbrev pub word : ℕ → ℕ → List OpField → InsnWord
word bits mask ops = record { bits = bits; mask = mask; ops = ops }

abbrev pub insn : String → List InsnWord → ℕ → Insn
insn name words opcount = record { name = codes name; words = words; opcount = opcount }

-- IO.
abbrev io_insns : List Insn
io_insns =
    insn "nop" (word 0x00000000 0xFFFFFFFF [] ∷ []) 0
    ∷ insn "in" (word 0x01000000 0xFF00FFFF (reg 20 ∷ []) ∷ []) 1
    ∷ insn "out" (word 0x02000000 0xFFFF00FF (reg 8 ∷ []) ∷ []) 1
    ∷ insn "out" (word 0x12000000 0xFFFF0000 (imm 0 ∷ []) ∷ []) 1
    ∷ insn "keyboard" (word 0x03000000 0xFF00FFFF (reg 20 ∷ []) ∷ []) 1
    ∷ insn "screen" (word 0x04000000 0xFFF0F0FF (reg 16 ∷ reg 8 ∷ []) ∷ []) 2
    ∷ insn "screen" (word 0x14000000 0xFFF00000 (reg 16 ∷ imm 0 ∷ []) ∷ []) 2
    ∷ insn "time_0" (word 0x05000000 0xFF00FFFF (reg 20 ∷ []) ∷ []) 1
    ∷ insn "time_1" (word 0x06000000 0xFF00FFFF (reg 20 ∷ []) ∷ []) 1
    ∷ insn "counter" (word 0x07000000 0xFF00FFFF (reg 20 ∷ []) ∷ []) 1
    ∷ []

-- The aliases, before the ALU group they belong to.
abbrev alias_insns : List Insn
alias_insns =
    insn "mov" (word 0x21000000 0xFFF0F0FF (reg 20 ∷ reg 8 ∷ []) ∷ []) 2
    ∷ insn "mov" (word 0x31000000 0xFFF00000 (reg 20 ∷ imm 0 ∷ []) ∷ []) 2
    ∷ insn "neg" (word 0x25000000 0xFFF0F0FF (reg 20 ∷ reg 8 ∷ []) ∷ []) 2
    ∷ insn "neg" (word 0x35000000 0xFFF00000 (reg 20 ∷ imm 0 ∷ []) ∷ []) 2
    ∷ insn "not" (word 0x23000000 0xFF00F0FF (reg 20 ∷ reg_twice 16 8 ∷ []) ∷ []) 2
    ∷ insn "not" (word 0x33000000 0xFFF00000 (reg 20 ∷ imm 0 ∷ []) ∷ []) 2
    ∷ []

-- ALU, register operand.
abbrev alu_reg_insns : List Insn
alu_reg_insns =
    insn "nand" (word 0x20000000 0xFF00F0FF (reg 20 ∷ reg 16 ∷ reg 8 ∷ []) ∷ []) 3
    ∷ insn "or" (word 0x21000000 0xFF00F0FF (reg 20 ∷ reg 16 ∷ reg 8 ∷ []) ∷ []) 3
    ∷ insn "and" (word 0x22000000 0xFF00F0FF (reg 20 ∷ reg 16 ∷ reg 8 ∷ []) ∷ []) 3
    ∷ insn "nor" (word 0x23000000 0xFF00F0FF (reg 20 ∷ reg 16 ∷ reg 8 ∷ []) ∷ []) 3
    ∷ insn "add" (word 0x24000000 0xFF00F0FF (reg 20 ∷ reg 16 ∷ reg 8 ∷ []) ∷ []) 3
    ∷ insn "sub" (word 0x25000000 0xFF00F0FF (reg 20 ∷ reg 16 ∷ reg 8 ∷ []) ∷ []) 3
    ∷ insn "xor" (word 0x26000000 0xFF00F0FF (reg 20 ∷ reg 16 ∷ reg 8 ∷ []) ∷ []) 3
    ∷ insn "lsl" (word 0x27000000 0xFF00F0FF (reg 20 ∷ reg 16 ∷ reg 8 ∷ []) ∷ []) 3
    ∷ insn "lsr" (word 0x28000000 0xFF00F0FF (reg 20 ∷ reg 16 ∷ reg 8 ∷ []) ∷ []) 3
    ∷ insn "asr" (word 0x29000000 0xFF00F0FF (reg 20 ∷ reg 16 ∷ reg 8 ∷ []) ∷ []) 3
    ∷ insn "mul" (word 0x2B000000 0xFF00F0FF (reg 20 ∷ reg 16 ∷ reg 8 ∷ []) ∷ []) 3
    ∷ insn "div" (word 0x2C000000 0xFF00F0FF (reg 20 ∷ reg 16 ∷ reg 8 ∷ []) ∷ []) 3
    ∷ insn "mod" (word 0x2D000000 0xFF00F0FF (reg 20 ∷ reg 16 ∷ reg 8 ∷ []) ∷ []) 3
    ∷ insn "cmp" (word 0x2AF00000 0xFFF0F0FF (reg 16 ∷ reg 8 ∷ []) ∷ []) 2
    ∷ []

-- ALU, immediate operand.
abbrev alu_imm_insns : List Insn
alu_imm_insns =
    insn "nand" (word 0x30000000 0xFF000000 (reg 20 ∷ reg 16 ∷ imm 0 ∷ []) ∷ []) 3
    ∷ insn "or" (word 0x31000000 0xFF000000 (reg 20 ∷ reg 16 ∷ imm 0 ∷ []) ∷ []) 3
    ∷ insn "and" (word 0x32000000 0xFF000000 (reg 20 ∷ reg 16 ∷ imm 0 ∷ []) ∷ []) 3
    ∷ insn "nor" (word 0x33000000 0xFF000000 (reg 20 ∷ reg 16 ∷ imm 0 ∷ []) ∷ []) 3
    ∷ insn "add" (word 0x34000000 0xFF000000 (reg 20 ∷ reg 16 ∷ imm 0 ∷ []) ∷ []) 3
    ∷ insn "sub" (word 0x35000000 0xFF000000 (reg 20 ∷ reg 16 ∷ imm 0 ∷ []) ∷ []) 3
    ∷ insn "xor" (word 0x36000000 0xFF000000 (reg 20 ∷ reg 16 ∷ imm 0 ∷ []) ∷ []) 3
    ∷ insn "lsl" (word 0x37000000 0xFF000000 (reg 20 ∷ reg 16 ∷ imm 0 ∷ []) ∷ []) 3
    ∷ insn "lsr" (word 0x38000000 0xFF000000 (reg 20 ∷ reg 16 ∷ imm 0 ∷ []) ∷ []) 3
    ∷ insn "asr" (word 0x39000000 0xFF000000 (reg 20 ∷ reg 16 ∷ imm 0 ∷ []) ∷ []) 3
    ∷ insn "mul" (word 0x3B000000 0xFF000000 (reg 20 ∷ reg 16 ∷ imm 0 ∷ []) ∷ []) 3
    ∷ insn "div" (word 0x3C000000 0xFF000000 (reg 20 ∷ reg 16 ∷ imm 0 ∷ []) ∷ []) 3
    ∷ insn "mod" (word 0x3D000000 0xFF000000 (reg 20 ∷ reg 16 ∷ imm 0 ∷ []) ∷ []) 3
    ∷ insn "cmp" (word 0x3AF00000 0xFFF00000 (reg 16 ∷ imm 0 ∷ []) ∷ []) 2
    ∷ []

-- Jumps.
abbrev jump_insns : List Insn
jump_insns =
    insn "jmp" (word 0x480F0000 0xFFFF0FFF (reg 8 ∷ []) ∷ []) 1
    ∷ insn "jmp" (word 0x580F0000 0xFFFF0000 (imm 0 ∷ []) ∷ []) 1
    ∷ insn "je" (word 0x510F0000 0xFFFF0000 (imm 0 ∷ []) ∷ []) 1
    ∷ insn "jne" (word 0x590F0000 0xFFFF0000 (imm 0 ∷ []) ∷ []) 1
    ∷ insn "jb" (word 0x520F0000 0xFFFF0000 (imm 0 ∷ []) ∷ []) 1
    ∷ insn "jae" (word 0x5A0F0000 0xFFFF0000 (imm 0 ∷ []) ∷ []) 1
    ∷ insn "jbe" (word 0x530F0000 0xFFFF0000 (imm 0 ∷ []) ∷ []) 1
    ∷ insn "ja" (word 0x5B0F0000 0xFFFF0000 (imm 0 ∷ []) ∷ []) 1
    ∷ insn "jl" (word 0x540F0000 0xFFFF0000 (imm 0 ∷ []) ∷ []) 1
    ∷ insn "jge" (word 0x5C0F0000 0xFFFF0000 (imm 0 ∷ []) ∷ []) 1
    ∷ insn "jle" (word 0x550F0000 0xFFFF0000 (imm 0 ∷ []) ∷ []) 1
    ∷ insn "jg" (word 0x5D0F0000 0xFFFF0000 (imm 0 ∷ []) ∷ []) 1
    ∷ []

-- Loads and stores.
abbrev load_store_insns : List Insn
load_store_insns =
    insn "load_8" (word 0x60000000 0xFFF0F0FF (reg 20 ∷ reg 8 ∷ []) ∷ []) 2
    ∷ insn "load_16" (word 0x61000000 0xFFF0F0FF (reg 20 ∷ reg 8 ∷ []) ∷ []) 2
    ∷ insn "load_32" (word 0x62000000 0xFFF0F0FF (reg 20 ∷ reg 8 ∷ []) ∷ []) 2
    ∷ insn "pload" (word 0x63000000 0xFFF0F0FF (reg 20 ∷ reg 8 ∷ []) ∷ []) 2
    ∷ insn "store_8" (word 0x64000000 0xFF0FF0FF (reg 8 ∷ reg 16 ∷ []) ∷ []) 2
    ∷ insn "store_16" (word 0x65000000 0xFF0FF0FF (reg 8 ∷ reg 16 ∷ []) ∷ []) 2
    ∷ insn "store_32" (word 0x66000000 0xFF0FF0FF (reg 8 ∷ reg 16 ∷ []) ∷ []) 2
    ∷ insn "pstore" (word 0x67000000 0xFF0FF0FF (reg 8 ∷ reg 16 ∷ []) ∷ []) 2
    ∷ insn "load_8" (word 0x70000000 0xFFF00000 (reg 20 ∷ imm 0 ∷ []) ∷ []) 2
    ∷ insn "load_16" (word 0x71000000 0xFFF00000 (reg 20 ∷ imm 0 ∷ []) ∷ []) 2
    ∷ insn "load_32" (word 0x72000000 0xFFF00000 (reg 20 ∷ imm 0 ∷ []) ∷ []) 2
    ∷ insn "pload" (word 0x73000000 0xFFF00000 (reg 20 ∷ imm 0 ∷ []) ∷ []) 2
    ∷ insn "store_8" (word 0x74000000 0xFF0F0000 (imm 0 ∷ reg 16 ∷ []) ∷ []) 2
    ∷ insn "store_16" (word 0x75000000 0xFF0F0000 (imm 0 ∷ reg 16 ∷ []) ∷ []) 2
    ∷ insn "store_32" (word 0x76000000 0xFF0F0000 (imm 0 ∷ reg 16 ∷ []) ∷ []) 2
    ∷ insn "pstore" (word 0x77000000 0xFF0F0000 (imm 0 ∷ reg 16 ∷ []) ∷ []) 2
    ∷ []

-- The pseudo-instructions, of several words.
abbrev pseudo_insns : List Insn
pseudo_insns =
    insn "push" (word 0x35EE0004 0xFFFFFFFF [] ∷ word 0x66000E00 0xFFF0FFFF (reg 16 ∷ []) ∷ []) 1
    ∷ insn "pop" (word 0x62000E00 0xFFF0FFFF (reg 20 ∷ []) ∷ word 0x34EE0004 0xFFFFFFFF [] ∷ []) 1
    ∷ insn "call"
        (word 0x07F00000 0xFFFFFFFF []
          ∷ word 0x34FF0014 0xFFFFFFFF []
          ∷ word 0x35EE0004 0xFFFFFFFF []
          ∷ word 0x660F0E00 0xFFFFFFFF []
          ∷ word 0x580F0000 0xFFFF0000 (imm 0 ∷ [])
          ∷ [])
        1
    ∷ insn "ret"
        (word 0x62F00E00 0xFFFFFFFF []
          ∷ word 0x34EE0004 0xFFFFFFFF []
          ∷ word 0x480F0F00 0xFFFFFFFF []
          ∷ [])
        0
    ∷ []

abbrev pub isa_table : List Insn
isa_table =
    io_insns
    ++ (alias_insns
        ++ (alu_reg_insns
            ++ (alu_imm_insns ++ (jump_insns ++ (load_store_insns ++ (pseudo_insns))))))
