-- ===== src/Emu/Decode.antt =====
-- The labels of `switch (b0)` in `emu_run_ex` (emu/emu.c). Labels whose cases have the same text are
-- one constructor: 0x60 and 0x70 differ only in the address, which is computed before the switch,
-- and 0x2_ and 0x3_ only in their last operand.
use linux_0_11_symcc_on_turi.Base.{ℕ, ◌==◌, if◌then◌else◌}

pub data AluOp : Type 0 where
  nand or and nor add sub xor lsl lsr asr mul div modulo : AluOp

pub data Cond : Type 0 where
  je jne jb jae jbe ja jl jge jle jg : Cond

pub data Instr : Type 0 where
  nop read_port out_reg keyboard screen_reg time_0 time_1 counter out_imm screen_imm : Instr
  alu_reg : AluOp → Instr
  alu_imm : AluOp → Instr
  cmp_reg cmp_imm jmp_reg jmp_imm : Instr
  jump_if : Cond → Instr
  load_8 load_16 load_32 pload store_8 store_16 store_32 pstore : Instr
  unknown : Instr

-- Cases 0x00 to 0x14.
unfoldable pub decode_io : ℕ → Instr
decode_io b0 =
    if b0 == 0x00
    then nop
    else if b0 == 0x01
    then read_port
    else if b0 == 0x02
    then out_reg
    else if b0 == 0x03
    then keyboard
    else if b0 == 0x04
    then screen_reg
    else if b0 == 0x05
    then time_0
    else if b0 == 0x06
    then time_1
    else if b0 == 0x07
    then counter
    else if b0 == 0x10
    then out_imm
    else if b0 == 0x14
    then screen_imm
    else unknown

-- Cases 0x20 to 0x2D.
unfoldable pub decode_reg : ℕ → Instr
decode_reg b0 =
    if b0 == 0x20
    then alu_reg nand
    else if b0 == 0x21
    then alu_reg or
    else if b0 == 0x22
    then alu_reg and
    else if b0 == 0x23
    then alu_reg nor
    else if b0 == 0x24
    then alu_reg add
    else if b0 == 0x25
    then alu_reg sub
    else if b0 == 0x26
    then alu_reg xor
    else if b0 == 0x27
    then alu_reg lsl
    else if b0 == 0x28
    then alu_reg lsr
    else if b0 == 0x29
    then alu_reg asr
    else if b0 == 0x2A
    then cmp_reg
    else if b0 == 0x2B
    then alu_reg mul
    else if b0 == 0x2C
    then alu_reg div
    else if b0 == 0x2D
    then alu_reg modulo
    else decode_io b0

-- Cases 0x30 to 0x3D.
unfoldable pub decode_imm : ℕ → Instr
decode_imm b0 =
    if b0 == 0x30
    then alu_imm nand
    else if b0 == 0x31
    then alu_imm or
    else if b0 == 0x32
    then alu_imm and
    else if b0 == 0x33
    then alu_imm nor
    else if b0 == 0x34
    then alu_imm add
    else if b0 == 0x35
    then alu_imm sub
    else if b0 == 0x36
    then alu_imm xor
    else if b0 == 0x37
    then alu_imm lsl
    else if b0 == 0x38
    then alu_imm lsr
    else if b0 == 0x39
    then alu_imm asr
    else if b0 == 0x3A
    then cmp_imm
    else if b0 == 0x3B
    then alu_imm mul
    else if b0 == 0x3C
    then alu_imm div
    else if b0 == 0x3D
    then alu_imm modulo
    else decode_reg b0

-- Cases 0x48 to 0x5D.
unfoldable pub decode_jump : ℕ → Instr
decode_jump b0 =
    if b0 == 0x48
    then jmp_reg
    else if b0 == 0x58
    then jmp_imm
    else if b0 == 0x51
    then jump_if je
    else if b0 == 0x59
    then jump_if jne
    else if b0 == 0x52
    then jump_if jb
    else if b0 == 0x5A
    then jump_if jae
    else if b0 == 0x53
    then jump_if jbe
    else if b0 == 0x5B
    then jump_if ja
    else if b0 == 0x54
    then jump_if jl
    else if b0 == 0x5C
    then jump_if jge
    else if b0 == 0x55
    then jump_if jle
    else if b0 == 0x5D
    then jump_if jg
    else decode_imm b0

-- Cases 0x60 to 0x67 and 0x70 to 0x77; `unknown` is `default`.
unfoldable pub decode : ℕ → Instr
unfolding decode_jump decode_imm decode_reg decode_io
decode b0 =
    if b0 == 0x60
    then load_8
    else if b0 == 0x61
    then load_16
    else if b0 == 0x62
    then load_32
    else if b0 == 0x63
    then pload
    else if b0 == 0x64
    then store_8
    else if b0 == 0x65
    then store_16
    else if b0 == 0x66
    then store_32
    else if b0 == 0x67
    then pstore
    else if b0 == 0x70
    then load_8
    else if b0 == 0x71
    then load_16
    else if b0 == 0x72
    then load_32
    else if b0 == 0x73
    then pload
    else if b0 == 0x74
    then store_8
    else if b0 == 0x75
    then store_16
    else if b0 == 0x76
    then store_32
    else if b0 == 0x77
    then pstore
    else decode_jump b0
