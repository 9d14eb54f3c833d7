-- ===== src/Emu/Exec.antt =====
-- One round of the loop of `emu_run_ex` (emu/emu.c): the fetch, the operand fields, the address of a
-- load or store, and the cases of the switch.
use linux_0_11_symcc_on_turi.Base.{
  ℕ, ◌+◌, ◌-◌, ◌*◌, ◌/◌, ◌%◌, ◌^◌, Bool, not, ◌∷◌, Option, some, none, ltb, leb, ◌==◌,
  if◌then◌else◌, bit_or, bit_and, bit_xor, get_elem?, length,
}
use linux_0_11_symcc_on_turi.Base.Word.{u8, u16, u32, u64, ◌<<◌, ◌>>◌, sub32, not32, slt}
use linux_0_11_symcc_on_turi.Base.Word
use linux_0_11_symcc_on_turi.Emu.State.{
  poke, rd32, rd16, wr16, wr32, set_reg, Cpu, EmuOptions, EmuEvent,
}
use linux_0_11_symcc_on_turi.Emu.Decode.{
  AluOp, nand, or, and, nor, add, sub, xor, lsl, lsr, asr, mul, div, modulo, Cond, je, jne, jb, jae,
  jbe, ja, jl, jge, jle, jg, Instr, nop, read_port, out_reg, keyboard, screen_reg, time_0, time_1,
  counter, out_imm, screen_imm, alu_reg, alu_imm, cmp_reg, cmp_imm, jmp_reg, jmp_imm, jump_if,
  load_8, load_16, load_32, pload, store_8, store_16, store_32, pstore, unknown, decode,
}

-- What the loop does not change: the sizes, the address masks and the options (`none` is NULL).
pub record Machine : Type 0 where
  pub ram_size : ℕ
  pub disk_size : ℕ
  pub ram_mask : ℕ
  pub disk_mask : ℕ
  pub opt : Option EmuOptions

-- How a case ends: by `break`, and then `pc += 4`; by `continue`; by `goto halt`; or by `goto done`
-- with `error` set.
pub data Outcome : Type 0 where
  next : Cpu → Outcome
  jump : Cpu → Outcome
  stop : Cpu → Outcome
  fault : ℕ → Cpu → Outcome

-- The ALU cases, on the values of the last two operands.
unfoldable pub alu : AluOp → ℕ → ℕ → ℕ
alu nand x y = not32 (bit_and x y)
alu or x y = bit_or x y
alu and x y = bit_and x y
alu nor x y = not32 (bit_or x y)
alu add x y = u32 (x + y)
alu sub x y = sub32 x y
alu xor x y = bit_xor x y
alu lsl x y = u32 (x << (y % 32))
alu lsr x y = x >> (y % 32)
alu asr x y = Word.asr x (y % 32)
alu mul x y = u32 (x * y)
alu div x y = if y == 0 then 0 else x / y
alu modulo x y = if y == 0 then 0 else x % y

-- The tests of the conditional jumps.
unfoldable pub holds : Cond → ℕ → ℕ → Bool
holds je x y = x == y
holds jne x y = not (x == y)
holds jb x y = ltb x y
holds jae x y = leb y x
holds jbe x y = leb x y
holds ja x y = ltb y x
holds jl x y = slt x y
holds jge x y = not (slt x y)
holds jle x y = not (slt y x)
holds jg x y = slt y x

-- `opt->keyboard(opt->opaque)`, where there is a callback.
unfoldable pub live_key : Option (ℕ → ℕ) → Cpu → ℕ × Cpu
live_key none s = (0, s)
live_key (some answer) s = (answer s.polled, record s { polled = s.polled + 1 })

-- The next scripted event, if it is due after `n` instructions.
unfoldable pub scripted_key : Option EmuEvent → EmuOptions → ℕ → Cpu → ℕ × Cpu
scripted_key (some e) o n s =
    if leb e.at_instruction n then (e.key, record s { key_index = s.key_index + 1 }) else (0, s)
scripted_key none o n s = if length o.events == 0 then live_key o.keyboard s else (0, s)

-- Case 0x03: a scripted event, or the live source if there is no script.
unfoldable pub poll_key : Option EmuOptions → ℕ → Cpu → ℕ × Cpu
poll_key none n s = (0, s)
poll_key (some o) n s = scripted_key (get_elem? o.events s.key_index) o n s

-- Case 0x05, the nanoseconds that have passed: a 64-bit product.
unfoldable pub elapsed_ns : Option EmuOptions → ℕ → ℕ
elapsed_ns none n = 0
elapsed_ns (some o) n = u64 (n * o.ns_per_instruction)

-- The operand fields of an instruction word.
abbrev pub field_a : ℕ → ℕ
field_a w = (w >> 20) % 16

abbrev pub field_b : ℕ → ℕ
field_b w = (w >> 16) % 16

abbrev pub field_c : ℕ → ℕ
field_c w = (w >> 8) % 16

abbrev pub field_imm : ℕ → ℕ
field_imm w = w % 2 ^ 16

-- `break` after `set_reg(regs, a, v)`.
unfoldable pub give : Cpu → ℕ → ℕ → Outcome
give s w v = next (record s { regs = set_reg s.regs (field_a w) v })

-- A jump to `t`: a jump to its own address halts.
unfoldable pub jump_to : Cpu → ℕ → ℕ → Outcome
jump_to s here t = if t == here then stop s else jump (record s { pc = t })

unfoldable pub print : Cpu → ℕ → Outcome
print s v = next (record s { output = v ∷ s.output })

-- `settings[i] = v`: there are eight.
unfoldable pub set_setting : Cpu → ℕ → ℕ → Outcome
set_setting s i v =
    if leb 8 i then fault 2 s else next (record s { settings = poke s.settings i v })

-- The address of a load or store, from the two ranges of opcodes; the disk has a mask of its own.
unfoldable pub address : Machine → Cpu → ℕ → ℕ
address m s w =
    let b0 = w >> 24 in
    let mask = if bit_and b0 3 == 3 then m.disk_mask else m.ram_mask in
    if bit_and b0 0xf8 == 0x60
    then bit_and (s.regs (field_c w)) mask
    else if bit_and b0 0xf8 == 0x70
    then bit_and (field_imm w) mask
    else 0

-- The cases of the switch, at the word `w`, the address `p` and `n` instructions done.
unfoldable pub exec : Machine → ℕ → Cpu → ℕ → ℕ → Instr → Outcome
exec m n s w p nop = next s
exec m n s w p read_port = give s w 0
exec m n s w p out_reg = print s (s.regs (field_c w))
exec m n s w p keyboard = let (key, s') = poll_key m.opt n s in give s' w key
exec m n s w p screen_reg = set_setting s (s.regs (field_b w)) (s.regs (field_c w))
exec m n s w p time_0 =
    let ns = elapsed_ns m.opt n in give (record s { time_high = u32 (ns >> 32) }) w (u32 ns)
exec m n s w p time_1 = give s w s.time_high
exec m n s w p counter = give s w (u32 s.pc)
exec m n s w p out_imm = print s (field_imm w)
exec m n s w p screen_imm = set_setting s (s.regs (field_b w)) (field_imm w)
exec m n s w p (alu_reg op) = give s w (alu op (s.regs (field_b w)) (s.regs (field_c w)))
exec m n s w p (alu_imm op) = give s w (alu op (s.regs (field_b w)) (field_imm w))
exec m n s w p cmp_reg =
    next (record s { last_a = s.regs (field_b w); last_b = s.regs (field_c w) })
exec m n s w p cmp_imm = next (record s { last_a = s.regs (field_b w); last_b = field_imm w })
exec m n s w p jmp_reg = jump_to s (u32 s.pc) (s.regs (field_c w))
exec m n s w p jmp_imm = jump_to s (u32 s.pc) (field_imm w)
exec m n s w p (jump_if c) =
    if holds c s.last_a s.last_b then jump_to s s.pc (field_imm w) else next s
exec m n s w p load_8 = if leb m.ram_size p then fault 2 s else give s w (s.mem p)
exec m n s w p load_16 = if ltb m.ram_size (p + 2) then fault 2 s else give s w (rd16 s.mem p)
exec m n s w p load_32 = if ltb m.ram_size (p + 4) then fault 2 s else give s w (rd32 s.mem p)
exec m n s w p pload = if ltb m.disk_size (p + 4) then fault 2 s else give s w (rd32 s.disk p)
exec m n s w p store_8 =
    if leb m.ram_size p
    then fault 2 s
    else next (record s { mem = poke s.mem p (u8 (s.regs (field_b w))) })
exec m n s w p store_16 =
    if ltb m.ram_size (p + 2)
    then fault 2 s
    else next (record s { mem = wr16 s.mem p (u16 (s.regs (field_b w))) })
exec m n s w p store_32 =
    if ltb m.ram_size (p + 4)
    then fault 2 s
    else next (record s { mem = wr32 s.mem p (s.regs (field_b w)) })
exec m n s w p pstore =
    if ltb m.disk_size (p + 4)
    then fault 2 s
    else next (record s { disk = wr32 s.disk p (s.regs (field_b w)) })
exec m n s w p unknown = fault 3 s

-- The place that the next word is fetched from.
unfoldable pub fetch : Machine → Cpu → ℕ
fetch m s = if m.ram_mask == 2 ^ 32 - 1 then s.pc else bit_and s.pc m.ram_mask

-- The switch at the word `w`.
unfoldable pub dispatch : Machine → ℕ → Cpu → ℕ → Outcome
dispatch m n s w = exec m n s w (address m s w) (decode (w >> 24))
