-- ===== src/Emu/Call/Words.antt =====
-- The words of the pseudo-instructions of emu/isa.c, each as one round of the simulator of emu/emu.c.
use linux_0_11_symcc_on_turi.Base.{
  ℕ, ◌+◌, ◌-◌, ◌^◌, ◌<◌, ◌≤◌, ◌≡◌, ◌≢◌, arith, ◌∙◌, List, [], ◌∷◌, none,
}
use linux_0_11_symcc_on_turi.Base.Word.{u32, u64, sub32, ◌>>◌}
use linux_0_11_symcc_on_turi.Base.Bits.{bit_and_mask}
use linux_0_11_symcc_on_turi.Emu.State.{Memory, poke, rd32, wr32, set_reg, Cpu}
use linux_0_11_symcc_on_turi.Emu.Decode.{decode}
use linux_0_11_symcc_on_turi.Emu.Exec.{
  Machine, fetch, give, jump_to, address, exec, alu, dispatch, field_imm,
}
use linux_0_11_symcc_on_turi.Emu.Run.{observed, again, settle, round}

-- The machine of `emu_run`: no options, full addressing.
abbrev pub plain : ℕ → ℕ → Machine
plain ram disk = record {
  ram_size = ram;
  disk_size = disk;
  ram_mask = 2 ^ 32 - 1;
  disk_mask = 2 ^ 32 - 1;
  opt = none;
}

-- The words `xs` stand in memory from `p` on.
abbrev pub Holds : Memory → ℕ → List ℕ → Type 0
Holds m p [] = Unit
Holds m p (x ∷ xs) = (rd32 m p ≡ x) × Holds m (p + 4) xs

module _ (ram disk : ℕ) (bounded : ram ≤ 2 ^ 32) (n : ℕ) (s : Cpu) where
  pc_next : s.pc + 4 ≤ ram → u64 (s.pc + 4) ≡ s.pc + 4
  pc_next fits = omega arith

  -- A round at a word that can be fetched.
  round_at :
      (w : ℕ)
      → s.pc + 4 ≤ ram
      → rd32 s.mem s.pc ≡ w
      → round (plain ram disk) n s ≡ settle (plain ram disk) n (dispatch (plain ram disk) n s w)
  unfolding round observed fetch
  round_at w fits e = rw (← e) (ground arith)

  pub counter_flags :
      s.pc + 4 ≤ ram
      → rd32 s.mem s.pc ≡ 0x07F00000
      → round (plain ram disk) n s
        ≡ again (record s { regs = poke s.regs 15 (u32 s.pc); pc = s.pc + 4 })
  counter_flags fits e =
      round_at 0x07F00000 fits e
      ∙ unfold dispatch settle exec give set_reg decode address in (rw (pc_next fits))

  pub add_flags :
      s.pc + 4 ≤ ram
      → rd32 s.mem s.pc ≡ 0x34FF0014
      → round (plain ram disk) n s
        ≡ again (record s { regs = poke s.regs 15 (u32 (s.regs 15 + 20)); pc = s.pc + 4 })
  add_flags fits e =
      round_at 0x34FF0014 fits e
      ∙ unfold dispatch settle exec give set_reg decode address alu in (rw (pc_next fits))

  pub sub_sp :
      s.pc + 4 ≤ ram
      → rd32 s.mem s.pc ≡ 0x35EE0004
      → round (plain ram disk) n s
        ≡ again (record s { regs = poke s.regs 14 (sub32 (s.regs 14) 4); pc = s.pc + 4 })
  sub_sp fits e =
      round_at 0x35EE0004 fits e
      ∙ unfold dispatch settle exec give set_reg decode address alu in (rw (pc_next fits))

  pub add_sp :
      s.pc + 4 ≤ ram
      → rd32 s.mem s.pc ≡ 0x34EE0004
      → round (plain ram disk) n s
        ≡ again (record s { regs = poke s.regs 14 (u32 (s.regs 14 + 4)); pc = s.pc + 4 })
  add_sp fits e =
      round_at 0x34EE0004 fits e
      ∙ unfold dispatch settle exec give set_reg decode address alu in (rw (pc_next fits))

  pub store_flags :
      s.pc + 4 ≤ ram
      → rd32 s.mem s.pc ≡ 0x660F0E00
      → s.regs 14 < 2 ^ 32
      → s.regs 14 + 4 ≤ ram
      → round (plain ram disk) n s
        ≡ again (record s { mem = wr32 s.mem (s.regs 14) (s.regs 15); pc = s.pc + 4 })
  store_flags fits e word slot =
      round_at 0x660F0E00 fits e
      ∙ unfold dispatch settle exec decode address in
        (ground (arith, bit_and_mask 32 (s.regs 14), pc_next fits))

  pub load_flags :
      s.pc + 4 ≤ ram
      → rd32 s.mem s.pc ≡ 0x62F00E00
      → s.regs 14 < 2 ^ 32
      → s.regs 14 + 4 ≤ ram
      → round (plain ram disk) n s
        ≡ again (record s { regs = poke s.regs 15 (rd32 s.mem (s.regs 14)); pc = s.pc + 4 })
  load_flags fits e word slot =
      round_at 0x62F00E00 fits e
      ∙ unfold dispatch settle exec decode address give set_reg in
        (ground (arith, bit_and_mask 32 (s.regs 14), pc_next fits))

  pub jmp_flags :
      s.pc + 4 ≤ ram
      → rd32 s.mem s.pc ≡ 0x480F0F00
      → s.regs 15 ≢ u32 s.pc
      → round (plain ram disk) n s ≡ again (record s { pc = s.regs 15 })
  jmp_flags fits e away =
      round_at 0x480F0F00 fits e
      ∙ unfold dispatch settle exec decode address jump_to in (ground arith)

  pub jmp_target :
      (t : ℕ)
      → s.pc + 4 ≤ ram
      → rd32 s.mem s.pc ≡ 0x580F0000 + t
      → t < 2 ^ 16
      → t ≢ u32 s.pc
      → round (plain ram disk) n s ≡ again (record s { pc = t })
  jmp_target t fits e small away =
      let opcode : (0x580F0000 + t) >> 24 ≡ 0x58 = omega arith in
      let imm : field_imm (0x580F0000 + t) ≡ t = omega arith in
      round_at (0x580F0000 + t) fits e
      ∙ unfold dispatch settle in (rw opcode (unfold exec decode jump_to in (ground arith)))
