-- ===== src/Emu/State.antt =====
-- The state of `emu_run_ex` (emu/emu.c): its local variables, its memories and its options.
-- The memories are functions from addresses to bytes, beside their sizes.
use linux_0_11_symcc_on_turi.Base.{ℕ, ◌+◌, List, Option, Bool, ltb, ◌==◌, if◌then◌else◌, bit_or}
use linux_0_11_symcc_on_turi.Base.Word.{u8, u16, ◌<<◌, ◌>>◌}

abbrev pub Memory : Type 0
Memory = ℕ → ℕ

-- A write of one cell.
unfoldable pub poke : Memory → ℕ → ℕ → Memory
poke m p v a = if a == p then v else m a

-- Big-endian reads and writes.
unfoldable pub rd32 : Memory → ℕ → ℕ
rd32 m p = bit_or (bit_or (bit_or (m p << 24) (m (p + 1) << 16)) (m (p + 2) << 8)) (m (p + 3))

unfoldable pub rd16 : Memory → ℕ → ℕ
rd16 m p = u16 (bit_or (m p << 8) (m (p + 1)))

unfoldable pub wr16 : Memory → ℕ → ℕ → Memory
wr16 m p v = poke (poke m p (u8 (v >> 8))) (p + 1) (u8 v)

unfoldable pub wr32 : Memory → ℕ → ℕ → Memory
wr32 m p v =
    poke (poke (poke (poke m p (u8 (v >> 24))) (p + 1) (u8 (v >> 16))) (p + 2) (u8 (v >> 8)))
      (p + 3) (u8 v)

pub record EmuEvent : Type 0 where
  pub at_instruction : ℕ
  pub key : ℕ

-- `set_reg`: register 0 is the constant zero, and a write to it is dropped.
unfoldable pub set_reg : Memory → ℕ → ℕ → Memory
set_reg regs i v = if ltb 0 i then poke regs i v else regs

-- The variables that an instruction changes. `polled` counts the calls of the keyboard callback,
-- and `output` holds what `printf` has printed, the latest first.
pub record Cpu : Type 0 where
  pub regs : Memory
  pub settings : Memory
  pub last_a : ℕ
  pub last_b : ℕ
  pub pc : ℕ
  pub key_index : ℕ
  pub polled : ℕ
  pub time_high : ℕ
  pub mem : Memory
  pub disk : Memory
  pub output : List ℕ

-- `EmuOptions`. A null pointer is `none`. The callbacks are the caller's code: the keyboard is what
-- its n-th call answers, the observer a test of the instruction count and the machine it is shown.
pub record EmuOptions : Type 0 where
  pub disk : Option Memory
  pub disk_len : ℕ
  pub events : List EmuEvent
  pub ns_per_instruction : ℕ
  pub observe : Option (ℕ → Cpu → Bool)
  pub keyboard : Option (ℕ → ℕ)
  pub ram_address_mask : ℕ
  pub disk_address_mask : ℕ
