-- ===== src/Emu/Run.antt =====
-- The loop of `emu_run_ex` and what surrounds it (emu/emu.c). The two `calloc` are taken to succeed,
-- and the limit on instructions is the loop's fuel, as it is in the source.
use linux_0_11_symcc_on_turi.Base.{
  ℕ, zero, suc, ◌+◌, ◌-◌, ◌%◌, ◌^◌, Bool, false, ◌&&◌, List, [], Option, some, none, ltb, ◌==◌,
  if◌then◌else◌, get_or, length,
}
use linux_0_11_symcc_on_turi.Base.Word.{u64, ◌<<◌}
use linux_0_11_symcc_on_turi.Emu.State.{Memory, rd32, Cpu, EmuOptions}
use linux_0_11_symcc_on_turi.Emu.Exec.{Machine, Outcome, next, jump, stop, fault, fetch, dispatch}

-- `EmuResult`: the machine when the run ends, and the four fields that are set at the end.
pub record EmuResult : Type 0 where
  pub cpu : Cpu
  pub mem_size : ℕ
  pub disk_size : ℕ
  pub exit_code : ℕ
  pub error : ℕ
  pub instructions : ℕ
  pub stop_reason : ℕ

-- From the label `halt`, and from the label `done` (where `exit_code` keeps the 0 of `memset`).
unfoldable pub finish : Machine → Cpu → (exit_code error instructions stop_reason : ℕ) → EmuResult
finish m s code e i reason = record {
  cpu = s;
  mem_size = m.ram_size;
  disk_size = m.disk_size;
  exit_code = code;
  error = e;
  instructions = i;
  stop_reason = if e == 0 then reason else if e == 1 then 2 else 3;
}

unfoldable pub at_halt : Machine → Cpu → ℕ → ℕ → EmuResult
at_halt m s e i = finish m s (s.regs 1) e i 0

unfoldable pub at_done : Machine → Cpu → ℕ → ℕ → ℕ → EmuResult
at_done m s e i reason = finish m s 0 e i reason

-- The observer is shown the machine before every 1024th instruction.
abbrev observer_says : Option (ℕ → Cpu → Bool) → ℕ → Cpu → Bool
observer_says none n s = false
observer_says (some f) n s = f n s

abbrev observer : Option EmuOptions → Option (ℕ → Cpu → Bool)
observer none = none
observer (some o) = o.observe

unfoldable pub observed : Machine → ℕ → Cpu → Bool
observed m n s = n % 1024 == 0 && observer_says (observer m.opt) n s

-- What one round of the loop does: it ends the run, or hands the machine to the next round.
pub data Round : Type 0 where
  again : Cpu → Round
  ended : EmuResult → Round

unfoldable pub settle : Machine → ℕ → Outcome → Round
settle m n (next s) = again (record s { pc = u64 (s.pc + 4) })
settle m n (jump s) = again s
settle m n (stop s) = ended (at_halt m s 0 n)
settle m n (fault e s) = ended (at_done m s e n 0)

-- The body of the loop with `n` instructions done. A failed fetch leaves by `break`.
unfoldable pub round : Machine → ℕ → Cpu → Round
round m n s =
    if observed m n s
    then ended (at_done m s 0 n 1)
    else if ltb m.ram_size (fetch m s + 4)
    then ended (at_halt m s 2 n)
    else settle m n (dispatch m n s (rd32 s.mem (fetch m s)))

-- `if (n > max_instr) error = 1`: the 64-bit counter is one above the limit then, or wraps to 0.
unfoldable pub limit_error : ℕ → ℕ
limit_error max_instr = if ltb max_instr (u64 (max_instr + 1)) then 1 else 0

-- `while (n++ < max_instr)`, with `left` rounds still allowed and `n` done: with none left, `n` is
-- `max_instr`.
unfoldable pub loop : Machine → ℕ → ℕ → Cpu → EmuResult
loop m zero n s = at_halt m s (limit_error n) (n - 1)
loop m (suc left) n s = elim (round m n s) [ again s' ↦ loop m left (suc n) s' | ended r ↦ r ]

-- `memcpy(p, bytes, n)` onto a cleared memory.
unfoldable pub image : List ℕ → Memory
image bytes a = get_or bytes a 0

unfoldable pub overlay : Memory → ℕ → Memory
overlay bytes n a = if ltb a n then bytes a else 0

abbrev pub blank : Memory
blank a = 0

abbrev pub start : Memory → Memory → Cpu
start mem disk = record {
  regs = blank;
  settings = blank;
  last_a = 0;
  last_b = 0;
  pc = 0;
  key_index = 0;
  polled = 0;
  time_high = 0;
  mem = mem;
  disk = disk;
  output = [];
}

-- `DISK_SIZE`, and `SP_DISK_BYTES` of runtime/platform.h.
abbrev pub disk_size : ℕ
disk_size = 8 << 20

abbrev pub sp_disk_bytes : ℕ
sp_disk_bytes = 0x2000000

abbrev pub opt_disk_len : Option EmuOptions → ℕ
opt_disk_len none = 0
opt_disk_len (some o) = o.disk_len

abbrev pub opt_disk : Option EmuOptions → Option Memory
opt_disk none = none
opt_disk (some o) = o.disk

-- A mask of zero keeps full addressing.
abbrev full_mask : ℕ → ℕ
full_mask mask = if mask == 0 then 2 ^ 32 - 1 else mask

abbrev ram_mask_of : Option EmuOptions → ℕ
ram_mask_of none = 2 ^ 32 - 1
ram_mask_of (some o) = full_mask o.ram_address_mask

abbrev disk_mask_of : Option EmuOptions → ℕ
disk_mask_of none = 2 ^ 32 - 1
disk_mask_of (some o) = full_mask o.disk_address_mask

unfoldable pub machine : ℕ → Option EmuOptions → Machine
machine ram_size opt = record {
  ram_size = if ltb ram_size 1 then 1 else ram_size;
  disk_size = if ltb disk_size (opt_disk_len opt) then sp_disk_bytes else disk_size;
  ram_mask = ram_mask_of opt;
  disk_mask = disk_mask_of opt;
  opt = opt;
}

-- A run that fails before the loop: nothing has been executed.
unfoldable pub run_disk : Machine → ℕ → Memory → ℕ → Option Memory → EmuResult
run_disk m max_instr mem zero disk = loop m max_instr 0 (start mem blank)
run_disk m max_instr mem (suc len) none = at_done m (start mem blank) 2 0 0
run_disk m max_instr mem (suc len) (some bytes) =
    if ltb sp_disk_bytes (suc len)
    then at_done m (start mem blank) 2 0 0
    else loop m max_instr 0 (start mem (overlay bytes (suc len)))

-- The program is the list `bin` of bytes, so `bin_len` is its length.
unfoldable pub emu_run_ex : List ℕ → ℕ → ℕ → Option EmuOptions → EmuResult
emu_run_ex bin ram_size max_instr opt =
    let m = machine ram_size opt in
    if ltb m.ram_size (length bin)
    then at_done m (start blank blank) 2 0 0
    else run_disk m max_instr (image bin) (opt_disk_len opt) (opt_disk opt)

unfoldable pub emu_run : List ℕ → ℕ → ℕ → EmuResult
emu_run bin ram limit = emu_run_ex bin ram limit none
