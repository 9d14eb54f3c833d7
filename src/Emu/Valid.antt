-- ===== src/Emu/Valid.antt =====
-- The well-formed machine of emu/emu.c: every variable is within its C type, the zero register
-- holds zero, and every instruction keeps it so.
use linux_0_11_symcc_on_turi.Base.{
  ℕ, ◌+◌, ◌%◌, ◌^◌, ◌<◌, ◌≡◌, refl, arith, leb, ◌==◌, if◌then◌else◌, Bool, true, false, Bool-cases,
  inl, inr, Option, none, some, get_elem?, length, ◌∙◌,
}
use native.Mathlib.Nat.{div-le_self}
use linux_0_11_symcc_on_turi.Base.Bits.{bit_or-lt, bit_and-lt, bit_xor-lt}
use linux_0_11_symcc_on_turi.Emu.State.{Memory, Cpu, EmuOptions, EmuEvent}
use linux_0_11_symcc_on_turi.Emu.Decode.{
  AluOp, nand, or, and, nor, add, sub, xor, lsl, lsr, asr, mul, div, modulo,
}
use linux_0_11_symcc_on_turi.Emu.Exec.{
  Outcome, next, jump, stop, fault, alu, live_key, scripted_key, poll_key, give, jump_to,
  set_setting, field_a,
}
use linux_0_11_symcc_on_turi.Emu.Bytes.{Below, poke-Below, set_reg-Below, set_reg-zero}

pub record IsValid (s : Cpu) : Type 0 where
  pub regs : Below (2 ^ 32) s.regs
  pub zr : s.regs 0 ≡ 0
  pub settings : Below (2 ^ 32) s.settings
  pub mem : Below 256 s.mem
  pub disk : Below 256 s.disk
  pub last_a : s.last_a < 2 ^ 32
  pub last_b : s.last_b < 2 ^ 32
  pub time_high : s.time_high < 2 ^ 32
  pub pc : s.pc < 2 ^ 64

-- The caller's options are within their C types.
pub record IsTyped (o : EmuOptions) : Type 0 where
  pub keys : (i : ℕ) (e : EmuEvent) → get_elem? o.events i ≡ some e → e.key < 2 ^ 32
  pub answers : (f : ℕ → ℕ) → o.keyboard ≡ some f → Below (2 ^ 32) f
  pub bytes : (d : Memory) → o.disk ≡ some d → Below 256 d

abbrev pub OptTyped : Option EmuOptions → Type 0
OptTyped none = Unit
OptTyped (some o) = IsTyped o

-- Every ALU operation stays within 32 bits.
pub alu-lt : (op : AluOp) (x y : ℕ) → x < 2 ^ 32 → y < 2 ^ 32 → alu op x y < 2 ^ 32
unfolding alu
alu-lt nand x y h k = omega arith
alu-lt or x y h k = bit_or-lt 32 x y h k
alu-lt and x y h k = bit_and-lt 32 x y k
alu-lt nor x y h k = omega arith
alu-lt add x y h k = omega arith
alu-lt sub x y h k = omega arith
alu-lt xor x y h k = bit_xor-lt 32 x y h k
alu-lt lsl x y h k = omega arith
alu-lt lsr x y h k = ground (arith, div-le_self x (2 ^ (y % 32)))
alu-lt asr x y h k = ground (arith, div-le_self x (2 ^ (y % 32)))
alu-lt mul x y h k = omega arith
alu-lt div x y h k = ground arith
alu-lt modulo x y h k = ground arith

-- A predicate on the machine, however a case ends.
abbrev pub Ends : (Cpu → Type 0) → Outcome → Type 0
Ends P (next s) = P s
Ends P (jump s) = P s
Ends P (stop s) = P s
Ends P (fault e s) = P s

module _ {s : Cpu} (v : IsValid s) where
  pub give-IsValid : (w x : ℕ) → x < 2 ^ 32 → Ends IsValid (give s w x)
  unfolding give
  give-IsValid w x h = record {
    regs = set_reg-Below (2 ^ 32) (field_a w) x v.regs h;
    zr = set_reg-zero s.regs (field_a w) x ∙ v.zr;
    settings = v.settings;
    mem = v.mem;
    disk = v.disk;
    last_a = v.last_a;
    last_b = v.last_b;
    time_high = v.time_high;
    pc = v.pc;
  }

  pub jump_to-IsValid : (here t : ℕ) → t < 2 ^ 64 → Ends IsValid (jump_to s here t)
  unfolding jump_to
  jump_to-IsValid here t h = elim (Bool-cases (t == here)) [
    | inl e ↦ rw e v
    | inr e ↦ rw e (record {
      regs = v.regs;
      zr = v.zr;
      settings = v.settings;
      mem = v.mem;
      disk = v.disk;
      last_a = v.last_a;
      last_b = v.last_b;
      time_high = v.time_high;
      pc = h;
    })
  ]

  pub set_setting-IsValid : (i x : ℕ) → x < 2 ^ 32 → Ends IsValid (set_setting s i x)
  unfolding set_setting
  set_setting-IsValid i x h = elim (Bool-cases (leb 8 i)) [
    | inl e ↦ rw e v
    | inr e ↦ rw e (record {
      regs = v.regs;
      zr = v.zr;
      settings = poke-Below (2 ^ 32) i x v.settings h;
      mem = v.mem;
      disk = v.disk;
      last_a = v.last_a;
      last_b = v.last_b;
      time_high = v.time_high;
      pc = v.pc;
    })
  ]

  pub cmp-IsValid :
      (x y : ℕ) → x < 2 ^ 32 → y < 2 ^ 32 → IsValid (record s { last_a = x; last_b = y })
  cmp-IsValid x y h k = record {
    regs = v.regs;
    zr = v.zr;
    settings = v.settings;
    mem = v.mem;
    disk = v.disk;
    last_a = h;
    last_b = k;
    time_high = v.time_high;
    pc = v.pc;
  }

  pub time-IsValid : (x : ℕ) → x < 2 ^ 32 → IsValid (record s { time_high = x })
  time-IsValid x h = record {
    regs = v.regs;
    zr = v.zr;
    settings = v.settings;
    mem = v.mem;
    disk = v.disk;
    last_a = v.last_a;
    last_b = v.last_b;
    time_high = h;
    pc = v.pc;
  }

  mem-IsValid : (m : Memory) → Below 256 m → IsValid (record s { mem = m })
  mem-IsValid m h = record {
    regs = v.regs;
    zr = v.zr;
    settings = v.settings;
    mem = h;
    disk = v.disk;
    last_a = v.last_a;
    last_b = v.last_b;
    time_high = v.time_high;
    pc = v.pc;
  }

  disk-IsValid : (m : Memory) → Below 256 m → IsValid (record s { disk = m })
  disk-IsValid m h = record {
    regs = v.regs;
    zr = v.zr;
    settings = v.settings;
    mem = v.mem;
    disk = h;
    last_a = v.last_a;
    last_b = v.last_b;
    time_high = v.time_high;
    pc = v.pc;
  }

  -- The guard of a load or store.
  pub guarded :
      (test : Bool) (o : Outcome) → Ends IsValid o → Ends IsValid (if test then fault 2 s else o)
  guarded true o h = v
  guarded false o h = h

  pub guarded_mem :
      (test : Bool) (m : Memory)
      → Below 256 m
      → Ends IsValid (if test then fault 2 s else next (record s { mem = m }))
  guarded_mem true m h = v
  guarded_mem false m h = mem-IsValid m h

  pub guarded_disk :
      (test : Bool) (m : Memory)
      → Below 256 m
      → Ends IsValid (if test then fault 2 s else next (record s { disk = m }))
  guarded_disk true m h = v
  guarded_disk false m h = disk-IsValid m h

  -- The key is a word, and the machine differs in its counters alone.
  pub poll_key-IsValid :
      (opt : Option EmuOptions) (n : ℕ)
      → OptTyped opt
      → ((poll_key opt n s).0 < 2 ^ 32) × IsValid (poll_key opt n s).1
  unfolding poll_key scripted_key live_key
  poll_key-IsValid none n t = (omega arith, v)
  poll_key-IsValid (some o) n t =
      scripted (get_elem? o.events s.key_index) (λ e h. t.keys s.key_index e h)
    where
      counters : (i j : ℕ) → IsValid (record s { key_index = i; polled = j })
      counters i j = record {
        regs = v.regs;
        zr = v.zr;
        settings = v.settings;
        mem = v.mem;
        disk = v.disk;
        last_a = v.last_a;
        last_b = v.last_b;
        time_high = v.time_high;
        pc = v.pc;
      }

      live :
          (f : Option (ℕ → ℕ))
          → ((g : ℕ → ℕ) → f ≡ some g → Below (2 ^ 32) g)
          → ((live_key f s).0 < 2 ^ 32) × IsValid (live_key f s).1
      live none h = (omega arith, v)
      live (some f) h = (h f refl s.polled, counters s.key_index (s.polled + 1))

      scripted :
          (e : Option EmuEvent)
          → ((d : EmuEvent) → e ≡ some d → d.key < 2 ^ 32)
          → ((scripted_key e o n s).0 < 2 ^ 32) × IsValid (scripted_key e o n s).1
      scripted (some e) h = elim (Bool-cases (leb e.at_instruction n)) [
        | inl c ↦ rw c (h e refl, counters (s.key_index + 1) s.polled)
        | inr c ↦ rw c (omega arith, v)
      ]
      scripted none h = elim (Bool-cases (length o.events == 0)) [
        | inl c ↦ rw c (live o.keyboard t.answers)
        | inr c ↦ rw c (omega arith, v)
      ]
