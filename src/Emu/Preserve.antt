-- ===== src/Emu/Preserve.antt =====
-- Every case of the switch, every round and every run of emu/emu.c keeps the machine well-formed.
use linux_0_11_symcc_on_turi.Base.{
  ℕ, zero, suc, ◌+◌, ◌<◌, ◌≡◌, refl, arith, ltb, Bool-cases, inl, inr, All, Option, none, some,
  List, [], ◌∷◌, length,
}
use linux_0_11_symcc_on_turi.Base.Word.{u8, u16, u32, ◌>>◌}
use linux_0_11_symcc_on_turi.Emu.State.{Memory, rd32, rd16, Cpu, EmuOptions}
use linux_0_11_symcc_on_turi.Emu.Decode.{
  Instr, nop, read_port, out_reg, keyboard, screen_reg, time_0, time_1, counter, out_imm,
  screen_imm, alu_reg, alu_imm, cmp_reg, cmp_imm, jmp_reg, jmp_imm, jump_if, load_8, load_16,
  load_32, pload, store_8, store_16, store_32, pstore, unknown, decode,
}
use linux_0_11_symcc_on_turi.Emu.Exec.{
  Machine, Outcome, next, jump, stop, fault, holds, poll_key, elapsed_ns, print, exec, dispatch,
  fetch, field_b, field_c, field_imm, address,
}
use linux_0_11_symcc_on_turi.Emu.Bytes.{Below, rd32-lt, rd16-lt, poke-Below, wr32-Below, wr16-Below}
use linux_0_11_symcc_on_turi.Emu.Valid.{
  IsValid, OptTyped, Ends, alu-lt, give-IsValid, jump_to-IsValid, set_setting-IsValid, cmp-IsValid,
  time-IsValid, guarded, guarded_mem, guarded_disk, poll_key-IsValid,
}
use linux_0_11_symcc_on_turi.Emu.Run.{
  EmuResult, finish, at_halt, at_done, observed, Round, again, ended, settle, round, loop, image,
  overlay, blank, start, sp_disk_bytes, opt_disk, opt_disk_len, machine, run_disk, emu_run_ex,
}

module _ (m : Machine) (t : OptTyped m.opt) where
  exec-IsValid :
      (n : ℕ) (s : Cpu) (w p : ℕ) (i : Instr) → IsValid s → Ends IsValid (exec m n s w p i)
  unfolding exec print
  exec-IsValid n s w p nop v = v
  exec-IsValid n s w p read_port v = give-IsValid v w 0 (omega arith)
  exec-IsValid n s w p out_reg v = record {
    regs = v.regs;
    zr = v.zr;
    settings = v.settings;
    mem = v.mem;
    disk = v.disk;
    last_a = v.last_a;
    last_b = v.last_b;
    time_high = v.time_high;
    pc = v.pc;
  }
  exec-IsValid n s w p keyboard v =
      let h = poll_key-IsValid v m.opt n t in give-IsValid h.1 w (poll_key m.opt n s).0 h.0
  exec-IsValid n s w p screen_reg v =
      set_setting-IsValid v (s.regs (field_b w)) (s.regs (field_c w)) (v.regs (field_c w))
  exec-IsValid n s w p time_0 v =
      give-IsValid (time-IsValid v (u32 (elapsed_ns m.opt n >> 32)) (omega arith)) w
        (u32 (elapsed_ns m.opt n)) (omega arith)
  exec-IsValid n s w p time_1 v = give-IsValid v w s.time_high v.time_high
  exec-IsValid n s w p counter v = give-IsValid v w (u32 s.pc) (omega arith)
  exec-IsValid n s w p out_imm v = record {
    regs = v.regs;
    zr = v.zr;
    settings = v.settings;
    mem = v.mem;
    disk = v.disk;
    last_a = v.last_a;
    last_b = v.last_b;
    time_high = v.time_high;
    pc = v.pc;
  }
  exec-IsValid n s w p screen_imm v =
      set_setting-IsValid v (s.regs (field_b w)) (field_imm w) (omega arith)
  exec-IsValid n s w p (alu_reg op) v =
      give-IsValid v w _ (alu-lt op _ _ (v.regs (field_b w)) (v.regs (field_c w)))
  exec-IsValid n s w p (alu_imm op) v =
      give-IsValid v w _ (alu-lt op _ (field_imm w) (v.regs (field_b w)) (omega arith))
  exec-IsValid n s w p cmp_reg v = cmp-IsValid v _ _ (v.regs (field_b w)) (v.regs (field_c w))
  exec-IsValid n s w p cmp_imm v = cmp-IsValid v _ (field_imm w) (v.regs (field_b w)) (omega arith)
  exec-IsValid n s w p jmp_reg v =
      jump_to-IsValid v (u32 s.pc) (s.regs (field_c w)) (omega (arith, v.regs (field_c w)))
  exec-IsValid n s w p jmp_imm v = jump_to-IsValid v (u32 s.pc) (field_imm w) (omega arith)
  exec-IsValid n s w p (jump_if c) v = elim (Bool-cases (holds c s.last_a s.last_b)) [
    | inl e ↦ rw e (jump_to-IsValid v s.pc (field_imm w) (omega arith))
    | inr e ↦ rw e v
  ]
  exec-IsValid n s w p load_8 v =
      guarded v _ _ (give-IsValid v w (s.mem p) (omega (arith, v.mem p)))
  exec-IsValid n s w p load_16 v = guarded v _ _ (give-IsValid v w (rd16 s.mem p) (rd16-lt s.mem p))
  exec-IsValid n s w p load_32 v =
      guarded v _ _ (give-IsValid v w (rd32 s.mem p) (rd32-lt s.mem p v.mem))
  exec-IsValid n s w p pload v =
      guarded v _ _ (give-IsValid v w (rd32 s.disk p) (rd32-lt s.disk p v.disk))
  exec-IsValid n s w p store_8 v =
      guarded_mem v _ _ (poke-Below 256 p (u8 (s.regs (field_b w))) v.mem (omega arith))
  exec-IsValid n s w p store_16 v =
      guarded_mem v _ _ (wr16-Below p (u16 (s.regs (field_b w))) v.mem)
  exec-IsValid n s w p store_32 v = guarded_mem v _ _ (wr32-Below p (s.regs (field_b w)) v.mem)
  exec-IsValid n s w p pstore v = guarded_disk v _ _ (wr32-Below p (s.regs (field_b w)) v.disk)
  exec-IsValid n s w p unknown v = v

  -- One instruction, whatever its word is, keeps the machine well-formed.
  pub dispatch-IsValid : (n : ℕ) (s : Cpu) (w : ℕ) → IsValid s → Ends IsValid (dispatch m n s w)
  unfolding dispatch
  dispatch-IsValid n s w v = exec-IsValid n s w (address m s w) (decode (w >> 24)) v

  RoundValid : Round → Type 0
  RoundValid (again s) = IsValid s
  RoundValid (ended r) = IsValid r.cpu

  settle-IsValid : (n : ℕ) (o : Outcome) → Ends IsValid o → RoundValid (settle m n o)
  unfolding RoundValid settle at_halt at_done finish
  settle-IsValid n (next s) v = record {
    regs = v.regs;
    zr = v.zr;
    settings = v.settings;
    mem = v.mem;
    disk = v.disk;
    last_a = v.last_a;
    last_b = v.last_b;
    time_high = v.time_high;
    pc = omega arith;
  }
  settle-IsValid n (jump s) v = v
  settle-IsValid n (stop s) v = v
  settle-IsValid n (fault e s) v = v

  round-IsValid : (n : ℕ) (s : Cpu) → IsValid s → RoundValid (round m n s)
  unfolding RoundValid round at_halt at_done finish
  round-IsValid n s v = elim (Bool-cases (observed m n s)) [
    | inl e ↦ rw e v
    | inr e ↦ rw e (elim (Bool-cases (ltb m.ram_size (fetch m s + 4))) [
      | inl f ↦ rw f v
      | inr f ↦ rw f (
          settle-IsValid n (dispatch m n s (rd32 s.mem (fetch m s)))
            (dispatch-IsValid n s (rd32 s.mem (fetch m s)) v))
    ])
  ]

  pub loop-IsValid : (left n : ℕ) (s : Cpu) → IsValid s → IsValid (loop m left n s).cpu
  unfolding loop RoundValid at_halt finish
  loop-IsValid zero n s v = v
  loop-IsValid (suc left) n s v =
      continue (round m n s) (round-IsValid n s v) (λ s' v'. loop-IsValid left (suc n) s' v')
    where
      continue :
          (r : Round)
          → RoundValid r
          → ((s' : Cpu) → IsValid s' → IsValid (loop m left (suc n) s').cpu)
          → IsValid
              (elim r as (λ _. EmuResult) [ again s' ↦ loop m left (suc n) s' | ended e ↦ e ]).cpu
      continue (again s') v' ih = ih s' v'
      continue (ended e) v' ih = v'

blank-start : (mem disk : Memory) → Below 256 mem → Below 256 disk → IsValid (start mem disk)
blank-start mem disk h k = record {
  regs = λ a. omega arith;
  zr = refl;
  settings = λ a. omega arith;
  mem = h;
  disk = k;
  last_a = omega arith;
  last_b = omega arith;
  time_high = omega arith;
  pc = omega arith;
}

image-Below : (bytes : List ℕ) → All (λ b. b < 256) bytes → Below 256 (image bytes)
unfolding image
image-Below [] h a = omega arith
image-Below (b ∷ bytes) h zero = h.0
image-Below (b ∷ bytes) h (suc a) = image-Below bytes h.1 a

overlay-Below : (bytes : Memory) (n : ℕ) → Below 256 bytes → Below 256 (overlay bytes n)
unfolding overlay
overlay-Below bytes n h a = elim (Bool-cases (ltb a n)) [
  | inl e ↦ rw e (h a)
  | inr e ↦ rw e (omega arith)
]

run_disk-IsValid :
    (m : Machine) (limit : ℕ) (mem : Memory) (len : ℕ) (d : Option Memory)
    → OptTyped m.opt
    → Below 256 mem
    → ((f : Memory) → d ≡ some f → Below 256 f)
    → IsValid (run_disk m limit mem len d).cpu
unfolding run_disk at_done finish
run_disk-IsValid m limit mem zero d t h k =
    loop-IsValid m t limit 0 (start mem blank) (blank-start mem blank h (λ a. omega arith))
run_disk-IsValid m limit mem (suc len) none t h k = blank-start mem blank h (λ a. omega arith)
run_disk-IsValid m limit mem (suc len) (some f) t h k =
    elim (Bool-cases (ltb sp_disk_bytes (suc len))) [
      | inl e ↦ rw e (blank-start mem blank h (λ a. omega arith))
      | inr e ↦ rw e (
          loop-IsValid m t limit 0 (start mem (overlay f (suc len)))
            (blank-start mem (overlay f (suc len)) h (overlay-Below f (suc len) (k f refl))))
    ]

opt_disk-Below :
    (opt : Option EmuOptions) → OptTyped opt → (f : Memory) → opt_disk opt ≡ some f → Below 256 f
opt_disk-Below none t f e = cc
opt_disk-Below (some o) t f e = t.bytes f e

-- Whatever bytes the program is made of and whatever limit and options (within their C types) it
-- is run with, the machine that `emu_run_ex` returns is well-formed: the zero register holds zero,
-- every register, setting and comparison operand fits 32 bits, every cell of memory and disk a byte.
pub emu_run_ex-IsValid :
    (bin : List ℕ) (ram limit : ℕ) (opt : Option EmuOptions)
    → All (λ b. b < 256) bin
    → OptTyped opt
    → IsValid (emu_run_ex bin ram limit opt).cpu
unfolding emu_run_ex at_done finish machine
emu_run_ex-IsValid bin ram limit opt h t =
    elim (Bool-cases (ltb (machine ram opt).ram_size (length bin))) [
      | inl e ↦ rw e (blank-start blank blank (λ a. omega arith) (λ a. omega arith))
      | inr e ↦ rw e (
          run_disk-IsValid (machine ram opt) limit (image bin) (opt_disk_len opt) (opt_disk opt) t
            (image-Below bin h) (opt_disk-Below opt t))
    ]
