-- ===== src/Emu/Frame.antt =====
-- Memory safety of emu/emu.c: no instruction writes outside the memory and the disk that the run
-- has allocated.
use linux_0_11_symcc_on_turi.Base.{
  ℕ, zero, suc, ◌+◌, ◌≤◌, ◌≡◌, refl, arith, ltb, leb, ◌==◌, if◌then◌else◌, ◌∙◌, Bool, true, false,
  Bool-cases, inl, inr, Option, none, some, List, [], ◌∷◌, length, get_elem?,
}
use linux_0_11_symcc_on_turi.Base.Word.{u8, u16}
use linux_0_11_symcc_on_turi.Emu.State.{Memory, poke, rd32, Cpu, EmuOptions, EmuEvent}
use linux_0_11_symcc_on_turi.Emu.Decode.{
  Instr, nop, keyboard, screen_reg, screen_imm, jmp_reg, jmp_imm, jump_if, load_8, load_16, load_32,
  pload, store_8, store_16, store_32, pstore,
}
use linux_0_11_symcc_on_turi.Emu.Exec.{
  Machine, Outcome, next, jump, stop, fault, holds, live_key, scripted_key, poll_key, give, jump_to,
  print, set_setting, exec, dispatch, fetch, field_b,
}
use linux_0_11_symcc_on_turi.Emu.Bytes.{poke_frame, wr16_frame, wr32_frame}
use linux_0_11_symcc_on_turi.Emu.Valid.{Ends}
use linux_0_11_symcc_on_turi.Emu.Run.{
  EmuResult, finish, at_halt, at_done, observed, Round, again, ended, settle, round, loop, image,
  overlay, blank, start, sp_disk_bytes, opt_disk, opt_disk_len, machine, run_disk, emu_run_ex,
}

-- From `s` to `t` nothing outside the two memories has changed.
pub record Frozen (m : Machine) (s t : Cpu) : Type 0 where
  pub ram : (a : ℕ) → m.ram_size ≤ a → t.mem a ≡ s.mem a
  pub disk : (a : ℕ) → m.disk_size ≤ a → t.disk a ≡ s.disk a

module _ (m : Machine) where
  -- Two machines with the same memories.
  same : (s t : Cpu) → t.mem ≡ s.mem → t.disk ≡ s.disk → Frozen m s t
  same s t e f = record { ram = λ a h i. e i a; disk = λ a h i. f i a }

  jump_to-Frozen : (s : Cpu) (here t : ℕ) → Ends (Frozen m s) (jump_to s here t)
  unfolding jump_to
  jump_to-Frozen s here t = elim (Bool-cases (t == here)) [
    | inl e ↦ rw e (same s s refl refl)
    | inr e ↦ rw e (same s (record s { pc = t }) refl refl)
  ]

  set_setting-Frozen : (s : Cpu) (i x : ℕ) → Ends (Frozen m s) (set_setting s i x)
  unfolding set_setting
  set_setting-Frozen s i x = elim (Bool-cases (leb 8 i)) [
    | inl e ↦ rw e (same s s refl refl)
    | inr e ↦ rw e (same s (record s { settings = poke s.settings i x }) refl refl)
  ]

  load-Frozen :
      (s : Cpu) (test : Bool) (w x : ℕ) → Ends (Frozen m s) (if test then fault 2 s else give s w x)
  unfolding give
  load-Frozen s true w x = same s s refl refl
  load-Frozen s false w x = record { ram = λ a _. refl; disk = λ a _. refl }

  store-Frozen :
      (s : Cpu) (test : Bool) (mem : Memory)
      → (test ≡ false → (a : ℕ) → m.ram_size ≤ a → mem a ≡ s.mem a)
      → Ends (Frozen m s) (if test then fault 2 s else next (record s { mem = mem }))
  store-Frozen s true mem h = same s s refl refl
  store-Frozen s false mem h = record { ram = h refl; disk = λ a _. refl }

  poll_key_memories :
      (o : Option EmuOptions) (n : ℕ) (s : Cpu)
      → ((poll_key o n s).1.mem ≡ s.mem) × ((poll_key o n s).1.disk ≡ s.disk)
  unfolding poll_key scripted_key live_key
  poll_key_memories none n s = (refl, refl)
  poll_key_memories (some o) n s = scripted (get_elem? o.events s.key_index)
    where
      live :
          (f : Option (ℕ → ℕ)) → ((live_key f s).1.mem ≡ s.mem) × ((live_key f s).1.disk ≡ s.disk)
      live none = (refl, refl)
      live (some f) = (refl, refl)

      scripted :
          (e : Option EmuEvent)
          → ((scripted_key e o n s).1.mem ≡ s.mem) × ((scripted_key e o n s).1.disk ≡ s.disk)
      scripted (some e) = elim (Bool-cases (leb e.at_instruction n)) [
        | inl c ↦ rw c (refl, refl)
        | inr c ↦ rw c (refl, refl)
      ]
      scripted none = elim (Bool-cases (length o.events == 0)) [
        | inl c ↦ rw c (live o.keyboard)
        | inr c ↦ rw c (refl, refl)
      ]

  exec-Frozen : (n : ℕ) (s : Cpu) (w p : ℕ) (i : Instr) → Ends (Frozen m s) (exec m n s w p i)
  unfolding exec print give
  exec-Frozen n s w p nop = same s s refl refl
  exec-Frozen n s w p keyboard =
      let h = poll_key_memories m.opt n s in
      same s (record (poll_key m.opt n s).1 { regs = _ }) h.0 h.1
  exec-Frozen n s w p screen_reg = set_setting-Frozen s _ _
  exec-Frozen n s w p screen_imm = set_setting-Frozen s _ _
  exec-Frozen n s w p jmp_reg = jump_to-Frozen s _ _
  exec-Frozen n s w p jmp_imm = jump_to-Frozen s _ _
  exec-Frozen n s w p (jump_if c) = elim (Bool-cases (holds c s.last_a s.last_b)) [
    | inl e ↦ rw e (jump_to-Frozen s s.pc _)
    | inr e ↦ rw e (same s s refl refl)
  ]
  exec-Frozen n s w p load_8 = load-Frozen s (leb m.ram_size p) w _
  exec-Frozen n s w p load_16 = load-Frozen s (ltb m.ram_size (p + 2)) w _
  exec-Frozen n s w p load_32 = load-Frozen s (ltb m.ram_size (p + 4)) w _
  exec-Frozen n s w p pload = load-Frozen s (ltb m.disk_size (p + 4)) w _
  exec-Frozen n s w p store_8 =
      store-Frozen s (leb m.ram_size p) _
        (λ e a h. poke_frame s.mem p (u8 (s.regs (field_b w))) a (ground arith))
  exec-Frozen n s w p store_16 =
      store-Frozen s (ltb m.ram_size (p + 2)) _
        (λ e a h. wr16_frame s.mem p (u16 (s.regs (field_b w))) a (ground arith))
  exec-Frozen n s w p store_32 =
      store-Frozen s (ltb m.ram_size (p + 4)) _
        (λ e a h. wr32_frame s.mem p (s.regs (field_b w)) a (ground arith))
  exec-Frozen n s w p pstore = elim (Bool-cases (ltb m.disk_size (p + 4))) [
    | inl e ↦ rw e (same s s refl refl)
    | inr e ↦ rw e (record {
      ram = λ a _. refl;
      disk = λ a h. wr32_frame s.disk p (s.regs (field_b w)) a (ground arith);
    })
  ]
  exec-Frozen n s w p _ = same s _ refl refl

  -- Where the run goes on, and where it ends.
  RoundFrozen : Cpu → Round → Type 0
  RoundFrozen s (again t) = Frozen m s t
  RoundFrozen s (ended r) = Frozen m s r.cpu

  settle-Frozen :
      (n : ℕ) (s : Cpu) (o : Outcome) → Ends (Frozen m s) o → RoundFrozen s (settle m n o)
  unfolding RoundFrozen settle at_halt at_done finish
  settle-Frozen n s (next t) f = record { ram = f.ram; disk = f.disk }
  settle-Frozen n s (jump t) f = f
  settle-Frozen n s (stop t) f = f
  settle-Frozen n s (fault e t) f = f

  round-Frozen : (n : ℕ) (s : Cpu) → RoundFrozen s (round m n s)
  unfolding RoundFrozen round at_halt at_done finish dispatch
  round-Frozen n s = elim (Bool-cases (observed m n s)) [
    | inl e ↦ rw e (same s s refl refl)
    | inr e ↦ rw e (elim (Bool-cases (ltb m.ram_size (fetch m s + 4))) [
      | inl f ↦ rw f (same s s refl refl)
      | inr f ↦ rw f (settle-Frozen n s _ (exec-Frozen n s (rd32 s.mem (fetch m s)) _ _))
    ])
  ]

  trans : {s t u : Cpu} → Frozen m s t → Frozen m t u → Frozen m s u
  trans f g = record { ram = λ a h. g.ram a h ∙ f.ram a h; disk = λ a h. g.disk a h ∙ f.disk a h }

  pub loop-Frozen : (left n : ℕ) (s : Cpu) → Frozen m s (loop m left n s).cpu
  unfolding loop RoundFrozen at_halt finish
  loop-Frozen zero n s = same s s refl refl
  loop-Frozen (suc left) n s =
      continue (round m n s) (round-Frozen n s) (λ t. loop-Frozen left (suc n) t)
    where
      continue :
          (r : Round)
          → RoundFrozen s r
          → ((t : Cpu) → Frozen m t (loop m left (suc n) t).cpu)
          → Frozen m s
              (elim r as (λ _. EmuResult) [ again t ↦ loop m left (suc n) t | ended e ↦ e ]).cpu
      continue (again t) f ih = trans f (ih t)
      continue (ended e) f ih = f

  -- Nothing is written outside the memories: what was clear there is clear.
  Clear : EmuResult → Type 0
  Clear r =
      ((a : ℕ) → m.ram_size ≤ a → r.cpu.mem a ≡ 0) × ((a : ℕ) → m.disk_size ≤ a → r.cpu.disk a ≡ 0)

  loop-Clear :
      (limit : ℕ) (mem disk : Memory)
      → ((a : ℕ) → m.ram_size ≤ a → mem a ≡ 0)
      → ((a : ℕ) → m.disk_size ≤ a → disk a ≡ 0)
      → Clear (loop m limit 0 (start mem disk))
  unfolding Clear
  loop-Clear limit mem disk h k =
      let f = loop-Frozen limit 0 (start mem disk) in
      (λ a le. f.ram a le ∙ h a le, λ a le. f.disk a le ∙ k a le)

  run_disk-Clear :
      (limit : ℕ) (mem : Memory) (len : ℕ) (d : Option Memory)
      → ((a : ℕ) → m.ram_size ≤ a → mem a ≡ 0)
      → (leb len sp_disk_bytes ≡ true → len ≤ m.disk_size)
      → Clear (run_disk m limit mem len d)
  unfolding run_disk at_done finish Clear overlay
  run_disk-Clear limit mem zero d h k = loop-Clear limit mem blank h (λ a _. refl)
  run_disk-Clear limit mem (suc len) none h k = (h, λ a _. refl)
  run_disk-Clear limit mem (suc len) (some f) h k =
      elim (Bool-cases (ltb sp_disk_bytes (suc len))) [
        | inl e ↦ rw e (h, λ a _. refl)
        | inr e ↦ rw e (
            loop-Clear limit mem (overlay f (suc len)) h (λ a le. ground (arith, k (ground arith))))
      ]

image_beyond : (bytes : List ℕ) (a : ℕ) → length bytes ≤ a → image bytes a ≡ 0
unfolding image
image_beyond [] a h = refl
image_beyond (b ∷ bytes) zero h = absurd (omega arith)
image_beyond (b ∷ bytes) (suc a) h = image_beyond bytes a (omega arith)

disk_fits :
    (ram : ℕ) (opt : Option EmuOptions)
    → leb (opt_disk_len opt) sp_disk_bytes ≡ true
    → opt_disk_len opt ≤ (machine ram opt).disk_size
unfolding machine
disk_fits ram opt h = ground arith

-- Whatever the program does, `emu_run_ex` writes no cell outside the `mem_size` bytes of memory and
-- the `disk_size` bytes of disk that it has allocated: beyond them every cell is still clear.
pub emu_run_ex_confined :
    (bin : List ℕ) (ram limit : ℕ) (opt : Option EmuOptions)
    → let r = emu_run_ex bin ram limit opt in
      ((a : ℕ) → (machine ram opt).ram_size ≤ a → r.cpu.mem a ≡ 0)
      × ((a : ℕ) → (machine ram opt).disk_size ≤ a → r.cpu.disk a ≡ 0)
unfolding emu_run_ex Clear at_done finish
emu_run_ex_confined bin ram limit opt =
    elim (Bool-cases (ltb (machine ram opt).ram_size (length bin))) [
      | inl e ↦ rw e (λ a _. refl, λ a _. refl)
      | inr e ↦ rw e (
          run_disk-Clear (machine ram opt) limit (image bin) (opt_disk_len opt) (opt_disk opt)
            (λ a h. image_beyond bin a (ground arith)) (disk_fits ram opt))
    ]
