-- ===== src/Emu/Call.antt =====
-- The pseudo-instructions `call`, `ret`, `push` and `pop` of emu/isa.c, run by the simulator of emu/emu.c: what
-- their words do to the stack, the registers and the program counter.
pub mod Words
pub mod Return
use linux_0_11_symcc_on_turi.Base.{
  ℕ, zero, suc, ◌+◌, ◌-◌, ◌*◌, ◌/◌, ◌%◌, ◌^◌, ◌<◌, ◌≤◌, ◌≡◌, ◌≢◌, ◌⊎◌, inl, inr, refl, arith, ap,
  sym, ◌∙◌, Bool, true, false, ◌&&◌, ltb, leb, ◌==◌, List, [], ◌∷◌, Option, none, some,
  if◌then◌else◌, Bool-cases, bit_or,
}
use linux_0_11_symcc_on_turi.Base.Word.{u8, u32, u64, sub32, ◌<<◌, ◌>>◌}
use linux_0_11_symcc_on_turi.Base.Bits.{bit_or_field}
use linux_0_11_symcc_on_turi.Emu.State.{Memory, poke, rd32, wr32, set_reg, Cpu}
use linux_0_11_symcc_on_turi.Emu.Decode.{decode}
use linux_0_11_symcc_on_turi.Emu.Exec.{
  Machine, Outcome, next, jump, fault, fetch, give, jump_to, address, exec, alu, dispatch,
  field_imm,
}
use linux_0_11_symcc_on_turi.Emu.Bytes.{rd32-wr32, rd32_frame, wr32_frame}
use linux_0_11_symcc_on_turi.Emu.Run.{observed, Round, again, settle, round}
use linux_0_11_symcc_on_turi.Emu.Outcome.{Rounds, done, step}
use Prim.Native.String.{String}
use linux_0_11_symcc_on_turi.Base.Text.{codes}
use linux_0_11_symcc_on_turi.Isa.Table.{Insn, InsnWord}
use linux_0_11_symcc_on_turi.Isa.Encode.{isa_find, encode_words, put_ops, put_field, put_second}
use linux_0_11_symcc_on_turi.Emu.Call.Words.{
  plain, Holds, counter_flags, add_flags, sub_sp, add_sp, store_flags, load_flags, jmp_flags,
  jmp_target,
}

-- What `call t` makes of the machine: the return address is pushed and left in `flags` (register 15).
pub record Called (s : Cpu) (t : ℕ) (u : Cpu) : Type 0 where
  pub pc : u.pc ≡ t
  pub sp : u.regs 14 ≡ s.regs 14 - 4
  pub flags : u.regs 15 ≡ s.pc + 20
  pub pushed : rd32 u.mem (s.regs 14 - 4) ≡ s.pc + 20
  pub regs : (i : ℕ) → i < 14 → u.regs i ≡ s.regs i
  pub mem : (a : ℕ) → (a < s.regs 14 - 4) ⊎ (s.regs 14 ≤ a) → u.mem a ≡ s.mem a
  pub disk : u.disk ≡ s.disk

abbrev pub call_codes : ℕ → List ℕ
call_codes t = 0x07F00000 ∷ 0x34FF0014 ∷ 0x35EE0004 ∷ 0x660F0E00 ∷ (0x580F0000 + t) ∷ []

-- Where the stack has room, and does not reach into the code of the call.
pub record CanCall (ram : ℕ) (s : Cpu) (t : ℕ) : Type 0 where
  pub bounded : ram < 2 ^ 32
  pub code : s.pc + 20 ≤ ram
  pub below : 4 ≤ s.regs 14
  pub stack : s.regs 14 ≤ ram
  pub word : s.regs 14 < 2 ^ 32
  pub apart : (s.regs 14 ≤ s.pc) ⊎ (s.pc + 20 ≤ s.regs 14 - 4)
  pub target : t < 2 ^ 16
  pub away : t ≢ s.pc + 16

-- The machine after each word of the call.
abbrev pub after_counter : Cpu → Cpu
after_counter s = record s { regs = poke s.regs 15 (u32 s.pc); pc = s.pc + 4 }

abbrev pub after_add : Cpu → Cpu
after_add s = record s { regs = poke s.regs 15 (u32 (s.regs 15 + 20)); pc = s.pc + 4 }

abbrev pub after_sub : Cpu → Cpu
after_sub s = record s { regs = poke s.regs 14 (sub32 (s.regs 14) 4); pc = s.pc + 4 }

abbrev pub after_store : Cpu → Cpu
after_store s = record s { mem = wr32 s.mem (s.regs 14) (s.regs 15); pc = s.pc + 4 }

abbrev pub before_jump : Cpu → Cpu
before_jump s = after_store (after_sub (after_add (after_counter s)))

module _ (ram disk n : ℕ) (s : Cpu) (t : ℕ) (c : CanCall ram s t) where
  slot : (after_sub (after_add (after_counter s))).regs 14 ≡ s.regs 14 - 4
  unfolding poke
  slot = omega (arith, c.below, c.word)

  link : (after_sub (after_add (after_counter s))).regs 15 ≡ s.pc + 20
  unfolding poke
  link = omega (arith, c.code, c.bounded)

  pub call-Rounds :
      Holds s.mem s.pc (call_codes t)
      → Rounds
          (plain ram disk)
          n
          s
          (suc (suc (suc (suc (suc n)))))
          (record (before_jump s) { pc = t })
  call-Rounds h =
      let s1 : Cpu = after_counter s in
      let s2 : Cpu = after_add s1 in
      let s3 : Cpu = after_sub s2 in
      let s4 : Cpu = after_store s3 in
      step (counter_flags ram disk (omega (arith, c.bounded)) n s (omega (arith, c.code)) h.0) (
        step
          (add_flags ram disk (omega (arith, c.bounded)) (suc n) s1 (omega (arith, c.code)) h.1.0)
          (step
            (sub_sp ram disk (omega (arith, c.bounded)) (suc (suc n)) s2 (omega (arith, c.code))
              h.1.1.0)
            (step
              (store_flags ram disk (omega (arith, c.bounded)) (suc (suc (suc n))) s3
                (omega (arith, c.code)) h.1.1.1.0 (omega (arith, slot, c.word))
                (omega (arith, slot, c.below, c.stack)))
              (step
                (jmp_target ram disk (omega (arith, c.bounded)) (suc (suc (suc (suc n)))) s4 t
                  (omega (arith, c.code))
                  (rd32_frame s.mem (s3.regs 14) s4.pc (s3.regs 15) (omega (arith, slot, c.apart))
                    ∙ h.1.1.1.1.0)
                  c.target (omega (arith, c.away, c.code, c.bounded)))
                done))))

  pub call-Called : Called s t (record (before_jump s) { pc = t })
  call-Called = record {
    pc = refl;
    sp = slot;
    flags = link;
    pushed =
        rw (slot, link)
          (rd32-wr32 s.mem (s.regs 14 - 4) (s.pc + 20) (omega (arith, c.code, c.bounded)));
    regs = λ i lt. unfold poke in ground arith;
    mem = λ a out. wr32_frame s.mem _ _ a (omega (arith, slot, out, c.below));
    disk = refl;
  }

-- What `ret` needs: room on the stack, and a return address other than its own last word.
pub record CanReturn (ram : ℕ) (s : Cpu) : Type 0 where
  pub bounded : ram < 2 ^ 32
  pub code : s.pc + 12 ≤ ram
  pub stack : s.regs 14 + 4 ≤ ram
  pub away : rd32 s.mem (s.regs 14) ≢ s.pc + 8

-- What `ret` makes of the machine: the return address is popped into the program counter.
pub record Returned (s u : Cpu) : Type 0 where
  pub pc : u.pc ≡ rd32 s.mem (s.regs 14)
  pub sp : u.regs 14 ≡ s.regs 14 + 4
  pub regs : (i : ℕ) → i < 14 → u.regs i ≡ s.regs i
  pub mem : u.mem ≡ s.mem
  pub disk : u.disk ≡ s.disk

abbrev pub ret_codes : List ℕ
ret_codes = 0x62F00E00 ∷ 0x34EE0004 ∷ 0x480F0F00 ∷ []

abbrev pub after_load : Cpu → Cpu
after_load s = record s { regs = poke s.regs 15 (rd32 s.mem (s.regs 14)); pc = s.pc + 4 }

abbrev pub after_pop : Cpu → Cpu
after_pop s = record s { regs = poke s.regs 14 (u32 (s.regs 14 + 4)); pc = s.pc + 4 }

abbrev pub after_ret : Cpu → Cpu
after_ret s = let s' = after_pop (after_load s) in record s' { pc = s'.regs 15 }

module _ (ram disk n : ℕ) (s : Cpu) (c : CanReturn ram s) where
  popped : (after_pop (after_load s)).regs 15 ≡ rd32 s.mem (s.regs 14)
  unfolding poke
  popped = refl

  unslot : (after_pop (after_load s)).regs 14 ≡ s.regs 14 + 4
  unfolding poke
  unslot = omega (arith, c.stack, c.bounded)

  pub ret-Rounds :
      Holds s.mem s.pc ret_codes → Rounds (plain ram disk) n s (suc (suc (suc n))) (after_ret s)
  ret-Rounds h =
      let s1 : Cpu = after_load s in
      let s2 : Cpu = after_pop s1 in
      step
        (load_flags ram disk (omega (arith, c.bounded)) n s (omega (arith, c.code)) h.0
          (omega (arith, c.stack, c.bounded)) c.stack)
        (step (add_sp ram disk (omega (arith, c.bounded)) (suc n) s1 (omega (arith, c.code)) h.1.0)
          (step
            (jmp_flags ram disk (omega (arith, c.bounded)) (suc (suc n)) s2 (omega (arith, c.code))
              h.1.1.0 (omega (arith, popped, c.away, c.code, c.bounded)))
            done))

  pub ret-Returned : Returned s (after_ret s)
  ret-Returned = record {
    pc = popped;
    sp = unslot;
    regs = λ i lt. unfold poke in ground arith;
    mem = refl;
    disk = refl;
  }

-- The words of `call t` and of `ret` as the table and the encoder give them.
abbrev pub encoding : String → List ℕ → List ℕ
encoding name vals = elim (isa_find (codes name)) [
  | none ↦ []
  | some i ↦ encode_words i.words vals 0
]

no_shift : (t : ℕ) → t < 2 ^ 16 → u32 (t << 0) ≡ t * 2 ^ 0
no_shift t h = omega arith

pub call_encoding : (t : ℕ) → t < 2 ^ 16 → encoding "call" (t ∷ []) ≡ call_codes t
unfolding isa_find encode_words
call_encoding t h =
    ap (λ x. 0x07F00000 ∷ 0x34FF0014 ∷ 0x35EE0004 ∷ 0x660F0E00 ∷ x ∷ [])
      (ap (λ v. bit_or 0x580F0000 v) (no_shift t h)
        ∙ bit_or_field 0 16 0x580F0000 t refl h
        ∙ omega arith)

pub ret_encoding : encoding "ret" [] ≡ ret_codes
unfolding isa_find encode_words
ret_encoding = refl
