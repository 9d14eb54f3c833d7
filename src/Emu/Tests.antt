-- ===== src/Emu/Tests.antt =====
-- Small programs on the simulator of emu/emu.c, and the theorems of this part at them.
use linux_0_11_symcc_on_turi.Base.{
  ℕ, ◌-◌, ◌^◌, ◌<◌, ◌≤◌, ◌≡◌, ◌≢◌, ◌⊎◌, inr, refl, arith, List, [], ◌∷◌, none, ◌==◌, if◌then◌else◌,
}
use linux_0_11_symcc_on_turi.Base.Word.{◌<<◌}
use linux_0_11_symcc_on_turi.Emu.State.{poke, rd32, set_reg, Cpu}
use linux_0_11_symcc_on_turi.Emu.Decode.{decode}
use linux_0_11_symcc_on_turi.Emu.Exec.{alu, fetch, give, jump_to, exec, dispatch}
use linux_0_11_symcc_on_turi.Emu.Run.{
  observed, settle, round, loop, image, start, blank, machine, run_disk, emu_run_ex, emu_run,
  finish, limit_error, at_halt, at_done,
}
use linux_0_11_symcc_on_turi.Emu.Valid.{IsValid}
use linux_0_11_symcc_on_turi.Emu.Preserve.{emu_run_ex-IsValid}
use linux_0_11_symcc_on_turi.Emu.Frame.{emu_run_ex_confined}
use linux_0_11_symcc_on_turi.Emu.Outcome.{Rounds, emu_run_ex_limit}
use linux_0_11_symcc_on_turi.Emu.Call.{CanCall, encoding}
use linux_0_11_symcc_on_turi.Emu.Call.Words.{plain, Holds}
use linux_0_11_symcc_on_turi.Emu.Call.Return.{call-ret}
use linux_0_11_symcc_on_turi.Isa.Encode.{
  find_in, isa_find, encode_words, put_ops, put_field, put_second,
}

-- `mov r1, 42` and a jump to itself, which halts.
abbrev answer : List ℕ
answer = 0x31 ∷ 0x10 ∷ 0x00 ∷ 42 ∷ 0x58 ∷ 0x0F ∷ 0x00 ∷ 4 ∷ []

answer_run : (emu_run answer 64 100).exit_code ≡ 42
unfolding emu_run emu_run_ex machine image run_disk loop round observed fetch dispatch decode exec
    give jump_to alu rd32 set_reg poke settle at_halt at_done finish
answer_run = refl

answer_good : (emu_run_ex answer 64 100 none).error ≡ 0
unfolding emu_run_ex machine image run_disk loop round observed fetch dispatch decode exec give
    jump_to alu rd32 set_reg poke settle at_halt at_done finish
answer_good = refl

emu_run_ex-IsValid_example : IsValid (emu_run_ex answer 64 100 none).cpu
emu_run_ex-IsValid_example =
    emu_run_ex-IsValid answer 64 100 none
      (
        omega arith,
        (
          omega arith,
          (
            omega arith,
            (omega arith, (omega arith, (omega arith, (omega arith, (omega arith, tt))))),
          ),
        ),
      )
      tt

emu_run_ex_confined_example :
    ((a : ℕ) → 64 ≤ a → (emu_run_ex answer 64 100 none).cpu.mem a ≡ 0)
    × ((a : ℕ) → 8 << 20 ≤ a → (emu_run_ex answer 64 100 none).cpu.disk a ≡ 0)
unfolding machine
emu_run_ex_confined_example = emu_run_ex_confined answer 64 100 none

no_limit : (emu_run_ex answer 64 100 none).error ≢ 1
no_limit = omega (arith, answer_good)

emu_run_ex_limit_example : emu_run_ex answer 64 1000 none ≡ emu_run_ex answer 64 100 none
emu_run_ex_limit_example = emu_run_ex_limit answer 64 100 900 none (omega arith) no_limit

-- With the greatest limit the counter wraps, and its end is not told from a halt.
limit_wraps : limit_error (2 ^ 64 - 1) ≡ 0
unfolding limit_error
limit_wraps = refl

limit_told : limit_error (2 ^ 64 - 2) ≡ 1
unfolding limit_error
limit_told = refl

-- `call 40` at 0, `ret` at 40, and the stack below 256.
abbrev calling : List ℕ
calling =
    0x07 ∷ 0xF0 ∷ 0x00 ∷ 0x00 ∷ 0x34 ∷ 0xFF ∷ 0x00 ∷ 0x14 ∷ 0x35 ∷ 0xEE ∷ 0x00 ∷ 0x04 ∷ 0x66 ∷ 0x0F
    ∷ 0x0E ∷ 0x00 ∷ 0x58 ∷ 0x0F ∷ 0x00 ∷ 40 ∷ 0 ∷ 0 ∷ 0 ∷ 0 ∷ 0 ∷ 0 ∷ 0 ∷ 0 ∷ 0 ∷ 0 ∷ 0 ∷ 0 ∷ 0 ∷ 0
    ∷ 0 ∷ 0 ∷ 0 ∷ 0 ∷ 0 ∷ 0 ∷ 0x62 ∷ 0xF0 ∷ 0x0E ∷ 0x00 ∷ 0x34 ∷ 0xEE ∷ 0x00 ∷ 0x04 ∷ 0x48 ∷ 0x0F
    ∷ 0x0F ∷ 0x00 ∷ []

abbrev caller : Cpu
caller = record (start (image calling) blank) { regs = λ i. if i == 14 then 256 else 0 }

call_here : Holds caller.mem caller.pc (encoding "call" (40 ∷ []))
unfolding rd32 image encode_words isa_find find_in put_ops put_field put_second
call_here = (refl, (refl, (refl, (refl, (refl, tt)))))

ret_there : Holds caller.mem 40 (encoding "ret" [])
unfolding rd32 image encode_words isa_find find_in put_ops put_field put_second
ret_there = (refl, (refl, (refl, tt)))

can_call : CanCall 256 caller 40
can_call = record {
  bounded = omega arith;
  code = omega arith;
  below = omega arith;
  stack = omega arith;
  word = omega arith;
  apart = inr (omega arith);
  target = omega arith;
  away = omega arith;
}

call-ret_example :
    (u : Cpu) × Rounds (plain 256 0) 0 caller 8 u
    × (u.pc ≡ 20)
    × (u.regs 14 ≡ 256)
    × ((i : ℕ) → i < 14 → u.regs i ≡ caller.regs i)
    × ((a : ℕ) → (a < 252) ⊎ (256 ≤ a) → u.mem a ≡ caller.mem a)
call-ret_example =
    call-ret 256 0 0 caller 40 can_call (omega arith) (inr (omega arith)) (omega arith) call_here
      ret_there
