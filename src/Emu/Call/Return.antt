-- ===== src/Emu/Call/Return.antt =====
-- A call and the return from it, from the words of the table (emu/isa.c) to what the simulator
-- (emu/emu.c) has done when they have run.
use linux_0_11_symcc_on_turi.Base.{ℕ, suc, ◌+◌, ◌-◌, ◌<◌, ◌≤◌, ◌≡◌, ◌≢◌, ◌⊎◌, arith, ◌∙◌, [], ◌∷◌}
use mathlib.Core.Path.{subst}
use linux_0_11_symcc_on_turi.Emu.State.{Cpu, rd32}
use linux_0_11_symcc_on_turi.Emu.Exec.{Machine}
use linux_0_11_symcc_on_turi.Emu.Bytes.{rd32_agree}
use linux_0_11_symcc_on_turi.Emu.Outcome.{Rounds, done, step}
use linux_0_11_symcc_on_turi.Emu.Call.Words.{plain, Holds}
use linux_0_11_symcc_on_turi.Emu.Call.{
  CanCall, Called, call_codes, call-Rounds, call-Called, call_encoding, CanReturn, Returned,
  ret_codes, after_ret, ret-Rounds, ret-Returned, ret_encoding, encoding,
}

append-Rounds :
    {m : Machine} {s t : Cpu} {n i : ℕ} (j : ℕ) (u : Cpu)
    → Rounds m n s i t
    → Rounds m i t j u
    → Rounds m n s j u
append-Rounds j u done r = r
append-Rounds j u (step e q) r = step e (append-Rounds j u q r)

module _ (ram disk n : ℕ) (s : Cpu) where
  -- On a machine without options, where the stack has room and is apart from the code of the call, the
  -- five words of `call t` take five rounds. They push the return address, which is the address
  -- behind them, leave it in `flags` as well, and go on at `t`; the other registers, the memory
  -- outside the pushed word and the disk are as before.
  pub call_lem :
      (t : ℕ)
      → CanCall ram s t
      → Holds s.mem s.pc (encoding "call" (t ∷ []))
      → (u : Cpu) × Rounds (plain ram disk) n s (n + 5) u × Called s t u
  call_lem t c h =
      let codes : Holds s.mem s.pc (call_codes t) =
        subst (Holds s.mem s.pc) (call_encoding t c.target) h in
      let five : suc (suc (suc (suc (suc n)))) ≡ n + 5 = omega arith in
      (_, rw (← five) (call-Rounds ram disk n s t c codes), call-Called ram disk n s t c)

  -- On a machine without options, where memory has the word on the stack and that is not the address of
  -- the last word of `ret`, the three words of `ret` take three rounds. They pop that word into the
  -- program counter; the registers below the stack pointer, memory and disk are as before.
  pub ret_lem :
      CanReturn ram s
      → Holds s.mem s.pc (encoding "ret" [])
      → (u : Cpu) × Rounds (plain ram disk) n s (n + 3) u × Returned s u
  ret_lem c h =
      let codes : Holds s.mem s.pc ret_codes = subst (Holds s.mem s.pc) ret_encoding h in
      let three : suc (suc (suc n)) ≡ n + 3 = omega arith in
      (_, rw (← three) (ret-Rounds ram disk n s c codes), ret-Returned ram disk n s c)

  -- On a machine without options, where `call t` can run, `ret` is the code at `t` and the stack does not
  -- reach into it, and the return address is not the last word of that `ret`: calling `t` comes back
  -- behind the call in eight rounds, with the stack pointer and the registers below it restored and
  -- nothing written in memory but the four bytes below the stack.
  pub call-ret :
      (t : ℕ)
      → CanCall ram s t
      → t + 12 ≤ ram
      → (s.regs 14 ≤ t) ⊎ (t + 12 ≤ s.regs 14 - 4)
      → s.pc + 20 ≢ t + 8
      → Holds s.mem s.pc (encoding "call" (t ∷ []))
      → Holds s.mem t (encoding "ret" [])
      → (u : Cpu) × Rounds (plain ram disk) n s (n + 8) u
        × (u.pc ≡ s.pc + 20)
        × (u.regs 14 ≡ s.regs 14)
        × ((i : ℕ) → i < 14 → u.regs i ≡ s.regs i)
        × ((a : ℕ) → (a < s.regs 14 - 4) ⊎ (s.regs 14 ≤ a) → u.mem a ≡ s.mem a)
  call-ret t c room out away h k =
      let (v, there, called) = call_lem t c h in
      let same : (q : ℕ) → t ≤ q → q + 4 ≤ t + 12 → rd32 v.mem q ≡ rd32 s.mem q =
        λ q lo hi. rd32_agree v.mem s.mem q (λ a la ha. called.mem a (omega arith)) in
      let codes : Holds s.mem t ret_codes = subst (Holds s.mem t) ret_encoding k in
      let rest : Holds v.mem v.pc ret_codes = rw called.pc (
        same t (omega arith) (omega arith) ∙ codes.0,
        (
          same (t + 4) (omega arith) (omega arith) ∙ codes.1.0,
          (same (t + 4 + 4) (omega arith) (omega arith) ∙ codes.1.1.0, tt),
        ),
      ) in
      let at_sp : rd32 v.mem (v.regs 14) ≡ s.pc + 20 = rw called.sp called.pushed in
      let c' : CanReturn ram v = record {
        bounded = c.bounded;
        code = omega (arith, called.pc);
        stack = omega (arith, called.sp, c.stack, c.below);
        away = omega (arith, at_sp, called.pc);
      } in
      let returned = ret-Returned ram disk (n + 5) v c' in
      let eight : suc (suc (suc (n + 5))) ≡ n + 8 = omega arith in
      (
        after_ret v,
        rw (← eight) (append-Rounds _ _ there (ret-Rounds ram disk (n + 5) v c' rest)),
        returned.pc ∙ at_sp,
        omega (arith, returned.sp, called.sp, c.below),
        λ i lt. returned.regs i lt ∙ called.regs i lt,
        λ a o. called.mem a o,
      )
