-- ===== src/Emu/Outcome.antt =====
-- How a run of `emu_run_ex` (emu/emu.c) ends: its error codes, its limit, and the loop as a chain of
-- rounds.
use linux_0_11_symcc_on_turi.Base.{
  ℕ, zero, suc, ◌+◌, ◌-◌, ◌^◌, ◌<◌, ◌≤◌, ◌≡◌, ◌≢◌, refl, arith, ltb, if◌then◌else◌, true, false,
  ◌⊎◌, Option, none, some, List, length,
}
use native.Mathlib.Nat.{suc-add}
use linux_0_11_symcc_on_turi.Base.Word.{u64}
use linux_0_11_symcc_on_turi.Emu.State.{Memory, Cpu, EmuOptions}
use linux_0_11_symcc_on_turi.Emu.Exec.{Machine, Outcome, fault}
use linux_0_11_symcc_on_turi.Emu.Run.{
  EmuResult, finish, limit_error, at_halt, at_done, Round, again, ended, round, loop, image,
  overlay, blank, start, sp_disk_bytes, opt_disk, opt_disk_len, machine, run_disk, emu_run_ex,
}

-- Rounds of the loop, from `n` instructions done at `s` to `i` done at `t`.
pub data Rounds (m : Machine) : ℕ → Cpu → ℕ → Cpu → Type 0 where
  done : {n : ℕ} {s : Cpu} → Rounds m n s n s
  step : {n i : ℕ} {s t u : Cpu} → round m n s ≡ again t → Rounds m (suc n) t i u → Rounds m n s i u

-- What the end of a run says: a halt (0) with the exit code in r1, a stop by the observer, the limit
-- (1), a fetch out of range (2) with the exit code in r1, another address or size out of range (2), or
-- an unknown opcode (3).
pub data Ending (r : EmuResult) : Type 0 where
  halted : r.error ≡ 0 → r.stop_reason ≡ 0 → r.exit_code ≡ r.cpu.regs 1 → Ending r
  watched : r.error ≡ 0 → r.stop_reason ≡ 1 → r.exit_code ≡ 0 → Ending r
  limited : r.error ≡ 1 → r.stop_reason ≡ 2 → r.exit_code ≡ r.cpu.regs 1 → Ending r
  bad_fetch : r.error ≡ 2 → r.stop_reason ≡ 3 → r.exit_code ≡ r.cpu.regs 1 → Ending r
  bad_address : r.error ≡ 2 → r.stop_reason ≡ 3 → r.exit_code ≡ 0 → Ending r
  bad_opcode : r.error ≡ 3 → r.stop_reason ≡ 3 → r.exit_code ≡ 0 → Ending r

-- The errors that a case of the switch sets.
abbrev KnownFault : Outcome → Type 0
KnownFault (fault e s) = (e ≡ 2) ⊎ (e ≡ 3)
KnownFault _ = Unit

-- The end of a run after `n` of its instructions.
abbrev EndsAt : ℕ → EmuResult → Type 0
EndsAt n r = Ending r × (r.instructions ≡ n)

abbrev RoundEnds : ℕ → Round → Type 0
RoundEnds n (again s) = Unit
RoundEnds n (ended r) = EndsAt n r

-- Where a run of at most `left` rounds from `n` instructions ends: at a round that ends it, or at the
-- limit, after `left` rounds that did not.
pub data Ran (m : Machine) (left n : ℕ) (s : Cpu) (r : EmuResult) : Type 0 where
  stopped :
      {i : ℕ} {t : Cpu}
      → n ≤ i
      → i < n + left
      → Rounds m n s i t
      → round m i t ≡ ended r
      → Ending r
      → r.instructions ≡ i
      → Ran m left n s r
  exhausted :
      {i : ℕ} {t : Cpu}
      → i ≡ n + left
      → Rounds m n s i t
      → r ≡ at_halt m t (limit_error i) (i - 1)
      → Ran m left n s r

-- A run that has not met its limit is the same under any greater limit.
loop_limit :
    (m : Machine) (left k n : ℕ) (s : Cpu)
    → n + left + suc k < 2 ^ 64
    → (loop m left n s).error ≢ 1
    → loop m (left + suc k) n s ≡ loop m left n s
unfolding loop at_halt finish limit_error
loop_limit m zero k n s small h =
    let e : ltb n (u64 (n + 1)) ≡ true = ground (arith, small) in absurd (h (rw e refl))
loop_limit m (suc left) k n s small h =
    rw (suc-add left (suc k))
      (go (round m n s) (λ t. loop_limit m left k (suc n) t (omega (arith, small))) h)
  where
    go :
        (o : Round)
        → ((t : Cpu)
            → (loop m left (suc n) t).error ≢ 1
            → loop m (left + suc k) (suc n) t ≡ loop m left (suc n) t)
        → (elim o as (λ _. EmuResult) [ again t ↦ loop m left (suc n) t | ended r ↦ r ]).error ≢ 1
        → (elim o as (λ _. EmuResult) [ again t ↦ loop m (left + suc k) (suc n) t | ended r ↦ r ])
          ≡ (elim o as (λ _. EmuResult) [ again t ↦ loop m left (suc n) t | ended r ↦ r ])
    go (again t) ih h = ih t h
    go (ended r) ih h = refl

run_disk_limit :
    (m : Machine) (limit k : ℕ) (mem : Memory) (len : ℕ) (d : Option Memory)
    → limit + suc k < 2 ^ 64
    → (run_disk m limit mem len d).error ≢ 1
    → run_disk m (limit + suc k) mem len d ≡ run_disk m limit mem len d
unfolding run_disk
run_disk_limit m limit k mem zero d small h = loop_limit m limit k 0 _ (omega (arith, small)) h
run_disk_limit m limit k mem (suc len) none small h = refl
run_disk_limit m limit k mem (suc len) (some f) small h =
    (elim (ltb sp_disk_bytes (suc len))
        as (λ b.
          (if b
              then at_done m (start mem blank) 2 0 0
              else loop m limit 0 (start mem (overlay f (suc len)))).error
            ≢ 1
          → (if b
              then at_done m (start mem blank) 2 0 0
              else loop m (limit + suc k) 0 (start mem (overlay f (suc len))))
            ≡ (if b
                then at_done m (start mem blank) 2 0 0
                else loop m limit 0 (start mem (overlay f (suc len))))) [
                  | true ↦ λ h. refl
                  | false ↦ λ h. loop_limit m limit k 0 _ (omega (arith, small)) h
                ])
      h

further_limit :
    (bin : List ℕ) (ram limit k : ℕ) (opt : Option EmuOptions)
    → limit + suc k < 2 ^ 64
    → (emu_run_ex bin ram limit opt).error ≢ 1
    → emu_run_ex bin ram (limit + suc k) opt ≡ emu_run_ex bin ram limit opt
unfolding emu_run_ex
further_limit bin ram limit k opt small =
    let m = machine ram opt in
    let mem = image bin in
    let len = opt_disk_len opt in
    let d = opt_disk opt in
    elim (ltb m.ram_size (length bin))
      as (λ b.
        (if b then at_done m (start blank blank) 2 0 0 else run_disk m limit mem len d).error ≢ 1
        → (if b then at_done m (start blank blank) 2 0 0 else run_disk m (limit + suc k) mem len d)
          ≡ (if b then at_done m (start blank blank) 2 0 0 else run_disk m limit mem len d)) [
            | true ↦ λ h. refl
            | false ↦ λ h. run_disk_limit m limit k mem len d small h
          ]

-- A run of `emu_run_ex` that does not report the limit is the same under any greater limit of 64 bits.
pub emu_run_ex_limit :
    (bin : List ℕ) (ram limit k : ℕ) (opt : Option EmuOptions)
    → limit + k < 2 ^ 64
    → (emu_run_ex bin ram limit opt).error ≢ 1
    → emu_run_ex bin ram (limit + k) opt ≡ emu_run_ex bin ram limit opt
emu_run_ex_limit bin ram limit zero opt small h =
    let e : limit + 0 ≡ limit = omega arith in rw e refl
emu_run_ex_limit bin ram limit (suc k) opt small h = further_limit bin ram limit k opt small h
