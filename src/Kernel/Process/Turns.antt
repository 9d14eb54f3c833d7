-- ===== src/Kernel/Process/Turns.antt =====
-- A call and the scheduling that follows, in Reference/Linux-0.11-main/kernel/symplus/process.c.
use linux_0_11_symcc_on_turi.Base.{
  ℕ, ◌≡◌, inl, refl, arith, Bool, true, false, ◌||◌, ◌==◌, if◌then◌else◌, [], ◌∷◌, Option, none,
  some,
}
use linux_0_11_symcc_on_turi.Emu.Run.{blank}
use linux_0_11_symcc_on_turi.Kernel.Process.State.{Kernel, Task, Context, running}
use linux_0_11_symcc_on_turi.Kernel.Process.Tasks.{activate}
use linux_0_11_symcc_on_turi.Kernel.Process.Terminal.{key_event}
use linux_0_11_symcc_on_turi.Kernel.Tick.{sp_tick_elapsed}
use linux_0_11_symcc_on_turi.Kernel.Process.System.{System, Platform, Poll, Answer}
use linux_0_11_symcc_on_turi.Kernel.Process.Interrupt.{poll_io, keyboard, read_clock}
use linux_0_11_symcc_on_turi.Kernel.Process.Calls.{perform, perform_call, call_of, call_in}
use linux_0_11_symcc_on_turi.Kernel.Process.Valid.{IsValid}
use linux_0_11_symcc_on_turi.Kernel.Process.Resume.{Awake, Resumed, sp_dispatch-Resumed}
use linux_0_11_symcc_on_turi.Kernel.Process.Dispatch.{
  settle_call, start_call, end_slot, end_slots, serve_slot, serve_slots, sweep, next_running,
  choose, schedule, sp_dispatch,
}
use linux_0_11_symcc_on_turi.Kernel.Process.Turn.{schedule-returns}

abbrev nothing_happens : Answer Unit Unit
nothing_happens = record { result = 0; files = tt; world = tt; window = blank }

-- A file system of which nothing is kept.
abbrev no_platform : Platform Unit Unit
no_platform = record {
  files = record { hold = λ f w. w; drop = λ f w. (f, w) };
  sys = λ f a b c files w m. nothing_happens;
  execve = λ a b c t w m ctx. record {
    answer = nothing_happens;
    context = ctx;
    end_data = 0;
    start_stack = 0;
    brk = 0;
  };
  has_file = λ f a. true;
  is_char = λ f w a. true;
  echo = λ cs w. w;
  report = λ a b c w. w;
  stat_size = 32;
}

abbrev task_of : ℕ → ℕ → Task Unit
task_of pid father = record {
  pid = pid;
  father = father;
  state = running;
  exit_code = 0;
  end_data = 0;
  start_stack = 0;
  brk = 0;
  files = tt;
}

-- Process 1 in slot 1 and its child 2 in slot 2, which is running.
abbrev family : Kernel Unit Unit
family = record {
  process = λ i. if i == 1 then task_of 1 0 else if i == 2 then task_of 2 1 else task_of 0 0;
  contexts = λ i. record { regs = blank; pc = 0 };
  occupied = λ i. (i == 1) || (i == 2);
  pending = blank;
  interrupted = λ i. false;
  deferred = λ i. false;
  cancel_read = λ i. false;
  active = 2;
  next_pid = 2;
  snapshot = λ i a. i;
  window = λ a. 7;
  world = tt;
}

abbrev together : System Unit Unit
together = record {
  kernel = family;
  terminal = record { input = blank; head = 0; tail = 0; shift = 0; control = 0 };
  clock = record { last_low = 0; last_high = 0; tick_remainder = 0; ready = true; jiffies = 0 };
  arg1 = blank;
  arg2 = blank;
  arg3 = blank;
  foreground_pid = 0;
  foreground_owner = 1;
}

-- `yield`
abbrev yielding : Context
yielding = record { regs = λ i. if i == 1 then 101 else 0; pc = 0x200000 }

abbrev quiet : Poll
quiet = record { event = 0; low = 100; high = 0 }

abbrev outcome : Option (System Unit Unit) → System Unit Unit
outcome none = together
outcome (some s) = s

abbrev yielded : System Unit Unit
yielded = outcome (sp_dispatch no_platform together yielding quiet [])

abbrev is_some : Option (System Unit Unit) → Bool
is_some none = false
is_some (some s) = true

some-outcome : (o : Option (System Unit Unit)) → is_some o ≡ true → o ≡ some (outcome o)
some-outcome none h = absurd (ground arith)
some-outcome (some s) h = refl

returns : is_some (sp_dispatch no_platform together yielding quiet []) ≡ true
unfolding sp_dispatch schedule choose next_running sweep serve_slots serve_slot end_slots end_slot
    start_call settle_call poll_io keyboard read_clock key_event perform call_of call_in
    perform_call sp_tick_elapsed activate
returns = refl

dispatched : sp_dispatch no_platform together yielding quiet [] ≡ some yielded
dispatched = some-outcome (sp_dispatch no_platform together yielding quiet []) returns

now_first : yielded.kernel.active ≡ 1
unfolding sp_dispatch schedule choose next_running sweep serve_slots serve_slot end_slots end_slot
    start_call settle_call poll_io keyboard read_clock key_event perform call_of call_in
    perform_call sp_tick_elapsed activate
now_first = refl

family-IsValid : IsValid family
family-IsValid = record {
  low = omega arith;
  high = omega arith;
  inside = λ i o. ground arith;
  numbered = λ i o. ground arith;
  distinct = λ i j o u e. ground arith;
  waits = λ i o. inl refl;
}

child-Awake : Awake family 2
child-Awake = record { taken = refl; state = refl }

sp_dispatch-Resumed_example : Resumed yielded.kernel
sp_dispatch-Resumed_example =
    sp_dispatch-Resumed no_platform together yielded yielding quiet [] family-IsValid child-Awake
      (omega arith) dispatched

swept-Awake : Awake (sweep no_platform together).kernel 2
unfolding sweep serve_slots serve_slot end_slots end_slot
swept-Awake = record { taken = refl; state = refl }

schedule-returns_example :
    (c : ℕ) × Awake (sweep no_platform together).kernel c
    × (schedule no_platform 101 together (quiet ∷ [])
        ≡ some (record (sweep no_platform together) {
          kernel = activate (sweep no_platform together).kernel c;
        }))
schedule-returns_example =
    schedule-returns no_platform 101 together (quiet ∷ []) 2 family-IsValid swept-Awake
