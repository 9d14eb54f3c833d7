-- ===== src/Kernel/Process/Terminal.antt =====
-- The keyboard line of Reference/Linux-0.11-main/kernel/symplus/process.c: the ring of 1024 characters that
-- `poll_io` fills, with the state of Shift and Control, and `line_ready` and `tty_read_user`.
use linux_0_11_symcc_on_turi.Base.{
  ℕ, zero, suc, ◌+◌, ◌-◌, ◌%◌, ◌/◌, Bool, true, false, not, ◌&&◌, ◌||◌, ltb, leb, ◌==◌,
  if◌then◌else◌, List, [], ◌∷◌, length, bit_and, bit_or,
}
use linux_0_11_symcc_on_turi.Base.Word.{u32, sub32, not32}
use linux_0_11_symcc_on_turi.Emu.State.{Memory, poke}
use linux_0_11_symcc_on_turi.Emu.Store.{store}
use linux_0_11_symcc_on_turi.Kernel.Process.State.{eintr, eagain}

-- `input`, `head`, `tail`, `shift` and `control`.
pub record Terminal : Type 0 where
  pub input : Memory
  pub head : ℕ
  pub tail : ℕ
  pub shift : ℕ
  pub control : ℕ

-- `plain` and `shifted`: a key's own character, and that with Shift.
abbrev pub shifted_signs : List (ℕ × ℕ)
shifted_signs =
    (96, 126)
    ∷ (49, 33)
    ∷ (50, 64)
    ∷ (51, 35)
    ∷ (52, 36)
    ∷ (53, 37)
    ∷ (54, 94)
    ∷ (55, 38)
    ∷ (56, 42)
    ∷ (57, 40)
    ∷ (48, 41)
    ∷ (45, 95)
    ∷ (61, 43)
    ∷ (91, 123)
    ∷ (93, 125)
    ∷ (92, 124)
    ∷ (59, 58)
    ∷ (39, 34)
    ∷ (44, 60)
    ∷ (46, 62)
    ∷ (47, 63)
    ∷ []

unfoldable pub shifted_sign : List (ℕ × ℕ) → ℕ → ℕ
shifted_sign [] key = key
shifted_sign ((p, s) ∷ signs) key = if key == p then s else shifted_sign signs key

-- The character of a key.
unfoldable pub key_char : Bool → ℕ → ℕ
unfolding shifted_sign
key_char shift key =
    if key == 13
    then 8
    else if leb 65 key && leb key 90
    then (if shift then key else key + 32)
    else if leb 97 key && leb key 122
    then (if shift then key - 32 else key)
    else if shift
    then shifted_sign shifted_signs key
    else key

-- `input[head++&1023]=c;`
abbrev pub push : Terminal → ℕ → Terminal
push t c = record t { input = poke t.input (t.head % 1024) c; head = u32 (t.head + 1) }

-- A character that is typed: the line, and what is echoed.
unfoldable pub accept : Terminal → ℕ → Terminal × List ℕ
accept t c =
    if (c == 8) || (c == 127)
    then (if ltb t.tail t.head && not (t.input (sub32 t.head 1 % 1024) == 10)
        then (record t { head = sub32 t.head 1 }, 8 ∷ 32 ∷ 8 ∷ [])
        else (t, []))
    else if (c == 10) || (leb 32 c && ltb c 127)
    then (if ltb (sub32 t.head t.tail) 1022 || ((c == 10) && ltb (sub32 t.head t.tail) 1023)
        then (push t c, c ∷ [])
        else (t, []))
    else (t, [])

-- `if(event&256)control|=i;else control&=~i;`
unfoldable pub hold_key : Bool → ℕ → ℕ → ℕ
hold_key pressed i held = if pressed then bit_or held i else bit_and held (not32 i)

-- What a keyboard event asks for: an interrupt, or a new state of the line and an echo.
pub data Typed : Type 0 where
  interrupts : Typed
  typed : Terminal → List ℕ → Typed

abbrev pub accepted : Terminal × List ℕ → Typed
accepted (t, echo) = typed t echo

-- The first half of `poll_io`.
unfoldable pub key_event : Terminal → ℕ → Typed
unfolding hold_key accept key_char
key_event t event =
    let key = event % 256 in
    let pressed = event / 256 % 2 == 1 in
    if (key == 17) || (key == 21)
    then typed (record t { control = hold_key pressed (if key == 17 then 1 else 2) t.control }) []
    else if (key == 16) || (key == 20)
    then typed (record t { shift = hold_key pressed (if key == 16 then 1 else 2) t.shift }) []
    else if pressed && ((key == 3) || (not (t.control == 0) && ((key == 67) || (key == 99))))
    then interrupts
    else if pressed && (t.control == 0)
    then accepted (accept t (key_char (not (t.shift == 0)) key))
    else typed t []

-- The loop of `line_ready` from `i` on, over `n` characters.
unfoldable pub newline_from : Memory → ℕ → ℕ → Bool
newline_from input i zero = false
newline_from input i (suc n) =
    let rest = newline_from input (i + 1) n in if input (i % 1024) == 10 then true else rest

unfoldable pub line_ready : Terminal → Bool
unfolding newline_from
line_ready t = newline_from t.input t.tail (t.head - t.tail)

-- The loop of `tty_read_user`: the characters that it takes, with `left` still wanted.
unfoldable pub take_line : ℕ → Terminal → List ℕ × Terminal
take_line zero t = ([], t)
take_line (suc left) t =
    let c = t.input (t.tail % 1024) in
    let t' = record t { tail = u32 (t.tail + 1) } in
    let (cs, end) = take_line left t' in
    if ltb t.tail t.head then (if c == 10 then (c ∷ [], t') else (c ∷ cs, end)) else ([], t)

-- What `tty_read_user` gives back: its result, and what it changes.
pub record ReadResult : Type 0 where
  pub result : ℕ
  pub cancel_read : Bool
  pub terminal : Terminal
  pub window : Memory

-- `cancelled` is the process's flag. The buffer lies in the user window, as its caller has tested.
unfoldable pub tty_read_user : Bool → Terminal → Memory → ℕ → ℕ → ReadResult
unfolding line_ready take_line store
tty_read_user cancelled t mem buf count =
    if cancelled
    then record { result = eintr; cancel_read = false; terminal = t; window = mem }
    else if count == 0
    then record { result = 0; cancel_read = false; terminal = t; window = mem }
    else if line_ready t
    then record {
      result = length (take_line count t).0;
      cancel_read = false;
      terminal = (take_line count t).1;
      window = store mem buf (take_line count t).0;
    }
    else record { result = eagain; cancel_read = false; terminal = t; window = mem }
