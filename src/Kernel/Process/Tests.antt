-- ===== src/Kernel/Process/Tests.antt =====
-- A keyboard line of Reference/Linux-0.11-main/kernel/symplus/process.c, typed and read.
use linux_0_11_symcc_on_turi.Base.{
  ℕ, ◌+◌, ◌<◌, ◌≤◌, ◌≡◌, ◌⊎◌, refl, arith, true, false, [], ◌∷◌, ◌++◌, length, get_or,
}
use linux_0_11_symcc_on_turi.Emu.Run.{image, blank}
use linux_0_11_symcc_on_turi.Kernel.Process.State.{sp_user_base}
use linux_0_11_symcc_on_turi.Kernel.Process.Terminal.{
  Terminal, accept, line_ready, newline_from, tty_read_user,
}
use linux_0_11_symcc_on_turi.Kernel.Process.Line.{queued, edited, IsLine, accept-edited}
use linux_0_11_symcc_on_turi.Kernel.Process.Read.{first_line, tty_read_user-first_line}

-- "hi" and the end of the line.
abbrev greeting : Terminal
greeting = record {
  input = image (104 ∷ 105 ∷ 10 ∷ []);
  head = 3;
  tail = 0;
  shift = 0;
  control = 0;
}

greeting-IsLine : IsLine greeting
greeting-IsLine = record { order = omega arith; room = omega arith }

accept-edited_example :
    IsLine (accept greeting 33).0 × (queued (accept greeting 33).0 ≡ edited 33 (queued greeting))
accept-edited_example = accept-edited greeting 33 greeting-IsLine (omega arith)

greeting_ready : line_ready greeting ≡ true
unfolding line_ready newline_from image
greeting_ready = refl

tty_read_user-first_line_example :
    let r = tty_read_user false greeting blank sp_user_base 80 in
    let line = first_line 80 (queued greeting) in
    (r.result ≡ length line)
    × (r.result ≤ 80)
    × (queued greeting ≡ line ++ queued r.terminal)
    × IsLine r.terminal
    × ((i : ℕ) → i < length line → r.window (sp_user_base + i) ≡ get_or line i 0)
    × ((a : ℕ) → (a < sp_user_base) ⊎ (sp_user_base + length line ≤ a) → r.window a ≡ blank a)
tty_read_user-first_line_example =
    tty_read_user-first_line greeting blank sp_user_base 80 greeting-IsLine (omega arith)
      greeting_ready (omega arith)
