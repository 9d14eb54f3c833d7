-- ===== src/Kernel/Exec/Tests.antt =====
-- Runs of `sp_execve` of Reference/Linux-0.11-main/fs/symexec.c with a file system that has one file.
use linux_0_11_symcc_on_turi.Base.{
  ℕ, zero, suc, ◌+◌, ◌≤◌, ◌≡◌, ◌⊎◌, inl, inr, refl, arith, List, [], ◌∷◌, length,
}
use linux_0_11_symcc_on_turi.Emu.State.{Memory, poke, rd32}
use linux_0_11_symcc_on_turi.Emu.Store.{store}
use linux_0_11_symcc_on_turi.Emu.Run.{image, blank}
use linux_0_11_symcc_on_turi.Kernel.Process.State.{Task, running, Context, sp_user_base}
use linux_0_11_symcc_on_turi.Kernel.Process.Dispatch.{exec_done}
use linux_0_11_symcc_on_turi.Kernel.Process.Users.{sp_user_range}
use linux_0_11_symcc_on_turi.Kernel.Exec.Arguments.{
  Copied, path_name, copy_string, copy_list, copy_strings, copy_arguments,
}
use linux_0_11_symcc_on_turi.Kernel.Exec.Image.{new_image, header_fits, read_header}
use linux_0_11_symcc_on_turi.Kernel.Exec.Load.{
  Loader, read_program, check_end, read_behind, read_image, close_marked, start_program, commit,
  load_file, load_named, load_from, sp_execve,
}
use linux_0_11_symcc_on_turi.Kernel.Exec.Layout.{Small}
use linux_0_11_symcc_on_turi.Kernel.Exec.Commit.{Unchanged, Started, sp_execve-Whole}
use linux_0_11_symcc_on_turi.Kernel.Exec.Handover.{
  HandedOver, sp_execve-HandedOver, fresh, new_image-fresh,
}
use linux_0_11_symcc_on_turi.Kernel.Exec.Fuel.{ReadsAtMost}

-- The first `n` bytes, and what is behind them.
abbrev first_bytes : ℕ → List ℕ → List ℕ × List ℕ
first_bytes zero l = ([], l)
first_bytes (suc n) [] = ([], [])
first_bytes (suc n) (b ∷ l) = let r = first_bytes n l in (b ∷ r.0, r.1)

first_bytes-length : (n : ℕ) (l : List ℕ) → length (first_bytes n l).0 ≤ n
first_bytes-length zero l = omega arith
first_bytes-length (suc n) [] = omega arith
first_bytes-length (suc n) (b ∷ l) = omega (arith, first_bytes-length n l)

-- The world is what is left to read of an executable file.
abbrev one_file : Loader (Unit {0}) (List ℕ)
one_file = record {
  open_file = λ name. λ io. (3, io);
  read_file = λ fd. λ n. λ io.
      let r : List ℕ × List ℕ = first_bytes n io.world in
      (length r.0, r.0, record { files = io.files; world = r.1 });
  close_file = λ fd. λ io. io;
  mode = λ io. λ fd. 33261;
  close_on_exec = λ io. 0;
  clear_close_on_exec = λ io. io;
  stage = blank;
}

one_file-ReadsAtMost : ReadsAtMost one_file
one_file-ReadsAtMost fd n io = inr (first_bytes-length n io.world)

-- A program of four bytes, with four of uninitialized data and a stack of 16384.
abbrev program_file : List ℕ
program_file =
    83 ∷ 80 ∷ 88 ∷ 49 ∷ 0 ∷ 0 ∷ 0 ∷ 1 ∷ 0 ∷ 0 ∷ 0 ∷ 0 ∷ 0 ∷ 0 ∷ 0 ∷ 4 ∷ 0 ∷ 0 ∷ 0 ∷ 4 ∷ 0 ∷ 0 ∷ 64
    ∷ 0 ∷ 0 ∷ 0 ∷ 0 ∷ 0 ∷ 1 ∷ 2 ∷ 3 ∷ 4 ∷ []

-- The name "p", the vector of its arguments, and the argument "hi".
abbrev caller : Memory
caller =
    store blank sp_user_base
      (112 ∷ 0 ∷ 0 ∷ 0 ∷ 0 ∷ 32 ∷ 0 ∷ 12 ∷ 0 ∷ 0 ∷ 0 ∷ 0 ∷ 104 ∷ 105 ∷ 0 ∷ [])

abbrev shell : Task (Unit {0})
shell = record {
  pid = 1;
  father = 0;
  state = running;
  exit_code = 0;
  end_data = 0;
  start_stack = 0;
  brk = 0;
  files = tt;
}

abbrev caller_context : Context
caller_context = record { regs = blank; pc = 0 }

program_starts :
    (sp_execve one_file sp_user_base
      (sp_user_base + 4)
      0
      shell
      program_file
      caller
      caller_context).answer.result
    ≡ exec_done
unfolding sp_execve load_from load_named load_file commit start_program close_marked read_image
    read_behind check_end read_program read_header header_fits path_name copy_arguments copy_strings
    copy_list copy_string sp_user_range store poke rd32
program_starts = refl

sp_execve-HandedOver_example :
    HandedOver caller (sp_user_base + 4) 0 (
      sp_execve one_file sp_user_base (sp_user_base + 4) 0 shell program_file caller caller_context)
sp_execve-HandedOver_example =
    sp_execve-HandedOver one_file sp_user_base (sp_user_base + 4) 0 shell program_file caller
      caller_context program_starts

sp_execve-Whole_example :
    Unchanged shell caller caller_context (
      sp_execve one_file sp_user_base (sp_user_base + 4) 0 shell program_file caller caller_context)
    ⊎ Started caller caller_context (sp_user_base + 4) 0 (
        sp_execve one_file sp_user_base
          (sp_user_base + 4)
          0
          shell
          program_file
          caller
          caller_context)
sp_execve-Whole_example =
    sp_execve-Whole one_file sp_user_base (sp_user_base + 4) 0 shell program_file caller
      caller_context

-- The storage of the argument "hi".
abbrev greeting_arguments : Copied
greeting_arguments = record { argv = 0 ∷ []; envp = []; strings = 104 ∷ 105 ∷ 0 ∷ [] }

greeting-Small : Small greeting_arguments
greeting-Small = record { room = omega arith; argv_count = omega arith; envp_count = omega arith }

new_image-fresh_example :
    new_image caller (image (1 ∷ 2 ∷ 3 ∷ 4 ∷ [])) 4 greeting_arguments (sp_user_base + 2)
    ≡ fresh caller (image (1 ∷ 2 ∷ 3 ∷ 4 ∷ [])) 4 (sp_user_base + 2)
new_image-fresh_example =
    new_image-fresh caller (image (1 ∷ 2 ∷ 3 ∷ 4 ∷ [])) 4 greeting_arguments (sp_user_base + 2)
      greeting-Small (omega arith) (inl (omega arith))
