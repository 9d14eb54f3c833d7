-- ===== src/Kernel/Exec/Commit.antt =====
-- What a call of `sp_execve` (Reference/Linux-0.11-main/fs/symexec.c) leaves: all of the old program, or all of the new one.
use linux_0_11_symcc_on_turi.Base.{
  ℕ, ◌+◌, ◌-◌, ◌%◌, ◌<◌, ◌≤◌, ◌≡◌, ◌≢◌, ◌⊎◌, inl, inr, refl, arith, Bool, true, false, not, ◌==◌,
  ◌&&◌, if◌then◌else◌, Option, none, some, List,
}
use linux_0_11_symcc_on_turi.Base.Word.{u32, is_neg}
use linux_0_11_symcc_on_turi.Emu.State.{Memory, rd32}
use linux_0_11_symcc_on_turi.Emu.Store.{store}
use linux_0_11_symcc_on_turi.Kernel.Process.State.{Task, Context, sp_user_base, sp_user_size}
use linux_0_11_symcc_on_turi.Kernel.Process.System.{ExecAnswer}
use linux_0_11_symcc_on_turi.Kernel.Process.Dispatch.{exec_done}
use linux_0_11_symcc_on_turi.Kernel.Exec.Arguments.{
  Loaded, fine, failed, enoexec, eacces, path_name, Copied, copy_arguments,
}
use linux_0_11_symcc_on_turi.Kernel.Exec.Image.{
  sp_exec_magic, Header, align4, header_fits, header_of, read_header, new_image, new_context,
}
use linux_0_11_symcc_on_turi.Kernel.Exec.Load.{
  Io, Loader, read_program, read_image, is_program, give_up, start_program, load_file, load_named,
  sp_execve, check_end, read_behind, commit, load_from,
}
use linux_0_11_symcc_on_turi.Kernel.Process.Kept.{either, by_test}
use linux_0_11_symcc_on_turi.Kernel.Exec.Vectors.{not_done}
use linux_0_11_symcc_on_turi.Kernel.Exec.Given.{
  Given, GivenOr, copy_arguments-GivenOr, NamedOr, path_name-NamedOr,
}

-- The parts of a program fit into the user window.
pub record Fits (h : Header) : Type 0 where
  pub entry_inside : h.entry < h.loaded
  pub entry_aligned : h.entry % 4 ≡ 0
  pub stack_min : 16384 ≤ h.stack
  pub stack_fits : h.loaded + h.bss + h.stack ≤ sp_user_size
  pub heap_fits : align4 (h.loaded + h.bss) + h.stack ≤ sp_user_size

header_fits-Fits : (h : Header) → header_fits h ≡ true → Fits h
unfolding header_fits
header_fits-Fits h e = record {
  entry_inside = ground (arith, e);
  entry_aligned = ground (arith, e);
  stack_min = ground (arith, e);
  stack_fits = ground (arith, e);
  heap_fits = ground (arith, e);
}

abbrev HeaderOr : Option Header → Type 0
HeaderOr none = Unit
HeaderOr (some h) = Fits h

read_header-HeaderOr : (stage : Memory) → HeaderOr (read_header stage)
unfolding read_header
read_header-HeaderOr stage =
    magic ((rd32 stage 0 == sp_exec_magic) && ((rd32 stage 4 == 1) && (rd32 stage 24 == 0))) _
      (fitting (header_fits (header_of stage)) refl)
  where
    fitting :
        (b : Bool)
        → header_fits (header_of stage) ≡ b
        → HeaderOr (if b then some (header_of stage) else none)
    fitting true e = header_fits-Fits (header_of stage) e
    fitting false e = tt

    magic : (b : Bool) (r : Option Header) → HeaderOr r → HeaderOr (if b then r else none)
    magic true r h = h
    magic false r h = tt

abbrev ImageOr : Option (Header × Memory) → Type 0
ImageOr none = Unit
ImageOr (some (h, program)) = Fits h

-- A call that failed: of what the loader may change, the old program keeps all.
pub record Unchanged {Files World : Type 0} (task : Task Files) (window : Memory) (ctx : Context)
    (r : ExecAnswer Files World) : Type 0 where
  pub result : r.answer.result ≢ exec_done
  pub window_kept : r.answer.window ≡ window
  pub context_kept : r.context ≡ ctx
  pub end_data_kept : r.end_data ≡ task.end_data
  pub start_stack_kept : r.start_stack ≡ task.start_stack
  pub brk_kept : r.brk ≡ task.brk

-- A call that succeeded: everything is that of a new program, whose parts fit and whose arguments are the caller's.
pub record Started {Files World : Type 0} (window : Memory) (ctx : Context) (argv envp : ℕ)
    (r : ExecAnswer Files World) : Type 0 where
  pub result : r.answer.result ≡ exec_done
  pub header : Header
  pub program : Memory
  pub copied : Copied
  pub fits : Fits header
  pub given : Given window argv envp copied
  pub window_new : r.answer.window ≡ new_image window program header.loaded copied
  pub context_new : r.context ≡ new_context ctx header.entry copied
  pub end_data_new : r.end_data ≡ u32 (sp_user_base + align4 (header.loaded + header.bss))
  pub start_stack_new : r.start_stack ≡ u32 (sp_user_base + sp_user_size - header.stack)
  pub brk_new : r.brk ≡ r.end_data

module _ {Files World : Type 0} (l : Loader Files World) where
  check_end-ImageOr :
      (fd : ℕ) (h : Header) (r : Option Memory × Io Files World)
      → Fits h
      → ImageOr (check_end l fd h r).0
  unfolding check_end
  check_end-ImageOr fd h (none, io) f = tt
  check_end-ImageOr fd h (some program, io) f = empty ((l.read_file fd 1 io).0 == 0)
    where
      empty : (b : Bool) → ImageOr (if b then some (h, program) else none)
      empty true = f
      empty false = tt

  read_behind-ImageOr :
      (fd : ℕ) (stage : Memory) (io : Io Files World) (r : Option Header)
      → HeaderOr r
      → ImageOr (read_behind l fd stage io r).0
  unfolding read_behind
  read_behind-ImageOr fd stage io none f = tt
  read_behind-ImageOr fd stage io (some h) f =
      check_end-ImageOr fd h (read_program l h.loaded fd 0 h.loaded stage io) f

  read_image-ImageOr : (fd : ℕ) (io : Io Files World) → ImageOr (read_image l fd io).0
  unfolding read_image
  read_image-ImageOr fd io =
      let stage = store l.stage 0 (l.read_file fd 28 io).1 in
      let read = (l.read_file fd 28 io).2 in
      either {A = Option (Header × Memory) × Io Files World} (λ r. ImageOr r.0)
        (not ((l.read_file fd 28 io).0 == 28)) (none, read)
        (read_behind l fd stage read (read_header stage)) tt
        (read_behind-ImageOr fd stage read (read_header stage) (read_header-HeaderOr stage))

  module _ (task : Task Files) (window : Memory) (ctx : Context) (argv envp : ℕ) where
    abbrev Whole : ExecAnswer Files World → Type 0
    Whole r = Unchanged task window ctx r ⊎ Started window ctx argv envp r

    gave_up : (e : ℕ) (io : Io Files World) → e ≢ exec_done → Whole (give_up l task window ctx e io)
    gave_up e io ne = inl (record {
      result = ne;
      window_kept = refl;
      context_kept = refl;
      end_data_kept = refl;
      start_stack_kept = refl;
      brk_kept = refl;
    })

    started :
        (h : Header) (program : Memory) (c : Copied) (io : Io Files World)
        → Fits h
        → Given window argv envp c
        → Whole (start_program l task window ctx h program c io)
    unfolding start_program
    started h program c io f g = inr (record {
      result = refl;
      header = h;
      program = program;
      copied = c;
      fits = f;
      given = g;
      window_new = refl;
      context_new = refl;
      end_data_new = refl;
      start_stack_new = refl;
      brk_new = refl;
    })

    committed :
        (c : Copied) (io : Io Files World) (image : Option (Header × Memory))
        → Given window argv envp c
        → ImageOr image
        → Whole (commit l task window ctx c io image)
    unfolding commit
    committed c io none g f = gave_up enoexec io (not_done enoexec (omega arith))
    committed c io (some (h, program)) g f = started h program c io f g

    loaded_file :
        (fd : ℕ) (c : Copied) (io : Io Files World)
        → Given window argv envp c
        → Whole (load_file l task window ctx fd c io)
    unfolding load_file
    loaded_file fd c io g =
        either {A = ExecAnswer Files World} Whole (not (is_program l (l.mode io fd))) _ _
          (gave_up eacces (l.close_file fd io) (not_done eacces (omega arith)))
          (committed c (l.close_file fd (read_image l fd io).1) (read_image l fd io).0 g
            (read_image-ImageOr fd io))

    opened :
        (name : List ℕ) (io : Io Files World) (r : Loaded Copied)
        → GivenOr window argv envp r
        → Whole (load_named l task window ctx name io r)
    unfolding load_named
    opened name io (failed e) ne = gave_up e io ne
    opened name io (fine c) g =
        by_test {A = ExecAnswer Files World} Whole (is_neg (l.open_file name io).0) _ _
          (λ e.
            gave_up (l.open_file name io).0 (l.open_file name io).1
              (not_done _ (ground (arith, e))))
          (λ _. loaded_file (l.open_file name io).0 c (l.open_file name io).1 g)

    named :
        (io : Io Files World) (r : Loaded (List ℕ))
        → NamedOr r
        → Whole (load_from l task window ctx argv envp io r)
    unfolding load_from
    named io (failed e) ne = gave_up e io ne
    named io (fine name) _ =
        opened name io (copy_arguments window argv envp) (copy_arguments-GivenOr window argv envp)

-- A call of `sp_execve` either fails and leaves the window, the registers, the program counter and the bounds of the
-- heap and of the stack of the task as they were, or its result is the one of success and all of them are those of
-- one new program, whose parts fit into the window and whose arguments are the caller's.
pub sp_execve-Whole :
    {Files World : Type 0} (l : Loader Files World) (path argv envp : ℕ) (task : Task Files)
    (world : World) (window : Memory) (ctx : Context)
    → Unchanged task window ctx (sp_execve l path argv envp task world window ctx)
      ⊎ Started window ctx argv envp (sp_execve l path argv envp task world window ctx)
unfolding sp_execve
sp_execve-Whole l path argv envp task world window ctx =
    named l task window ctx argv envp (record { files = task.files; world = world })
      (path_name 255 window path) (path_name-NamedOr 255 window path)
