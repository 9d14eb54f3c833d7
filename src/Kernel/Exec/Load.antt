-- ===== src/Kernel/Exec/Load.antt =====
-- `sp_execve` of Reference/Linux-0.11-main/fs/symexec.c.
use linux_0_11_symcc_on_turi.Base.{
  ℕ, zero, suc, ◌+◌, ◌-◌, ◌/◌, ◌%◌, ◌^◌, Bool, not, ◌&&◌, ◌||◌, ltb, ◌==◌, if◌then◌else◌, List,
  Option, none, some, bit_and,
}
use linux_0_11_symcc_on_turi.Base.Word.{u32, is_neg, ◌>>◌}
use linux_0_11_symcc_on_turi.Emu.State.{Memory}
use linux_0_11_symcc_on_turi.Emu.Store.{store}
use linux_0_11_symcc_on_turi.Kernel.Process.State.{Task, Context, sp_user_base, sp_user_size}
use linux_0_11_symcc_on_turi.Kernel.Process.System.{ExecAnswer}
use linux_0_11_symcc_on_turi.Kernel.Process.Dispatch.{exec_done}
use linux_0_11_symcc_on_turi.Kernel.Exec.Arguments.{
  Loaded, fine, failed, enoexec, eacces, path_name, Copied, copy_arguments,
}
use linux_0_11_symcc_on_turi.Kernel.Exec.Image.{Header, align4, read_header, new_image, new_context}

-- The files of the running task, and the file system.
pub record Io (Files World : Type 0) : Type 0 where
  pub files : Files
  pub world : World

-- The file system as the loader uses it. A read gives its result and the bytes that it puts into the buffer;
-- `mode` is that of an open file. The staging area is memory that only the loader writes: `stage` is what it holds before.
pub record Loader (Files World : Type 0) : Type 0 where
  pub open_file : List ℕ → Io Files World → ℕ × Io Files World
  pub read_file : ℕ → ℕ → Io Files World → ℕ × List ℕ × Io Files World
  pub close_file : ℕ → Io Files World → Io Files World
  pub mode : Io Files World → ℕ → ℕ
  pub close_on_exec : Io Files World → ℕ
  pub clear_close_on_exec : Io Files World → Io Files World
  pub stage : Memory

module _ {Files World : Type 0} (l : Loader Files World) where
  -- The loop that reads the program behind its header: `n` bytes are there, and a read gives one more at least.
  unfoldable pub read_program :
      ℕ → ℕ → ℕ → ℕ → Memory → Io Files World → Option Memory × Io Files World
  read_program zero fd n loaded stage io = (if ltb n loaded then none else some stage, io)
  read_program (suc turns) fd n loaded stage io =
      let (got, bytes, io') = l.read_file fd (loaded - n) io in
      let rest = read_program turns fd (u32 (n + got)) loaded (store stage n bytes) io' in
      if ltb n loaded
      then (if is_neg got || (got == 0) then (none, io') else rest)
      else (some stage, io)

  -- The file has to end behind the program.
  unfoldable pub check_end :
      ℕ → Header → Option Memory × Io Files World → Option (Header × Memory) × Io Files World
  check_end fd h (none, io) = (none, io)
  check_end fd h (some program, io) =
      let (more, _, end) = l.read_file fd 1 io in
      (if more == 0 then some (h, program) else none, end)

  -- The program behind the header `h`, if there is one.
  unfoldable pub read_behind :
      ℕ → Memory → Io Files World → Option Header → Option (Header × Memory) × Io Files World
  unfolding read_program check_end
  read_behind fd stage io none = (none, io)
  read_behind fd stage io (some h) = check_end fd h (read_program h.loaded fd 0 h.loaded stage io)

  -- The header and the program of the open file.
  unfoldable pub read_image : ℕ → Io Files World → Option (Header × Memory) × Io Files World
  unfolding read_behind read_header
  read_image fd io =
      let (got, bytes, read) = l.read_file fd 28 io in
      let stage = store l.stage 0 bytes in
      if not (got == 28) then (none, read) else read_behind fd stage read (read_header stage)

  -- `for(i=0;i<NR_OPEN;i++)if(current->close_on_exec&(1u<<i))sys_close(i);`
  unfoldable pub close_marked : ℕ → ℕ → Io Files World → Io Files World
  close_marked zero i io = io
  close_marked (suc n) i io =
      close_marked n (i + 1) (if (l.close_on_exec io >> i) % 2 == 1 then l.close_file i io else io)

  -- `S_ISREG` and one of the three bits of `0111`.
  abbrev pub is_program : ℕ → Bool
  is_program mode = (mode / 2 ^ 12 % 16 == 8) && not (bit_and mode 73 == 0)

  module _ (task : Task Files) (window : Memory) (ctx : Context) where
    -- The call failed: nothing of the task has changed but what the file system did.
    abbrev pub give_up : ℕ → Io Files World → ExecAnswer Files World
    give_up e io = record {
      answer = record { result = e; files = io.files; world = io.world; window = window };
      context = ctx;
      end_data = task.end_data;
      start_stack = task.start_stack;
      brk = task.brk;
    }

    -- Behind the commit point.
    unfoldable pub start_program :
        Header → Memory → Copied → Io Files World → ExecAnswer Files World
    unfolding close_marked new_image
    start_program h program c io =
        let io' = l.clear_close_on_exec (close_marked 20 0 io) in
        record {
          answer = record {
            result = exec_done;
            files = io'.files;
            world = io'.world;
            window = new_image window program h.loaded c;
          };
          context = new_context ctx h.entry c;
          end_data = u32 (sp_user_base + align4 (h.loaded + h.bss));
          start_stack = u32 (sp_user_base + sp_user_size - h.stack);
          brk = u32 (sp_user_base + align4 (h.loaded + h.bss));
        }

    -- The file is read and closed.
    unfoldable pub commit :
        Copied → Io Files World → Option (Header × Memory) → ExecAnswer Files World
    unfolding start_program
    commit c io none = give_up enoexec io
    commit c io (some (h, program)) = start_program h program c io

    -- The file `fd` is open.
    unfoldable pub load_file : ℕ → Copied → Io Files World → ExecAnswer Files World
    unfolding read_image commit
    load_file fd c io =
        let (image, read) = read_image fd io in
        if not (is_program (l.mode io fd))
        then give_up eacces (l.close_file fd io)
        else commit c (l.close_file fd read) image

    -- The strings are copied.
    unfoldable pub load_named : List ℕ → Io Files World → Loaded Copied → ExecAnswer Files World
    unfolding load_file
    load_named name io (failed e) = give_up e io
    load_named name io (fine c) =
        let (fd, opened) = l.open_file name io in
        if is_neg fd then give_up fd opened else load_file fd c opened

    -- The name is copied.
    unfoldable pub load_from : ℕ → ℕ → Io Files World → Loaded (List ℕ) → ExecAnswer Files World
    unfolding copy_arguments load_named
    load_from argv envp io (failed e) = give_up e io
    load_from argv envp io (fine name) = load_named name io (copy_arguments window argv envp)

  unfoldable pub sp_execve :
      ℕ → ℕ → ℕ → Task Files → World → Memory → Context → ExecAnswer Files World
  unfolding path_name load_from
  sp_execve path argv envp task world window ctx =
      load_from task window ctx argv envp (record { files = task.files; world = world })
        (path_name 255 window path)
