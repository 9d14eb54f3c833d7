-- ===== src/Kernel/Exec/Image.antt =====
-- The header of a program, and the new user image that `sp_execve` of Reference/Linux-0.11-main/fs/symexec.c
-- builds from it.
use linux_0_11_symcc_on_turi.Base.{
  ℕ, zero, suc, ◌+◌, ◌*◌, ◌/◌, ◌%◌, Bool, not, ◌&&◌, ◌||◌, ltb, leb, ◌==◌, if◌then◌else◌, List, [],
  ◌∷◌, length, Option, none, some,
}
use linux_0_11_symcc_on_turi.Base.Word.{u32, sub32}
use linux_0_11_symcc_on_turi.Emu.State.{Memory, poke, rd32, wr32}
use linux_0_11_symcc_on_turi.Emu.Store.{store}
use linux_0_11_symcc_on_turi.Kernel.Process.State.{Context, sp_user_base, sp_user_size}
use linux_0_11_symcc_on_turi.Kernel.Exec.Arguments.{Copied}

-- runtime/platform.h
abbrev pub sp_exec_magic : ℕ
sp_exec_magic = 0x53505831

pub record Header : Type 0 where
  pub entry : ℕ
  pub loaded : ℕ
  pub bss : ℕ
  pub stack : ℕ

-- `(x+3)&~3u`
abbrev pub align4 : ℕ → ℕ
align4 x = u32 (x + 3) / 4 * 4

unfoldable pub header_fits : Header → Bool
header_fits h =
    not (
      (h.loaded == 0)
      || (leb h.loaded h.entry
          || (not (h.entry % 4 == 0) || (ltb h.stack 16384 || ltb sp_user_size h.stack))))
    && (not (
          ltb (sub32 sp_user_size h.stack) h.loaded
          || ltb (sub32 (sub32 sp_user_size h.stack) h.loaded) h.bss)
        && not (ltb (sub32 sp_user_size h.stack) (align4 (h.loaded + h.bss))))

abbrev pub header_of : Memory → Header
header_of stage = record {
  entry = rd32 stage 8;
  loaded = rd32 stage 12;
  bss = rd32 stage 16;
  stack = rd32 stage 20;
}

-- The header of the staging area, if it is that of a program.
unfoldable pub read_header : Memory → Option Header
unfolding header_fits
read_header stage =
    if (rd32 stage 0 == sp_exec_magic) && ((rd32 stage 4 == 1) && (rd32 stage 24 == 0))
    then (if header_fits (header_of stage) then some (header_of stage) else none)
    else none

-- `sp_zero` of the user window.
abbrev pub zeroed : Memory → Memory
zeroed mem a = if leb sp_user_base a && ltb a (sp_user_base + sp_user_size) then 0 else mem a

-- The loop that copies the first `n` bytes of the staging area to `a`.
unfoldable pub copy_in : Memory → ℕ → Memory → ℕ → Memory
copy_in mem a stage zero = mem
copy_in mem a stage (suc n) = poke (copy_in mem a stage n) (a + n) (stage n)

-- The words of a vector, one after the other.
unfoldable pub store_words : Memory → ℕ → List ℕ → Memory
store_words mem a [] = mem
store_words mem a (w ∷ ws) = store_words (wr32 mem a w) (a + 4) ws

-- Where the pointers go: the strings end the window, and the two vectors and the three words of `main`'s
-- arguments stand below them.
abbrev pub strings_at : Copied → ℕ
strings_at c = sub32 (sp_user_base + sp_user_size) (length c.strings)

abbrev pub envp_at : Copied → ℕ
envp_at c = sub32 (strings_at c / 4 * 4) (4 * (length c.envp + 1))

abbrev pub argv_at : Copied → ℕ
argv_at c = sub32 (envp_at c) (4 * (length c.argv + 1))

abbrev pub stack_at : Copied → ℕ
stack_at c = sub32 (argv_at c) 12

-- A vector of pointers to the strings, with a NULL at its end.
abbrev pub pointers : ℕ → List ℕ → List ℕ
pointers n [] = 0 ∷ []
pointers n (offset ∷ offsets) = u32 (n + offset) ∷ pointers n offsets

-- The new image, from the loaded bytes of the staging area.
unfoldable pub new_image : Memory → Memory → ℕ → Copied → Memory
unfolding copy_in store_words store
new_image mem stage loaded c =
    let program = copy_in (zeroed mem) sp_user_base stage loaded in
    let strings = store program (strings_at c) c.strings in
    let envp = store_words strings (envp_at c) (pointers (strings_at c) c.envp) in
    let argv = store_words envp (argv_at c) (pointers (strings_at c) c.argv) in
    store_words argv (stack_at c) (length c.argv ∷ argv_at c ∷ envp_at c ∷ [])

-- The registers and the program counter of the new program.
abbrev pub new_context : Context → ℕ → Copied → Context
new_context ctx entry c = record {
  regs = λ i. if i == 14 then stack_at c else if ltb i 16 then 0 else ctx.regs i;
  pc = u32 (sp_user_base + entry);
}
