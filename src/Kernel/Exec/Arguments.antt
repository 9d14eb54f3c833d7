-- ===== src/Kernel/Exec/Arguments.antt =====
-- The file name and the argument strings that `sp_execve` of Reference/Linux-0.11-main/fs/symexec.c copies out of
-- the user's memory.
use linux_0_11_symcc_on_turi.Base.{
  ℕ, zero, suc, ◌+◌, ◌-◌, true, false, ◌==◌, if◌then◌else◌, List, [], ◌∷◌, ◌++◌, length,
}
use linux_0_11_symcc_on_turi.Base.Word.{u32}
use linux_0_11_symcc_on_turi.Emu.State.{Memory, rd32}
use linux_0_11_symcc_on_turi.Kernel.Process.State.{fail, efault}
use linux_0_11_symcc_on_turi.Kernel.Process.Users.{sp_user_range}

abbrev pub e2big : ℕ
e2big = fail 7

abbrev pub enoexec : ℕ
enoexec = fail 8

abbrev pub eacces : ℕ
eacces = fail 13

abbrev pub enametoolong : ℕ
enametoolong = fail 36

-- A value, or the result of a call that failed.
pub data Loaded (A : Type 0) : Type 0 where
  fine : A → Loaded A
  failed : ℕ → Loaded A

infixl 5 ◌>>=◌
abbrev pub ◌>>=◌ : {A B : Type 0} → Loaded A → (A → Loaded B) → Loaded B
failed e >>= next = failed e
fine a >>= next = next a

-- The name at `a`, if it ends within `left` characters.
unfoldable pub path_name : ℕ → Memory → ℕ → Loaded (List ℕ)
path_name zero mem a = failed enametoolong
path_name (suc left) mem a = elim (mem a == 0) [
  | true ↦ fine []
  | false ↦ do name ← path_name left mem (u32 (a + 1)); fine (mem a ∷ name)
]

-- The string at `s` with its NUL, for a storage with room for `left` characters more.
unfoldable pub copy_string : ℕ → Memory → ℕ → Loaded (List ℕ)
unfolding sp_user_range
copy_string zero mem s = failed e2big
copy_string (suc left) mem s =
    if sp_user_range s 1
    then elim (mem s == 0) [
      | true ↦ fine (0 ∷ [])
      | false ↦ do string ← copy_string left mem (u32 (s + 1)); fine (mem s ∷ string)
    ]
    else failed efault

-- The storage: `used` is its length, `offsets` are where the strings of a list start in it.
pub record Strings : Type 0 where
  pub offsets : List ℕ
  pub strings : List ℕ

-- `SP_ARG_STAGE` holds so many characters.
abbrev pub storage_size : ℕ
storage_size = 8192

-- The loop over a list of strings at `p`, which is `list+i`; `turns` is `32 - i`.
unfoldable pub copy_list : ℕ → Memory → ℕ → List ℕ → Loaded Strings
unfolding copy_string
copy_list zero mem p strings =
    if sp_user_range p 4
    then (if rd32 mem p == 0
        then fine (record { offsets = []; strings = strings })
        else failed e2big)
    else failed efault
copy_list (suc turns) mem p strings =
    if sp_user_range p 4
    then elim (rd32 mem p == 0) [
      | true ↦ fine (record { offsets = []; strings = strings })
      | false ↦ do
        string ← copy_string (storage_size - length strings) mem (rd32 mem p)
        r ← copy_list turns mem (u32 (p + 4)) (strings ++ string)
        fine (record r { offsets = length strings ∷ r.offsets })
    ]
    else failed efault

-- A list that is NULL has no strings.
unfoldable pub copy_strings : Memory → ℕ → List ℕ → Loaded Strings
unfolding copy_list
copy_strings mem list strings =
    if list == 0
    then fine (record { offsets = []; strings = strings })
    else copy_list 32 mem list strings

-- The strings of `argv`, and behind them those of `envp`.
pub record Copied : Type 0 where
  pub argv : List ℕ
  pub envp : List ℕ
  pub strings : List ℕ

unfoldable pub copy_arguments : Memory → ℕ → ℕ → Loaded Copied
unfolding copy_strings
copy_arguments mem argv envp = do
  a ← copy_strings mem argv []
  e ← copy_strings mem envp a.strings
  fine (record { argv = a.offsets; envp = e.offsets; strings = e.strings })
