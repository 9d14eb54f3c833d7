-- ===== src/Kernel/Exec/Layout.antt =====
-- Where `sp_execve` (Reference/Linux-0.11-main/fs/symexec.c) puts the parts of a new user image: the program from the
-- bottom of the user window, and from its top down the strings, the two vectors and the arguments of `main`.
use linux_0_11_symcc_on_turi.Base.{
  ℕ, ◌+◌, ◌*◌, ◌/◌, ◌%◌, ◌^◌, ◌<◌, ◌≤◌, ◌≡◌, ◌⊎◌, inl, inr, refl, sym, ◌∙◌, arith, List, [], ◌∷◌,
  length, get_or,
}
use linux_0_11_symcc_on_turi.Emu.State.{Memory}
use linux_0_11_symcc_on_turi.Emu.Store.{store, store_frame, store_get}
use linux_0_11_symcc_on_turi.Kernel.Process.State.{sp_user_base, sp_user_size}
use linux_0_11_symcc_on_turi.Kernel.Exec.Arguments.{Copied, storage_size}
use linux_0_11_symcc_on_turi.Kernel.Exec.Image.{
  zeroed, copy_in, store_words, strings_at, envp_at, argv_at, stack_at, pointers, new_image,
}
use linux_0_11_symcc_on_turi.Kernel.Exec.Words.{
  Words, AllWords, Words-agree, store_words_frame, store_words-Words,
}

-- Outside an interval is outside what lies in it.
beside : (lo hi a n i : ℕ) → (i < lo) ⊎ (hi ≤ i) → lo ≤ a → a + n ≤ hi → (i < a) ⊎ (a + n ≤ i)
beside lo hi a n i (inl lt) le fits = inl (omega (arith, lt, le))
beside lo hi a n i (inr ge) le fits = inr (omega (arith, ge, fits))

-- What was copied keeps the limits of the loader.
pub record Small (c : Copied) : Type 0 where
  pub room : length c.strings ≤ storage_size
  pub argv_count : length c.argv ≤ 32
  pub envp_count : length c.envp ≤ 32

-- The parts follow each other, and nothing wraps.
pub record Places (c : Copied) : Type 0 where
  pub strings_end : strings_at c + length c.strings ≡ sp_user_base + sp_user_size
  pub envp_end : envp_at c + 4 * (length c.envp + 1) ≡ strings_at c / 4 * 4
  pub argv_end : argv_at c + 4 * (length c.argv + 1) ≡ envp_at c
  pub stack_end : stack_at c + 12 ≡ argv_at c
  pub high : sp_user_base + sp_user_size ≤ stack_at c + 16384
  pub aligned : stack_at c % 4 ≡ 0

pub places : (c : Copied) → Small c → Places c
places c s =
    let strings_end : strings_at c + length c.strings ≡ sp_user_base + sp_user_size =
      omega (arith, s.room) in
    let envp_end : envp_at c + 4 * (length c.envp + 1) ≡ strings_at c / 4 * 4 =
      omega (arith, s.room, s.envp_count) in
    let argv_end : argv_at c + 4 * (length c.argv + 1) ≡ envp_at c =
      omega (arith, s.room, s.envp_count, s.argv_count, envp_end, strings_end) in
    let stack_end : stack_at c + 12 ≡ argv_at c =
      omega (arith, s.room, s.envp_count, s.argv_count, envp_end, strings_end, argv_end) in
    record {
      strings_end = strings_end;
      envp_end = envp_end;
      argv_end = argv_end;
      stack_end = stack_end;
      high =
          omega
            (arith, s.room, s.envp_count, s.argv_count, envp_end, strings_end, argv_end, stack_end);
      aligned = omega (arith, envp_end, argv_end, stack_end);
    }

length-pointers : (n : ℕ) (os : List ℕ) → length (pointers n os) ≡ length os + 1
length-pointers n [] = refl
length-pointers n (o ∷ os) = omega (arith, length-pointers n os)

pointers-AllWords : (n : ℕ) (os : List ℕ) → AllWords (pointers n os)
pointers-AllWords n [] = (omega arith, tt)
pointers-AllWords n (o ∷ os) = (omega arith, pointers-AllWords n os)

module _ (window stage : Memory) (loaded : ℕ) (c : Copied) (pl : Places c) where
  -- The memory after the program, the strings, and each vector.
  abbrev with_program : Memory
  with_program = copy_in (zeroed window) sp_user_base stage loaded

  abbrev with_strings : Memory
  with_strings = store with_program (strings_at c) c.strings

  abbrev with_envp : Memory
  with_envp = store_words with_strings (envp_at c) (pointers (strings_at c) c.envp)

  abbrev with_argv : Memory
  with_argv = store_words with_envp (argv_at c) (pointers (strings_at c) c.argv)

  abbrev arguments : List ℕ
  arguments = length c.argv ∷ argv_at c ∷ envp_at c ∷ []

  argv_pointers : 4 * length (pointers (strings_at c) c.argv) ≡ 4 * (length c.argv + 1)
  argv_pointers = omega (arith, length-pointers (strings_at c) c.argv)

  envp_pointers : 4 * length (pointers (strings_at c) c.envp) ≡ 4 * (length c.envp + 1)
  envp_pointers = omega (arith, length-pointers (strings_at c) c.envp)

  above_argv : (i : ℕ) → argv_at c ≤ i → new_image window stage loaded c i ≡ with_argv i
  unfolding new_image
  above_argv i ge =
      store_words_frame arguments with_argv (stack_at c) i (inr (omega (arith, ge, pl.stack_end)))

  above_envp : (i : ℕ) → envp_at c ≤ i → new_image window stage loaded c i ≡ with_envp i
  above_envp i ge =
      above_argv i (omega (arith, ge, pl.argv_end))
      ∙ store_words_frame (pointers (strings_at c) c.argv) with_envp (argv_at c) i
          (inr (omega (arith, ge, pl.argv_end, argv_pointers)))

  above_strings : (i : ℕ) → strings_at c ≤ i → new_image window stage loaded c i ≡ with_strings i
  above_strings i ge =
      above_envp i (omega (arith, ge, pl.envp_end))
      ∙ store_words_frame (pointers (strings_at c) c.envp) with_strings (envp_at c) i
          (inr (omega (arith, ge, pl.envp_end, envp_pointers)))

  -- The strings stand at the end of the window.
  pub new_image-strings :
      (i : ℕ)
      → i < length c.strings
      → new_image window stage loaded c (strings_at c + i) ≡ get_or c.strings i 0
  new_image-strings i lt =
      above_strings (strings_at c + i) (omega arith)
      ∙ store_get with_program (strings_at c) c.strings i lt

  -- Outside the parts behind the program nothing else is stored.
  pub below_stack :
      (i : ℕ)
      → (i < stack_at c) ⊎ (sp_user_base + sp_user_size ≤ i)
      → new_image window stage loaded c i ≡ with_program i
  unfolding new_image
  below_stack i h =
      store_words_frame arguments with_argv (stack_at c) i (
        out (stack_at c) 12 (omega arith)
          (omega (arith, pl.stack_end, pl.argv_end, pl.envp_end, pl.strings_end)))
      ∙ (store_words_frame (pointers (strings_at c) c.argv) with_envp (argv_at c) i (
            out (argv_at c) (4 * length (pointers (strings_at c) c.argv))
              (omega (arith, pl.stack_end, pl.argv_end, pl.envp_end, pl.strings_end))
              (omega
                (arith, pl.stack_end, pl.argv_end, pl.envp_end, pl.strings_end, argv_pointers)))
          ∙ (store_words_frame (pointers (strings_at c) c.envp) with_strings (envp_at c) i (
                out (envp_at c) (4 * length (pointers (strings_at c) c.envp))
                  (omega (arith, pl.stack_end, pl.argv_end, pl.envp_end, pl.strings_end))
                  (omega
                    (arith, pl.stack_end, pl.argv_end, pl.envp_end, pl.strings_end, envp_pointers)))
              ∙ store_frame with_program (strings_at c) c.strings i (
                  out (strings_at c) (length c.strings)
                    (omega (arith, pl.stack_end, pl.argv_end, pl.envp_end, pl.strings_end))
                    (omega (arith, pl.stack_end, pl.argv_end, pl.envp_end, pl.strings_end)))))
    where
      out : (a n : ℕ) → stack_at c ≤ a → a + n ≤ sp_user_base + sp_user_size → (i < a) ⊎ (a + n ≤ i)
      out a n = beside (stack_at c) (sp_user_base + sp_user_size) a n i h

  pub new_image-argv :
      Words (new_image window stage loaded c) (argv_at c) (pointers (strings_at c) c.argv)
  new_image-argv =
      Words-agree with_argv (new_image window stage loaded c) (argv_at c)
        (pointers (strings_at c) c.argv) (λ i. λ ge. λ _. sym (above_argv i ge))
        (store_words-Words (pointers (strings_at c) c.argv) with_envp (argv_at c)
          (pointers-AllWords (strings_at c) c.argv))

  pub new_image-envp :
      Words (new_image window stage loaded c) (envp_at c) (pointers (strings_at c) c.envp)
  new_image-envp =
      Words-agree with_envp (new_image window stage loaded c) (envp_at c)
        (pointers (strings_at c) c.envp) (λ i. λ ge. λ _. sym (above_envp i ge))
        (store_words-Words (pointers (strings_at c) c.envp) with_strings (envp_at c)
          (pointers-AllWords (strings_at c) c.envp))

  pub new_image-arguments :
      length c.argv < 2 ^ 32 → Words (new_image window stage loaded c) (stack_at c) arguments
  unfolding new_image
  new_image-arguments lt =
      store_words-Words arguments with_argv (stack_at c) (lt, (omega arith, (omega arith, tt)))
