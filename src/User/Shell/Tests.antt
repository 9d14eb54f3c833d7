-- ===== src/User/Shell/Tests.antt =====
-- Command lines of the shell.
use linux_0_11_symcc_on_turi.Base.{ℕ, ◌≡◌, refl, arith, true, false, List, [], ◌∷◌, none, some}
use linux_0_11_symcc_on_turi.Base.Text.{codes}
use linux_0_11_symcc_on_turi.User.Shell.Words.{scan_words, scan_token, scan_word, skip_gaps, action}
use linux_0_11_symcc_on_turi.User.Shell.Parse.{
  sh_parse, build, finish_command, redirect, sh_always, sh_and,
}
use linux_0_11_symcc_on_turi.User.Shell.Limits.{Commands, sh_parse-Commands}
use linux_0_11_symcc_on_turi.User.Shell.Stores.{line_stores, token_stores, word_stores}
use linux_0_11_symcc_on_turi.User.Shell.Stored.{Stored, scan_words-Stored}
use linux_0_11_symcc_on_turi.User.Shell.Loop.{scan_words-same}

-- Two commands, the second one with a quoted word and a file.
abbrev pair : List ℕ
pair = codes "cd /bin && cat 'a b' >>log"

parsed :
    sh_parse 64 pair
    ≡ some (
        record {
          argv = codes "cd" ∷ codes "/bin" ∷ [];
          input = none;
          output = none;
          delimiter = none;
          append = false;
          when = sh_always;
        }
        ∷ record {
          argv = codes "cat" ∷ codes "a b" ∷ [];
          input = none;
          output = some (codes "log");
          delimiter = none;
          append = true;
          when = sh_and;
        }
        ∷ [])
unfolding sh_parse build finish_command redirect scan_words scan_token scan_word skip_gaps action
parsed = refl

-- An open quote, and an operator with no command.
broken :
    (sh_parse 64 (codes "echo 'a") ≡ none)
    × (sh_parse 64 (codes "; ls") ≡ none)
    × (sh_parse 2 (codes "ls") ≡ none)
unfolding sh_parse build finish_command redirect scan_words scan_token scan_word skip_gaps action
broken = (refl, refl, refl)

sh_parse-Commands_example : Commands 0 (sh_parse 64 pair)
sh_parse-Commands_example = sh_parse-Commands 64 pair

-- A line refused for its open quote, and one that is too long: what is stored before the end.
refused_stores :
    (line_stores 64 2 0 0 (codes "'a") ≡ (0, b'a') ∷ [])
    × (line_stores 2 3 0 0 (codes "abc") ≡ (0, b'a') ∷ [])
unfolding line_stores token_stores word_stores scan_token scan_word skip_gaps action
refused_stores = (refl, refl)

scan_words-Stored_example : Stored 64 0 0 (scan_words 64 26 0 0 pair) (line_stores 64 26 0 0 pair)
scan_words-Stored_example = scan_words-Stored 64 26 0 0 pair (omega arith)

scan_words-same_example : scan_words 64 26 0 0 pair ≡ scan_words 64 40 0 0 pair
scan_words-same_example = scan_words-same 64 26 40 0 0 pair (omega arith) (omega arith)
