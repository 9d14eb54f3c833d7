-- ===== src/User/Shell/Parse.antt =====
-- The commands of a command line: the second loop of `sh_parse` in user/lib/shell_parse.c.
use linux_0_11_symcc_on_turi.Base.{
  ℕ, ◌+◌, Bool, true, false, not, ◌&&◌, ◌||◌, ltb, ◌==◌, if◌then◌else◌, List, [], ◌∷◌, ◌++◌, length,
  Option, none, some,
}
use linux_0_11_symcc_on_turi.Base.Text.{codes, str_eq}
use linux_0_11_symcc_on_turi.User.Shell.Words.{
  Kind, Word, and, greater, here, less, or, scan_words, semicolon, twice, word,
}

-- `SH_COMMANDS`
abbrev pub sh_commands : ℕ
sh_commands = 16

pub data When : Type 0 where
  sh_always sh_and sh_or : When

-- `ShCommand`; `argc` is the length of `argv`. `here_fd` is -1 here.
pub record ShCommand : Type 0 where
  pub argv : List (List ℕ)
  pub input : Option (List ℕ)
  pub output : Option (List ℕ)
  pub delimiter : Option (List ℕ)
  pub append : Bool
  pub when : When

abbrev pub empty : When → ShCommand
empty when = record {
  argv = [];
  input = none;
  output = none;
  delimiter = none;
  append = false;
  when = when;
}

abbrev pub is_set : Option (List ℕ) → Bool
is_set none = false
is_set (some s) = true

-- `cat <<END file` writes to the file.
unfoldable pub finish_command : ShCommand → ShCommand
finish_command c = elim c.argv [
  | [] ↦ c
  | p ∷ rest ↦ elim rest [
    | [] ↦ c
    | q ∷ more ↦ elim more [
      | [] ↦
          if is_set c.delimiter && (not (is_set c.output) && str_eq p (codes "cat"))
          then record c { output = some q; argv = p ∷ [] }
          else c
      | _ ∷ _ ↦ c
    ]
  ]
]

abbrev pub cons_command : ShCommand → Option (List ShCommand) → Option (List ShCommand)
cons_command c none = none
cons_command c (some cs) = some (c ∷ cs)

abbrev pub no_words {ℓ} : {A : Type ℓ} → List A → Bool
no_words [] = true
no_words (x ∷ xs) = false

-- A redirection of the command `c` to the word `w`, with the number of `<<` so far.
unfoldable pub redirect : Kind → ShCommand → ℕ → Word → Option (ShCommand × ℕ)
redirect kind c heres w = elim w.kind [
  | word ↦ elim kind [
    | less ↦
        if is_set c.input || is_set c.delimiter
        then none
        else some (record c { input = some w.text }, heres)
    | here ↦
        if (is_set c.input || is_set c.delimiter) || ltb 8 (heres + 1)
        then none
        else some (record c { delimiter = some w.text }, heres + 1)
    | greater ↦
        if is_set c.output
        then none
        else some (record c { output = some w.text; append = false }, heres)
    | twice ↦
        if is_set c.output
        then none
        else some (record c { output = some w.text; append = true }, heres)
    | _ ↦ none
  ]
  | _ ↦ none
]

abbrev pub follows : Kind → When
follows and = sh_and
follows or = sh_or
follows _ = sh_always

-- `c->argv[c->argc++]=word[i];`
abbrev pub add_word : ShCommand → List ℕ → ShCommand
add_word c text = record c { argv = c.argv ++ (text ∷ []) }

-- What the second loop does with a word.
pub data Role : Type 0 where
  argument redirection separator : Role

abbrev pub role : Kind → Role
role word = argument
role less = redirection
role here = redirection
role greater = redirection
role twice = redirection
role and = separator
role or = separator
role semicolon = separator

abbrev pub is_semicolon : Kind → Bool
is_semicolon semicolon = true
is_semicolon _ = false

-- The end of the line in the command `c`.
abbrev pub last_command : ShCommand → Option (List ShCommand)
last_command c = if no_words c.argv then none else some (finish_command c ∷ [])

-- The commands of the words that are left, `c` being the one under construction, the `count`-th, with the number
-- of `<<` so far.
unfoldable pub build : ℕ → ℕ → ShCommand → List Word → Option (List ShCommand)
unfolding finish_command redirect
build count heres c [] = last_command c
build count heres c (w ∷ []) = elim (role w.kind) [
  | argument ↦ if length c.argv == 32 then none else last_command (add_word c w.text)
  | redirection ↦ none
  | separator ↦ if is_semicolon w.kind then last_command c else none
]
build count heres c (w ∷ v ∷ vs) = elim (role w.kind) [
  | argument ↦ if length c.argv == 32 then none else build count heres (add_word c w.text) (v ∷ vs)
  | redirection ↦ elim (redirect w.kind c heres v) [
    | none ↦ none
    | some (c', heres') ↦ build count heres' c' vs
  ]
  | separator ↦
      if no_words c.argv || (count == sh_commands)
      then none
      else cons_command (finish_command c)
          (build (count + 1) heres (empty (follows w.kind)) (v ∷ vs))
]

abbrev pub commands_of : List Word → Option (List ShCommand)
commands_of [] = some []
commands_of (w ∷ ws) = build 1 0 (empty sh_always) (w ∷ ws)

-- The commands of a line, for a storage of `capacity` characters; `none` is -1.
unfoldable pub sh_parse : ℕ → List ℕ → Option (List ShCommand)
unfolding build scan_words
sh_parse capacity line = elim (scan_words capacity (length line) 0 0 line) [
  | none ↦ none
  | some ws ↦ commands_of ws
]
