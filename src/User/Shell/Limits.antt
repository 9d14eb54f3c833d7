-- ===== src/User/Shell/Limits.antt =====
-- The limits of user/lib/shell_parse.c: the storage, the words and the commands.
use linux_0_11_symcc_on_turi.Base.{
  ℕ, suc, ◌+◌, ◌<◌, ◌≤◌, ◌≡◌, refl, arith, Bool, true, false, not, ◌&&◌, ◌||◌, ltb, ◌==◌,
  if◌then◌else◌, List, [], ◌∷◌, length, length-append, All, Option, none, some,
}
use mathlib.Core.Path.{subst}
use linux_0_11_symcc_on_turi.Base.Text.{codes, str_eq}
use linux_0_11_symcc_on_turi.User.Shell.Words.{
  Word, scan_words, Kind, word, less, here, greater, twice,
}
use linux_0_11_symcc_on_turi.User.Shell.Parse.{
  sh_commands, ShCommand, finish_command, cons_command, redirect, build, sh_parse, Role, argument,
  redirection, separator, role, last_command, add_word, is_set, empty, follows, is_semicolon,
  no_words, commands_of, sh_always,
}

-- A command that can be run: at least its name, and at most 32 words.
abbrev pub Runnable : ShCommand → Type 0
Runnable c = (0 < length c.argv) × (length c.argv ≤ 32)

-- What the second loop may return, with `n` commands so far.
abbrev pub Commands : ℕ → Option (List ShCommand) → Type 0
Commands n none = Unit
Commands n (some cs) = (n + length cs ≤ 16) × All Runnable cs

finish_command-Runnable : (c : ShCommand) → Runnable c → Runnable (finish_command c)
unfolding finish_command
finish_command-Runnable c h = of c.argv h
  where
    of :
        (argv : List (List ℕ))
        → Runnable (record c { argv = argv })
        → Runnable (finish_command (record c { argv = argv }))
    of [] h = h
    of (p ∷ []) h = h
    of (p ∷ q ∷ []) h =
        either (is_set c.delimiter && (not (is_set c.output) && str_eq p (codes "cat"))) _ _
          (omega arith, omega arith) h
      where
        either :
            (b : Bool) (x y : ShCommand) → Runnable x → Runnable y → Runnable (if b then x else y)
        either true x y h k = h
        either false x y h k = k
    of (p ∷ q ∷ r ∷ more) h = h

last_command-Commands :
    (n : ℕ) (c : ShCommand) → n < 16 → length c.argv ≤ 32 → Commands n (last_command c)
last_command-Commands n c room short = of c.argv refl short
  where
    of :
        (argv : List (List ℕ))
        → c.argv ≡ argv
        → length argv ≤ 32
        → Commands n (if no_words argv then none else some (finish_command c ∷ []))
    of [] e h = tt
    of (w ∷ ws) e h = (omega (arith, room), (finish_command-Runnable c (rw e (omega arith, h)), tt))

cons_command-Commands :
    (n : ℕ) (c : ShCommand) (r : Option (List ShCommand))
    → Runnable c
    → Commands (suc n) r
    → Commands n (cons_command c r)
cons_command-Commands n c none h k = tt
cons_command-Commands n c (some cs) h (few, all) = (omega (arith, few), (h, all))

-- A redirection leaves the words of the command.
abbrev Redirected : ShCommand → Option (ShCommand × ℕ) → Type 0
Redirected c none = Unit
Redirected c (some (c', heres)) = c'.argv ≡ c.argv

redirect-Redirected :
    (k : Kind) (c : ShCommand) (heres : ℕ) (w : Word) → Redirected c (redirect k c heres w)
unfolding redirect
redirect-Redirected k c heres w = of w.kind k
  where
    choice :
        (b : Bool) (r : ShCommand × ℕ)
        → r.0.argv ≡ c.argv
        → Redirected c (if b then none else some r)
    choice true r h = tt
    choice false r h = h

    of : (j k : Kind) → Redirected c (redirect k c heres (record w { kind = j }))
    of word less = choice (is_set c.input || is_set c.delimiter) _ refl
    of word here = choice ((is_set c.input || is_set c.delimiter) || ltb 8 (heres + 1)) _ refl
    of word greater = choice (is_set c.output) _ refl
    of word twice = choice (is_set c.output) _ refl
    of word _ = tt
    of _ k = tt

-- A test for an error before the rest.
if_none :
    (n : ℕ) (b : Bool) (r : Option (List ShCommand))
    → (b ≡ false → Commands n r)
    → Commands n (if b then none else r)
if_none n true r h = tt
if_none n false r h = h refl

only_if :
    (n : ℕ) (b : Bool) (r : Option (List ShCommand))
    → Commands n r
    → Commands n (if b then r else none)
only_if n true r h = h
only_if n false r h = tt

room_for_one :
    (c : ShCommand) (text : List ℕ)
    → length c.argv ≤ 32
    → (length c.argv == 32) ≡ false
    → length (add_word c text).argv ≤ 32
room_for_one c text short e =
    let more = length-append c.argv (text ∷ []) in ground (arith, more, short, e)

has_words :
    (c : ShCommand) (b : Bool) → (no_words c.argv || b) ≡ false → length c.argv ≤ 32 → Runnable c
has_words c b e short = of c.argv e short
  where
    of :
        (argv : List (List ℕ))
        → (no_words argv || b) ≡ false
        → length argv ≤ 32
        → Runnable (record c { argv = argv })
    of [] e h = absurd (ground arith)
    of (x ∷ xs) e h = (omega arith, h)

build-Commands :
    (ws : List Word) (n heres : ℕ) (c : ShCommand)
    → n < 16
    → length c.argv ≤ 32
    → Commands n (build (suc n) heres c ws)
unfolding build
build-Commands [] n heres c room short = last_command-Commands n c room short
build-Commands (w ∷ []) n heres c room short = of (role w.kind)
  where
    of :
        (r : Role)
        → Commands n (elim r as (λ _. Option (List ShCommand)) [
          | argument ↦ if length c.argv == 32 then none else last_command (add_word c w.text)
          | redirection ↦ none
          | separator ↦ if is_semicolon w.kind then last_command c else none
        ])
    of argument =
        if_none n (length c.argv == 32) _
          (λ e. last_command-Commands n (add_word c w.text) room (room_for_one c w.text short e))
    of redirection = tt
    of separator = only_if n (is_semicolon w.kind) _ (last_command-Commands n c room short)
build-Commands (w ∷ v ∷ vs) n heres c room short =
    of (role w.kind)
      (λ e.
        build-Commands (v ∷ vs) n heres (add_word c w.text) room (room_for_one c w.text short e))
      (λ r red. build-Commands vs n r.1 r.0 room (rw red short))
      (λ more.
        let one_more : suc (suc n) ≡ suc n + 1 = omega arith in
        subst (λ m. Commands (suc n) (build m heres (empty (follows w.kind)) (v ∷ vs))) one_more
          (build-Commands (v ∷ vs) (suc n) heres (empty (follows w.kind)) more (omega arith)))
  where
    redirected :
        (o : Option (ShCommand × ℕ))
        → Redirected c o
        → ((r : ShCommand × ℕ) → r.0.argv ≡ c.argv → Commands n (build (suc n) r.1 r.0 vs))
        → Commands n (elim o as (λ _. Option (List ShCommand)) [
          | none ↦ none
          | some (c', heres') ↦ build (suc n) heres' c' vs
        ])
    redirected none h k = tt
    redirected (some r) h k = k r h

    of :
        (r : Role)
        → ((length c.argv == 32) ≡ false
            → Commands n (build (suc n) heres (add_word c w.text) (v ∷ vs)))
        → ((r : ShCommand × ℕ) → r.0.argv ≡ c.argv → Commands n (build (suc n) r.1 r.0 vs))
        → (suc n < 16
            → Commands (suc n) (build (suc n + 1) heres (empty (follows w.kind)) (v ∷ vs)))
        → Commands n (elim r as (λ _. Option (List ShCommand)) [
          | argument ↦
              if length c.argv == 32 then none else build (suc n) heres (add_word c w.text) (v ∷ vs)
          | redirection ↦ elim (redirect w.kind c heres v) as (λ _. Option (List ShCommand)) [
            | none ↦ none
            | some (c', heres') ↦ build (suc n) heres' c' vs
          ]
          | separator ↦
              if no_words c.argv || (suc n == sh_commands)
              then none
              else cons_command
                  (finish_command c)
                  (build (suc n + 1) heres (empty (follows w.kind)) (v ∷ vs))
        ])
    of argument h k g = if_none n (length c.argv == 32) _ h
    of redirection h k g =
        redirected (redirect w.kind c heres v) (redirect-Redirected w.kind c heres v) k
    of separator h k g = if_none n (no_words c.argv || (suc n == sh_commands)) _ (λ e.
        cons_command-Commands n (finish_command c) _
          (finish_command-Runnable c (has_words c (suc n == sh_commands) e short))
          (g (ground (arith, e, room))))

-- A line that is accepted has at most 16 commands, and each has its name, and at most 32 words with it.
pub sh_parse-Commands : (capacity : ℕ) (line : List ℕ) → Commands 0 (sh_parse capacity line)
unfolding sh_parse
sh_parse-Commands capacity line = of (scan_words capacity (length line) 0 0 line)
  where
    words : (ws : List Word) → Commands 0 (commands_of ws)
    words [] = (omega arith, tt)
    words (w ∷ ws) = build-Commands (w ∷ ws) 0 0 (empty sh_always) (omega arith) (omega arith)

    of :
        (o : Option (List Word))
        → Commands 0
            (elim o as (λ _. Option (List ShCommand)) [ none ↦ none | some ws ↦ commands_of ws ])
    of none = tt
    of (some ws) = words ws
