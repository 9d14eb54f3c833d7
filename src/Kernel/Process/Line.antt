-- ===== src/Kernel/Process/Line.antt =====
-- The keyboard line of Reference/Linux-0.11-main/kernel/symplus/process.c as a list: what the ring holds, and
-- that typing and reading are operations on that list.
use linux_0_11_symcc_on_turi.Base.{
  ℕ, zero, suc, ◌+◌, ◌-◌, ◌%◌, ◌^◌, ◌<◌, ◌≤◌, ◌≡◌, refl, sym, ◌∙◌, ap, arith, Bool, true, false,
  not, ◌&&◌, ◌||◌, ltb, leb, ◌==◌, if◌then◌else◌, List, [], ◌∷◌, ◌++◌, length, Bool-cases, inl, inr,
}
use linux_0_11_symcc_on_turi.Base.Word.{u32, sub32}
use linux_0_11_symcc_on_turi.Emu.State.{Memory, poke}
use linux_0_11_symcc_on_turi.Emu.Bytes.{poke_other, poke_same}
use linux_0_11_symcc_on_turi.Kernel.Process.Terminal.{Terminal, push, accept}

-- The `n` characters of the ring from `i` on.
abbrev pub chars : Memory → ℕ → ℕ → List ℕ
chars input i zero = []
chars input i (suc n) = input (i % 1024) ∷ chars input (i + 1) n

abbrev pub queued : Terminal → List ℕ
queued t = chars t.input t.tail (t.head - t.tail)

-- The ring is not overrun.
pub record IsLine (t : Terminal) : Type 0 where
  pub order : t.tail ≤ t.head
  pub room : t.head - t.tail < 1024

-- The line without its last character, which is kept if it ends the line.
abbrev pub without_last : List ℕ → List ℕ
without_last [] = []
without_last (c ∷ []) = if c == 10 then c ∷ [] else []
without_last (c ∷ d ∷ cs) = c ∷ without_last (d ∷ cs)

-- What typing `c` does to the line.
abbrev pub edited : ℕ → List ℕ → List ℕ
edited c line =
    if (c == 8) || (c == 127)
    then without_last line
    else if ((c == 10) || (leb 32 c && ltb c 127))
        && (ltb (length line) 1022 || ((c == 10) && ltb (length line) 1023))
    then line ++ (c ∷ [])
    else line

length-chars : (input : Memory) (i n : ℕ) → length (chars input i n) ≡ n
length-chars input i zero = refl
length-chars input i (suc n) = ap (λ m. suc m) (length-chars input (i + 1) n)

pub cons : {a b : ℕ} {xs ys : List ℕ} → a ≡ b → xs ≡ ys → (a ∷ xs) ≡ (b ∷ ys)
cons p q = λ i. p i ∷ q i

-- One more character at the end.
chars_snoc :
    (input : Memory) (i n : ℕ)
    → chars input i (suc n) ≡ chars input i n ++ (input ((i + n) % 1024) ∷ [])
chars_snoc input i zero = let here : i ≡ i + 0 = omega arith in ap (λ x. input (x % 1024) ∷ []) here
chars_snoc input i (suc n) =
    let there : i + 1 + n ≡ i + suc n = omega arith in
    ap (λ l. input (i % 1024) ∷ l)
      (chars_snoc input (i + 1) n
        ∙ ap (λ x. chars input (i + 1) n ++ (input (x % 1024) ∷ [])) there)

-- A write behind fewer than 1024 characters is none of them.
pub chars-poke :
    (input : Memory) (i n h c : ℕ)
    → i + n ≤ h
    → h < i + 1024
    → chars (poke input (h % 1024) c) i n ≡ chars input i n
chars-poke input i zero h c le lt = refl
chars-poke input i (suc n) h c le lt =
    cons (poke_other input (h % 1024) c (i % 1024) (omega arith))
      (chars-poke input (i + 1) n h c (omega arith) (omega arith))

without_last_snoc :
    (cs : List ℕ) (c : ℕ) → without_last (cs ++ (c ∷ [])) ≡ (if c == 10 then cs ++ (c ∷ []) else cs)
without_last_snoc [] c = refl
without_last_snoc (d ∷ []) c = elim (Bool-cases (c == 10)) [ inl e ↦ rw e refl | inr e ↦ rw e refl ]
without_last_snoc (d ∷ e ∷ cs) c = ap (λ l. d ∷ l) (without_last_snoc (e ∷ cs) c) ∙ under (c == 10)
  where
    under :
        (b : Bool)
        → (d ∷ (if b then e ∷ (cs ++ (c ∷ [])) else e ∷ cs))
          ≡ (if b then d ∷ (e ∷ (cs ++ (c ∷ []))) else d ∷ (e ∷ cs))
    under true = refl
    under false = refl

-- A character that is put behind the line.
queued-push :
    (t : Terminal) (c : ℕ)
    → IsLine t
    → t.head < 2 ^ 32 - 1
    → queued (push t c) ≡ queued t ++ (c ∷ [])
queued-push t c l b =
    let n = t.head - t.tail in
    let count : u32 (t.head + 1) - t.tail ≡ suc n = omega (arith, l.order) in
    let there : t.tail + n ≡ t.head = omega (arith, l.order) in
    let last : poke t.input (t.head % 1024) c ((t.tail + n) % 1024) ≡ c =
      rw there (poke_same t.input (t.head % 1024) c) in
    let kept =
      chars-poke t.input t.tail n t.head c (omega (arith, l.order)) (omega (arith, l.room)) in
    rw count (chars_snoc (poke t.input (t.head % 1024) c) t.tail n ∙ (λ i. kept i ++ (last i ∷ [])))

-- The line without its last character.
abbrev back : Terminal → Terminal
back t = record t { head = sub32 t.head 1 }

abbrev last_char : Terminal → ℕ
last_char t = t.input (sub32 t.head 1 % 1024)

queued-back :
    (t : Terminal)
    → IsLine t
    → t.head < 2 ^ 32
    → t.tail < t.head
    → queued t ≡ queued (back t) ++ (last_char t ∷ [])
queued-back t l b some_left =
    let n = sub32 t.head 1 - t.tail in
    let count : t.head - t.tail ≡ suc n = omega (arith, l.order) in
    let there : t.tail + n ≡ sub32 t.head 1 = omega (arith, l.order) in
    rw count (
      chars_snoc t.input t.tail n
      ∙ ap (λ x. chars t.input t.tail n ++ (t.input (x % 1024) ∷ [])) there)

erase_queued :
    (t : Terminal)
    → IsLine t
    → t.head < 2 ^ 32
    → t.tail < t.head
    → without_last (queued t) ≡ (if last_char t == 10 then queued t else queued (back t))
erase_queued t l b some_left =
    let e = queued-back t l b some_left in
    ap without_last e
    ∙ without_last_snoc (queued (back t)) (last_char t)
    ∙ ap (λ q. if last_char t == 10 then q else queued (back t)) (sym e)

pub empty_queued : (t : Terminal) → t.tail ≡ t.head → queued t ≡ []
empty_queued t e = let none_left : t.head - t.tail ≡ 0 = omega arith in rw none_left refl

length-queued :
    (t : Terminal) → IsLine t → t.head < 2 ^ 32 → length (queued t) ≡ sub32 t.head t.tail
length-queued t l b = length-chars t.input t.tail (t.head - t.tail) ∙ omega (arith, l.order)

erase_branch :
    (t : Terminal)
    → IsLine t
    → t.head < 2 ^ 32
    → (r : Bool) → ltb t.tail t.head ≡ r
    → (k : Bool) → (last_char t == 10) ≡ k
    → let done : Terminal × List ℕ = if r && not k then (back t, 8 ∷ 32 ∷ 8 ∷ []) else (t, []) in
      let t' = done.0 in IsLine t' × (queued t' ≡ without_last (queued t))
erase_branch t l b false er k ek =
    let e = empty_queued t (ground (arith, l.order)) in (l, e ∙ sym (ap without_last e))
erase_branch t l b true er true ek = (l, sym (erase_queued t l b (ground arith) ∙ rw ek refl))
erase_branch t l b true er false ek =
    let some_left : t.tail < t.head = ground arith in
    (
      record { order = omega (arith, l.order); room = omega (arith, l.order, l.room) },
      sym (erase_queued t l b some_left ∙ rw ek refl),
    )

room_left : (n c : ℕ) → (ltb n 1022 || ((c == 10) && ltb n 1023)) ≡ true → n < 1023
room_left n c h = ground arith

add_branch :
    (t : Terminal) (c : ℕ)
    → IsLine t
    → t.head < 2 ^ 32 - 1
    → (r : Bool)
    → (ltb (sub32 t.head t.tail) 1022 || ((c == 10) && ltb (sub32 t.head t.tail) 1023)) ≡ r
    → let done : Terminal × List ℕ = if r then (push t c, c ∷ []) else (t, []) in
      let t' = done.0 in IsLine t' × (queued t' ≡ (if r then queued t ++ (c ∷ []) else queued t))
add_branch t c l b true h = (
  record {
    order = omega (arith, l.order);
    room = omega (arith, l.order, room_left (sub32 t.head t.tail) c h);
  },
  queued-push t c l b,
)
add_branch t c l b false h = (l, refl)

-- As long as the ring's counter has not wrapped, typing a character edits the line that the ring holds,
-- and the ring is not overrun: a Backspace takes the last character away, but never the end of a line,
-- and a printing character or the end of a line is put behind, while there are fewer than 1022
-- characters, or fewer than 1023 for the end of a line.
pub accept-edited :
    (t : Terminal) (c : ℕ)
    → IsLine t
    → t.head < 2 ^ 32 - 1
    → let t' = (accept t c).0 in IsLine t' × (queued t' ≡ edited c (queued t))
unfolding accept
accept-edited t c l b =
    rw (length-queued t l (omega arith)) (elim (Bool-cases ((c == 8) || (c == 127))) [
      | inl e ↦
          rw e (erase_branch t l (omega arith) (ltb t.tail t.head) refl (last_char t == 10) refl)
      | inr e ↦ rw e (elim (Bool-cases ((c == 10) || (leb 32 c && ltb c 127))) [
        | inl f ↦ rw f (
            add_branch t c l b
              (ltb (sub32 t.head t.tail) 1022 || ((c == 10) && ltb (sub32 t.head t.tail) 1023))
              refl)
        | inr f ↦ rw f (l, refl)
      ])
    ])
