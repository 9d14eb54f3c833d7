-- ===== src/Kernel/Process/Read.antt =====
-- Reading the keyboard line: `tty_read_user` of Reference/Linux-0.11-main/kernel/symplus/process.c against the
-- list that the ring holds.
use linux_0_11_symcc_on_turi.Base.{
  ℕ, zero, suc, ◌+◌, ◌-◌, ◌%◌, ◌^◌, ◌<◌, ◌≤◌, ◌≡◌, ◌≢◌, ◌⊎◌, refl, ◌∙◌, ap, arith, Bool, true,
  false, ltb, ◌==◌, if◌then◌else◌, List, [], ◌∷◌, ◌++◌, length, get_or, Bool-cases, inl, inr,
}
use linux_0_11_symcc_on_turi.Base.Word.{u32}
use linux_0_11_symcc_on_turi.Emu.State.{Memory}
use linux_0_11_symcc_on_turi.Emu.Store.{store_frame, store_get}
use linux_0_11_symcc_on_turi.Kernel.Process.Terminal.{
  Terminal, line_ready, take_line, tty_read_user,
}
use linux_0_11_symcc_on_turi.Kernel.Process.Line.{chars, queued, IsLine, empty_queued}

-- The first line of a list, up to its end or to `n` characters.
abbrev pub first_line : ℕ → List ℕ → List ℕ
first_line zero cs = []
first_line (suc n) [] = []
first_line (suc n) (c ∷ cs) = if c == 10 then c ∷ [] else c ∷ first_line n cs

length-first_line : (n : ℕ) (cs : List ℕ) → length (first_line n cs) ≤ n
length-first_line zero cs = omega arith
length-first_line (suc n) [] = omega arith
length-first_line (suc n) (c ∷ cs) = elim (Bool-cases (c == 10)) [
  | inl e ↦ rw e (omega arith)
  | inr e ↦ rw e (omega (arith, length-first_line n cs))
]

abbrev passed : Terminal → Terminal
passed t = record t { tail = u32 (t.tail + 1) }

-- What is taken is the first line, and the rest stays.
record Taken (n : ℕ) (t : Terminal) (taken : List ℕ × Terminal) : Type 0 where
  line : taken.0 ≡ first_line n (queued t)
  rest : queued t ≡ taken.0 ++ queued taken.1
  valid : IsLine taken.1

take_line-Taken : (n : ℕ) (t : Terminal) → IsLine t → t.head < 2 ^ 32 → Taken n t (take_line n t)
unfolding take_line
take_line-Taken zero t l b = record { line = refl; rest = refl; valid = l }
take_line-Taken (suc n) t l b =
    go (ltb t.tail t.head) refl (λ l'. take_line-Taken n (passed t) l' b)
  where
    split : t.tail < t.head → queued t ≡ t.input (t.tail % 1024) ∷ queued (passed t)
    split lt =
        let count : t.head - t.tail ≡ suc (t.head - u32 (t.tail + 1)) = omega arith in
        let one : t.tail + 1 ≡ u32 (t.tail + 1) = omega arith in
        rw count
          (ap (λ x. t.input (t.tail % 1024) ∷ chars t.input x (t.head - u32 (t.tail + 1))) one)

    still : t.tail < t.head → IsLine (passed t)
    still lt = record { order = omega arith; room = omega (arith, l.room) }

    go :
        (r : Bool)
        → ltb t.tail t.head ≡ r
        → (IsLine (passed t) → Taken n (passed t) (take_line n (passed t)))
        → Taken (suc n) t (
            if r
            then (if t.input (t.tail % 1024) == 10
                then (t.input (t.tail % 1024) ∷ [], passed t)
                else (
                  t.input (t.tail % 1024) ∷ (take_line n (passed t)).0,
                  (take_line n (passed t)).1,
                ))
            else ([], t))
    go false e ih =
        let none_left = empty_queued t (ground (arith, l.order)) in
        record { line = rw none_left refl; rest = refl; valid = l }
    go true e ih =
        let lt : t.tail < t.head = ground arith in
        let more = split lt in
        elim (Bool-cases (t.input (t.tail % 1024) == 10)) [
          | inl f ↦ rw f (record { line = rw (more, f) refl; rest = more; valid = still lt })
          | inr f ↦
              let r = ih (still lt) in
              rw f (record {
                line = rw (more, f) (ap (λ x. t.input (t.tail % 1024) ∷ x) r.line);
                rest = more ∙ ap (λ x. t.input (t.tail % 1024) ∷ x) r.rest;
                valid = r.valid;
              })
        ]

-- Where a line is ready, something is wanted and nothing is cancelled, and the ring's counters have not
-- wrapped: the call takes the first line away from the ring, or its first `count` characters if it is
-- longer, gives their number, and writes them into the buffer and nothing else into memory.
pub tty_read_user-first_line :
    (t : Terminal) (mem : Memory) (buf count : ℕ)
    → IsLine t
    → t.head < 2 ^ 32
    → line_ready t ≡ true
    → count ≢ 0
    → let r = tty_read_user false t mem buf count in
      let line = first_line count (queued t) in
      (r.result ≡ length line)
      × (r.result ≤ count)
      × (queued t ≡ line ++ queued r.terminal)
      × IsLine r.terminal
      × ((i : ℕ) → i < length line → r.window (buf + i) ≡ get_or line i 0)
      × ((a : ℕ) → (a < buf) ⊎ (buf + length line ≤ a) → r.window a ≡ mem a)
unfolding tty_read_user
tty_read_user-first_line t mem buf count l b ready wanted =
    let taken = take_line-Taken count t l b in
    rw (none count wanted, ready)
      (
        ap length taken.line,
        rw taken.line (length-first_line count (queued t)),
        taken.rest ∙ ap (λ x. x ++ queued (take_line count t).1) taken.line,
        taken.valid,
        λ i lt. rw taken.line (store_get mem buf (first_line count (queued t)) i lt),
        λ a out. rw taken.line (store_frame mem buf (first_line count (queued t)) a out),
      )
  where
    none : (n : ℕ) → n ≢ 0 → (n == 0) ≡ false
    none n h = ground arith
