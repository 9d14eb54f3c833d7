-- ===== src/Asm/Output.antt =====
-- What `asm_assemble` of emu/asm.c leaves: the bytes of the lines, one after the other, and the labels.
use linux_0_11_symcc_on_turi.Base.{
  ℕ, zero, suc, ◌+◌, ◌-◌, ◌^◌, ◌<◌, ◌≤◌, ◌≡◌, refl, sym, ◌∙◌, ap, arith, Bool, true, false, ltb,
  if◌then◌else◌, ◌⊎◌, List, [], ◌∷◌, ◌++◌, length, length-append, get_or, get_or-append_left, some,
  Bool-cases, inl, inr,
}
use mathlib.Core.Path.{subst}
use linux_0_11_symcc_on_turi.Base.Word.{u32}
use linux_0_11_symcc_on_turi.Emu.State.{Memory}
use linux_0_11_symcc_on_turi.Emu.Store.{store_frame, store_get}
use linux_0_11_symcc_on_turi.Asm.Labels.{ok, err, Label, find_label, output_too_large}
use linux_0_11_symcc_on_turi.Asm.Emit.{Emitted, process_line}
use linux_0_11_symcc_on_turi.Asm.Passes.{text_lines, Pass, place, advance, run_pass, asm_assemble}
use linux_0_11_symcc_on_turi.Asm.Addresses.{
  >>=-steps, IsDefined, PassesAgree, both_lines, passes-agree,
}

get_or-append_right :
    (xs ys : List ℕ) (i : ℕ) → length xs ≤ i → get_or (xs ++ ys) i 0 ≡ get_or ys (i - length xs) 0
get_or-append_right [] ys i le = let same : i ≡ i - 0 = omega arith in ap (λ j. get_or ys j 0) same
get_or-append_right (x ∷ xs) ys zero le = absurd (omega arith)
get_or-append_right (x ∷ xs) ys (suc i) le =
    let same : i - length xs ≡ suc i - suc (length xs) = omega arith in
    get_or-append_right xs ys i (omega arith) ∙ ap (λ j. get_or ys j 0) same

module _ (grows : ℕ → Bool) (cap : ℕ) where
  -- The bytes of the lines of a second pass from `p` on.
  unfoldable pub program : Pass → ℕ → List (List ℕ) → List ℕ
  program p n [] = []
  program p n (line ∷ lines) = elim (process_line grows (place grows cap true p n) line) [
    | ok done ↦ done.1.bytes ++ program (advance p done) (n + 1) lines
    | err l why ↦ []
  ]

  program_step :
      (p : Pass) (n : ℕ) (line : List ℕ) (lines : List (List ℕ)) (e : List Label × Emitted)
      → process_line grows (place grows cap true p n) line ≡ ok e
      → program p n (line ∷ lines) ≡ e.1.bytes ++ program (advance p e) (n + 1) lines
  unfolding program
  program_step p n line lines e h =
      ap
        (λ r. elim r as (λ _. List ℕ) [
          | ok done ↦ done.1.bytes ++ program (advance p done) (n + 1) lines
          | err l why ↦ []
        ])
        h

  -- A pass has put the bytes `code` at its offset, and has touched nothing else.
  record Puts (p q : Pass) (code : List ℕ) : Type 0 where
    off : q.off ≡ p.off + length code
    put : (i : ℕ) → i < length code → q.out (p.off + i) ≡ get_or code i 0
    frame : (a : ℕ) → (a < p.off) ⊎ (p.off + length code ≤ a) → q.out a ≡ p.out a

  Puts-append :
      (p q : Pass) (labels : List Label) (e : Emitted) (code : List ℕ)
      → length e.bytes ≡ e.size
      → p.off + length (e.bytes ++ code) < 2 ^ 32
      → Puts (advance p (labels, e)) q code
      → Puts p q (e.bytes ++ code)
  Puts-append p q labels e code size fits r =
      let total = length-append e.bytes code in
      let next : u32 (p.off + e.size) ≡ p.off + length e.bytes = omega (arith, size, fits, total) in
      record {
        off = omega (arith, r.off, next, total);
        put = λ i lt. elim (Bool-cases (ltb i (length e.bytes))) [
          | inl f ↦
              r.frame (p.off + i) (inl (ground (arith, next)))
              ∙ (store_get p.out p.off e.bytes i (ground arith)
                  ∙ sym (get_or-append_left e.bytes code i 0 (ground arith)))
          | inr f ↦
              let beyond : length e.bytes ≤ i = ground arith in
              let there : p.off + i ≡ u32 (p.off + e.size) + (i - length e.bytes) =
                omega (arith, next, beyond) in
              rw there (r.put (i - length e.bytes) (omega (arith, total, lt, beyond)))
              ∙ sym (get_or-append_right e.bytes code i beyond)
        ];
        frame = λ a out.
            r.frame a (omega (arith, next, total, out))
            ∙ store_frame p.out p.off e.bytes a (omega (arith, total, out));
      }

  run_pass-Puts :
      (lines : List (List ℕ)) (p p' q q' : Pass) (n : ℕ)
      → p.off ≡ p'.off
      → run_pass grows cap false p n lines ≡ ok q
      → run_pass grows cap true p' n lines ≡ ok q'
      → p'.off + length (program p' n lines) < 2 ^ 32
      → Puts p' q' (program p' n lines)
  unfolding run_pass program
  run_pass-Puts [] p p' q q' n same h k fits =
      let b : p' ≡ q' = cc in
      subst (λ x. Puts p' x []) b
        (record { off = omega arith; put = λ i lt. absurd (omega arith); frame = λ a out. refl })
  run_pass-Puts (line ∷ lines) p p' q q' n same h k fits =
      let (d, dh, drest) = >>=-steps (process_line grows (place grows cap false p n) line) _ _ h in
      let (e, eh, erest) = >>=-steps (process_line grows (place grows cap true p' n) line) _ _ k in
      let a = both_lines grows cap p p' n line d e same dh eh in
      let code = e.1.bytes ++ program (advance p' e) (n + 1) lines in
      let is_code : program p' n (line ∷ lines) ≡ code = program_step p' n line lines e eh in
      let fits' : p'.off + length code < 2 ^ 32 =
        subst (λ c. p'.off + length c < 2 ^ 32) is_code fits in
      let total = length-append e.1.bytes (program (advance p' e) (n + 1) lines) in
      subst (Puts p' q') (sym is_code) (
        Puts-append p' q' e.0 e.1 (program (advance p' e) (n + 1) lines) a.written fits' (
          run_pass-Puts lines (advance p d) (advance p' e) q q' (n + 1)
            (λ i. u32 (same i + a.size i)) drest erest (omega (arith, total, fits', a.written))))

  -- The two passes of a successful assembly.
  record Passes (out : Memory) (text : List ℕ) (q : Pass) : Type 0 where
    first : Pass
    runs :
        run_pass grows cap false (record { labels = []; off = 0; out = out }) 0 (text_lines text)
        ≡ ok first
    again : run_pass grows cap true (record first { off = 0 }) 0 (text_lines text) ≡ ok q
    fits : first.off ≤ cap

  asm_assemble-Passes :
      (out : Memory) (text : List ℕ) (q : Pass)
      → asm_assemble grows cap out text ≡ ok q
      → Passes out text q
  unfolding asm_assemble
  asm_assemble-Passes out text q h =
      let (first, runs, rest) =
        >>=-steps
          (run_pass grows cap false (record { labels = []; off = 0; out = out }) 0
            (text_lines text))
          _ _ h in
      second first runs (ltb cap first.off) refl rest
    where
      second :
          (first : Pass)
          → run_pass grows cap false
              (record { labels = []; off = 0; out = out })
              0
              (text_lines text)
            ≡ ok first
          → (b : Bool) → ltb cap first.off ≡ b
          → (if b
              then err 0 output_too_large
              else run_pass grows cap true (record first { off = 0 }) 0 (text_lines text))
            ≡ ok q
          → Passes out text q
      second first runs true e k = cc
      second first runs false e k = record {
        first = first;
        runs = runs;
        again = k;
        fits = ground arith;
      }

  -- The second pass starts with the labels that it ends with, at 0, and with the given output.
  abbrev pub restart : Memory → Pass → Pass
  restart out q = record { labels = q.labels; off = 0; out = out }

  module _ (out : Memory) (text : List ℕ) (q : Pass)
      (h : asm_assemble grows cap out text ≡ ok q) where
    passes : Passes out text q
    passes = asm_assemble-Passes out text q h

    agreement :
        PassesAgree grows cap
          (record { labels = []; off = 0; out = out })
          (record passes.first { off = 0 })
          0
          (text_lines text)
          passes.first
          q
    agreement =
        passes-agree grows cap (text_lines text) (record { labels = []; off = 0; out = out })
          (record passes.first { off = 0 }) passes.first q 0 refl passes.runs passes.again

    restarted : record passes.first { off = 0 } ≡ restart out q
    restarted = λ i. record { labels = sym agreement.labels i; off = 0; out = agreement.out i }

    -- Every label that a successful assembly leaves with the value `v` is the name, kept to 63 characters,
    -- in front of a line of the text, and `v` is the offset at which the second pass reaches that line.
    pub asm_assemble-IsDefined :
        (name : List ℕ) (v : ℕ)
        → find_label q.labels name ≡ some v
        → IsDefined grows cap (restart out q) 0 (text_lines text) name v
    asm_assemble-IsDefined name v f =
        subst (λ p. IsDefined grows cap p 0 (text_lines text) name v) restarted
          (new (agreement.defined name v (rw (← agreement.labels) f)))
      where
        new :
            (find_label [] name ≡ some v)
              ⊎ IsDefined grows cap (record passes.first { off = 0 }) 0 (text_lines text) name v
            → IsDefined grows cap (record passes.first { off = 0 }) 0 (text_lines text) name v
        new (inl none_yet) = unfold find_label in cc
        new (inr defined) = defined

    -- A successful assembly, of a program below 2 ^ 32 bytes, returns the length of the program, which
    -- is within the capacity: the output holds the bytes of the lines one after the other, and it keeps
    -- what it had behind them.
    pub asm_assemble-program :
        length (program (restart out q) 0 (text_lines text)) < 2 ^ 32
        → let code = program (restart out q) 0 (text_lines text) in
          (q.off ≡ length code)
          × (length code ≤ cap)
          × ((i : ℕ) → i < length code → q.out i ≡ get_or code i 0)
          × ((a : ℕ) → length code ≤ a → q.out a ≡ out a)
    asm_assemble-program fits =
        let r =
          subst
            (λ p.
              length (program p 0 (text_lines text)) < 2 ^ 32
              → Puts p q (program p 0 (text_lines text)))
            restarted
            (λ small.
              run_pass-Puts (text_lines text) (record { labels = []; off = 0; out = out })
                (record passes.first { off = 0 }) passes.first q 0 refl passes.runs passes.again
                (omega (arith, small)))
            fits in
        (
          omega (arith, r.off),
          omega (arith, r.off, agreement.off, passes.fits),
          λ i lt. let start : i ≡ 0 + i = omega arith in ap q.out start ∙ r.put i lt,
          λ a le. r.frame a (inr (omega arith)),
        )
