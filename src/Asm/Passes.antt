-- ===== src/Asm/Passes.antt =====
-- The two passes of `asm_assemble` in emu/asm.c.
use linux_0_11_symcc_on_turi.Base.{
  ℕ, zero, suc, ◌+◌, Bool, true, false, ltb, if◌then◌else◌, List, [], ◌∷◌, length, none, some,
}
use linux_0_11_symcc_on_turi.Base.Word.{u32}
use linux_0_11_symcc_on_turi.Emu.State.{Memory}
use linux_0_11_symcc_on_turi.Emu.Store.{store}
use linux_0_11_symcc_on_turi.Asm.Scan.{next_line}
use linux_0_11_symcc_on_turi.Asm.Labels.{Result, ok, err, ◌>>=◌, Label, output_too_large}
use linux_0_11_symcc_on_turi.Asm.Emit.{Emitted, Place, process_line}

-- The lines that the calls of `next_line` give, for at most `fuel` calls.
unfoldable pub lines_of : ℕ → List ℕ → List (List ℕ)
lines_of zero text = []
lines_of (suc fuel) text = elim (next_line text) [
  | none ↦ []
  | some (line, rest) ↦ line ∷ lines_of fuel rest
]

-- A call takes a character at least, so that these are all the lines.
unfoldable pub text_lines : List ℕ → List (List ℕ)
text_lines text = lines_of (length text) text

-- What a pass leaves: the labels, the offset and the output.
pub record Pass : Type 0 where
  pub labels : List Label
  pub off : ℕ
  pub out : Memory

-- The pass after a line.
abbrev pub advance : Pass → List Label × Emitted → Pass
advance p (labels, e) = record {
  labels = labels;
  off = u32 (p.off + e.size);
  out = store p.out p.off e.bytes;
}

module _ (grows : ℕ → Bool) (cap : ℕ) (resolve : Bool) where
  -- The place of the next line, the last of the lines done being `n`.
  abbrev pub place : Pass → ℕ → Place
  place p n = record {
    resolve = resolve;
    labels = p.labels;
    off = p.off;
    cap = cap;
    lineno = n + 1;
  }

  -- The loop of a pass over the lines that are left.
  unfoldable pub run_pass : Pass → ℕ → List (List ℕ) → Result Pass
  run_pass p n [] = ok p
  run_pass p n (line ∷ lines) = do
    done ← process_line grows (place p n) line
    run_pass (advance p done) (n + 1) lines

-- The output is given as a memory that starts at 0.
unfoldable pub asm_assemble : (ℕ → Bool) → ℕ → Memory → List ℕ → Result Pass
asm_assemble grows cap out text = do
  first ← run_pass grows cap false (record { labels = []; off = 0; out = out }) 0 (text_lines text)
  if ltb cap first.off
      then err 0 output_too_large
      else run_pass grows cap true (record first { off = 0 }) 0 (text_lines text)
