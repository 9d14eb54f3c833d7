-- ===== src/Symcc/Object/Reread.antt =====
-- An object of symcc/src/obj.c that is written is read back.
use linux_0_11_symcc_on_turi.Base.{
  ℕ, ◌≡◌, ◌≢◌, refl, ◌∙◌, ap, Bool, false, List, [], ◌∷◌, ◌++◌, some, All,
}
use linux_0_11_symcc_on_turi.Base.Text.{codes}
use linux_0_11_symcc_on_turi.Symcc.Object.Model.{Obj}
use linux_0_11_symcc_on_turi.Symcc.Object.Write.{Sink, bss_line, symbol_line}
use linux_0_11_symcc_on_turi.Symcc.Object.Read.{
  Reader, content, kind_of, read_lines, use_line, add_content, take_lines,
}
use linux_0_11_symcc_on_turi.Symcc.Object.Clean.{
  Chars, Uncommented, clean_line_lem, read_lines_first,
}

-- A file that holds all that was written to it.
abbrev pub whole_file : Sink (List ℕ)
whole_file = record { print = λ t. λ out. some (out ++ t); error = λ out. false }

-- The lines, each with its newline, and what is behind them.
abbrev pub with_lines : {A : Type 0} → (A → List ℕ) → List A → List ℕ → List ℕ
with_lines line [] s = s
with_lines line (a ∷ rest) s = line a ++ (10 ∷ with_lines line rest s)

-- The text of an object.
abbrev pub object_text : Obj → List ℕ
object_text o =
    codes "; symcc object v1"
    ++ (10
        ∷ (codes ".text"
            ++ (10
                ∷ with_lines (λ line. line) o.text_lines
                    (codes ".data"
                      ++ (10
                          ∷ with_lines (λ line. line) o.data_lines
                              (with_lines bss_line o.bss (with_lines symbol_line o.syms [])))))))

-- A line of assembly text that the reader takes for one.
pub record IsContent (native : Bool) (l : List ℕ) : Type 0 where
  pub chars : Chars l
  pub uncommented : Uncommented native l
  pub kind : kind_of l ≡ content

-- A name has no newline and no semicolon.
abbrev pub NameChars : List ℕ → Type 0
NameChars = All (λ c. ((c ≢ 10) × (c ≢ 13)) × (c ≢ b';'))

pub NameChars-append : (l s : List ℕ) → NameChars l → NameChars s → NameChars (l ++ s)
NameChars-append [] s h k = k
NameChars-append (c ∷ l) s (p, h) k = (p, NameChars-append l s h k)

pub NameChars-Chars : (l : List ℕ) → NameChars l → Chars l
NameChars-Chars [] h = tt
NameChars-Chars (c ∷ l) (p, h) = (p.0, NameChars-Chars l h)

pub NameChars-Uncommented : (l : List ℕ) → NameChars l → All (λ c. c ≢ b';') l
NameChars-Uncommented [] h = tt
NameChars-Uncommented (c ∷ l) (p, h) = (p.1, NameChars-Uncommented l h)

-- A line is taken for itself.
pub take_first :
    (native : Bool) (l s : List ℕ) (r : Reader)
    → Chars l
    → Uncommented native l
    → take_lines native (read_lines (l ++ (10 ∷ s))) r
      ≡ take_lines native (read_lines s) (use_line r l (kind_of l))
unfolding take_lines
take_first native l s r h u =
    ap (λ t. take_lines native t r) (read_lines_first l s h)
    ∙ ap (λ x. take_lines native (read_lines s) (use_line r x (kind_of x)))
        (clean_line_lem native l h u)

-- The lines of a section, one after the other.
abbrev pub add_all : ℕ → Obj → List (List ℕ) → Obj
add_all section o [] = o
add_all section o (l ∷ ls) = add_all section (add_content section o l) ls

pub take_content :
    (native : Bool) (ls : List (List ℕ)) (s : List ℕ) (section : ℕ) (o : Obj)
    → All (IsContent native) ls
    → take_lines native
        (read_lines (with_lines (λ line. line) ls s))
        (record { section = section; obj = o })
      ≡ take_lines native (read_lines s) (record { section = section; obj = add_all section o ls })
unfolding use_line
take_content native [] s section o h = refl
take_content native (l ∷ ls) s section o (c, h) =
    let r : Reader = record { section = section; obj = o } in
    take_first native l (with_lines (λ line. line) ls s) r c.chars c.uncommented
    ∙ (ap (λ k. take_lines native (read_lines (with_lines (λ line. line) ls s)) (use_line r l k))
          c.kind
        ∙ take_content native ls s section (add_content section o l) h)
