-- ===== src/Asm/Addresses.antt =====
-- The addresses of emu/asm.c: both passes put every line at the same offset, and a label is the offset of
-- the line that defines it.
use linux_0_11_symcc_on_turi.Base.{
  ℕ, ◌+◌, ◌≡◌, refl, sym, ◌∙◌, ap, Bool, true, false, if◌then◌else◌, ◌⊎◌, List, [], ◌∷◌, ◌++◌, none,
  some, inl, inr,
}
use linux_0_11_symcc_on_turi.Base.Word.{u32}
use linux_0_11_symcc_on_turi.Base.Text.{str_eq, str_eq_sound}
use mathlib.Core.Path.{subst}
use linux_0_11_symcc_on_turi.Emu.Store.{store}
use linux_0_11_symcc_on_turi.Asm.Scan.{take}
use linux_0_11_symcc_on_turi.Asm.Labels.{Result, ok, err, ◌>>=◌, Label, find_label}
use linux_0_11_symcc_on_turi.Asm.Emit.{Emitted, process_line}
use linux_0_11_symcc_on_turi.Asm.Lines.{label_of, LineAgrees, BothAgree, process_line-agrees}
use linux_0_11_symcc_on_turi.Asm.Passes.{Pass, place, advance, run_pass}

-- The two steps of a sequence that succeeds.
pub >>=-steps :
    {A B : Type 0} (step : Result A) (next : A → Result B) (y : B)
    → (step >>= next) ≡ ok y
    → (x : A) × (step ≡ ok x) × (next x ≡ ok y)
>>=-steps (err l why) next y h = cc
>>=-steps (ok x) next y h = (x, refl, h)

find_label-append :
    (ls : List Label) (x : Label) (name : List ℕ) (v : ℕ)
    → find_label (ls ++ (x ∷ [])) name ≡ some v
    → (find_label ls name ≡ some v) ⊎ ((x.name ≡ name) × (x.off ≡ v))
unfolding find_label
find_label-append [] x name v h = last (str_eq x.name name) refl h
  where
    last :
        (b : Bool)
        → str_eq x.name name ≡ b
        → (if b then some x.off else none) ≡ some v
        → (none ≡ some v) ⊎ ((x.name ≡ name) × (x.off ≡ v))
    last true e k = inr (str_eq_sound x.name name e, cc)
    last false e k = cc
find_label-append (l ∷ ls) x name v h = first (str_eq l.name name) h (find_label-append ls x name v)
  where
    first :
        (b : Bool)
        → (if b then some l.off else find_label (ls ++ (x ∷ [])) name) ≡ some v
        → (find_label (ls ++ (x ∷ [])) name ≡ some v
            → (find_label ls name ≡ some v) ⊎ ((x.name ≡ name) × (x.off ≡ v)))
        → ((if b then some l.off else find_label ls name) ≡ some v)
          ⊎ ((x.name ≡ name) × (x.off ≡ v))
    first true k ih = inl k
    first false k ih = ih k

module _ (grows : ℕ → Bool) (cap : ℕ) where
  -- Among the lines of a second pass from `p` on, one defines `name`, and it stands at `v`. A name is
  -- kept to 63 characters.
  pub record IsDefined (p : Pass) (n : ℕ) (lines : List (List ℕ)) (name : List ℕ) (v : ℕ)
      : Type 0 where
    pub above : List (List ℕ)
    pub line : List ℕ
    pub below : List (List ℕ)
    pub reached : Pass
    pub full : List ℕ
    pub split : lines ≡ above ++ (line ∷ below)
    pub runs : run_pass grows cap true p n above ≡ ok reached
    pub defines : label_of line ≡ some full
    pub kept : take 63 full ≡ name
    pub here : reached.off ≡ v

  pub record PassesAgree (p p' : Pass) (n : ℕ) (lines : List (List ℕ)) (q q' : Pass) : Type 0 where
    pub off : q.off ≡ q'.off
    pub labels : q'.labels ≡ p'.labels
    pub out : q.out ≡ p.out
    pub defined :
        (name : List ℕ) (v : ℕ)
        → find_label q.labels name ≡ some v
        → (find_label p.labels name ≡ some v) ⊎ IsDefined p' n lines name v

  -- What both passes do at one line.
  pub both_lines :
      (p p' : Pass) (n : ℕ) (line : List ℕ) (d e : List Label × Emitted)
      → p.off ≡ p'.off
      → process_line grows (place grows cap false p n) line ≡ ok d
      → process_line grows (place grows cap true p' n) line ≡ ok e
      → LineAgrees p.off p.labels p'.labels (label_of line) d e
  both_lines p p' n line d e same h k =
      let k' : process_line grows
            (record { resolve = true; labels = p'.labels; off = p.off; cap = cap; lineno = n + 1 })
            line
          ≡ ok e =
        subst
          (λ o.
            process_line grows
              (record { resolve = true; labels = p'.labels; off = o; cap = cap; lineno = n + 1 })
              line
            ≡ ok e)
          (sym same) k in
      let r = process_line-agrees grows p.off cap (n + 1) p.labels p'.labels line in
      subst (λ x. BothAgree p.off p.labels p'.labels (label_of line) x (ok e)) h
        (subst
          (λ x.
            BothAgree p.off p.labels p'.labels (label_of line)
              (process_line grows
                (record {
                  resolve = false;
                  labels = p.labels;
                  off = p.off;
                  cap = cap;
                  lineno = n + 1;
                })
                line)
              x)
          k' r)

  -- A definition among the lines that follow is one among all of them.
  define_later :
      (p : Pass) (n : ℕ) (line : List ℕ) (lines : List (List ℕ)) (e : List Label × Emitted)
      (name : List ℕ) (v : ℕ)
      → process_line grows (place grows cap true p n) line ≡ ok e
      → IsDefined (advance p e) (n + 1) lines name v
      → IsDefined p n (line ∷ lines) name v
  unfolding run_pass
  define_later p n line lines e name v h x = record {
    above = line ∷ x.above;
    line = x.line;
    below = x.below;
    reached = x.reached;
    full = x.full;
    split = ap (λ ls. line ∷ ls) x.split;
    runs =
        ap (λ r. r >>= (λ done. run_pass grows cap true (advance p done) (n + 1) x.above)) h
        ∙ x.runs;
    defines = x.defines;
    kept = x.kept;
    here = x.here;
  }

  define_here :
      (p p' : Pass) (n : ℕ) (line : List ℕ) (lines : List (List ℕ)) (d e : List Label × Emitted)
      (name : List ℕ) (v : ℕ)
      → p.off ≡ p'.off
      → LineAgrees p.off p.labels p'.labels (label_of line) d e
      → find_label d.0 name ≡ some v
      → (find_label p.labels name ≡ some v) ⊎ IsDefined p' n (line ∷ lines) name v
  unfolding run_pass
  define_here p p' n line lines d e name v same a f = elim a.grown [
    | inl kept ↦ inl (rw (← kept) f)
    | inr (l, eq, more) ↦
        elim (find_label-append p.labels (record { name = take 63 l; off = p.off }) name v
          (rw (← more) f)) [
            | inl found ↦ inl found
            | inr (is_name, is_off) ↦ inr (record {
              above = [];
              line = line;
              below = lines;
              reached = p';
              full = l;
              split = refl;
              runs = refl;
              defines = eq;
              kept = is_name;
              here = sym same ∙ is_off;
            })
          ]
  ]

  pub passes-agree :
      (lines : List (List ℕ)) (p p' q q' : Pass) (n : ℕ)
      → p.off ≡ p'.off
      → run_pass grows cap false p n lines ≡ ok q
      → run_pass grows cap true p' n lines ≡ ok q'
      → PassesAgree p p' n lines q q'
  unfolding run_pass
  passes-agree [] p p' q q' n same h k =
      let a : p ≡ q = cc in
      let b : p' ≡ q' = cc in
      record {
        off = ap (λ x. x.off) (sym a) ∙ same ∙ ap (λ x. x.off) b;
        labels = ap (λ x. x.labels) (sym b);
        out = ap (λ x. x.out) (sym a);
        defined = λ name v f. inl (rw a f);
      }
  passes-agree (line ∷ lines) p p' q q' n same h k =
      let (d, dh, drest) = >>=-steps (process_line grows (place grows cap false p n) line) _ _ h in
      let (e, eh, erest) = >>=-steps (process_line grows (place grows cap true p' n) line) _ _ k in
      let a = both_lines p p' n line d e same dh eh in
      let rest =
        passes-agree lines (advance p d) (advance p' e) q q' (n + 1) (λ i. u32 (same i + a.size i))
          drest erest in
      record {
        off = rest.off;
        labels = rest.labels ∙ a.kept;
        out = rest.out ∙ (ap (λ b. store p.out p.off b) a.silent ∙ (unfold store in refl));
        defined = λ name v f. elim (rest.defined name v f) [
          | inl found ↦ define_here p p' n line lines d e name v same a found
          | inr later ↦ inr (define_later p' n line lines e name v eh later)
        ];
      }
