-- ===== src/Symcc/Object/Symbols.antt =====
-- The declarations of an object (symcc/src/obj.c) are read as they were written.
use linux_0_11_symcc_on_turi.Base.{
  ℕ, ◌<◌, ◌≤◌, ◌≡◌, ◌⊎◌, inl, inr, refl, sym, ◌∙◌, ap, arith, Bool, true, false, ◌==◌,
  if◌then◌else◌, List, [], ◌∷◌, ◌++◌, length, get_or, some,
}
use mathlib.Core.List.{append-nil}
use linux_0_11_symcc_on_turi.Base.Int.{ℤ}
use linux_0_11_symcc_on_turi.Base.Text.{codes, str_eq}
use linux_0_11_symcc_on_turi.Symcc.Object.Lines.{starts_with}
use linux_0_11_symcc_on_turi.Symcc.Object.Model.{
  ObjSymbol, ObjBss, Obj, obj_add_symbol, obj_add_bss,
}
use linux_0_11_symcc_on_turi.Symcc.Object.Write.{print_long, bss_line, symbol_line}
use linux_0_11_symcc_on_turi.Symcc.Object.Read.{
  drop_chars, kind_of, scan_string, scan_long, read_bss, read_symbol, use_line, or_same,
  starts_digit,
}
use linux_0_11_symcc_on_turi.Symcc.Object.Reread.{NameChars, NameChars-append}
use linux_0_11_symcc_on_turi.Symcc.Object.Declared.{
  Declares, is_name-NameChars, spaced, print_long-NameChars,
}
use linux_0_11_symcc_on_turi.Symcc.Object.Scan.{
  Spaceless, scan_string_lem, scan_string_space, scan_long_space, scan_long_lem, IsLong,
}

-- A name that `%511s` reads.
pub record IsWord (name : List ℕ) : Type 0 where
  pub chars : NameChars name
  pub spaceless : Spaceless name
  pub some_char : 0 < length name
  pub short : length name ≤ 511

name_read :
    (name s : List ℕ) → IsWord name → scan_string 511 (name ++ (b' ' ∷ s)) ≡ some (name, b' ' ∷ s)
name_read [] s w = absurd (omega (arith, w.some_char))
name_read (c ∷ l) s w = scan_string_lem c l s 511 w.spaceless w.short

-- A number behind a blank.
long_read :
    (z : ℤ) (s : List ℕ)
    → IsLong z
    → starts_digit s ≡ false
    → scan_long (b' ' ∷ (print_long z ++ s)) ≡ some (z, s)
long_read z s h e = scan_long_space (print_long z ++ s) ∙ scan_long_lem z s h e

long_read_last : (z : ℤ) → IsLong z → scan_long (b' ' ∷ print_long z) ≡ some (z, [])
long_read_last z h =
    ap (λ t. scan_long (b' ' ∷ t)) (sym (append-nil (print_long z))) ∙ long_read z [] h refl

read_bss_lem :
    (o : Obj) (name : List ℕ) (size : ℤ)
    → IsWord name
    → IsLong size
    → read_bss o (name ++ (b' ' ∷ print_long size)) ≡ some (obj_add_bss o name size)
unfolding read_bss
read_bss_lem o name size w h = rw (name_read name (print_long size) w, long_read_last size h) refl

pub bss_line-Declares :
    (b : ObjBss)
    → IsWord b.name
    → IsLong b.size
    → Declares (bss_line b) (λ o. obj_add_bss o b.name b.size)
unfolding bss_line kind_of starts_with use_line drop_chars
bss_line-Declares b w h = record {
  chars =
      NameChars-append (codes ".bss ") (b.name ++ ((b' ' ∷ []) ++ print_long b.size))
        (is_name-NameChars (codes ".bss ") refl)
        (NameChars-append b.name ((b' ' ∷ []) ++ print_long b.size) w.chars
          (spaced (print_long b.size) (print_long-NameChars b.size)));
  updates =
      λ r. ap (λ m. record r { obj = or_same m r.obj }) (read_bss_lem r.obj b.name b.size w h);
}

section_name : (b : Bool) → NameChars (if b then codes "text" else codes "data")
section_name true = is_name-NameChars (codes "text") refl
section_name false = is_name-NameChars (codes "data") refl

kind_name : (b : Bool) (l : List ℕ) → NameChars l → NameChars ((if b then b'D' else b'T') ∷ l)
kind_name true l h = NameChars-append (codes "D") l (is_name-NameChars (codes "D") refl) h
kind_name false l h = NameChars-append (codes "T") l (is_name-NameChars (codes "T") refl) h

-- The ends of a symbol's line, from its offset, its segment and its kind on.
abbrev offset_part : ObjSymbol → List ℕ
offset_part s = print_long s.offset ++ ((b' ' ∷ []) ++ print_long s.size)

abbrev segment_part : ObjSymbol → List ℕ
segment_part s =
    (if s.segment == 0 then codes "text" else codes "data") ++ ((b' ' ∷ []) ++ offset_part s)

abbrev kind_part : ObjSymbol → List ℕ
kind_part s = (if s.is_data then b'D' else b'T') ∷ ((b' ' ∷ []) ++ segment_part s)

offset_part-NameChars : (s : ObjSymbol) → NameChars (offset_part s)
offset_part-NameChars s =
    NameChars-append (print_long s.offset) ((b' ' ∷ []) ++ print_long s.size)
      (print_long-NameChars s.offset) (spaced (print_long s.size) (print_long-NameChars s.size))

segment_part-NameChars : (s : ObjSymbol) → NameChars (segment_part s)
segment_part-NameChars s =
    NameChars-append (if s.segment == 0 then codes "text" else codes "data")
      ((b' ' ∷ []) ++ offset_part s) (section_name (s.segment == 0))
      (spaced (offset_part s) (offset_part-NameChars s))

kind_part-NameChars : (s : ObjSymbol) → NameChars (kind_part s)
kind_part-NameChars s =
    kind_name s.is_data ((b' ' ∷ []) ++ segment_part s)
      (spaced (segment_part s) (segment_part-NameChars s))

-- A symbol whose fields are what the reader makes of its line.
pub record IsSymbol (s : ObjSymbol) : Type 0 where
  pub word : IsWord s.name
  pub len_kept : s.len ≡ length s.name
  pub segment_kept : (s.segment ≡ 0) ⊎ (s.segment ≡ 1)
  pub offset_fits : IsLong s.offset
  pub size_fits : IsLong s.size

kind_read :
    (b : Bool) (s : List ℕ)
    → scan_string 7 (b' ' ∷ ((if b then b'D' else b'T') ∷ (b' ' ∷ s)))
      ≡ some ((if b then b'D' else b'T') ∷ [], b' ' ∷ s)
kind_read true s =
    scan_string_space (b'D' ∷ (b' ' ∷ s)) 7 ∙ scan_string_lem b'D' [] s 7 (refl, tt) (omega arith)
kind_read false s =
    scan_string_space (b'T' ∷ (b' ' ∷ s)) 7 ∙ scan_string_lem b'T' [] s 7 (refl, tt) (omega arith)

segment_read :
    (b : Bool) (s : List ℕ)
    → scan_string 15 (b' ' ∷ ((if b then codes "text" else codes "data") ++ (b' ' ∷ s)))
      ≡ some (if b then codes "text" else codes "data", b' ' ∷ s)
segment_read true s =
    scan_string_space (codes "text" ++ (b' ' ∷ s)) 15
    ∙ scan_string_lem b't' (codes "ext") s 15 (refl, (refl, (refl, (refl, tt)))) (omega arith)
segment_read false s =
    scan_string_space (codes "data" ++ (b' ' ∷ s)) 15
    ∙ scan_string_lem b'd' (codes "ata") s 15 (refl, (refl, (refl, (refl, tt)))) (omega arith)

kind_back : (b : Bool) → (get_or ((if b then b'D' else b'T') ∷ []) 0 0 == b'D') ≡ b
kind_back true = refl
kind_back false = refl

segment_back :
    (n : ℕ)
    → (n ≡ 0) ⊎ (n ≡ 1)
    → (if str_eq (if n == 0 then codes "text" else codes "data") (codes "data") then 1 else 0) ≡ n
segment_back n (inl e) = rw e refl
segment_back n (inr e) = rw e refl

read_symbol_lem :
    (o : Obj) (s : ObjSymbol)
    → IsSymbol s
    → read_symbol o (s.name ++ (b' ' ∷ kind_part s))
      ≡ some (obj_add_symbol o s.name s.is_data s.segment s.offset s.size)
unfolding read_symbol
read_symbol_lem o s h =
    rw
      (
        name_read s.name (kind_part s) h.word,
        kind_read s.is_data (segment_part s),
        segment_read (s.segment == 0) (offset_part s),
        long_read s.offset (b' ' ∷ print_long s.size) h.offset_fits refl,
        long_read_last s.size h.size_fits,
        kind_back s.is_data,
        segment_back s.segment h.segment_kept,
      )
      refl

pub symbol_line-Declares :
    (s : ObjSymbol)
    → IsSymbol s
    → Declares (symbol_line s) (λ o. obj_add_symbol o s.name s.is_data s.segment s.offset s.size)
unfolding symbol_line kind_of starts_with use_line drop_chars
symbol_line-Declares s h = record {
  chars =
      NameChars-append (codes ".sym ") (s.name ++ ((b' ' ∷ []) ++ kind_part s))
        (is_name-NameChars (codes ".sym ") refl)
        (NameChars-append s.name ((b' ' ∷ []) ++ kind_part s) h.word.chars
          (spaced (kind_part s) (kind_part-NameChars s)));
  updates = λ r. ap (λ m. record r { obj = or_same m r.obj }) (read_symbol_lem r.obj s h);
}
