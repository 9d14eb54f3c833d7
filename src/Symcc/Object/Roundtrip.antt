-- ===== src/Symcc/Object/Roundtrip.antt =====
-- The text of an object (symcc/src/obj.c) is written and read: all of it comes back.
use linux_0_11_symcc_on_turi.Base.{
  ℕ, ◌≡◌, arith, Bool, true, ◌==◌, not, ◌&&◌, ◌||◌, List, [], ◌∷◌, All,
}
use linux_0_11_symcc_on_turi.Symcc.Object.Model.{
  ObjBss, ObjSymbol, Obj, obj_add_bss, obj_add_symbol,
}
use linux_0_11_symcc_on_turi.Symcc.Object.Clean.{Chars}
use linux_0_11_symcc_on_turi.Symcc.Object.Scan.{IsLong}
use linux_0_11_symcc_on_turi.Symcc.Object.Symbols.{IsWord, IsSymbol}
use linux_0_11_symcc_on_turi.Symcc.Object.Reread.{IsContent}

-- The list the other way round, in front of another one.
abbrev pub reversed : {A : Type 0} → List A → List A → List A
reversed [] acc = acc
reversed (a ∷ l) acc = reversed l (a ∷ acc)

-- The second object has the lines of the first, and its declarations the other way round.
pub record SameObject (o p : Obj) : Type 0 where
  pub text : p.text_lines ≡ o.text_lines
  pub data_text : p.data_lines ≡ o.data_lines
  pub declared : p.bss ≡ reversed o.bss []
  pub exported : p.syms ≡ reversed o.syms []

abbrev with_bss : ObjBss → Obj → Obj
with_bss b o = obj_add_bss o b.name b.size

abbrev with_symbol : ObjSymbol → Obj → Obj
with_symbol s o = obj_add_symbol o s.name s.is_data s.segment s.offset s.size

-- The lines of an object are assembly text, and its declarations are such as the reader takes.
pub record IsObject (native : Bool) (o : Obj) : Type 0 where
  pub text : All (IsContent native) o.text_lines
  pub data_text : All (IsContent native) o.data_lines
  pub declared : All (λ b. IsWord b.name × IsLong b.size) o.bss
  pub exported : All IsSymbol o.syms

abbrev pub is_line : List ℕ → Bool
is_line [] = true
is_line (c ∷ l) = not ((c == 10) || (c == 13)) && is_line l

pub is_line-Chars : (l : List ℕ) → is_line l ≡ true → Chars l
is_line-Chars [] e = tt
is_line-Chars (c ∷ l) e = (
  ((λ z. ground (arith, z, e)), (λ z. ground (arith, z, e))),
  is_line-Chars l (ground (arith, e)),
)
