-- ===== src/Symcc/Object/Write.antt =====
-- `obj_write` of symcc/src/obj.c.
use linux_0_11_symcc_on_turi.Base.{
  ℕ, zero, suc, ◌+◌, ◌/◌, ◌%◌, Bool, ltb, ◌==◌, if◌then◌else◌, List, [], ◌∷◌, ◌++◌, Option, none,
  some,
}
use linux_0_11_symcc_on_turi.Base.Int.{ℤ, pos, negsuc}
use linux_0_11_symcc_on_turi.Base.Text.{codes}
use linux_0_11_symcc_on_turi.Symcc.Object.Model.{ObjSymbol, ObjBss, Obj}

-- A number in decimal, of at most as many digits as a `long` has.
unfoldable pub decimal : ℕ → ℕ → List ℕ
decimal zero n = []
decimal (suc digits) n =
    let high = decimal digits (n / 10) in
    if ltb n 10 then (b'0' + n) ∷ [] else high ++ ((b'0' + n % 10) ∷ [])

-- `%ld`
unfoldable pub print_long : ℤ → List ℕ
unfolding decimal
print_long (pos n) = decimal 20 n
print_long (negsuc n) = b'-' ∷ decimal 20 (suc n)

infixl 5 ◌>>=◌
abbrev ◌>>=◌ : {A B : Type 0} → Option A → (A → Option B) → Option B
none >>= next = none
some a >>= next = next a

-- `FILE` as the object is written to: `print` fails when `fprintf` returns less than 0, and `error` is `ferror`.
pub record Sink (F : Type 0) : Type 0 where
  pub print : List ℕ → F → Option F
  pub error : F → Bool

abbrev pub line_end : List ℕ
line_end = 10 ∷ []

abbrev pub space : List ℕ
space = b' ' ∷ []

unfoldable pub bss_line : ObjBss → List ℕ
unfolding print_long
bss_line b = codes ".bss " ++ (b.name ++ (space ++ print_long b.size))

unfoldable pub symbol_line : ObjSymbol → List ℕ
unfolding print_long
symbol_line s =
    codes ".sym "
    ++ (s.name
        ++ (space
            ++ ((if s.is_data then b'D' else b'T')
                ∷ (space
                    ++ ((if s.segment == 0 then codes "text" else codes "data")
                        ++ (space ++ (print_long s.offset ++ (space ++ print_long s.size))))))))

module _ {F : Type 0} (sink : Sink F) where
  -- The loop that prints a line for each element.
  unfoldable pub print_lines : {A : Type 0} → (A → List ℕ) → List A → F → Option F
  print_lines line [] out = some out
  print_lines line (a ∷ rest) out = do
    out' ← sink.print (line a ++ line_end) out
    print_lines line rest out'

  -- `true` is a file that was written without an error.
  unfoldable pub obj_write : Obj → F → Option F
  unfolding print_lines bss_line symbol_line
  obj_write o out = do
    commented ← sink.print (codes "; symcc object v1" ++ line_end) out
    headed ← sink.print (codes ".text" ++ line_end) commented
    text ← print_lines (λ line. line) o.text_lines headed
    between ← sink.print (codes ".data" ++ line_end) text
    data_end ← print_lines (λ line. line) o.data_lines between
    bss_end ← print_lines bss_line o.bss data_end
    written ← print_lines symbol_line o.syms bss_end
    if sink.error written then none else some written
