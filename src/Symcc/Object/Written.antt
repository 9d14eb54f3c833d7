-- ===== src/Symcc/Object/Written.antt =====
-- What `obj_write` of symcc/src/obj.c writes to a file.
use linux_0_11_symcc_on_turi.Base.{ℕ, ◌≡◌, refl, sym, ◌∙◌, ap, List, [], ◌∷◌, ◌++◌, some}
use mathlib.Core.List.{append_assoc, append-nil}
use linux_0_11_symcc_on_turi.Base.Text.{codes}
use linux_0_11_symcc_on_turi.Symcc.Object.Model.{Obj}
use linux_0_11_symcc_on_turi.Symcc.Object.Write.{bss_line, symbol_line, print_lines, obj_write}
use linux_0_11_symcc_on_turi.Symcc.Object.Reread.{whole_file, with_lines, object_text}

-- What a file that held `out` holds then.
abbrev written : {A : Type 0} → (A → List ℕ) → List A → List ℕ → List ℕ
written line [] out = out
written line (a ∷ l) out = written line l (out ++ (line a ++ (10 ∷ [])))

print_lines-written :
    {A : Type 0} (line : A → List ℕ) (l : List A) (out : List ℕ)
    → print_lines whole_file line l out ≡ some (written line l out)
unfolding print_lines
print_lines-written line [] out = refl
print_lines-written line (a ∷ l) out = print_lines-written line l (out ++ (line a ++ (10 ∷ [])))

written_lines :
    {A : Type 0} (line : A → List ℕ) (l : List A) (out s : List ℕ)
    → written line l out ++ s ≡ out ++ with_lines line l s
written_lines line [] out s = refl
written_lines line (a ∷ l) out s =
    written_lines line l (out ++ (line a ++ (10 ∷ []))) s
    ∙ (append_assoc out (line a ++ (10 ∷ [])) (with_lines line l s)
        ∙ ap (λ t. out ++ t) (append_assoc (line a) (10 ∷ []) (with_lines line l s)))

-- An object is written to a file without an error as its text.
pub obj_write_text : (o : Obj) → obj_write whole_file o [] ≡ some (object_text o)
unfolding obj_write
obj_write_text o =
    let head : List ℕ = codes "; symcc object v1" ++ (10 ∷ (codes ".text" ++ (10 ∷ []))) in
    let text = written (λ line. line) o.text_lines head in
    let data_part = written (λ line. line) o.data_lines (text ++ (codes ".data" ++ (10 ∷ []))) in
    let bss_part = written bss_line o.bss data_part in
    let last = with_lines symbol_line o.syms [] in
    let bss_text = with_lines bss_line o.bss last in
    let data_text = with_lines (λ line. line) o.data_lines bss_text in
    rw
      (
        print_lines-written (λ line. line) o.text_lines head,
        print_lines-written (λ line. line) o.data_lines (text ++ (codes ".data" ++ (10 ∷ []))),
        print_lines-written bss_line o.bss data_part,
        print_lines-written symbol_line o.syms bss_part,
      )
      (ap some (
        sym (append-nil (written symbol_line o.syms bss_part))
        ∙ (written_lines symbol_line o.syms bss_part []
            ∙ (written_lines bss_line o.bss data_part last
                ∙ (written_lines (λ line. line) o.data_lines (text ++ (codes ".data" ++ (10 ∷ [])))
                      bss_text
                    ∙ (append_assoc text (codes ".data" ++ (10 ∷ [])) data_text
                        ∙ written_lines (λ line. line) o.text_lines head
                            (codes ".data" ++ (10 ∷ data_text))))))))
