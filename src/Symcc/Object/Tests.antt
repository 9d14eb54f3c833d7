-- ===== src/Symcc/Object/Tests.antt =====
-- Lines and objects of symcc/src/obj.c, on examples.
use linux_0_11_symcc_on_turi.Base.{◌≡◌, refl, false, [], ◌∷◌, some}
use linux_0_11_symcc_on_turi.Base.Int.{pos}
use linux_0_11_symcc_on_turi.Base.Text.{codes}
use linux_0_11_symcc_on_turi.Symcc.Object.Lines.{
  trim_last, trim_start, all_ident, label_length, obj_label_name_len, starts_with, index_of,
  instruction_size, size_of, obj_line_size,
}
use linux_0_11_symcc_on_turi.Symcc.Object.Model.{ObjSymbol, Obj}

label_size : obj_line_size (codes "loop:") ≡ some 0
unfolding obj_line_size size_of obj_label_name_len label_length all_ident trim_last trim_start
label_size = refl

call_size : obj_line_size (codes "  call f") ≡ some 20
unfolding obj_line_size size_of obj_label_name_len label_length all_ident trim_last trim_start
    instruction_size starts_with index_of
call_size = refl

string_size : obj_line_size (codes "  \"abc\"") ≡ some 3
unfolding obj_line_size size_of obj_label_name_len label_length all_ident trim_last trim_start
    instruction_size starts_with index_of
string_size = refl

abbrev main_symbol : ObjSymbol
main_symbol = record {
  name = codes "main";
  len = 4;
  is_data = false;
  segment = 0;
  offset = pos 0;
  size = pos 12;
}

-- One function and a variable of 64 bytes.
abbrev small_object : Obj
small_object = record {
  text_lines = codes "main:" ∷ codes "  ret" ∷ [];
  data_lines = codes "\"a;b\"" ∷ [];
  text_capacity = 64;
  data_capacity = 64;
  bss = record { name = codes "buf"; size = pos 64 } ∷ [];
  syms = main_symbol ∷ [];
}
