-- ===== src/Symcc/Image/Tests.antt =====
-- An image of two objects, laid out as by symcc/src/link_image.c.
use linux_0_11_symcc_on_turi.Base.{◌≡◌, refl, arith, Bool, true, false, [], ◌∷◌, Option, none, some}
use linux_0_11_symcc_on_turi.Base.Int.{pos}
use linux_0_11_symcc_on_turi.Base.Text.{codes}
use linux_0_11_symcc_on_turi.Symcc.Object.Lines.{starts_with, obj_line_size}
use linux_0_11_symcc_on_turi.Symcc.Object.Model.{Obj}
use linux_0_11_symcc_on_turi.Symcc.Image.Layout.{LinkOptions, ImageLayout, layout_image}
use linux_0_11_symcc_on_turi.Symcc.Image.Placed.{Placed, layout_image-Placed}

abbrev user_options : LinkOptions
user_options = record { is_user = true; base = 4096; limit = 65536; syscall_gate = 48 }

-- The start code, and an object with one function, a number and a buffer of 64 bytes.
abbrev start_object : Obj
start_object = record {
  text_lines = codes "_start:" ∷ codes "  call main" ∷ [];
  data_lines = [];
  text_capacity = 64;
  data_capacity = 0;
  bss = [];
  syms = [];
}

abbrev main_object : Obj
main_object = record {
  text_lines = codes "main:" ∷ codes "  ret" ∷ [];
  data_lines = codes "n:" ∷ codes "  U32 7" ∷ [];
  text_capacity = 64;
  data_capacity = 64;
  bss = record { name = codes "buf"; size = pos 64 } ∷ [];
  syms = [];
}

abbrev result_or : Option ImageLayout → ImageLayout → ImageLayout
result_or none d = d
result_or (some r) d = r

abbrev no_layout : ImageLayout
no_layout = record { syms = []; loaded = 0; bss = 0; bss_end = 0 }

abbrev small_layout : ImageLayout
small_layout = result_or (layout_image user_options (start_object ∷ main_object ∷ [])) no_layout

abbrev is_some_layout : Option ImageLayout → Bool
is_some_layout none = false
is_some_layout (some r) = true

some_layout : (o : Option ImageLayout) → is_some_layout o ≡ true → o ≡ some (result_or o no_layout)
some_layout none e = absurd (ground (arith, e))
some_layout (some r) e = refl

laid_out : is_some_layout (layout_image user_options (start_object ∷ main_object ∷ [])) ≡ true
unfolding layout_image starts_with obj_line_size
laid_out = refl

layout_image-Placed_example : Placed user_options (start_object ∷ main_object ∷ []) small_layout
layout_image-Placed_example =
    layout_image-Placed user_options (start_object ∷ main_object ∷ []) small_layout (omega arith)
      (some_layout (layout_image user_options (start_object ∷ main_object ∷ [])) laid_out)
