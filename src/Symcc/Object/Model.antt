-- ===== src/Symcc/Object/Model.antt =====
-- `Obj` of symcc/src/obj.h and the functions of obj.c that build it up. A list is in the order of the pointers.
use linux_0_11_symcc_on_turi.Base.{ℕ, ◌*◌, Bool, ◌==◌, if◌then◌else◌, List, [], ◌∷◌, ◌++◌, length}
use linux_0_11_symcc_on_turi.Base.Int.{ℤ}

pub record ObjSymbol : Type 0 where
  pub name : List ℕ
  pub len : ℕ
  pub is_data : Bool
  pub segment : ℕ
  pub offset : ℤ
  pub size : ℤ

pub record ObjBss : Type 0 where
  pub name : List ℕ
  pub size : ℤ

-- `n_text` and `n_data` are the lengths of the lists.
pub record Obj : Type 0 where
  pub text_lines : List (List ℕ)
  pub data_lines : List (List ℕ)
  pub text_capacity : ℕ
  pub data_capacity : ℕ
  pub bss : List ObjBss
  pub syms : List ObjSymbol

unfoldable pub obj_new : Obj
obj_new = record {
  text_lines = [];
  data_lines = [];
  text_capacity = 0;
  data_capacity = 0;
  bss = [];
  syms = [];
}

-- `add_line`: the lines with one more at the end, and the capacity that they then have.
unfoldable pub line_capacity : ℕ → ℕ → ℕ
line_capacity n capacity =
    if n == capacity then (if capacity == 0 then 64 else capacity * 2) else capacity

unfoldable pub obj_add_text : Obj → List ℕ → Obj
unfolding line_capacity
obj_add_text o line = record o {
  text_lines = o.text_lines ++ (line ∷ []);
  text_capacity = line_capacity (length o.text_lines) o.text_capacity;
}

unfoldable pub obj_add_data : Obj → List ℕ → Obj
unfolding line_capacity
obj_add_data o line = record o {
  data_lines = o.data_lines ++ (line ∷ []);
  data_capacity = line_capacity (length o.data_lines) o.data_capacity;
}

unfoldable pub obj_add_symbol : Obj → List ℕ → Bool → ℕ → ℤ → ℤ → Obj
obj_add_symbol o name is_data segment offset size = record o {
  syms =
      record {
        name = name;
        len = length name;
        is_data = is_data;
        segment = segment;
        offset = offset;
        size = size;
      }
      ∷ o.syms;
}

unfoldable pub obj_add_bss : Obj → List ℕ → ℤ → Obj
obj_add_bss o name size = record o { bss = record { name = name; size = size } ∷ o.bss }
