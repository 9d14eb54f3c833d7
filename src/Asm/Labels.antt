-- ===== src/Asm/Labels.antt =====
-- The label table of emu/asm.c, in the order of definition.
use linux_0_11_symcc_on_turi.Base.{
  ℕ, ◌^◌, ◌-◌, Bool, true, false, ◌&&◌, ◌||◌, leb, ◌==◌, not, if◌then◌else◌, List, [], ◌∷◌, ◌++◌,
  length, Option, none, some,
}
use linux_0_11_symcc_on_turi.Base.Text.{str_eq}
use linux_0_11_symcc_on_turi.Isa.Encode.{isa_reg_index}
use linux_0_11_symcc_on_turi.Asm.Scan.{is_ident, take}

-- The messages of `set_err`.
pub data Fault : Type 0 where
  bad_label shadows_register too_many_labels out_of_memory undefined_label too_large : Fault
  output_too_large unknown_instruction no_u64 bad_number value_too_large : Fault
  unterminated bad_pad pad_before bad_line : Fault

-- An error carries its line.
pub data Result {ℓ} (A : Type ℓ) : Type ℓ where
  err : ℕ → Fault → Result A
  ok : A → Result A

infixl 5 ◌>>=◌
abbrev pub ◌>>=◌ : {A B : Type 0} → Result A → (A → Result B) → Result B
err l why >>= next = err l why
ok x >>= next = next x

pub record Label : Type 0 where
  pub name : List ℕ
  pub off : ℕ

-- `MAX_LABELS`
abbrev pub max_labels : ℕ
max_labels = 4096

-- The first label of that name.
unfoldable pub find_label : List Label → List ℕ → Option ℕ
find_label [] name = none
find_label (l ∷ labels) name =
    let rest = find_label labels name in if str_eq l.name name then some l.off else rest

-- `UINT32_MAX` stands for none.
unfoldable pub label_off : List Label → List ℕ → ℕ
unfolding find_label
label_off labels name = elim (find_label labels name) [ none ↦ 2 ^ 32 - 1 | some off ↦ off ]

abbrev pub is_some {ℓ} : {A : Type ℓ} → Option A → Bool
is_some none = false
is_some (some a) = true

-- The array is full at 16 labels and at every doubling.
unfoldable pub at_capacity : ℕ → Bool
at_capacity n =
    (n == 0)
    || ((n == 16)
        || ((n == 32)
            || ((n == 64)
                || ((n == 128) || ((n == 256) || ((n == 512) || ((n == 1024) || (n == 2048))))))))

-- `grows n` says whether `realloc` finds room for more than `n` labels. A name is kept to 63 characters.
unfoldable pub add_label : (ℕ → Bool) → List Label → List ℕ → ℕ → ℕ → Result (List Label)
unfolding find_label at_capacity
add_label grows labels name off lineno =
    if not (is_ident name)
    then err lineno bad_label
    else if is_some (isa_reg_index name)
    then err lineno shadows_register
    else if is_some (find_label labels name)
    then ok labels
    else if leb max_labels (length labels)
    then err lineno too_many_labels
    else if at_capacity (length labels) && not (grows (length labels))
    then err lineno out_of_memory
    else ok (labels ++ (record { name = take 63 name; off = off } ∷ []))
