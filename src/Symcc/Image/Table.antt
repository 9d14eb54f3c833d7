-- ===== src/Symcc/Image/Table.antt =====
-- The symbols of an image, and positions in it: symcc/src/link_image.c.
use linux_0_11_symcc_on_turi.Base.{
  ℕ, ◌+◌, ◌-◌, ◌%◌, Bool, true, false, not, ◌&&◌, ◌||◌, ltb, ◌==◌, if◌then◌else◌, List, [], ◌∷◌,
  ◌++◌, Option, none, some,
}
use linux_0_11_symcc_on_turi.Base.Word.{u32}
use linux_0_11_symcc_on_turi.Base.Int.{ℤ, pos, negsuc}
use linux_0_11_symcc_on_turi.Base.Text.{str_eq}

pub record ImageSym : Type 0 where
  pub name : List ℕ
  pub addr : ℕ
  pub owner : ℕ
  pub is_exported : Bool

-- Of `Image`, what the layout uses.
pub record Image : Type 0 where
  pub syms : List ImageSym
  pub is_failed : Bool

-- `fail`: the link goes on to the next test of `failed`.
abbrev pub fail_image : Image → Image
fail_image im = record im { is_failed = true }

-- `pos` after `bytes`, if they fit below `limit`.
unfoldable pub advance_image : Image → ℕ → ℤ → ℕ → Image × ℕ
advance_image im at (negsuc n) limit = (fail_image im, at)
advance_image im at (pos n) limit =
    if ltb limit at || ltb (limit - at) n then (fail_image im, at) else (im, u32 (at + n))

unfoldable pub align_image : Image → ℕ → ℕ → Image × ℕ
unfolding advance_image
align_image im at limit = advance_image im at (pos ((4 - at % 4) % 4)) limit

-- The test of `add` for one symbol of the table.
abbrev pub is_taken : List ℕ → ℕ → Bool → ImageSym → Bool
is_taken name owner exp s = str_eq s.name name && ((s.owner == owner) || (exp && s.is_exported))

abbrev pub any_sym : (ImageSym → Bool) → List ImageSym → Bool
any_sym test [] = false
any_sym test (s ∷ l) = test s || any_sym test l

unfoldable pub add_sym : Image → List ℕ → ℕ → ℕ → Bool → Image
add_sym im name addr owner exp =
    if any_sym (is_taken name owner exp) im.syms then fail_image im else (record im {
      syms =
          im.syms ++ (record { name = name; addr = addr; owner = owner; is_exported = exp } ∷ []);
    })

unfoldable pub find_sym : (ImageSym → Bool) → List ImageSym → Option ℕ
find_sym test [] = none
find_sym test (s ∷ l) = let rest = find_sym test l in if test s then some s.addr else rest

-- A name that is not a number: the owner's symbol before an exported one.
unfoldable pub lookup : List ImageSym → List ℕ → ℕ → Option ℕ
unfolding find_sym
lookup syms name owner =
    elim (find_sym (λ s. (s.owner == owner) && str_eq s.name name) syms) as (λ _. Option ℕ) [
      | some a ↦ some a
      | none ↦ find_sym (λ s. s.is_exported && str_eq s.name name) syms
    ]

-- `strtoul` with the base 0 gives the number and the text behind it.
unfoldable pub resolve : (List ℕ → ℕ × List ℕ) → Image → List ℕ → ℕ → Image × ℕ
unfolding lookup
resolve strtoul im name owner =
    let (v, end) = strtoul name in
    if not (str_eq name []) && str_eq end []
    then (im, u32 v)
    else elim (lookup im.syms name owner) as (λ _. Image × ℕ) [
      | some a ↦ (im, a)
      | none ↦ (fail_image im, 0)
    ]
