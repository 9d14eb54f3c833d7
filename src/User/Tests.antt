-- ===== src/User/Tests.antt =====
-- Texts of numbers for user/native/convert.c, and a copy and a search by user/native/string.c.
use linux_0_11_symcc_on_turi.Base.{
  ℕ, ◌+◌, ◌<◌, ◌≤◌, ◌⊎◌, ◌≡◌, refl, arith, true, inl, All, some, ltb, if◌then◌else◌,
}
use linux_0_11_symcc_on_turi.Base.Word.{sub32}
use linux_0_11_symcc_on_turi.Base.Text.{codes}
use linux_0_11_symcc_on_turi.User.Convert.{
  erange_set, unset, limit_of, number, digits, conclude, based, has_prefix, skip_space, digit_of,
  is_digit, is_alpha, is_space, is_xdigit, to_lower,
}
use linux_0_11_symcc_on_turi.User.Copy.{memmove, memmove_lem}
use linux_0_11_symcc_on_turi.User.Search.{IsChar, First, strncmp, strstr, strstr-First}
use linux_0_11_symcc_on_turi.User.Value.{written, is_minus, unsigned_text, number_lem}

hex_text : (number (codes " -0x1Fz") 0 true).result ≡ 0xFFFFFFE1
unfolding number digits conclude based has_prefix skip_space digit_of is_digit is_alpha is_space
    is_xdigit to_lower
hex_text = refl

number_lem_example :
    let text = codes " -0x1Fz" in
    let neg = is_minus text in
    let from = based 0 (unsigned_text text) in
    let n = written from.0 0 from.1 in
    let limit = limit_of true neg in
    let r = number text 0 true in
    (r.result ≡ (if ltb limit n then limit else if neg then sub32 0 n else n))
    × (r.errno ≡ (if ltb limit n then erange_set else unset))
number_lem_example = number_lem (codes " -0x1Fz") 0 true (inl refl)

-- Two overlapping areas.
memmove_lem_example :
    ((i : ℕ) → i < 4 → memmove (λ a. a) 3 1 4 (3 + i) ≡ 1 + i)
    × ((a : ℕ) → (a < 3) ⊎ (3 + 4 ≤ a) → memmove (λ a. a) 3 1 4 a ≡ a)
memmove_lem_example = memmove_lem (λ a. a) 3 1 4

lake : All IsChar (codes "lake")
lake = (
  (omega arith, omega arith),
  ((omega arith, omega arith), ((omega arith, omega arith), ((omega arith, omega arith), tt))),
)

ke : All IsChar (codes "ke")
ke = ((omega arith, omega arith), ((omega arith, omega arith), tt))

found_ke : strstr (codes "lake") (codes "ke") ≡ some (codes "ke")
unfolding strstr strncmp
found_ke = refl

strstr-First_example : First (codes "lake") (codes "ke") (strstr (codes "lake") (codes "ke"))
strstr-First_example = strstr-First (codes "lake") (codes "ke") lake ke
