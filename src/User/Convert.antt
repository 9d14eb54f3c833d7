-- ===== src/User/Convert.antt =====
-- Numbers in text: `number` of user/native/convert.c, with the character tests of user/native/string.c. A
-- string is the list of its characters, and what is read behind it is its final NUL.
use linux_0_11_symcc_on_turi.Base.{
  ℕ, ◌+◌, ◌-◌, ◌*◌, ◌/◌, ◌^◌, Bool, true, false, not, ◌&&◌, ◌||◌, ltb, leb, ◌==◌, if◌then◌else◌,
  List, [], ◌∷◌, get_or,
}
use linux_0_11_symcc_on_turi.Base.Word.{u32, sub32}

unfoldable pub is_digit : ℕ → Bool
is_digit c = leb 48 c && leb c 57

unfoldable pub is_alpha : ℕ → Bool
is_alpha c = (leb 97 c && leb c 122) || (leb 65 c && leb c 90)

unfoldable pub is_space : ℕ → Bool
is_space c = (c == 32) || (leb 9 c && leb c 13)

unfoldable pub is_xdigit : ℕ → Bool
unfolding is_digit
is_xdigit c = is_digit c || ((leb 97 c && leb c 102) || (leb 65 c && leb c 70))

unfoldable pub to_lower : ℕ → ℕ
to_lower c = if leb 65 c && leb c 90 then c + 32 else c

-- The value of a character as a digit; 99 is none.
unfoldable pub digit_of : ℕ → ℕ
unfolding is_digit is_alpha to_lower
digit_of c = if is_digit c then c - 48 else if is_alpha c then to_lower c - 97 + 10 else 99

unfoldable pub skip_space : List ℕ → List ℕ
unfolding is_space
skip_space [] = []
skip_space (c ∷ s) = let rest = skip_space s in if is_space c then rest else c ∷ s

-- What the loop over the digits leaves: `value`, `overflow`, `any` and `s`.
pub record Digits : Type 0 where
  pub value : ℕ
  pub overflow : Bool
  pub any : Bool
  pub rest : List ℕ

unfoldable pub digits : ℕ → ℕ → ℕ → Bool → Bool → List ℕ → Digits
unfolding digit_of
digits base limit value overflow any [] = record {
  value = value;
  overflow = overflow;
  any = any;
  rest = [];
}
digits base limit value overflow any (c ∷ s) =
    let over = ltb ((limit - digit_of c) / base) value in
    let further =
      digits base limit (if over || overflow then value else u32 (value * base + digit_of c))
        (over || overflow) true s in
    if leb base (digit_of c)
    then record { value = value; overflow = overflow; any = any; rest = c ∷ s }
    else further

-- `errno`, the result and `*end`.
pub data Errno : Type 0 where
  unset einval_set erange_set : Errno

pub record Number : Type 0 where
  pub errno : Errno
  pub result : ℕ
  pub end : List ℕ

unfoldable pub has_prefix : ℕ → List ℕ → Bool
unfolding is_xdigit
has_prefix base s =
    ((base == 0) || (base == 16))
    && ((get_or s 0 0 == 48)
        && (((get_or s 1 0 == 120) || (get_or s 1 0 == 88)) && is_xdigit (get_or s 2 0)))

abbrev pub drop_one : List ℕ → List ℕ
drop_one [] = []
drop_one (c ∷ s) = s

-- The base that the text asks for, and the text behind `0x`.
unfoldable pub based : ℕ → List ℕ → ℕ × List ℕ
unfolding has_prefix
based base s =
    if has_prefix base s
    then (16, drop_one (drop_one s))
    else (if base == 0 then (if get_or s 0 0 == 48 then 8 else 10) else base, s)

-- After the loop, with the sign.
unfoldable pub conclude : List ℕ → Bool → ℕ → Digits → Number
conclude text neg limit d =
    let end = if d.any then d.rest else text in
    if d.overflow
    then record { errno = erange_set; result = limit; end = end }
    else record { errno = unset; result = if neg then sub32 0 d.value else d.value; end = end }

abbrev pub limit_of : Bool → Bool → ℕ
limit_of true neg = if neg then 0x80000000 else 0x7fffffff
limit_of false neg = 2 ^ 32 - 1

unfoldable pub number : List ℕ → ℕ → Bool → Number
unfolding skip_space based digits conclude
number text base sign =
    let s = skip_space text in
    let neg = get_or s 0 0 == 45 in
    let s' = if neg || (get_or s 0 0 == 43) then drop_one s else s in
    if not (base == 0) && (ltb base 2 || ltb 36 base)
    then record { errno = einval_set; result = 0; end = text }
    else (let (b, from) = based base s' in
        conclude text neg (limit_of sign neg) (digits b (limit_of sign neg) 0 false false from))
