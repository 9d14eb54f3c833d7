-- ===== src/Runtime/Divide.antt =====
-- Signed division on hardware that divides unsigned: runtime/divsi3.c. An `int` is its 32-bit pattern;
-- the hardware's `/` and `%` by 0 give 0 (emu/emu.c, opcodes 0x2C and 0x2D).
use linux_0_11_symcc_on_turi.Base.{
  ℕ, zero, suc, ◌+◌, ◌-◌, ◌*◌, ◌/◌, ◌%◌, ◌^◌, ◌<◌, ◌≤◌, ◌≡◌, ◌≢◌, refl, arith, Bool, true, false,
  not, ltb, lt→ltb, if◌then◌else◌, ◌⊎◌, inl, inr,
}
use native.Mathlib.Nat.{le_trans, div-le_self, mul-le-mul_left, div-mul-le_self, mod-lt}
use linux_0_11_symcc_on_turi.Base.Int.{ℤ, pos, negsuc, pos_part, neg_part}
use linux_0_11_symcc_on_turi.Base.Word.{sub32, is_neg}
use linux_0_11_symcc_on_turi.Emu.Decode.{div, modulo}
use linux_0_11_symcc_on_turi.Emu.Exec.{alu}

-- `ua = a; if (a < 0) ua = 0 - ua;`
unfoldable pub magnitude : ℕ → ℕ
magnitude a = if is_neg a then sub32 0 a else a

unfoldable pub divsi3 : ℕ → ℕ → ℕ
unfolding magnitude
divsi3 a b =
    let q = alu div (magnitude a) (magnitude b) in
    if is_neg a then (if is_neg b then q else sub32 0 q) else (if is_neg b then sub32 0 q else q)

unfoldable pub modsi3 : ℕ → ℕ → ℕ
unfolding magnitude
modsi3 a b = let r = alu modulo (magnitude a) (magnitude b) in if is_neg a then sub32 0 r else r

-- The integer that a 32-bit pattern stands for.
abbrev pub signed : ℕ → ℤ
signed w = if ltb w (2 ^ 31) then pos w else negsuc (2 ^ 32 - w - 1)

-- The absolute value of an integer.
abbrev pub abs : ℤ → ℕ
abs z = pos_part z + neg_part z

-- C's quotient truncates towards zero: the magnitudes are divided, and the sign is that of the exact
-- quotient. A result of zero has no sign.
abbrev pub with_sign : Bool → ℕ → ℤ
with_sign false n = pos n
with_sign true zero = pos 0
with_sign true (suc n) = negsuc n

abbrev pub negative : ℤ → Bool
negative (pos n) = false
negative (negsuc n) = true

abbrev pub differ : Bool → Bool → Bool
differ true b = not b
differ false b = b

-- The magnitude of the pattern is the absolute value of the integer, also for the least one.
magnitude-abs : (a : ℕ) → a < 2 ^ 32 → magnitude a ≡ abs (signed a)
unfolding magnitude
magnitude-abs a h = ground arith

signed-neg : (q : ℕ) → q ≤ 2 ^ 31 → signed (sub32 0 q) ≡ with_sign true q
signed-neg zero h = refl
signed-neg (suc q) h = ground arith

quotient-le : (x y : ℕ) → x ≤ 2 ^ 31 → x / y ≤ 2 ^ 31
quotient-le x y h = le_trans (div-le_self x y) h

negative-signed : (a : ℕ) → a < 2 ^ 32 → negative (signed a) ≡ is_neg a
negative-signed a h = ground arith

magnitude-le : (a : ℕ) → a < 2 ^ 32 → magnitude a ≤ 2 ^ 31
unfolding magnitude
magnitude-le a h = ground arith

magnitude-pos : (b : ℕ) → b < 2 ^ 32 → b ≢ 0 → 0 < magnitude b
unfolding magnitude
magnitude-pos b h ne = ground arith

div_by : (x y : ℕ) → 0 < y → alu div x y ≡ x / y
unfolding alu
div_by x y h = ground arith

signed_quotient :
    (na nb : Bool) (q : ℕ)
    → q ≤ 2 ^ 31
    → (na ≡ nb → q < 2 ^ 31)
    → signed (if na then (if nb then q else sub32 0 q) else (if nb then sub32 0 q else q))
      ≡ with_sign (differ na nb) q
signed_quotient true true q h k = rw (lt→ltb q (2 ^ 31) (k refl))
signed_quotient true false q h k = signed-neg q h
signed_quotient false true q h k = signed-neg q h
signed_quotient false false q h k = rw (lt→ltb q (2 ^ 31) (k refl))

-- Dividing by two or more at least halves.
quotient-half : (x y : ℕ) → 2 ≤ y → x / y * 2 ≤ x
quotient-half x y h = le_trans (mul-le-mul_left (x / y) h) (div-mul-le_self x y)

quotient-lt :
    (a b : ℕ)
    → a < 2 ^ 32
    → b < 2 ^ 32
    → b ≢ 0
    → (a ≢ 2 ^ 31) ⊎ (b ≢ 2 ^ 32 - 1)
    → is_neg a ≡ is_neg b
    → magnitude a / magnitude b < 2 ^ 31
quotient-lt a b h k ne fits e = elim (small a b h k ne fits e) [
  | inl less ↦ omega (arith, div-le_self (magnitude a) (magnitude b))
  | inr two ↦ omega (arith, quotient-half (magnitude a) (magnitude b) two, magnitude-le a h)
]
  where
    small :
        (c d : ℕ)
        → c < 2 ^ 32
        → d < 2 ^ 32
        → d ≢ 0
        → (c ≢ 2 ^ 31) ⊎ (d ≢ 2 ^ 32 - 1)
        → is_neg c ≡ is_neg d
        → (magnitude c < 2 ^ 31) ⊎ (2 ≤ magnitude d)
    small c d p q r f g = unfold magnitude in ground arith

-- For a divisor other than 0, and but for the least integer divided by -1, the quotient that
-- `__divsi3` returns is that of C: the quotient of the absolute values, negative exactly when it is not
-- zero and the operands' signs differ.
pub divsi3_lem :
    (a b : ℕ)
    → a < 2 ^ 32
    → b < 2 ^ 32
    → b ≢ 0
    → (a ≢ 2 ^ 31) ⊎ (b ≢ 2 ^ 32 - 1)
    → signed (divsi3 a b)
      ≡ with_sign
          (differ (negative (signed a)) (negative (signed b)))
          (abs (signed a) / abs (signed b))
unfolding divsi3
divsi3_lem a b h k nonzero fits =
    rw (negative-signed a h, negative-signed b k, ← (magnitude-abs a h), ← (magnitude-abs b k))
      (rw (div_by (magnitude a) (magnitude b) (magnitude-pos b k nonzero)) (
        signed_quotient (is_neg a) (is_neg b) (magnitude a / magnitude b)
          (quotient-le (magnitude a) (magnitude b) (magnitude-le a h))
          (quotient-lt a b h k nonzero fits)))

modulo_by : (x y : ℕ) → 0 < y → alu modulo x y ≡ x % y
unfolding alu
modulo_by x y h = ground arith

signed_rest :
    (na : Bool) (r : ℕ) → r < 2 ^ 31 → signed (if na then sub32 0 r else r) ≡ with_sign na r
signed_rest true r h = signed-neg r (omega arith)
signed_rest false r h = rw (lt→ltb r (2 ^ 31) h)

rest-lt : (a b : ℕ) → b < 2 ^ 32 → b ≢ 0 → magnitude a % magnitude b < 2 ^ 31
rest-lt a b h nonzero =
    omega (arith, mod-lt (magnitude a) (magnitude-pos b h nonzero), magnitude-le b h)

-- For a divisor other than 0, the remainder that `__modsi3` returns is that of C: the remainder of the
-- absolute values, with the sign of the dividend if it is not zero.
pub modsi3_lem :
    (a b : ℕ)
    → a < 2 ^ 32
    → b < 2 ^ 32
    → b ≢ 0
    → signed (modsi3 a b) ≡ with_sign (negative (signed a)) (abs (signed a) % abs (signed b))
unfolding modsi3
modsi3_lem a b h k nonzero =
    rw (negative-signed a h, ← (magnitude-abs a h), ← (magnitude-abs b k))
      (rw (modulo_by (magnitude a) (magnitude b) (magnitude-pos b k nonzero))
        (signed_rest (is_neg a) (magnitude a % magnitude b) (rest-lt a b k nonzero)))
