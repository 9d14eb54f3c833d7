-- ===== src/Base/Word.antt =====
-- C's fixed-width unsigned arithmetic on numbers: wrap by `%`, shift by `*` and `/`. A value of
-- type `int` is its 32-bit pattern, and what C reads through the sign is written out here.
use Prim.Native.Nat.{ℕ, ◌+◌, ◌-◌, ◌*◌, ◌/◌, ◌%◌, ◌^◌}
use mathlib.Core.Bool.{Bool, true, false}
use linux_0_11_symcc_on_turi.Base.Tests.{ltb, leb, if◌then◌else◌}

abbrev pub u8 : ℕ → ℕ
u8 x = x % 2 ^ 8

abbrev pub u16 : ℕ → ℕ
u16 x = x % 2 ^ 16

abbrev pub u32 : ℕ → ℕ
u32 x = x % 2 ^ 32

abbrev pub u64 : ℕ → ℕ
u64 x = x % 2 ^ 64

infixl 75 ◌<<◌ ◌>>◌
abbrev pub ◌<<◌ : ℕ → ℕ → ℕ
x << k = x * 2 ^ k

abbrev pub ◌>>◌ : ℕ → ℕ → ℕ
x >> k = x / 2 ^ k

-- `a - b` on uint32_t: the modulus is added first, since `-` on ℕ stops at 0.
abbrev pub sub32 : ℕ → ℕ → ℕ
sub32 a b = u32 (a + 2 ^ 32 - b)

-- `~a` on uint32_t.
abbrev pub not32 : ℕ → ℕ
not32 a = 2 ^ 32 - 1 - a

-- The sign bit of an int32_t.
abbrev pub is_neg : ℕ → Bool
is_neg a = leb (2 ^ 31) a

-- `(int32_t)a < (int32_t)b`: where the signs differ the negative one is less.
abbrev pub slt : ℕ → ℕ → Bool
slt a b =
    if is_neg a then (if is_neg b then ltb a b else true) else (if is_neg b then false else ltb a b)

-- `(int32_t)a >> s`: gcc shifts copies of the sign bit in.
abbrev pub asr : ℕ → ℕ → ℕ
asr a s = if is_neg a then not32 (not32 a >> s) else a >> s
