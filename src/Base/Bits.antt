-- ===== src/Base/Bits.antt =====
-- The bit operations on numbers of any width: bounds, and the writing of a field that is clear.
mod Step
use Step.{bit_or_step, bit_and_step, bit_xor_step, differ-le-one}
use Prim.Native.Nat.{ℕ, zero, suc, ◌+◌, ◌-◌, ◌*◌, ◌/◌, ◌%◌, ◌^◌, ◌≤◌, ◌<◌, bit_and, bit_or, bit_xor}
use mathlib.Core.Path.{◌≡◌, refl, ap, sym, ◌∙◌}
use native.Mathlib.Nat.{
  pow-suc, one-le-pow, mul-one, mul_comm, div-one, div-add-mod', div-div-eq-div-mul, mod-lt,
  mod-eq_of_lt, mul-add-mod_self_right,
}
use native.Mathlib.Omega.{arith}

pub bit_or-lt : (k a b : ℕ) → a < 2 ^ k → b < 2 ^ k → bit_or a b < 2 ^ k
bit_or-lt zero zero zero p q = omega arith
bit_or-lt zero (suc a) b p q = absurd (omega arith)
bit_or-lt zero a (suc b) p q = absurd (omega arith)
bit_or-lt (suc k) a b p q =
    let h : 2 ^ suc k ≡ 2 ^ k * 2 = pow-suc 2 k in
    omega (arith, bit_or_step a b, bit_or-lt k (a / 2) (b / 2) (omega arith) (omega arith))

pub bit_xor-lt : (k a b : ℕ) → a < 2 ^ k → b < 2 ^ k → bit_xor a b < 2 ^ k
bit_xor-lt zero zero zero p q = omega arith
bit_xor-lt zero (suc a) b p q = absurd (omega arith)
bit_xor-lt zero a (suc b) p q = absurd (omega arith)
bit_xor-lt (suc k) a b p q =
    let h : 2 ^ suc k ≡ 2 ^ k * 2 = pow-suc 2 k in
    omega (
      arith,
      bit_xor_step a b,
      differ-le-one (a % 2) (b % 2) (omega arith) (omega arith),
      bit_xor-lt k (a / 2) (b / 2) (omega arith) (omega arith),
    )

bit_and-zero : (n a : ℕ) → a ≤ n → bit_and a 0 ≡ 0
bit_and-zero n zero h = refl
bit_and-zero zero (suc a) h = absurd (omega arith)
bit_and-zero (suc n) (suc a) h =
    omega (arith, bit_and_step (suc a) 0, bit_and-zero n (suc a / 2) (omega arith))

-- `&` is bounded by either operand alone.
pub bit_and-lt : (k a b : ℕ) → b < 2 ^ k → bit_and a b < 2 ^ k
bit_and-lt zero a zero q = omega (arith, bit_and-zero a a (omega arith))
bit_and-lt zero a (suc b) q = absurd (omega arith)
bit_and-lt (suc k) a b q =
    let h : 2 ^ suc k ≡ 2 ^ k * 2 = pow-suc 2 k in
    omega (arith, bit_and_step a b, bit_and-lt k (a / 2) (b / 2) (omega arith))

pub bit_or-zero : (n a : ℕ) → a ≤ n → bit_or a 0 ≡ a
bit_or-zero n zero h = refl
bit_or-zero zero (suc a) h = absurd (omega arith)
bit_or-zero (suc n) (suc a) h =
    omega (arith, bit_or_step (suc a) 0, bit_or-zero n (suc a / 2) (omega arith))

remainder_zero : (x m : ℕ) → x % m ≡ 0 → x / m * m ≡ x
remainder_zero x m e = omega (arith, div-add-mod' x m)

half : (n m : ℕ) → n ≡ m * 2 → n / 2 ≡ m
half n m e = omega arith

-- `q << k | v` is a sum where `v` fits the `k` bits that the shift has cleared.
pub bit_or_low : (k q v : ℕ) → v < 2 ^ k → bit_or (q * 2 ^ k) v ≡ q * 2 ^ k + v
bit_or_low zero q zero h = bit_or-zero (q * 1) (q * 1) (omega arith) ∙ omega arith
bit_or_low zero q (suc v) h = absurd (omega arith)
bit_or_low (suc k) q v h =
    let two : 2 ^ suc k ≡ 2 ^ k * 2 = pow-suc 2 k in
    let shifted : q * 2 ^ suc k ≡ q * 2 ^ k * 2 = omega (arith, ap (λ (t : ℕ). q * t) two) in
    omega (
      arith,
      bit_or_step (q * 2 ^ suc k) v,
      bit_or_low k q (v / 2) (omega arith),
      ap (λ (t : ℕ). bit_or t (v / 2)) (half (q * 2 ^ suc k) (q * 2 ^ k) shifted),
    )

-- `x | v << k` where the bits of `x` from `k` on are clear up to what `v` needs.
pub bit_or_field :
    (k w x v : ℕ) → x / 2 ^ k % 2 ^ w ≡ 0 → v < 2 ^ w → bit_or x (v * 2 ^ k) ≡ x + v * 2 ^ k
bit_or_field zero w x v e h =
    let whole : x / 2 ^ w * 2 ^ w ≡ x = remainder_zero x (2 ^ w) (rw div-one at e) in
    let sum : bit_or (x / 2 ^ w * 2 ^ w) v ≡ x / 2 ^ w * 2 ^ w + v = bit_or_low w (x / 2 ^ w) v h in
    rw (mul-one v) (rw whole at sum)
bit_or_field (suc k) w x v e h =
    let two : 2 ^ suc k ≡ 2 ^ k * 2 = pow-suc 2 k in
    let shifted : v * 2 ^ suc k ≡ v * 2 ^ k * 2 = omega (arith, ap (λ (t : ℕ). v * t) two) in
    let clear : x / 2 / 2 ^ k % 2 ^ w ≡ 0 =
      rw (div-div-eq-div-mul x 2 (2 ^ k), mul_comm 2 (2 ^ k)) (rw two at e) in
    rw shifted (
      omega (
        arith,
        bit_or_step x (v * 2 ^ k * 2),
        ap (λ (t : ℕ). bit_or (x / 2) t) (half (v * 2 ^ k * 2) (v * 2 ^ k) refl),
        bit_or_field k w (x / 2) v clear h,
      ))

-- `& (2 ^ k - 1)` keeps the low `k` bits.
pub bit_and_mask : (k x : ℕ) → bit_and x (2 ^ k - 1) ≡ x % 2 ^ k
bit_and_mask zero x = omega (arith, bit_and-zero x x (omega arith))
bit_and_mask (suc k) x =
    let two : 2 ^ suc k ≡ 2 ^ k * 2 = pow-suc 2 k in
    let pos : 1 ≤ 2 ^ k = one-le-pow k 2 (omega arith) in
    let ones : (2 ^ suc k - 1) / 2 ≡ 2 ^ k - 1 = omega arith in
    let odd : (2 ^ suc k - 1) % 2 ≡ 1 = omega arith in
    let step : bit_and x (2 ^ suc k - 1) ≡ x / 2 % 2 ^ k * 2 + x % 2 = omega (
      arith,
      bit_and_step x (2 ^ suc k - 1),
      ap (λ (t : ℕ). bit_and (x / 2) t) ones,
      bit_and_mask k (x / 2),
    ) in
    let whole : x ≡ x / 2 / 2 ^ k * (2 ^ k * 2) + (x / 2 % 2 ^ k * 2 + x % 2) =
      omega (arith, div-add-mod' (x / 2) (2 ^ k)) in
    let small : x / 2 % 2 ^ k < 2 ^ k = mod-lt (x / 2) pos in
    step
    ∙ rw two (
        sym (
          ap (λ t. t % (2 ^ k * 2)) whole
          ∙ mul-add-mod_self_right (x / 2 / 2 ^ k) (2 ^ k * 2) (x / 2 % 2 ^ k * 2 + x % 2)
          ∙ mod-eq_of_lt (omega arith)))
