-- ===== src/Base/Bits/Step.antt =====
-- The native bit operations are a recursion on binary digits with fuel; without the fuel each
-- is one equation for the lowest digit.
use Prim.Native.Nat.{
  ℕ, zero, suc, ◌+◌, ◌*◌, ◌/◌, ◌%◌, ◌≤◌, min, max, differ, bit_and, bit_or, bit_xor,
}
use Prim.Native.Nat.{digits, bitwise, bit_and-bitwise, bit_or-bitwise, bit_xor-bitwise}
use mathlib.Core.Path.{◌≡◌, refl, sym, ◌∙◌}
use native.Mathlib.Omega.{arith}

-- An operation `f` on digits, and what it leaves of the second number when the first has run out.
module _ (rest : ℕ → ℕ) (f : ℕ → ℕ → ℕ) where
  run_out : (n b : ℕ) → digits rest f n zero b ≡ rest b
  run_out zero b = refl
  run_out (suc n) b = refl

  -- Any two amounts of fuel that suffice give one result.
  digits-digits : (n m a b : ℕ) → a ≤ n → a ≤ m → digits rest f n a b ≡ digits rest f m a b
  digits-digits n m zero b h k = run_out n b ∙ sym (run_out m b)
  digits-digits zero m (suc a) b h k = absurd (omega arith)
  digits-digits (suc n) zero (suc a) b h k = absurd (omega arith)
  digits-digits (suc n) (suc m) (suc a) b h k =
      omega (arith, digits-digits n m (suc a / 2) (b / 2) (omega arith) (omega arith))

  -- The law of the lowest digit, where `rest` obeys it too.
  bitwise_step :
      ((b : ℕ) → rest b ≡ rest (b / 2) * 2 + f 0 (b % 2))
      → (a b : ℕ) → bitwise rest f a b ≡ bitwise rest f (a / 2) (b / 2) * 2 + f (a % 2) (b % 2)
  bitwise_step law zero b = law b
  bitwise_step law (suc a) b =
      omega (arith, digits-digits a (suc a / 2) (suc a / 2) (b / 2) (omega arith) (omega arith))

pub bit_or_step : (a b : ℕ) → bit_or a b ≡ bit_or (a / 2) (b / 2) * 2 + max (a % 2) (b % 2)
bit_or_step a b = simp bit_or-bitwise (bitwise_step (λ c. c) max (λ c. omega arith) a b)

pub bit_and_step : (a b : ℕ) → bit_and a b ≡ bit_and (a / 2) (b / 2) * 2 + min (a % 2) (b % 2)
bit_and_step a b = simp bit_and-bitwise (bitwise_step (λ c. 0) min (λ c. omega arith) a b)

pub bit_xor_step : (a b : ℕ) → bit_xor a b ≡ bit_xor (a / 2) (b / 2) * 2 + differ (a % 2) (b % 2)
bit_xor_step a b = simp bit_xor-bitwise (bitwise_step (λ c. c) differ (λ c. omega arith) a b)

pub differ-le-one : (a b : ℕ) → a ≤ 1 → b ≤ 1 → differ a b ≤ 1
differ-le-one zero b h k = k
differ-le-one (suc a) zero h k = h
differ-le-one (suc zero) (suc b) h k = omega arith
differ-le-one (suc (suc a)) (suc b) h k = absurd (omega arith)
