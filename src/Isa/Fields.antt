-- ===== src/Isa/Fields.antt =====
-- Writing a field of a word by `|` where it is clear: the field reads back, and disjoint fields stay.
use linux_0_11_symcc_on_turi.Base.{
  ℕ, zero, suc, ◌+◌, ◌-◌, ◌*◌, ◌/◌, ◌%◌, ◌^◌, ◌<◌, ◌≤◌, ◌≡◌, arith, ap, sym, ◌∙◌,
}
use native.Mathlib.Nat.{
  pow-suc, pow-zero, pow-le-pow_right, mul-lt-mul_of_pos_right, one-le-pow, mul_assoc, mul-one,
  div-add-mod', add-mul-div_right, div-div-eq-div-mul, mul-add-div_right, div-eq_of_lt, add-zero,
  mod-eq_of_lt, add-suc, mul-add-mod_self_right, add-mul-mod_self_right,
}
use mathlib.Core.Path.{◌≡⟨◌⟩◌, ◌∎}

pow-add : (a b c : ℕ) → a ^ (b + c) ≡ a ^ b * a ^ c
pow-add a b zero = rw (add-zero, pow-zero) (sym (mul-one (a ^ b)))
pow-add a b (suc c) = rw (add-suc b c, pow-suc a (b + c), pow-add a b c, pow-suc a c, mul_assoc)

two-pow-pos : (k : ℕ) → 0 < 2 ^ k
two-pow-pos k = one-le-pow k 2 (omega arith)

-- The bits of `x` from `p` on, `w` of them.
abbrev pub slice : ℕ → ℕ → ℕ → ℕ
slice p w x = x / 2 ^ p % 2 ^ w

-- Where the slice is clear, what lies from `p` on is a multiple of `2 ^ w`.
above_clear : (p w x : ℕ) → slice p w x ≡ 0 → x / 2 ^ p ≡ x / 2 ^ p / 2 ^ w * 2 ^ w
above_clear p w x e = omega (arith, div-add-mod' (x / 2 ^ p) (2 ^ w))

pub slice-add_self : (p w x v : ℕ) → slice p w x ≡ 0 → v < 2 ^ w → slice p w (x + v * 2 ^ p) ≡ v
slice-add_self p w x v e h =
    slice p w (x + v * 2 ^ p)
    ≡⟨ ap (λ t. t % 2 ^ w) (add-mul-div_right x v (two-pow-pos p)) ⟩ (x / 2 ^ p + v) % 2 ^ w
    ≡⟨ ap (λ t. (t + v) % 2 ^ w) (above_clear p w x e) ⟩ (x / 2 ^ p / 2 ^ w * 2 ^ w + v) % 2 ^ w
    ≡⟨ mul-add-mod_self_right (x / 2 ^ p / 2 ^ w) (2 ^ w) v ⟩ v % 2 ^ w
    ≡⟨ mod-eq_of_lt h ⟩ v ∎

-- What lies above the field.
div-add_above :
    (p w x v : ℕ)
    → slice p w x ≡ 0
    → v < 2 ^ w
    → (x + v * 2 ^ p) / 2 ^ p / 2 ^ w ≡ x / 2 ^ p / 2 ^ w
div-add_above p w x v e h =
    (x + v * 2 ^ p) / 2 ^ p / 2 ^ w
    ≡⟨ ap (λ t. t / 2 ^ w) (add-mul-div_right x v (two-pow-pos p)) ⟩ (x / 2 ^ p + v) / 2 ^ w
    ≡⟨ ap (λ t. (t + v) / 2 ^ w) (above_clear p w x e) ⟩ (x / 2 ^ p / 2 ^ w * 2 ^ w + v) / 2 ^ w
    ≡⟨ mul-add-div_right (two-pow-pos w) (x / 2 ^ p / 2 ^ w) v ⟩ x / 2 ^ p / 2 ^ w + v / 2 ^ w
    ≡⟨ omega (arith, div-eq_of_lt h) ⟩ x / 2 ^ p / 2 ^ w ∎

div-pow-add : (x a b c : ℕ) → x / 2 ^ (a + b + c) ≡ x / 2 ^ a / 2 ^ b / 2 ^ c
div-pow-add x a b c =
    rw (pow-add 2 (a + b) c, ← (div-div-eq-div-mul x (2 ^ (a + b)) (2 ^ c)), pow-add 2 a b)
      (rw (← (div-div-eq-div-mul x (2 ^ a) (2 ^ b))))

-- A field above the one that is written.
pub slice-add_above :
    (p w q u x v : ℕ)
    → slice p w x ≡ 0
    → v < 2 ^ w
    → p + w ≤ q
    → slice q u (x + v * 2 ^ p) ≡ slice q u x
slice-add_above p w q u x v e h le =
    let place : q ≡ p + w + (q - (p + w)) = omega arith in
    rw place (
      rw (div-pow-add, div-pow-add)
        (ap (λ t. t / 2 ^ (q - (p + w)) % 2 ^ u) (div-add_above p w x v e h)))

mul-pow-add : (v a b c : ℕ) → v * 2 ^ (a + b + c) ≡ v * 2 ^ a * 2 ^ b * 2 ^ c
mul-pow-add v a b c = rw (pow-add 2 (a + b) c, pow-add 2 a b) (omega arith)

-- A field below the one that is written.
pub slice-add_below : (p q u x v : ℕ) → q + u ≤ p → slice q u (x + v * 2 ^ p) ≡ slice q u x
slice-add_below p q u x v le =
    let e = p - (q + u) in
    let place : p ≡ e + u + q = omega arith in
    let split : v * 2 ^ p ≡ v * 2 ^ e * 2 ^ u * 2 ^ q =
      ap (λ t. v * 2 ^ t) place ∙ mul-pow-add v e u q in
    slice q u (x + v * 2 ^ p)
    ≡⟨ ap (λ t. slice q u (x + t)) split ⟩ slice q u (x + v * 2 ^ e * 2 ^ u * 2 ^ q)
    ≡⟨ ap (λ t. t % 2 ^ u) (add-mul-div_right x (v * 2 ^ e * 2 ^ u) (two-pow-pos q)) ⟩
      (x / 2 ^ q + v * 2 ^ e * 2 ^ u) % 2 ^ u
    ≡⟨ add-mul-mod_self_right (x / 2 ^ q) (v * 2 ^ e) (2 ^ u) ⟩ slice q u x ∎

-- A value of `w` bits shifted by `p` stays within 32.
pub shift-lt : (p w v : ℕ) → p + w ≤ 24 → v < 2 ^ w → v * 2 ^ p < 2 ^ 32
shift-lt p w v fits h =
    let grow : 2 ^ (p + w) ≤ 2 ^ 24 = pow-le-pow_right {n = 2} (omega arith) fits in
    let split : 2 ^ (p + w) ≡ 2 ^ p * 2 ^ w = pow-add 2 p w in
    let product : v * 2 ^ p < 2 ^ w * 2 ^ p = mul-lt-mul_of_pos_right h (two-pow-pos p) in
    omega arith
