-- ===== src/User/Value.antt =====
-- What user/native/convert.c reads: the value of the digits, exact up to the limit.
use linux_0_11_symcc_on_turi.Base.{
  ℕ, ◌+◌, ◌-◌, ◌*◌, ◌/◌, ◌^◌, ◌<◌, ◌≤◌, ◌≡◌, ◌⊎◌, refl, sym, ◌∙◌, arith, Bool, true, false, not,
  ◌&&◌, ◌||◌, ltb, leb, ◌==◌, if◌then◌else◌, List, [], ◌∷◌, get_or, Bool-cases, inl, inr, ltb→lt,
  lt→ltb,
}
use native.Mathlib.Nat.{div-lt_iff_lt-mul, le_trans, mul-le-mul_left}
use linux_0_11_symcc_on_turi.Base.Word.{u32, sub32}
use linux_0_11_symcc_on_turi.User.Convert.{
  digit_of, skip_space, Digits, digits, unset, erange_set, number, based, has_prefix, drop_one,
  limit_of, conclude,
}

-- The number that the leading digits write, put behind the digits of `value`.
abbrev pub written : ℕ → ℕ → List ℕ → ℕ
written base value [] = value
written base value (c ∷ s) =
    let further = written base (value * base + digit_of c) s in
    if leb base (digit_of c) then value else further

-- The test for an overflow is exact.
over_iff :
    (base limit value d : ℕ)
    → 0 < base
    → d ≤ limit
    → ltb ((limit - d) / base) value ≡ ltb limit (value * base + d)
over_iff base limit value d pos le = elim (Bool-cases (ltb limit (value * base + d))) [
  | inl e ↦ rw e (lt→ltb _ _ ((div-lt_iff_lt-mul pos).1 (omega (arith, ltb→lt _ _ e))))
  | inr e ↦ rw e (
      not_lt→ltb _ _
        (λ lt. not_both (value * base + d) limit e (omega (arith, (div-lt_iff_lt-mul pos).0 lt))))
]
  where
    not_lt→ltb : (a b : ℕ) → (a < b → ⊥) → ltb a b ≡ false
    not_lt→ltb a b h = ground arith

    not_both : (a b : ℕ) → ltb b a ≡ false → b < a → ⊥
    not_both a b h k = ground arith

written-ge : (base value : ℕ) (s : List ℕ) → 0 < base → value ≤ written base value s
written-ge base value [] pos = omega arith
written-ge base value (c ∷ s) pos = elim (Bool-cases (leb base (digit_of c))) [
  | inl e ↦ rw e (omega arith)
  | inr e ↦ rw e (
      le_trans (grows value base (digit_of c) pos)
        (written-ge base (value * base + digit_of c) s pos))
]
  where
    grows : (v b d : ℕ) → 0 < b → v ≤ v * b + d
    grows v b d h = let more : v * 1 ≤ v * b = mul-le-mul_left v h in omega (arith, more)

-- An overflow is not forgotten.
digits-overflow :
    (base limit value : ℕ) (any : Bool) (s : List ℕ)
    → (digits base limit value true any s).overflow ≡ true
unfolding digits
digits-overflow base limit value any [] = refl
digits-overflow base limit value any (c ∷ s) = elim (Bool-cases (leb base (digit_of c))) [
  | inl e ↦ rw e refl
  | inr e ↦ elim (Bool-cases (ltb ((limit - digit_of c) / base) value)) [
    | inl f ↦ rw (e, f) (digits-overflow base limit value true s)
    | inr f ↦ rw (e, f) (digits-overflow base limit value true s)
  ]
]

no_over : (limit value : ℕ) → value ≤ limit → false ≡ ltb limit value
no_over limit value le = ground arith

below : (base d limit : ℕ) → leb base d ≡ false → base ≤ limit → d ≤ limit
below base d limit e le = ground arith

still_over : (limit a b : ℕ) → ltb limit a ≡ true → a ≤ b → ltb limit b ≡ true
still_over limit a b e le = ground arith

at_most : (a limit : ℕ) → ltb limit a ≡ false → a ≤ limit
at_most a limit e = ground arith

exact : (a limit : ℕ) → ltb limit a ≡ false → limit < 2 ^ 32 → u32 a ≡ a
exact a limit e h = omega (arith, at_most a limit e)

clash : {A : Type 0} {b : Bool} → b ≡ true → b ≡ false → A
clash t f = absurd (ground arith)

digits-written :
    (base limit value : ℕ) (any : Bool) (s : List ℕ)
    → 0 < base
    → base ≤ limit
    → limit < 2 ^ 32
    → value ≤ limit
    → let d = digits base limit value false any s in
      (d.overflow ≡ ltb limit (written base value s))
      × (d.overflow ≡ false → d.value ≡ written base value s)
unfolding digits
digits-written base limit value any [] pos fits small le = (no_over limit value le, λ h. refl)
digits-written base limit value any (c ∷ s) pos fits small le =
    elim (Bool-cases (leb base (digit_of c))) [
      | inl e ↦ rw e (no_over limit value le, λ h. refl)
      | inr e ↦
          let over =
            over_iff base limit value (digit_of c) pos (below base (digit_of c) limit e fits) in
          elim (Bool-cases (ltb limit (value * base + digit_of c))) [
            | inl f ↦
                rw (e, over, f)
                  (
                    digits-overflow base limit value true s
                        ∙ sym (
                            still_over limit (value * base + digit_of c) _ f
                              (written-ge base (value * base + digit_of c) s pos)),
                    λ h. clash (digits-overflow base limit value true s) h,
                  )
            | inr f ↦
                let fine : u32 (value * base + digit_of c) ≡ value * base + digit_of c =
                  exact (value * base + digit_of c) limit f small in
                rw (e, over, f, fine)
                  (digits-written base limit (value * base + digit_of c) true s pos fits small
                    (at_most (value * base + digit_of c) limit f))
          ]
    ]

-- The text behind the white space and the sign, and whether the sign is a minus.
abbrev pub is_minus : List ℕ → Bool
is_minus text = get_or (skip_space text) 0 0 == 45

abbrev pub unsigned_text : List ℕ → List ℕ
unsigned_text text =
    let s = skip_space text in if is_minus text || (get_or s 0 0 == 43) then drop_one s else s

valid_base :
    (base : ℕ)
    → (base ≡ 0) ⊎ ((2 ≤ base) × (base ≤ 36))
    → (not (base == 0) && (ltb base 2 || ltb 36 base)) ≡ false
valid_base base h = ground arith

based-range :
    (base : ℕ) (s : List ℕ)
    → (base ≡ 0) ⊎ ((2 ≤ base) × (base ≤ 36))
    → (0 < (based base s).0) × ((based base s).0 ≤ 36)
unfolding based
based-range base s h = elim (Bool-cases (has_prefix base s)) [
  | inl e ↦ rw e (omega arith, omega arith)
  | inr e ↦ rw e (elim (Bool-cases (get_or s 0 0 == 48)) [
    | inl f ↦ rw f (ground arith, ground arith)
    | inr f ↦ rw f (ground arith, ground arith)
  ])
]

limit-range : (sign neg : Bool) → (36 ≤ limit_of sign neg) × (limit_of sign neg < 2 ^ 32)
limit-range true true = (omega arith, omega arith)
limit-range true false = (omega arith, omega arith)
limit-range false neg = (omega arith, omega arith)

conclude_lem :
    (text : List ℕ) (neg : Bool) (limit : ℕ) (d : Digits) (n : ℕ)
    → d.overflow ≡ ltb limit n
    → (d.overflow ≡ false → d.value ≡ n)
    → ((conclude text neg limit d).result
        ≡ (if ltb limit n then limit else if neg then sub32 0 n else n))
      × ((conclude text neg limit d).errno ≡ (if ltb limit n then erange_set else unset))
unfolding conclude
conclude_lem text neg limit d n over value = elim (Bool-cases (ltb limit n)) [
  | inl e ↦ rw (over, e) (refl, refl)
  | inr e ↦ rw (over, e, value (over ∙ e)) (refl, refl)
]

-- For the base 0 or a base from 2 to 36, the result is the number that the digits behind the sign and the
-- prefix write, negated modulo 2 ^ 32 after a minus sign, and `errno` is left alone, unless that number is
-- above the limit: then the result is the limit, and `errno` is ERANGE.
pub number_lem :
    (text : List ℕ) (base : ℕ) (sign : Bool)
    → (base ≡ 0) ⊎ ((2 ≤ base) × (base ≤ 36))
    → let neg = is_minus text in
      let from = based base (unsigned_text text) in
      let n = written from.0 0 from.1 in
      let limit = limit_of sign neg in
      let r = number text base sign in
      (r.result ≡ (if ltb limit n then limit else if neg then sub32 0 n else n))
      × (r.errno ≡ (if ltb limit n then erange_set else unset))
unfolding number
number_lem text base sign h =
    let neg = is_minus text in
    let from = based base (unsigned_text text) in
    let limit = limit_of sign neg in
    let (pos, top) = based-range base (unsigned_text text) h in
    let (room, small) = limit-range sign neg in
    let (over, value) =
      digits-written from.0 limit 0 false from.1 pos (omega (arith, top, room)) small
        (omega arith) in
    rw (valid_base base h) (
      conclude_lem text neg limit (digits from.0 limit 0 false false from.1)
        (written from.0 0 from.1) over value)
