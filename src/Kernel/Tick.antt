-- ===== src/Kernel/Tick.antt =====
-- The clock: Reference/Linux-0.11-main/kernel/symplus/tick.c divides a 64-bit difference of nanoseconds
-- by 10,000,000 in 32-bit arithmetic, one bit at a time.
use linux_0_11_symcc_on_turi.Base.{
  ℕ, zero, suc, ◌+◌, ◌-◌, ◌*◌, ◌/◌, ◌%◌, ◌^◌, ◌<◌, ◌≤◌, ◌≡◌, arith, ltb, leb, ◌==◌, if◌then◌else◌,
  bit_or, ap, ◌∙◌, Bool-cases, inl, inr,
}
use linux_0_11_symcc_on_turi.Base.Bits.{bit_or_field}
use linux_0_11_symcc_on_turi.Base.Word.{u32, sub32, ◌<<◌, ◌>>◌}
use native.Mathlib.Nat.{
  pow-suc, one-le-pow, div-one, div-div-eq-div-mul, div-add-mod', mod-lt, mod-eq_of_lt,
  mul-le-mul_right, mul-add-mod_self_right,
}

abbrev pub tick : ℕ
tick = 10000000

-- The first loop, from bit `i - 1` down: the remainder alone.
unfoldable pub high_bits : ℕ → ℕ → ℕ → ℕ
high_bits zero hi rem = rem
high_bits (suc i) hi rem =
    let r = u32 (rem * 2 + (hi >> i) % 2) in high_bits i hi (if leb tick r then r - tick else r)

-- The second loop: the remainder and the ticks.
unfoldable pub low_bits : ℕ → ℕ → ℕ → ℕ → ℕ × ℕ
low_bits zero lo rem ticks = (ticks, rem)
low_bits (suc i) lo rem ticks =
    let r = u32 (rem * 2 + (lo >> i) % 2) in
    let t = u32 (ticks << 1) in
    low_bits i lo (if leb tick r then r - tick else r) (if leb tick r then bit_or t 1 else t)

-- `rem += *saved` and what follows: the ticks, and the new `*saved`.
unfoldable pub add_saved : ℕ × ℕ → ℕ → ℕ × ℕ
add_saved (ticks, rem) saved =
    let r = u32 (rem + saved) in if leb tick r then (u32 (ticks + 1), r - tick) else (ticks, r)

-- The ticks, and what is left in `*saved`.
unfoldable pub sp_tick_elapsed : ℕ → ℕ → ℕ → ℕ → ℕ → ℕ × ℕ
sp_tick_elapsed old_low old_high low high saved =
    let lo = sub32 low old_low in
    let hi = sub32 (sub32 high old_high) (if ltb low old_low then 1 else 0) in
    let divided =
      if hi == 0 then (lo / tick, lo % tick) else low_bits 32 lo (high_bits 32 hi 0) 0 in
    add_saved divided saved

-- One more bit of a number.
next_bit : (x i : ℕ) → x / 2 ^ i ≡ x / 2 ^ suc i * 2 + (x >> i) % 2
next_bit x i =
    let two : 2 ^ suc i ≡ 2 ^ i * 2 = pow-suc 2 i in
    omega (arith, ap (λ (t : ℕ). x / t) two, div-div-eq-div-mul x (2 ^ i) 2)

high_bits_lem : (i hi rem : ℕ) → rem ≡ hi / 2 ^ i % tick → high_bits i hi rem ≡ hi % tick
unfolding high_bits
high_bits_lem zero hi rem h = h ∙ ap (λ t. t % tick) (div-one hi)
high_bits_lem (suc i) hi rem h = high_bits_lem i hi _ (ground (arith, next_bit hi i))

low_part : (lo i : ℕ) → lo % 2 ^ suc i ≡ (lo >> i) % 2 * 2 ^ i + lo % 2 ^ i
low_part lo i =
    let two : 2 ^ suc i ≡ 2 ^ i * 2 = pow-suc 2 i in
    let pos : 0 < 2 ^ i = one-le-pow i 2 (omega arith) in
    let bit : (lo >> i) % 2 * 2 ^ i ≤ 1 * 2 ^ i = mul-le-mul_right (2 ^ i) (omega arith) in
    let halves : lo / 2 ^ i ≡ lo / 2 ^ i / 2 * 2 + (lo >> i) % 2 = omega arith in
    let product : lo / 2 ^ i * 2 ^ i ≡ lo / 2 ^ i / 2 * (2 ^ i * 2) + (lo >> i) % 2 * 2 ^ i =
      omega (arith, ap (λ (t : ℕ). t * 2 ^ i) halves) in
    let whole : lo ≡ lo / 2 ^ i / 2 * (2 ^ i * 2) + ((lo >> i) % 2 * 2 ^ i + lo % 2 ^ i) =
      omega (arith, div-add-mod' lo (2 ^ i)) in
    let small : lo % 2 ^ i < 2 ^ i = mod-lt lo pos in
    rw two (
      ap (λ t. t % (2 ^ i * 2)) whole
      ∙ mul-add-mod_self_right (lo / 2 ^ i / 2) (2 ^ i * 2) ((lo >> i) % 2 * 2 ^ i + lo % 2 ^ i)
      ∙ mod-eq_of_lt (omega arith))

next_value :
    (x lo i : ℕ) → (x * 2 + (lo >> i) % 2) * 2 ^ i + lo % 2 ^ i ≡ x * 2 ^ suc i + lo % 2 ^ suc i
next_value x lo i =
    let two : 2 ^ suc i ≡ 2 ^ i * 2 = pow-suc 2 i in
    let product : x * 2 ^ suc i ≡ x * 2 * 2 ^ i = omega (arith, ap (λ (t : ℕ). x * t) two) in
    let wide : lo % 2 ^ suc i ≡ (lo >> i) % 2 * 2 ^ i + lo % 2 ^ i = low_part lo i in omega arith

set_bit : (t : ℕ) → bit_or (u32 (u32 t << 1)) 1 ≡ u32 (t * 2 + 1)
set_bit t = bit_or_field 0 1 (u32 (u32 t << 1)) 1 (omega arith) (omega arith) ∙ omega arith

shift_bit : (t : ℕ) → u32 (u32 t << 1) ≡ u32 (t * 2)
shift_bit t = omega arith

-- The quotient so far is `t`, of which the loop keeps the low 32 bits; `x` is what has been divided.
low_bits_lem :
    (i lo rem t x : ℕ)
    → rem < tick
    → x ≡ t * tick + rem
    → low_bits i lo rem (u32 t)
      ≡ (u32 ((x * 2 ^ i + lo % 2 ^ i) / tick), (x * 2 ^ i + lo % 2 ^ i) % tick)
unfolding low_bits
low_bits_lem zero lo rem t x h e =
    let all : u32 t ≡ u32 ((x * 1 + lo % 1) / tick) = omega arith in
    let left : rem ≡ (x * 1 + lo % 1) % tick = omega arith in λ k. (all k, left k)
low_bits_lem (suc i) lo rem t x h e =
    let bit = (lo >> i) % 2 in
    let r : u32 (rem * 2 + bit) ≡ rem * 2 + bit = omega arith in
    let same : (x * 2 + bit) * 2 ^ i + lo % 2 ^ i ≡ x * 2 ^ suc i + lo % 2 ^ suc i =
      next_value x lo i in
    elim (Bool-cases (leb tick (u32 (rem * 2 + bit)))) [
      | inl c ↦
          rw (c, set_bit t, r, ← same)
            (low_bits_lem i lo (rem * 2 + bit - tick) (t * 2 + 1) (x * 2 + bit) (ground arith)
              (ground arith))
      | inr c ↦
          rw (c, shift_bit t, r, ← same)
            (low_bits_lem i lo (rem * 2 + bit) (t * 2) (x * 2 + bit) (ground arith) (ground arith))
    ]

pair : {a b c d : ℕ} → a ≡ c → b ≡ d → ◌≡◌ {A = ℕ × ℕ} (a, b) (c, d)
pair p q = λ i. (p i, q i)

-- The two halves of the difference.
halves :
    (old_low old_high low high : ℕ)
    → old_low < 2 ^ 32
    → old_high < 2 ^ 32
    → low < 2 ^ 32
    → high < 2 ^ 32
    → let elapsed = (high * 2 ^ 32 + low + 2 ^ 64 - (old_high * 2 ^ 32 + old_low)) % 2 ^ 64 in
      (sub32 low old_low ≡ elapsed % 2 ^ 32)
      × (sub32 (sub32 high old_high) (if ltb low old_low then 1 else 0) ≡ elapsed / 2 ^ 32)
halves old_low old_high low high h1 h2 h3 h4 = ground arith

-- The division, on either path.
divided :
    (e : ℕ)
    → e < 2 ^ 64
    → (if e / 2 ^ 32 == 0
        then (e % 2 ^ 32 / tick, e % 2 ^ 32 % tick)
        else low_bits 32 (e % 2 ^ 32) (high_bits 32 (e / 2 ^ 32) 0) 0)
      ≡ (u32 (e / tick), e % tick)
divided e h = elim (Bool-cases (e / 2 ^ 32 == 0)) [
  | inl c ↦ rw c (pair (ground arith) (ground arith))
  | inr c ↦
      let top : high_bits 32 (e / 2 ^ 32) 0 ≡ e / 2 ^ 32 % tick =
        high_bits_lem 32 (e / 2 ^ 32) 0 (omega arith) in
      rw (c, top)
        (low_bits_lem 32 (e % 2 ^ 32) (e / 2 ^ 32 % tick) 0 (e / 2 ^ 32 % tick) (omega arith)
            (omega arith)
          ∙ pair (omega arith) (omega arith))
]

finish :
    (e saved : ℕ)
    → saved < tick
    → add_saved (u32 (e / tick), e % tick) saved ≡ (u32 ((e + saved) / tick), (e + saved) % tick)
unfolding add_saved
finish e saved h = elim (Bool-cases (leb tick (u32 (e % tick + saved)))) [
  | inl c ↦ rw c (pair (ground arith) (ground arith))
  | inr c ↦ rw c (pair (ground arith) (ground arith))
]

-- `sp_tick_elapsed` is exact: of the 64-bit difference of the two times and the nanoseconds saved
-- before, it returns the whole ticks (their low 32 bits) and saves the rest, which is less than a tick.
pub sp_tick_elapsed_lem :
    (old_low old_high low high saved : ℕ)
    → old_low < 2 ^ 32
    → old_high < 2 ^ 32
    → low < 2 ^ 32
    → high < 2 ^ 32
    → saved < tick
    → let elapsed = (high * 2 ^ 32 + low + 2 ^ 64 - (old_high * 2 ^ 32 + old_low)) % 2 ^ 64 in
      sp_tick_elapsed old_low old_high low high saved
      ≡ (u32 ((elapsed + saved) / tick), (elapsed + saved) % tick)
unfolding sp_tick_elapsed
sp_tick_elapsed_lem old_low old_high low high saved h1 h2 h3 h4 h5 =
    let e = (high * 2 ^ 32 + low + 2 ^ 64 - (old_high * 2 ^ 32 + old_low)) % 2 ^ 64 in
    let parts = halves old_low old_high low high h1 h2 h3 h4 in
    rw (parts.1, parts.0, divided e (omega arith)) (finish e saved h5)
