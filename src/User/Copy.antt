-- ===== src/User/Copy.antt =====
-- `memcpy` and `memmove` of user/native/string.c on memory.
use linux_0_11_symcc_on_turi.Base.{
  ℕ, zero, suc, ◌+◌, ◌<◌, ◌≤◌, ◌≡◌, ◌⊎◌, refl, ◌∙◌, arith, ltb, ltb→lt, if◌then◌else◌, Bool-cases,
  inl, inr,
}
use linux_0_11_symcc_on_turi.Emu.State.{Memory, poke}
use linux_0_11_symcc_on_turi.Emu.Bytes.{poke_other, poke_same}

-- `while(n--)*a++=*b++;`
unfoldable pub memcpy : Memory → ℕ → ℕ → ℕ → Memory
memcpy m d s zero = m
memcpy m d s (suc n) = memcpy (poke m d (m s)) (d + 1) (s + 1) n

-- `while(n){n--;a[n]=b[n];}`
unfoldable pub backward : Memory → ℕ → ℕ → ℕ → Memory
backward m d s zero = m
backward m d s (suc n) = backward (poke m (d + n) (m (s + n))) d s n

unfoldable pub memmove : Memory → ℕ → ℕ → ℕ → Memory
memmove m d s n = if ltb s d then backward m d s n else memcpy m d s n

memcpy_frame : (m : Memory) (d s n a : ℕ) → (a < d) ⊎ (d + n ≤ a) → memcpy m d s n a ≡ m a
unfolding memcpy
memcpy_frame m d s zero a out = refl
memcpy_frame m d s (suc n) a out =
    memcpy_frame (poke m d (m s)) (d + 1) (s + 1) n a (omega (arith, out))
    ∙ poke_other m d (m s) a (omega (arith, out))

memcpy-get : (m : Memory) (d s n i : ℕ) → d ≤ s → i < n → memcpy m d s n (d + i) ≡ m (s + i)
unfolding memcpy
memcpy-get m d s zero i le lt = absurd (omega arith)
memcpy-get m d s (suc n) zero le lt =
    let here : d + 0 ≡ d = omega arith in
    let there : s + 0 ≡ s = omega arith in
    rw (here, there)
      (memcpy_frame (poke m d (m s)) (d + 1) (s + 1) n d (inl (omega arith)) ∙ poke_same m d (m s))
memcpy-get m d s (suc n) (suc i) le lt =
    let here : d + suc i ≡ d + 1 + i = omega arith in
    let there : s + suc i ≡ s + 1 + i = omega arith in
    rw (here, there)
      (memcpy-get (poke m d (m s)) (d + 1) (s + 1) n i (omega arith) (omega arith)
        ∙ poke_other m d (m s) (s + 1 + i) (omega arith))

backward_frame : (m : Memory) (d s n a : ℕ) → (a < d) ⊎ (d + n ≤ a) → backward m d s n a ≡ m a
unfolding backward
backward_frame m d s zero a out = refl
backward_frame m d s (suc n) a out =
    backward_frame (poke m (d + n) (m (s + n))) d s n a (omega (arith, out))
    ∙ poke_other m (d + n) (m (s + n)) a (omega (arith, out))

last_or_before : (i n : ℕ) → i < suc n → (i ≡ n) ⊎ (i < n)
last_or_before i n lt = ground arith

backward-get : (m : Memory) (d s n i : ℕ) → s ≤ d → i < n → backward m d s n (d + i) ≡ m (s + i)
unfolding backward
backward-get m d s zero i le lt = absurd (omega arith)
backward-get m d s (suc n) i le lt = elim (last_or_before i n lt) [
  | inl e ↦ rw e (
      backward_frame (poke m (d + n) (m (s + n))) d s n (d + n) (inr (omega arith))
      ∙ poke_same m (d + n) (m (s + n)))
  | inr less ↦
      backward-get (poke m (d + n) (m (s + n))) d s n i le less
      ∙ poke_other m (d + n) (m (s + n)) (s + i) (omega arith)
]

-- However the two areas overlap, `memmove` leaves in the destination what the source held before, and
-- changes nothing else.
pub memmove_lem :
    (m : Memory) (d s n : ℕ)
    → ((i : ℕ) → i < n → memmove m d s n (d + i) ≡ m (s + i))
      × ((a : ℕ) → (a < d) ⊎ (d + n ≤ a) → memmove m d s n a ≡ m a)
unfolding memmove
memmove_lem m d s n = elim (Bool-cases (ltb s d)) [
  | inl e ↦ rw e (
    λ i lt. backward-get m d s n i (omega (arith, ltb→lt s d e)) lt,
    λ a out. backward_frame m d s n a out,
  )
  | inr e ↦
      rw e (λ i lt. memcpy-get m d s n i (ground arith) lt, λ a out. memcpy_frame m d s n a out)
]
