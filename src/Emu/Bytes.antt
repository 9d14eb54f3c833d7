-- ===== src/Emu/Bytes.antt =====
-- Facts about the big-endian reads and writes of emu/emu.c: bounds, what a write leaves alone, and
-- what a read sees of it.
use linux_0_11_symcc_on_turi.Base.{
  ℕ, ◌+◌, ◌*◌, ◌%◌, ◌^◌, ◌<◌, ◌≤◌, ◌≡◌, ◌≢◌, refl, arith, bit_or, ◌⊎◌,
}
use linux_0_11_symcc_on_turi.Base.Word.{u8, ◌<<◌, ◌>>◌}
use linux_0_11_symcc_on_turi.Base.Bits.{bit_or_field}
use native.Mathlib.Nat.{mul-one}
use linux_0_11_symcc_on_turi.Emu.State.{Memory, poke, rd32, rd16, wr16, wr32, set_reg}

-- Every cell is below `b`.
abbrev pub Below : ℕ → Memory → Type 0
Below b m = (a : ℕ) → m a < b

below : (x d : ℕ) → x % 256 ≡ 0 → d < 256 → bit_or x d ≡ x + d
below x d e h = rw (mul-one d) at (bit_or_field 0 8 x d (omega arith) h)

-- `|` of four bytes in place is their sum.
pub join4 :
    (a b c d : ℕ)
    → b < 256
    → c < 256
    → d < 256
    → bit_or (bit_or (bit_or (a << 24) (b << 16)) (c << 8)) d ≡ ((a * 256 + b) * 256 + c) * 256 + d
join4 a b c d hb hc hd =
    rw
      (
        bit_or_field 16 8 (a << 24) b (omega arith) hb,
        bit_or_field 8 8 ((a << 24) + (b << 16)) c (omega arith) hc,
        below ((a << 24) + (b << 16) + (c << 8)) d (omega arith) hd,
      )
      (omega arith)

pub rd32_sum :
    (m : Memory) (p : ℕ)
    → Below 256 m
    → rd32 m p ≡ ((m p * 256 + m (p + 1)) * 256 + m (p + 2)) * 256 + m (p + 3)
unfolding rd32
rd32_sum m p h = join4 (m p) (m (p + 1)) (m (p + 2)) (m (p + 3)) (h _) (h _) (h _)

pub rd32-lt : (m : Memory) (p : ℕ) → Below 256 m → rd32 m p < 2 ^ 32
rd32-lt m p h = omega (arith, rd32_sum m p h, h p, h (p + 1), h (p + 2), h (p + 3))

pub rd16-lt : (m : Memory) (p : ℕ) → rd16 m p < 2 ^ 32
unfolding rd16
rd16-lt m p = omega arith

pub poke-Below : (b : ℕ) {m : Memory} (p v : ℕ) → Below b m → v < b → Below b (poke m p v)
unfolding poke
poke-Below b p v h k a = ground (arith, h a)

pub set_reg-Below : (b : ℕ) {m : Memory} (i v : ℕ) → Below b m → v < b → Below b (set_reg m i v)
unfolding set_reg poke
set_reg-Below b i v h k a = ground (arith, h a)

-- The zero register keeps its value.
pub set_reg-zero : (m : Memory) (i v : ℕ) → set_reg m i v 0 ≡ m 0
unfolding set_reg poke
set_reg-zero m i v = ground arith

pub wr32-Below : {m : Memory} (p v : ℕ) → Below 256 m → Below 256 (wr32 m p v)
unfolding wr32 poke
wr32-Below p v h a = ground (arith, h a)

pub wr16-Below : {m : Memory} (p v : ℕ) → Below 256 m → Below 256 (wr16 m p v)
unfolding wr16 poke
wr16-Below p v h a = ground (arith, h a)

pub poke_frame : (m : Memory) (p v a : ℕ) → (a < p) ⊎ (p < a) → poke m p v a ≡ m a
unfolding poke
poke_frame m p v a h = ground arith

pub wr16_frame : (m : Memory) (p v a : ℕ) → (a < p) ⊎ (p + 2 ≤ a) → wr16 m p v a ≡ m a
unfolding wr16 poke
wr16_frame m p v a h = ground arith

pub wr32_frame : (m : Memory) (p v a : ℕ) → (a < p) ⊎ (p + 4 ≤ a) → wr32 m p v a ≡ m a
unfolding wr32 poke
wr32_frame m p v a h = ground arith

-- A word that is written is read back.
pub rd32-wr32 : (m : Memory) (p v : ℕ) → v < 2 ^ 32 → rd32 (wr32 m p v) p ≡ v
unfolding rd32 wr32 poke
rd32-wr32 m p v h = ground (
  arith,
  join4 (u8 (v >> 24)) (u8 (v >> 16)) (u8 (v >> 8)) (u8 v) (omega arith) (omega arith)
      (omega arith),
)

pub rd16-wr16 : (m : Memory) (p v : ℕ) → v < 2 ^ 16 → rd16 (wr16 m p v) p ≡ v
unfolding rd16 wr16 poke
rd16-wr16 m p v h = ground (arith, below (u8 (v >> 8) << 8) (u8 v) (omega arith) (omega arith))

-- A word apart from what is written stays.
pub rd32_frame :
    (m : Memory) (p q v : ℕ) → (q + 4 ≤ p) ⊎ (p + 4 ≤ q) → rd32 (wr32 m p v) q ≡ rd32 m q
unfolding rd32 wr32 poke
rd32_frame m p q v h = ground arith

-- A read sees four cells.
pub rd32_agree :
    (m k : Memory) (p : ℕ) → ((a : ℕ) → p ≤ a → a < p + 4 → m a ≡ k a) → rd32 m p ≡ rd32 k p
unfolding rd32
rd32_agree m k p h =
    rw
      (
        h p (omega arith) (omega arith),
        h (p + 1) (omega arith) (omega arith),
        h (p + 2) (omega arith) (omega arith),
        h (p + 3) (omega arith) (omega arith),
      )
      refl

pub poke_other : (m : Memory) (p v a : ℕ) → a ≢ p → poke m p v a ≡ m a
unfolding poke
poke_other m p v a h = ground arith

pub poke_same : (m : Memory) (p v : ℕ) → poke m p v p ≡ v
unfolding poke
poke_same m p v = ground arith
