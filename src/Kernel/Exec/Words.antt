-- ===== src/Kernel/Exec/Words.antt =====
-- What the stores of `sp_execve` (Reference/Linux-0.11-main/fs/symexec.c) leave in memory: copied bytes, pointers and strings.
use linux_0_11_symcc_on_turi.Base.{
  ℕ, zero, suc, ◌+◌, ◌*◌, ◌^◌, ◌<◌, ◌≤◌, ◌≡◌, ◌⊎◌, inl, inr, refl, sym, ◌∙◌, arith, List, [], ◌∷◌,
  length, get_or, true, false, ◌==◌, ==_iff,
}
use mathlib.Core.Path.{subst}
use linux_0_11_symcc_on_turi.Base.Word.{u32}
use linux_0_11_symcc_on_turi.Emu.State.{Memory, poke, rd32, wr32}
use linux_0_11_symcc_on_turi.Emu.Bytes.{poke_other, poke_same, wr32_frame, rd32-wr32, rd32_agree}
use linux_0_11_symcc_on_turi.Kernel.Exec.Image.{copy_in, store_words}
use linux_0_11_symcc_on_turi.Kernel.Exec.Vectors.{Reads}

-- The words stand one after the other.
abbrev pub Words : Memory → ℕ → List ℕ → Type 0
Words m a [] = Unit
Words m a (w ∷ ws) = (rd32 m a ≡ w) × Words m (a + 4) ws

-- Every one is a 32-bit word.
abbrev pub AllWords : List ℕ → Type 0
AllWords [] = Unit
AllWords (w ∷ ws) = (w < 2 ^ 32) × AllWords ws

-- Two memories agree between `a` and `b`.
abbrev pub AgreeOn : ℕ → ℕ → Memory → Memory → Type 0
AgreeOn a b m k = (i : ℕ) → a ≤ i → i < b → m i ≡ k i

pub Words-agree :
    (m k : Memory) (a : ℕ) (ws : List ℕ)
    → AgreeOn a (a + 4 * length ws) m k
    → Words m a ws
    → Words k a ws
Words-agree m k a [] h w = tt
Words-agree m k a (w ∷ ws) h (e, rest) = (
  sym (rd32_agree m k a (λ i. λ ge. λ lt. h i ge (omega (arith, lt)))) ∙ e,
  Words-agree m k (a + 4) ws (λ i. λ ge. λ lt. h i (omega (arith, ge)) (omega (arith, lt))) rest,
)

pub store_words_frame :
    (ws : List ℕ) (m : Memory) (a i : ℕ)
    → (i < a) ⊎ (a + 4 * length ws ≤ i)
    → store_words m a ws i ≡ m i
unfolding store_words
store_words_frame [] m a i out = refl
store_words_frame (w ∷ ws) m a i out =
    store_words_frame ws (wr32 m a w) (a + 4) i (behind out) ∙ wr32_frame m a w i (at out)
  where
    behind : (i < a) ⊎ (a + 4 * suc (length ws) ≤ i) → (i < a + 4) ⊎ (a + 4 + 4 * length ws ≤ i)
    behind (inl lt) = inl (omega (arith, lt))
    behind (inr ge) = inr (omega (arith, ge))

    at : (i < a) ⊎ (a + 4 * suc (length ws) ≤ i) → (i < a) ⊎ (a + 4 ≤ i)
    at (inl lt) = inl lt
    at (inr ge) = inr (omega (arith, ge))

pub store_words-Words :
    (ws : List ℕ) (m : Memory) (a : ℕ) → AllWords ws → Words (store_words m a ws) a ws
unfolding store_words
store_words-Words [] m a h = tt
store_words-Words (w ∷ ws) m a (lt, h) = (
  rd32_agree (store_words (wr32 m a w) (a + 4) ws) (wr32 m a w) a
        (λ i. λ ge. λ below. store_words_frame ws (wr32 m a w) (a + 4) i (inl below))
      ∙ rd32-wr32 m a w lt,
  store_words-Words ws (wr32 m a w) (a + 4) h,
)

-- The copied bytes are those of the staging area, and no other byte changes.
pub copy_in_get :
    (n : ℕ) (m stage : Memory) (a i : ℕ) → i < n → copy_in m a stage n (a + i) ≡ stage i
unfolding copy_in
copy_in_get zero m stage a i lt = absurd (omega (arith, lt))
copy_in_get (suc n) m stage a i lt =
    elim (i == n)
        as (λ b. (i == n) ≡ b → poke (copy_in m a stage n) (a + n) (stage n) (a + i) ≡ stage i) [
          | true ↦ λ e.
              let here : i ≡ n = (==_iff i n).0 e in
              rw here (poke_same (copy_in m a stage n) (a + n) (stage n))
          | false ↦ λ e.
              poke_other (copy_in m a stage n) (a + n) (stage n) (a + i) (λ q. ground (arith, e, q))
              ∙ copy_in_get n m stage a i (ground (arith, e, lt))
        ]
      refl

pub copy_in_frame :
    (n : ℕ) (m stage : Memory) (a i : ℕ) → (i < a) ⊎ (a + n ≤ i) → copy_in m a stage n i ≡ m i
unfolding copy_in
copy_in_frame zero m stage a i out = refl
copy_in_frame (suc n) m stage a i out =
    poke_other (copy_in m a stage n) (a + n) (stage n) i (λ q. ground (arith, q))
    ∙ copy_in_frame n m stage a i (short out)
  where
    short : (i < a) ⊎ (a + suc n ≤ i) → (i < a) ⊎ (a + n ≤ i)
    short (inl lt) = inl lt
    short (inr ge) = inr (omega (arith, ge))

-- A string that is copied to another place is read there.
pub Reads_move :
    (t : List ℕ) (m k : Memory) (s p : ℕ)
    → p + length t ≤ 2 ^ 32
    → ((i : ℕ) → i < length t → k (p + i) ≡ get_or t i 0)
    → Reads m s t
    → Reads k p t
Reads_move [] m k s p fits h r = r
Reads_move (c ∷ []) m k s p fits h (e, z) = (subst (λ x. k x ≡ c) p_at (h 0 (omega arith)), z)
  where
    p_at : p + 0 ≡ p
    p_at = omega arith
Reads_move (c ∷ d ∷ t) m k s p fits h (e, ne, r) =
    let next : u32 (p + 1) ≡ p + 1 = omega (arith, fits) in
    (
      subst (λ x. k x ≡ c) p_at (h 0 (omega arith)),
      ne,
      subst (λ x. Reads k x (d ∷ t)) (sym next)
          (Reads_move (d ∷ t) m k (u32 (s + 1)) (p + 1) (omega (arith, fits))
            (λ i.
              λ lt. subst (λ x. k x ≡ get_or (d ∷ t) i 0) (shift i) (h (suc i) (omega (arith, lt))))
            r),
    )
  where
    p_at : p + 0 ≡ p
    p_at = omega arith

    shift : (i : ℕ) → p + suc i ≡ p + 1 + i
    shift i = omega arith
