-- ===== src/Emu/Store.antt =====
-- A row of bytes written into memory: `buf[n++]=c` of `tty_read_user`, and `memcpy(out + off, ...)` of emu/asm.c.
use linux_0_11_symcc_on_turi.Base.{
  ℕ, zero, suc, ◌+◌, ◌<◌, ◌≤◌, ◌≡◌, ◌⊎◌, inl, inr, refl, ◌∙◌, arith, List, [], ◌∷◌, length, get_or,
}
use linux_0_11_symcc_on_turi.Emu.State.{Memory, poke}
use linux_0_11_symcc_on_turi.Emu.Bytes.{poke_other, poke_same}

unfoldable pub store : Memory → ℕ → List ℕ → Memory
store mem p [] = mem
store mem p (c ∷ cs) = store (poke mem p c) (p + 1) cs

pub store_frame :
    (m : Memory) (p : ℕ) (cs : List ℕ) (a : ℕ)
    → (a < p) ⊎ (p + length cs ≤ a)
    → store m p cs a ≡ m a
unfolding store
store_frame m p [] a out = refl
store_frame m p (c ∷ cs) a out =
    store_frame (poke m p c) (p + 1) cs a (outside out) ∙ poke_other m p c a (ground arith)
  where
    outside : (a < p) ⊎ (p + suc (length cs) ≤ a) → (a < p + 1) ⊎ (p + 1 + length cs ≤ a)
    outside (inl lt) = inl (omega arith)
    outside (inr le) = inr (omega arith)

pub store_get :
    (m : Memory) (p : ℕ) (cs : List ℕ) (i : ℕ)
    → i < length cs
    → store m p cs (p + i) ≡ get_or cs i 0
unfolding store
store_get m p [] i lt = absurd (omega arith)
store_get m p (c ∷ cs) zero lt =
    let here : p + 0 ≡ p = omega arith in
    rw here (store_frame (poke m p c) (p + 1) cs p (inl (omega arith)) ∙ poke_same m p c)
store_get m p (c ∷ cs) (suc i) lt =
    let there : p + suc i ≡ p + 1 + i = omega arith in
    rw there (store_get (poke m p c) (p + 1) cs i (omega arith))
