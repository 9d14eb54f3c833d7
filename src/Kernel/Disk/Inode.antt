-- ===== src/Kernel/Disk/Inode.antt =====
-- An inode is written to the disk and read back (Reference/Linux-0.11-main/fs/minix_disk.c).
use linux_0_11_symcc_on_turi.Base.{
  ℕ, zero, suc, ◌+◌, ◌*◌, ◌^◌, ◌<◌, ◌≤◌, ◌≡◌, refl, sym, ◌∙◌, arith, true, false, ltb, ◌==◌, ==_iff,
  ◌%◌,
}
use mathlib.Core.Path.{subst}
use linux_0_11_symcc_on_turi.Base.Word.{u8, ◌>>◌}
use linux_0_11_symcc_on_turi.Emu.State.{Memory, poke}
use linux_0_11_symcc_on_turi.Emu.Bytes.{Below, poke_other}
use linux_0_11_symcc_on_turi.Kernel.Disk.Minix.{
  get16, get32, put16, put32, get_zones, put_zones, sp_inode_decode, sp_inode_encode, get16_sum,
  get32_sum, put16-get16, put16_low,
}

-- From `p` up to `q`, the cells are those of `m`.
abbrev Same : Memory → Memory → ℕ → ℕ → Type 0
Same m k p q = (a : ℕ) → p ≤ a → a < q → k a ≡ m a

put16_inside :
    (m k : Memory) (p a : ℕ) → Below 256 m → p ≤ a → a < p + 2 → put16 k p (get16 m p) a ≡ m a
unfolding put16 poke
put16_inside m k p a h ge lt =
    elim (ltb p a) as (λ b. ltb p a ≡ b → put16 k p (get16 m p) a ≡ m a) [
      | true ↦ λ e.
          let at : a ≡ p + 1 = ground (arith, e, lt) in
          rw at (ground (arith, get16_sum m p h, h p, h (p + 1)))
      | false ↦ λ e.
          let at : a ≡ p = ground (arith, e, ge) in
          rw at (ground (arith, get16_sum m p h, h p, h (p + 1)))
    ]
      refl

module _ (m : Memory) (h : Below 256 m) (p : ℕ) where
  Same-get16 :
      (k : Memory) (q r : ℕ) → r ≤ q + 2 → Same m k p q → Same m (put16 k q (get16 m q)) p r
  Same-get16 k q r le s a ge lt =
      elim (ltb a q) as (λ b. ltb a q ≡ b → put16 k q (get16 m q) a ≡ m a) [
        | true ↦ λ e. put16-get16 m k q a h (s a ge (ground (arith, e)))
        | false ↦ λ e. put16_inside m k q a h (ground (arith, e)) (omega (arith, lt, le))
      ]
        refl

  Same-get32 :
      (k : Memory) (q r : ℕ) → r ≤ q + 4 → Same m k p q → Same m (put32 k q (get32 m q)) p r
  unfolding put32
  Same-get32 k q r le s a ge lt =
      let sum = get32_sum m q h in
      let low : get32 m q % 2 ^ 16 ≡ get16 m (q + 2) =
        omega (arith, sum, get16_sum m (q + 2) h, h (q + 2), h (q + 2 + 1)) in
      let high : get32 m q >> 16 ≡ get16 m q =
        omega (arith, sum, get16_sum m (q + 2) h, h (q + 2), h (q + 2 + 1)) in
      put16_low (put16 k q (get32 m q >> 16)) (q + 2) (get32 m q) (get16 m (q + 2)) a low
      ∙ Same-get16 (put16 k q (get32 m q >> 16)) (q + 2) r (omega (arith, le))
          (subst (λ v. Same m (put16 k q v) p (q + 2)) (sym high)
            (Same-get16 k q (q + 2) (omega arith) s))
          a ge lt

  Same-byte : (k : Memory) (q r : ℕ) → r ≤ q + 1 → Same m k p q → Same m (poke k q (u8 (m q))) p r
  unfolding poke
  Same-byte k q r le s a ge lt =
      elim (a == q) as (λ b. (a == q) ≡ b → poke k q (u8 (m q)) a ≡ m a) [
        | true ↦ λ e. let at : a ≡ q = (==_iff a q).0 e in rw at (ground (arith, h q))
        | false ↦ λ e.
            poke_other k q (u8 (m q)) a (λ z. ground (arith, e, z))
            ∙ s a ge (ground (arith, e, lt, le))
      ]
        refl

  Same-zones :
      (n : ℕ) (k : Memory) (q r : ℕ)
      → r ≤ q + 2 * n
      → Same m k p q
      → Same m (put_zones k q (get_zones n m q)) p r
  unfolding put_zones get_zones
  Same-zones zero k q r le s = λ a. λ ge. λ lt. s a ge (omega (arith, lt, le))
  Same-zones (suc n) k q r le s =
      Same-zones n (put16 k q (get16 m q)) (q + 2) r (omega (arith, le))
        (Same-get16 k q (q + 2) (omega arith) s)

  -- The 32 bytes of an inode that was read are written back as they were.
  pub sp_inode_encode-decode :
      (k : Memory) (a : ℕ) → p ≤ a → a < p + 32 → sp_inode_encode k p (sp_inode_decode m p) a ≡ m a
  unfolding sp_inode_encode sp_inode_decode
  sp_inode_encode-decode k = Same-zones 9 _ (p + 14) (p + 32) (omega arith) (
      Same-byte _ (p + 13) (p + 14) (omega arith) (
        Same-byte _ (p + 12) (p + 13) (omega arith) (
          Same-get32 _ (p + 8) (p + 12) (omega arith) (
            Same-get32 _ (p + 4) (p + 8) (omega arith) (
              Same-get16 _ (p + 2) (p + 4) (omega arith) (
                Same-get16 k p (p + 2) (omega arith)
                  (λ a. λ ge. λ lt. absurd (omega (arith, ge, lt)))))))))
