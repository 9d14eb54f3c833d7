-- ===== src/Kernel/Disk/Reread.antt =====
-- The fields of an inode that was written to the disk are read back (Reference/Linux-0.11-main/fs/minix_disk.c).
use linux_0_11_symcc_on_turi.Base.{
  ℕ, zero, suc, ◌+◌, ◌%◌, ◌^◌, ◌<◌, ◌≤◌, ◌≡◌, ◌⊎◌, inl, inr, refl, ◌∙◌, arith, List, [], ◌∷◌,
  length, All,
}
use linux_0_11_symcc_on_turi.Base.Word.{u8, ◌>>◌}
use linux_0_11_symcc_on_turi.Base.Bits.{bit_or_low}
use linux_0_11_symcc_on_turi.Emu.State.{Memory, poke}
use linux_0_11_symcc_on_turi.Emu.Bytes.{poke_frame, poke_same}
use linux_0_11_symcc_on_turi.Kernel.Disk.Minix.{
  get16, get32, put16, put32, Inode, get_zones, put_zones, sp_inode_decode, sp_inode_encode,
  put16_frame, get16-put16, get16_agree, put16_low,
}

-- Each field is a number of its width.
pub record IsInode (n : Inode) : Type 0 where
  pub mode_width : n.mode < 2 ^ 16
  pub uid_width : n.uid < 2 ^ 16
  pub size_width : n.size < 2 ^ 32
  pub mtime_width : n.mtime < 2 ^ 32
  pub gid_width : n.gid < 2 ^ 8
  pub nlinks_width : n.nlinks < 2 ^ 8
  pub zone_count : length n.zone ≡ 9
  pub zone_widths : All (λ z. z < 2 ^ 16) n.zone

put32_frame : (m : Memory) (p v a : ℕ) → (a < p) ⊎ (p + 4 ≤ a) → put32 m p v a ≡ m a
unfolding put32
put32_frame m p v a (inl lt) =
    put16_frame (put16 m p (v >> 16)) (p + 2) v a (inl (omega (arith, lt)))
    ∙ put16_frame m p (v >> 16) a (inl lt)
put32_frame m p v a (inr ge) =
    put16_frame (put16 m p (v >> 16)) (p + 2) v a (inr (omega (arith, ge)))
    ∙ put16_frame m p (v >> 16) a (inr (omega (arith, ge)))

put_zones_below : (zs : List ℕ) (m : Memory) (p a : ℕ) → a < p → put_zones m p zs a ≡ m a
unfolding put_zones
put_zones_below [] m p a lt = refl
put_zones_below (z ∷ zs) m p a lt =
    put_zones_below zs (put16 m p z) (p + 2) a (omega (arith, lt)) ∙ put16_frame m p z a (inl lt)

-- `m` has at `p` what the write of `v` put there.
get16_there :
    (m k : Memory) (p v : ℕ)
    → v < 2 ^ 16
    → ((a : ℕ) → p ≤ a → a < p + 2 → m a ≡ put16 k p v a)
    → get16 m p ≡ v
get16_there m k p v lt h =
    get16_agree m (put16 k p v) p (h p (omega arith) (omega arith))
      (h (p + 1) (omega arith) (omega arith))
    ∙ get16-put16 k p v lt

get32_there :
    (m k : Memory) (p v : ℕ)
    → v < 2 ^ 32
    → ((a : ℕ) → p ≤ a → a < p + 4 → m a ≡ put32 k p v a)
    → get32 m p ≡ v
unfolding get32 put32
get32_there m k p v lt h =
    let low : v % 2 ^ 16 < 2 ^ 16 = omega arith in
    let top = get16_there m k p (v >> 16) (omega (arith, lt)) (λ a. λ ge. λ below.
      h a ge (omega (arith, below)) ∙ put16_frame (put16 k p (v >> 16)) (p + 2) v a (inl below)) in
    let bottom = get16_there m (put16 k p (v >> 16)) (p + 2) (v % 2 ^ 16) low (λ a. λ ge. λ below.
      h a (omega (arith, ge)) (omega (arith, below))
      ∙ put16_low (put16 k p (v >> 16)) (p + 2) v (v % 2 ^ 16) a refl) in
    rw (top, bottom) (bit_or_low 16 (v >> 16) (v % 2 ^ 16) low ∙ omega arith)

get_zones-put_zones :
    (zs : List ℕ) (n : ℕ) (m : Memory) (p : ℕ)
    → length zs ≡ n
    → All (λ z. z < 2 ^ 16) zs
    → get_zones n (put_zones m p zs) p ≡ zs
unfolding get_zones put_zones
get_zones-put_zones [] zero m p e h = refl
get_zones-put_zones [] (suc n) m p e h = absurd (omega (arith, e))
get_zones-put_zones (z ∷ zs) zero m p e h = absurd (omega (arith, e))
get_zones-put_zones (z ∷ zs) (suc n) m p e (lt, h) =
    let first : get16 (put_zones (put16 m p z) (p + 2) zs) p ≡ z =
      get16_there (put_zones (put16 m p z) (p + 2) zs) m p z lt
        (λ a. λ ge. λ below. put_zones_below zs (put16 m p z) (p + 2) a below) in
    let rest = get_zones-put_zones zs n (put16 m p z) (p + 2) (omega (arith, e)) h in
    rw (first, rest) refl

module _ (m : Memory) (p : ℕ) (n : Inode) (fits : IsInode n) where
  abbrev owner1 : Memory
  owner1 = put16 m p n.mode

  abbrev owner2 : Memory
  owner2 = put16 owner1 (p + 2) n.uid

  abbrev times1 : Memory
  times1 = put32 owner2 (p + 4) n.size

  abbrev times2 : Memory
  times2 = put32 times1 (p + 8) n.mtime

  abbrev links1 : Memory
  links1 = poke times2 (p + 12) (u8 n.gid)

  abbrev links2 : Memory
  links2 = poke links1 (p + 13) (u8 n.nlinks)

  on_links2 : (a : ℕ) → a < p + 14 → sp_inode_encode m p n a ≡ links2 a
  unfolding sp_inode_encode
  on_links2 a lt = put_zones_below n.zone links2 (p + 14) a lt

  on_links1 : (a : ℕ) → a < p + 13 → sp_inode_encode m p n a ≡ links1 a
  on_links1 a lt =
      on_links2 a (omega (arith, lt)) ∙ poke_frame links1 (p + 13) (u8 n.nlinks) a (inl lt)

  on_times2 : (a : ℕ) → a < p + 12 → sp_inode_encode m p n a ≡ times2 a
  on_times2 a lt =
      on_links1 a (omega (arith, lt)) ∙ poke_frame times2 (p + 12) (u8 n.gid) a (inl lt)

  on_times1 : (a : ℕ) → a < p + 8 → sp_inode_encode m p n a ≡ times1 a
  on_times1 a lt = on_times2 a (omega (arith, lt)) ∙ put32_frame times1 (p + 8) n.mtime a (inl lt)

  on_owner2 : (a : ℕ) → a < p + 4 → sp_inode_encode m p n a ≡ owner2 a
  on_owner2 a lt = on_times1 a (omega (arith, lt)) ∙ put32_frame owner2 (p + 4) n.size a (inl lt)

  on_owner1 : (a : ℕ) → a < p + 2 → sp_inode_encode m p n a ≡ owner1 a
  on_owner1 a lt = on_owner2 a (omega (arith, lt)) ∙ put16_frame owner1 (p + 2) n.uid a (inl lt)

  zones_back : get_zones 9 (sp_inode_encode m p n) (p + 14) ≡ n.zone
  unfolding sp_inode_encode
  zones_back = get_zones-put_zones n.zone 9 links2 (p + 14) fits.zone_count fits.zone_widths

  -- An inode whose fields have their widths is read back from the disk as it was written.
  pub sp_inode_decode-encode : sp_inode_decode (sp_inode_encode m p n) p ≡ n
  unfolding sp_inode_decode
  sp_inode_decode-encode =
      let disk = sp_inode_encode m p n in
      let mode = get16_there disk m p n.mode fits.mode_width (λ a. λ _. λ lt. on_owner1 a lt) in
      let uid =
        get16_there disk owner1 (p + 2) n.uid fits.uid_width
          (λ a. λ _. λ lt. on_owner2 a (omega (arith, lt))) in
      let size =
        get32_there disk owner2 (p + 4) n.size fits.size_width
          (λ a. λ _. λ lt. on_times1 a (omega (arith, lt))) in
      let mtime =
        get32_there disk times1 (p + 8) n.mtime fits.mtime_width
          (λ a. λ _. λ lt. on_times2 a (omega (arith, lt))) in
      let gid : disk (p + 12) ≡ n.gid =
        on_links1 (p + 12) (omega arith)
        ∙ (poke_same times2 (p + 12) (u8 n.gid) ∙ omega (arith, fits.gid_width)) in
      let nlinks : disk (p + 13) ≡ n.nlinks =
        on_links2 (p + 13) (omega arith)
        ∙ (poke_same links1 (p + 13) (u8 n.nlinks) ∙ omega (arith, fits.nlinks_width)) in
      let zone = zones_back in
      λ i. record {
        mode = mode i;
        uid = uid i;
        size = size i;
        mtime = mtime i;
        gid = gid i;
        nlinks = nlinks i;
        zone = zone i;
      }
