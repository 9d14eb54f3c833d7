-- ===== src/Kernel/Disk/Minix.antt =====
-- The records of a MINIX disk, in Reference/Linux-0.11-main/fs/minix_disk.c: big-endian numbers at fixed places.
use linux_0_11_symcc_on_turi.Base.{
  ℕ, zero, suc, ◌+◌, ◌*◌, ◌%◌, ◌^◌, ◌<◌, ◌≤◌, ◌≡◌, ◌⊎◌, refl, arith, List, [], ◌∷◌, bit_or,
}
use linux_0_11_symcc_on_turi.Base.Word.{u8, ◌<<◌, ◌>>◌}
use linux_0_11_symcc_on_turi.Base.Bits.{bit_or_low}
use linux_0_11_symcc_on_turi.Emu.State.{Memory, poke}
use linux_0_11_symcc_on_turi.Emu.Bytes.{Below}

-- `u16`, `u32`, `p16` and `p32`.
unfoldable pub get16 : Memory → ℕ → ℕ
get16 m p = bit_or (m p << 8) (m (p + 1))

unfoldable pub get32 : Memory → ℕ → ℕ
unfolding get16
get32 m p = bit_or (get16 m p << 16) (get16 m (p + 2))

unfoldable pub put16 : Memory → ℕ → ℕ → Memory
put16 m p v = poke (poke m p (u8 (v >> 8))) (p + 1) (u8 v)

unfoldable pub put32 : Memory → ℕ → ℕ → Memory
unfolding put16
put32 m p v = put16 (put16 m p (v >> 16)) (p + 2) v

-- The fields of `struct m_inode` that are on the disk; `zone` has the nine of `i_zone`.
pub record Inode : Type 0 where
  pub mode : ℕ
  pub uid : ℕ
  pub size : ℕ
  pub mtime : ℕ
  pub gid : ℕ
  pub nlinks : ℕ
  pub zone : List ℕ

-- `n` 16-bit numbers, one after the other.
unfoldable pub get_zones : ℕ → Memory → ℕ → List ℕ
unfolding get16
get_zones zero m p = []
get_zones (suc n) m p = get16 m p ∷ get_zones n m (p + 2)

unfoldable pub put_zones : Memory → ℕ → List ℕ → Memory
unfolding put16
put_zones m p [] = m
put_zones m p (z ∷ zs) = put_zones (put16 m p z) (p + 2) zs

unfoldable pub sp_inode_decode : Memory → ℕ → Inode
unfolding get16 get32 get_zones
sp_inode_decode m p = record {
  mode = get16 m p;
  uid = get16 m (p + 2);
  size = get32 m (p + 4);
  mtime = get32 m (p + 8);
  gid = m (p + 12);
  nlinks = m (p + 13);
  zone = get_zones 9 m (p + 14);
}

unfoldable pub sp_inode_encode : Memory → ℕ → Inode → Memory
unfolding put16 put32 put_zones
sp_inode_encode m p n =
    let owner = put16 (put16 m p n.mode) (p + 2) n.uid in
    let times = put32 (put32 owner (p + 4) n.size) (p + 8) n.mtime in
    put_zones (poke (poke times (p + 12) (u8 n.gid)) (p + 13) (u8 n.nlinks)) (p + 14) n.zone

-- The fields of `struct super_block` that are on the disk.
pub record SuperBlock : Type 0 where
  pub ninodes : ℕ
  pub nzones : ℕ
  pub imap_blocks : ℕ
  pub zmap_blocks : ℕ
  pub firstdatazone : ℕ
  pub log_zone_size : ℕ
  pub max_size : ℕ
  pub magic : ℕ

unfoldable pub sp_super_decode : Memory → ℕ → SuperBlock
unfolding get16 get32
sp_super_decode m p = record {
  ninodes = get16 m p;
  nzones = get16 m (p + 2);
  imap_blocks = get16 m (p + 4);
  zmap_blocks = get16 m (p + 6);
  firstdatazone = get16 m (p + 8);
  log_zone_size = get16 m (p + 10);
  max_size = get32 m (p + 12);
  magic = get16 m (p + 16);
}

pub get16_sum : (m : Memory) (p : ℕ) → Below 256 m → get16 m p ≡ m p * 256 + m (p + 1)
unfolding get16
get16_sum m p h =
    let shifted : m p << 8 ≡ m p * 2 ^ 8 = omega (arith, h p) in
    rw shifted (bit_or_low 8 (m p) (m (p + 1)) (h (p + 1)))

pub get32_sum : (m : Memory) (p : ℕ) → Below 256 m → get32 m p ≡ get16 m p * 65536 + get16 m (p + 2)
unfolding get32
get32_sum m p h =
    let high : get16 m p << 16 ≡ get16 m p * 2 ^ 16 =
      omega (arith, get16_sum m p h, h p, h (p + 1)) in
    let low : get16 m (p + 2) < 2 ^ 16 =
      omega (arith, get16_sum m (p + 2) h, h (p + 2), h (p + 2 + 1)) in
    rw high (bit_or_low 16 (get16 m p) (get16 m (p + 2)) low)

-- What one write leaves, cell by cell.
pub put16_frame : (m : Memory) (p v a : ℕ) → (a < p) ⊎ (p + 2 ≤ a) → put16 m p v a ≡ m a
unfolding put16 poke
put16_frame m p v a h = ground arith

-- A cell that has the byte of another memory keeps it when a number of that memory is written.
pub put16-get16 : (m k : Memory) (p a : ℕ) → Below 256 m → k a ≡ m a → put16 k p (get16 m p) a ≡ m a
unfolding put16 poke
put16-get16 m k p a h e = ground (arith, get16_sum m p h, h p, h (p + 1), e)

pub get16-put16 : (m : Memory) (p v : ℕ) → v < 2 ^ 16 → get16 (put16 m p v) p ≡ v
unfolding get16 put16 poke
get16-put16 m p v h = ground (arith, bit_or_low 8 (v >> 8) (u8 v) (omega arith))

pub get16_agree : (m k : Memory) (p : ℕ) → m p ≡ k p → m (p + 1) ≡ k (p + 1) → get16 m p ≡ get16 k p
unfolding get16
get16_agree m k p e f = rw (e, f) refl

-- A write of 16 bits sees no more of its number.
pub put16_low : (k : Memory) (p v w a : ℕ) → v % 2 ^ 16 ≡ w → put16 k p v a ≡ put16 k p w a
unfolding put16 poke
put16_low k p v w a e = ground (arith, e)
