-- ===== src/Kernel/Disk/Tests.antt =====
-- The disk of Reference/Linux-0.11-main/kernel/blk_drv/symdisk.c and the inodes of fs/minix_disk.c beside it, on examples.
use linux_0_11_symcc_on_turi.Base.{
  ◌+◌, ◌*◌, ◌%◌, ◌^◌, ◌<◌, ◌≡◌, refl, sym, ◌∙◌, ap, arith, ◌==◌, if◌then◌else◌, true, [], ◌∷◌, some,
  All,
}
use linux_0_11_symcc_on_turi.Emu.State.{Memory, rd32}
use linux_0_11_symcc_on_turi.Emu.Bytes.{Below}
use linux_0_11_symcc_on_turi.Emu.Run.{blank}
use linux_0_11_symcc_on_turi.Kernel.Process.State.{put}
use linux_0_11_symcc_on_turi.Kernel.Process.Switch.{put_same, put_other}
use linux_0_11_symcc_on_turi.Kernel.Disk.Minix.{Inode, sp_inode_decode, sp_inode_encode}
use linux_0_11_symcc_on_turi.Kernel.Disk.Reread.{IsInode, sp_inode_decode-encode}
use linux_0_11_symcc_on_turi.Kernel.Disk.Request.{Device, Drive, in_range, disk_request}
use linux_0_11_symcc_on_turi.Kernel.Disk.Transfer.{IsDevice, disk_request-back}
use linux_0_11_symcc_on_turi.Kernel.Disk.Queue.{Done, disk_request-Done}

abbrev ones : Memory
ones a = 1

ones-Below : Below 256 ones
ones-Below a = omega arith

-- A directory of 32 bytes in one zone.
abbrev directory : Inode
directory = record {
  mode = 16877;
  uid = 0;
  size = 32;
  mtime = 123456789;
  gid = 0;
  nlinks = 2;
  zone = 300 ∷ 0 ∷ 0 ∷ 0 ∷ 0 ∷ 0 ∷ 0 ∷ 0 ∷ 0 ∷ [];
}

directory-IsInode : IsInode directory
directory-IsInode =
    let z : 0 < 2 ^ 16 = omega arith in
    record {
      mode_width = omega arith;
      uid_width = omega arith;
      size_width = omega arith;
      mtime_width = omega arith;
      gid_width = omega arith;
      nlinks_width = omega arith;
      zone_count = refl;
      zone_widths = (omega arith, (z, (z, (z, (z, (z, (z, (z, (z, tt)))))))));
    }

sp_inode_decode-encode_example :
    sp_inode_decode (sp_inode_encode ones 128 directory) 128 ≡ directory
sp_inode_decode-encode_example = sp_inode_decode-encode ones 128 directory directory-IsInode

-- A disk as a function from addresses to words.
abbrev words_device : Device Memory
words_device = record { read_word = λ d. λ a. d a % 2 ^ 32; write_word = put }

words_device-IsDevice : IsDevice words_device
words_device-IsDevice = record {
  word = λ d. λ a. omega arith;
  written = λ d. λ a. λ v. λ lt. ap (λ w. w % 2 ^ 32) (put_same d a v) ∙ omega (arith, lt);
  others = λ d.
      λ a. λ b. λ v. λ _. λ _. λ ne. ap (λ w. w % 2 ^ 32) (put_other d a v b (λ e. ne (sym e)));
}

-- The request 0 writes the sectors 2 and 3, and the request 1 reads them.
abbrev two_requests : Drive Memory
two_requests = record {
  disk = blank;
  memory = ones;
  requests = λ i. record {
    dev = 768;
    cmd = if i == 0 then 1 else 0;
    sector = 2;
    nr_sectors = 2;
    buffer = 4096 * (i + 1);
    bh = some i;
  };
  current = 0 ∷ 1 ∷ [];
  heads = λ b. record { uptodate = true; lock = true };
  woken = [];
}

first_fits : in_range (two_requests.requests 0) ≡ true
unfolding in_range
first_fits = refl

second_fits : in_range (two_requests.requests 1) ≡ true
unfolding in_range
second_fits = refl

disk_request-back_example :
    rd32 (disk_request words_device two_requests).memory (8192 + 4 * 200)
    ≡ rd32 two_requests.memory (4096 + 4 * 200)
disk_request-back_example =
    disk_request-back words_device words_device-IsDevice two_requests 0 1 200 refl
      (λ e. omega (arith, e)) first_fits second_fits refl refl refl refl ones-Below (omega arith)

disk_request-Done_example :
    ((disk_request words_device two_requests).current ≡ [])
    × All (Done words_device two_requests (disk_request words_device two_requests)) (0 ∷ 1 ∷ [])
disk_request-Done_example = disk_request-Done words_device two_requests
