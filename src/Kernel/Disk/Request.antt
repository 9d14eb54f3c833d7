-- ===== src/Kernel/Disk/Request.antt =====
-- The driver of the disk, Reference/Linux-0.11-main/kernel/blk_drv/symdisk.c.
use linux_0_11_symcc_on_turi.Base.{
  ℕ, zero, suc, ◌+◌, ◌-◌, ◌*◌, ◌/◌, ◌%◌, Bool, true, false, ◌&&◌, ◌||◌, ltb, leb, ◌==◌,
  if◌then◌else◌, List, [], ◌∷◌, ◌++◌, Option, none, some,
}
use linux_0_11_symcc_on_turi.Base.Word.{u32}
use linux_0_11_symcc_on_turi.Emu.State.{Memory, rd32, wr32}
use linux_0_11_symcc_on_turi.Kernel.Process.State.{put, fail}

-- runtime/platform.h
abbrev pub sp_disk_bytes : ℕ
sp_disk_bytes = 0x2000000

-- The commands READ and WRITE of include/linux/fs.h.
abbrev pub read_command : ℕ
read_command = 0

abbrev pub write_command : ℕ
write_command = 1

-- The disk's instructions `sp_disk_read32` and `sp_disk_write32`.
pub record Device (D : Type 0) : Type 0 where
  pub read_word : D → ℕ → ℕ
  pub write_word : D → ℕ → ℕ → D

-- `struct request`; `bh` is the number of a buffer head.
pub record Request : Type 0 where
  pub dev : ℕ
  pub cmd : ℕ
  pub sector : ℕ
  pub nr_sectors : ℕ
  pub buffer : ℕ
  pub bh : Option ℕ

pub record BufferHead : Type 0 where
  pub uptodate : Bool
  pub lock : Bool

-- Who a `wake_up` is for: the tasks that wait for a buffer, for a request, or for a free one.
pub data Sleeper : Type 0 where
  of_buffer of_request : ℕ → Sleeper
  of_requests : Sleeper

-- `current` is the list at `blk_dev[3].current_request`, of numbers of requests. `woken` are the calls of `wake_up`.
pub record Drive (D : Type 0) : Type 0 where
  pub disk : D
  pub memory : Memory
  pub requests : ℕ → Request
  pub current : List ℕ
  pub heads : ℕ → BufferHead
  pub woken : List Sleeper

-- The condition of `ok`.
unfoldable pub in_range : Request → Bool
in_range r =
    (r.dev % 256 == 0)
    && (ltb r.sector (sp_disk_bytes / 512)
        && (leb r.nr_sectors (sp_disk_bytes / 512 - r.sector)
            && ((r.cmd == read_command) || (r.cmd == write_command))))

module _ {D : Type 0} (device : Device D) where
  -- The loop of a READ, and that of a WRITE: `n` words, from `address` of the disk and `buffer` of the memory on.
  unfoldable pub read_words : ℕ → D → ℕ → Memory → ℕ → Memory
  read_words zero disk address memory buffer = memory
  read_words (suc n) disk address memory buffer =
      read_words n disk (address + 4) (wr32 memory buffer (device.read_word disk address))
        (buffer + 4)

  unfoldable pub write_words : ℕ → D → ℕ → Memory → ℕ → D
  write_words zero disk address memory buffer = disk
  write_words (suc n) disk address memory buffer =
      write_words n (device.write_word disk address (rd32 memory buffer)) (address + 4) memory
        (buffer + 4)

  -- The transfer of one request that is in range.
  unfoldable pub transfer : Request → Drive D → Drive D
  unfolding read_words write_words
  transfer r s =
      let address = u32 (r.sector * 512) in
      let words = u32 (r.nr_sectors * 512) / 4 in
      if r.cmd == read_command
      then (record s { memory = read_words words s.disk address s.memory r.buffer })
      else (record s { disk = write_words words s.disk address s.memory r.buffer })

  -- `if(ok) {...}`
  unfoldable pub attempt : Bool → Request → Drive D → Drive D
  unfolding transfer
  attempt true r s = transfer r s
  attempt false r s = s

  -- `if(r->bh) {...}`
  unfoldable pub end_buffer : Option ℕ → Bool → Drive D → Drive D
  end_buffer none ok s = s
  end_buffer (some b) ok s = record s {
    heads = put s.heads b (record { uptodate = ok; lock = false });
    woken = s.woken ++ (of_buffer b ∷ []);
  }

  -- One turn of the loop, for the request number `i`, with those behind it.
  unfoldable pub serve : ℕ → List ℕ → Drive D → Drive D
  unfolding in_range attempt end_buffer
  serve i rest s =
      let r = s.requests i in
      let ok = in_range r in
      let moved = attempt ok r s in
      let ended = end_buffer r.bh ok moved in
      record ended {
        woken = ended.woken ++ (of_request i ∷ of_requests ∷ []);
        requests = put ended.requests i (record r { dev = fail 1 });
        current = rest;
      }

  unfoldable pub serve_all : List ℕ → Drive D → Drive D
  unfolding serve
  serve_all [] s = s
  serve_all (i ∷ rest) s = serve_all rest (serve i rest s)

  unfoldable pub disk_request : Drive D → Drive D
  unfolding serve_all
  disk_request s = serve_all s.current s
