-- ===== src/Kernel/Disk/Transfer.antt =====
-- Transfers of Reference/Linux-0.11-main/kernel/blk_drv/symdisk.c: what was written to the disk is read from it.
use linux_0_11_symcc_on_turi.Base.{
  ℕ, zero, suc, ◌+◌, ◌*◌, ◌/◌, ◌%◌, ◌^◌, ◌<◌, ◌≤◌, ◌≡◌, ◌≢◌, inl, refl, ◌∙◌, ap, arith, Bool, true,
  false, ◌==◌, List, [], ◌∷◌, Option, none, some,
}
use mathlib.Core.Path.{subst}
use linux_0_11_symcc_on_turi.Base.Word.{u32}
use linux_0_11_symcc_on_turi.Emu.State.{Memory, rd32, wr32}
use linux_0_11_symcc_on_turi.Emu.Bytes.{Below, rd32-lt, rd32-wr32, wr32_frame, rd32_agree}
use linux_0_11_symcc_on_turi.Kernel.Process.State.{fail}
use linux_0_11_symcc_on_turi.Kernel.Process.Kept.{either}
use linux_0_11_symcc_on_turi.Kernel.Process.Switch.{put_other}
use linux_0_11_symcc_on_turi.Kernel.Disk.Request.{
  sp_disk_bytes, read_command, write_command, Device, Request, Drive, in_range, read_words,
  write_words, transfer, end_buffer, serve, serve_all, disk_request, attempt,
}

-- The disk's words: a word that was written is read, and the others stay.
pub record IsDevice {D : Type 0} (device : Device D) : Type 0 where
  pub word : (d : D) (a : ℕ) → device.read_word d a < 2 ^ 32
  pub written : (d : D) (a v : ℕ) → v < 2 ^ 32 → device.read_word (device.write_word d a v) a ≡ v
  pub others :
      (d : D) (a b v : ℕ)
      → a % 4 ≡ 0
      → b % 4 ≡ 0
      → a ≢ b
      → device.read_word (device.write_word d a v) b ≡ device.read_word d b

module _ {D : Type 0} (device : Device D) (laws : IsDevice device) where
  write_words_below :
      (n : ℕ) (d : D) (a : ℕ) (m : Memory) (p b : ℕ)
      → a % 4 ≡ 0
      → b % 4 ≡ 0
      → b < a
      → device.read_word (write_words device n d a m p) b ≡ device.read_word d b
  unfolding write_words
  write_words_below zero d a m p b ea eb lt = refl
  write_words_below (suc n) d a m p b ea eb lt =
      write_words_below n (device.write_word d a (rd32 m p)) (a + 4) m (p + 4) b (omega (arith, ea))
        eb (omega (arith, lt))
      ∙ laws.others d a b (rd32 m p) ea eb (λ e. omega (arith, e, lt))

  write_words_word :
      (n : ℕ) (d : D) (a : ℕ) (m : Memory) (p i : ℕ)
      → a % 4 ≡ 0
      → Below 256 m
      → i < n
      → device.read_word (write_words device n d a m p) (a + 4 * i) ≡ rd32 m (p + 4 * i)
  unfolding write_words
  write_words_word zero d a m p i ea bytes lt = absurd (omega (arith, lt))
  write_words_word (suc n) d a m p zero ea bytes lt =
      let at : a + 4 * 0 ≡ a = omega arith in
      let from : p + 4 * 0 ≡ p = omega arith in
      rw (at, from)
        (write_words_below n (device.write_word d a (rd32 m p)) (a + 4) m (p + 4) a
            (omega (arith, ea)) ea (omega arith)
          ∙ laws.written d a (rd32 m p) (rd32-lt m p bytes))
  write_words_word (suc n) d a m p (suc i) ea bytes lt =
      let at : a + 4 * suc i ≡ a + 4 + 4 * i = omega arith in
      let from : p + 4 * suc i ≡ p + 4 + 4 * i = omega arith in
      rw (at, from)
        (write_words_word n (device.write_word d a (rd32 m p)) (a + 4) m (p + 4) i
          (omega (arith, ea)) bytes (omega (arith, lt)))

  read_words_below :
      (n : ℕ) (d : D) (a : ℕ) (m : Memory) (p b : ℕ) → b < p → read_words device n d a m p b ≡ m b
  unfolding read_words
  read_words_below zero d a m p b lt = refl
  read_words_below (suc n) d a m p b lt =
      read_words_below n d (a + 4) (wr32 m p (device.read_word d a)) (p + 4) b (omega (arith, lt))
      ∙ wr32_frame m p (device.read_word d a) b (inl lt)

  read_words_word :
      (n : ℕ) (d : D) (a : ℕ) (m : Memory) (p i : ℕ)
      → i < n
      → rd32 (read_words device n d a m p) (p + 4 * i) ≡ device.read_word d (a + 4 * i)
  unfolding read_words
  read_words_word zero d a m p i lt = absurd (omega (arith, lt))
  read_words_word (suc n) d a m p zero lt =
      let at : a + 4 * 0 ≡ a = omega arith in
      let to : p + 4 * 0 ≡ p = omega arith in
      rw (at, to)
        (rd32_agree (read_words device n d (a + 4) (wr32 m p (device.read_word d a)) (p + 4))
            (wr32 m p (device.read_word d a)) p
            (λ b. λ _. λ below.
              read_words_below n d (a + 4) (wr32 m p (device.read_word d a)) (p + 4) b below)
          ∙ rd32-wr32 m p (device.read_word d a) (laws.word d a))
  read_words_word (suc n) d a m p (suc i) lt =
      let at : a + 4 * suc i ≡ a + 4 + 4 * i = omega arith in
      let to : p + 4 * suc i ≡ p + 4 + 4 * i = omega arith in
      rw (at, to)
        (read_words_word n d (a + 4) (wr32 m p (device.read_word d a)) (p + 4) i
          (omega (arith, lt)))

module _ {D : Type 0} (device : Device D) where
  -- What ends a request leaves the disk, the memory and the other requests alone.
  end_buffer_kept :
      (o : Option ℕ) (ok : Bool) (s : Drive D)
      → ((end_buffer device o ok s).disk ≡ s.disk)
        × ((end_buffer device o ok s).memory ≡ s.memory)
        × ((end_buffer device o ok s).requests ≡ s.requests)
  unfolding end_buffer
  end_buffer_kept none ok s = (refl, refl, refl)
  end_buffer_kept (some b) ok s = (refl, refl, refl)

  -- The turn of a request in range moves its words.
  pub serve_moved :
      (i : ℕ) (rest : List ℕ) (s : Drive D)
      → in_range (s.requests i) ≡ true
      → ((serve device i rest s).disk ≡ (transfer device (s.requests i) s).disk)
        × ((serve device i rest s).memory ≡ (transfer device (s.requests i) s).memory)
  unfolding serve attempt
  serve_moved i rest s ok =
      let r = s.requests i in
      let kept = end_buffer_kept r.bh (in_range r) (attempt device (in_range r) r s) in
      (
        kept.0 ∙ ap (λ b. (attempt device b r s).disk) ok,
        kept.1 ∙ ap (λ b. (attempt device b r s).memory) ok,
      )

  attempt_requests :
      (ok : Bool) (r : Request) (s : Drive D) → (attempt device ok r s).requests ≡ s.requests
  unfolding attempt transfer
  attempt_requests false r s = refl
  attempt_requests true r s =
      either {A = Drive D} (λ t. t.requests ≡ s.requests) (r.cmd == read_command) _ _ refl refl

  -- A turn leaves the other requests alone, and frees its own.
  pub serve_requests :
      (i : ℕ) (rest : List ℕ) (s : Drive D) (j : ℕ)
      → j ≢ i
      → (serve device i rest s).requests j ≡ s.requests j
  unfolding serve
  serve_requests i rest s j ne =
      let r = s.requests i in
      let moved = attempt device (in_range r) r s in
      put_other (end_buffer device r.bh (in_range r) moved).requests i (record r { dev = fail 1 }) j
        ne
      ∙ (ap (λ f. f j) (end_buffer_kept r.bh (in_range r) moved).2
          ∙ ap (λ f. f j) (attempt_requests (in_range r) r s))

  transfer_read :
      (r : Request) (s : Drive D)
      → r.cmd ≡ read_command
      → (transfer device r s).memory
        ≡ read_words device
            (u32 (r.nr_sectors * 512) / 4)
            s.disk
            (u32 (r.sector * 512))
            s.memory
            r.buffer
  unfolding transfer
  transfer_read r s e =
      let test : (r.cmd == read_command) ≡ true = ground (arith, e) in rw test refl

  transfer_write :
      (r : Request) (s : Drive D)
      → r.cmd ≡ write_command
      → ((transfer device r s).disk
          ≡ write_words device
              (u32 (r.nr_sectors * 512) / 4)
              s.disk
              (u32 (r.sector * 512))
              s.memory
              r.buffer)
        × ((transfer device r s).memory ≡ s.memory)
  unfolding transfer
  transfer_write r s e =
      let test : (r.cmd == read_command) ≡ false = ground (arith, e) in rw test (refl, refl)

-- The first word of a request on the disk, and the number of its words.
abbrev start_of : Request → ℕ
start_of r = u32 (r.sector * 512)

abbrev words_of : Request → ℕ
words_of r = u32 (r.nr_sectors * 512) / 4

module _ {D : Type 0} (device : Device D) (i : ℕ) (rest : List ℕ) (s : Drive D) where
  read_turn :
      (r : Request)
      → s.requests i ≡ r
      → in_range r ≡ true
      → r.cmd ≡ read_command
      → (serve device i rest s).memory
        ≡ read_words device (words_of r) s.disk (start_of r) s.memory r.buffer
  read_turn r e =
      subst
        (λ q.
          in_range q ≡ true
          → q.cmd ≡ read_command
          → (serve device i rest s).memory
            ≡ read_words device (words_of q) s.disk (start_of q) s.memory q.buffer)
        e
        (λ fits.
          λ cmd. (serve_moved device i rest s fits).1 ∙ transfer_read device (s.requests i) s cmd)

  write_turn :
      in_range (s.requests i) ≡ true
      → (s.requests i).cmd ≡ write_command
      → (serve device i rest s).disk
        ≡ write_words device
            (words_of (s.requests i))
            s.disk
            (start_of (s.requests i))
            s.memory
            (s.requests i).buffer
  write_turn fits cmd =
      (serve_moved device i rest s fits).0 ∙ (transfer_write device (s.requests i) s cmd).0

-- A request that is in range ends inside the disk.
in_range_words :
    (r : Request) → in_range r ≡ true → r.sector * 512 + r.nr_sectors * 512 ≤ sp_disk_bytes
unfolding in_range
in_range_words r e = ground (arith, e)

-- On a disk that keeps what is written, and with bytes in the memory: when the queue has two requests, the first
-- one to write sectors and the second one, another, to read the same, both in range, then the words that the second
-- finds in its buffer are those of the first one's buffer before.
pub disk_request-back :
    {D : Type 0} (device : Device D) (laws : IsDevice device) (s : Drive D) (w r i : ℕ)
    → s.current ≡ w ∷ r ∷ []
    → r ≢ w
    → in_range (s.requests w) ≡ true
    → in_range (s.requests r) ≡ true
    → (s.requests w).cmd ≡ write_command
    → (s.requests r).cmd ≡ read_command
    → (s.requests r).sector ≡ (s.requests w).sector
    → (s.requests r).nr_sectors ≡ (s.requests w).nr_sectors
    → Below 256 s.memory
    → i < (s.requests w).nr_sectors * 128
    → rd32 (disk_request device s).memory ((s.requests r).buffer + 4 * i)
      ≡ rd32 s.memory ((s.requests w).buffer + 4 * i)
unfolding disk_request serve_all
disk_request-back device laws s w r i queue ne w_fits r_fits w_cmd r_cmd sectors count bytes lt =
    let written = serve device w (r ∷ []) s in
    let from = s.requests w in
    let to = s.requests r in
    let size = in_range_words from w_fits in
    let same_start : start_of to ≡ start_of from = ap (λ n. u32 (n * 512)) sectors in
    let aligned : start_of from % 4 ≡ 0 = omega (arith, size) in
    let few : i < words_of from = omega (arith, lt, size) in
    let few' : i < words_of to = omega (arith, lt, size, count) in
    ap (λ q. rd32 (serve_all device q s).memory (to.buffer + 4 * i)) queue
    ∙ (ap (λ m. rd32 m (to.buffer + 4 * i))
          (read_turn device r [] written to (serve_requests device w (r ∷ []) s r ne) r_fits r_cmd)
        ∙ (read_words_word device laws (words_of to) written.disk (start_of to) written.memory
              to.buffer i few'
            ∙ (ap (λ a. device.read_word written.disk (a + 4 * i)) same_start
                ∙ (ap (λ d. device.read_word d (start_of from + 4 * i))
                      (write_turn device w (r ∷ []) s w_fits w_cmd)
                    ∙ write_words_word device laws (words_of from) s.disk (start_of from) s.memory
                        from.buffer i aligned bytes few))))
