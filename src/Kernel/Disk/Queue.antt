-- ===== src/Kernel/Disk/Queue.antt =====
-- The queue of Reference/Linux-0.11-main/kernel/blk_drv/symdisk.c is worked off.
use linux_0_11_symcc_on_turi.Base.{
  ℕ, ◌≡◌, refl, sym, ◌∙◌, ap, Bool, true, false, ◌==◌, List, [], ◌∷◌, Option, none, some, All,
}
use mathlib.Core.Path.{subst}
use linux_0_11_symcc_on_turi.Kernel.Process.State.{fail}
use linux_0_11_symcc_on_turi.Kernel.Process.Kept.{either}
use linux_0_11_symcc_on_turi.Kernel.Process.Switch.{put_same, put_field}
use linux_0_11_symcc_on_turi.Kernel.Disk.Request.{
  read_command, Device, Request, BufferHead, Drive, in_range, transfer, end_buffer, serve,
  serve_all, disk_request, attempt,
}

-- The buffer of a request, if it has one, is no longer locked.
abbrev pub Unlocked : Option ℕ → (ℕ → BufferHead) → Type 0
Unlocked none heads = Unit
Unlocked (some b) heads = (heads b).lock ≡ false

-- A request is free when its device is -1.
abbrev pub IsFree : Request → Type 0
IsFree r = r.dev ≡ fail 1

module _ {D : Type 0} (device : Device D) where
  attempt_same :
      (ok : Bool) (r : Request) (s : Drive D)
      → ((attempt device ok r s).requests ≡ s.requests) × ((attempt device ok r s).heads ≡ s.heads)
  unfolding attempt transfer
  attempt_same false r s = (refl, refl)
  attempt_same true r s =
      either {A = Drive D} (λ t. (t.requests ≡ s.requests) × (t.heads ≡ s.heads))
        (r.cmd == read_command) _ _ (refl, refl) (refl, refl)

  end_buffer_requests :
      (o : Option ℕ) (ok : Bool) (s : Drive D) → (end_buffer device o ok s).requests ≡ s.requests
  unfolding end_buffer
  end_buffer_requests none ok s = refl
  end_buffer_requests (some b) ok s = refl

  end_buffer-Unlocked :
      (o : Option ℕ) (ok : Bool) (s : Drive D) → Unlocked o (end_buffer device o ok s).heads
  unfolding end_buffer
  end_buffer-Unlocked none ok s = tt
  end_buffer-Unlocked (some b) ok s =
      ap (λ h. h.lock) (put_same s.heads b (record { uptodate = ok; lock = false }))

  end_buffer_kept :
      (o p : Option ℕ) (ok : Bool) (s : Drive D)
      → Unlocked p s.heads
      → Unlocked p (end_buffer device o ok s).heads
  unfolding end_buffer
  end_buffer_kept o none ok s h = tt
  end_buffer_kept none (some c) ok s h = h
  end_buffer_kept (some b) (some c) ok s h =
      either {A = BufferHead} (λ k. k.lock ≡ false) (c == b) _ _ refl h

  module _ (i : ℕ) (rest : List ℕ) (s : Drive D) where
    abbrev ended : Drive D
    ended =
        end_buffer device (s.requests i).bh (in_range (s.requests i))
          (attempt device (in_range (s.requests i)) (s.requests i) s)

    ended_requests : ended.requests ≡ s.requests
    ended_requests =
        end_buffer_requests (s.requests i).bh (in_range (s.requests i))
          (attempt device (in_range (s.requests i)) (s.requests i) s)
        ∙ (attempt_same (in_range (s.requests i)) (s.requests i) s).0

    serve-IsFree : IsFree ((serve device i rest s).requests i)
    unfolding serve
    serve-IsFree =
        ap (λ r. r.dev) (put_same ended.requests i (record (s.requests i) { dev = fail 1 }))

    serve-Unlocked : Unlocked (s.requests i).bh (serve device i rest s).heads
    unfolding serve
    serve-Unlocked =
        end_buffer-Unlocked (s.requests i).bh (in_range (s.requests i))
          (attempt device (in_range (s.requests i)) (s.requests i) s)

    serve-IsFree_kept :
        (j : ℕ) → IsFree (s.requests j) → IsFree ((serve device i rest s).requests j)
    unfolding serve
    serve-IsFree_kept j h =
        either {A = Request} IsFree (j == i) _ _ refl
          (subst (λ f. IsFree (f j)) (sym ended_requests) h)

    serve-Unlocked_kept :
        (p : Option ℕ) → Unlocked p s.heads → Unlocked p (serve device i rest s).heads
    unfolding serve
    serve-Unlocked_kept p h =
        let moved = attempt device (in_range (s.requests i)) (s.requests i) s in
        end_buffer_kept (s.requests i).bh p (in_range (s.requests i)) moved
          (subst (Unlocked p) (sym (attempt_same (in_range (s.requests i)) (s.requests i) s).1) h)

    serve_bh : (j : ℕ) → ((serve device i rest s).requests j).bh ≡ (s.requests j).bh
    unfolding serve
    serve_bh j =
        put_field (λ r. r.bh) ended.requests i (record (s.requests i) { dev = fail 1 })
          (ap (λ f. (f i).bh) (sym ended_requests)) j
        ∙ ap (λ f. (f j).bh) ended_requests

  serve_all-IsFree :
      (q : List ℕ) (s : Drive D) (j : ℕ)
      → IsFree (s.requests j)
      → IsFree ((serve_all device q s).requests j)
  unfolding serve_all
  serve_all-IsFree [] s j h = h
  serve_all-IsFree (i ∷ q) s j h =
      serve_all-IsFree q (serve device i q s) j (serve-IsFree_kept i q s j h)

  serve_all-Unlocked :
      (q : List ℕ) (s : Drive D) (p : Option ℕ)
      → Unlocked p s.heads
      → Unlocked p (serve_all device q s).heads
  unfolding serve_all
  serve_all-Unlocked [] s p h = h
  serve_all-Unlocked (i ∷ q) s p h =
      serve_all-Unlocked q (serve device i q s) p (serve-Unlocked_kept i q s p h)

  -- In `t`, the request `j` of `s` has ended.
  abbrev pub Done : Drive D → Drive D → ℕ → Type 0
  Done s t j = IsFree (t.requests j) × Unlocked (s.requests j).bh t.heads

  -- Buffers of requests that were the same before are so after a turn.
  Done-before :
      (i : ℕ) (rest : List ℕ) (s t : Drive D) (q : List ℕ)
      → All (Done (serve device i rest s) t) q
      → All (Done s t) q
  Done-before i rest s t [] h = tt
  Done-before i rest s t (j ∷ q) ((free, unlocked), h) = (
    (free, subst (λ o. Unlocked o t.heads) (serve_bh i rest s j) unlocked),
    Done-before i rest s t q h,
  )

  serve_all-Done : (q : List ℕ) (s : Drive D) → All (Done s (serve_all device q s)) q
  unfolding serve_all
  serve_all-Done [] s = tt
  serve_all-Done (i ∷ q) s =
      let next = serve device i q s in
      (
        (
          serve_all-IsFree q next i (serve-IsFree i q s),
          serve_all-Unlocked q next (s.requests i).bh (serve-Unlocked i q s),
        ),
        Done-before i q s (serve_all device q next) q (serve_all-Done q next),
      )

  serve_rest : (i : ℕ) (q : List ℕ) (s : Drive D) → (serve device i q s).current ≡ q
  unfolding serve
  serve_rest i q s = refl

  serve_all_current :
      (q : List ℕ) (s : Drive D) → s.current ≡ q → (serve_all device q s).current ≡ []
  unfolding serve_all
  serve_all_current [] s e = e
  serve_all_current (i ∷ q) s e = serve_all_current q (serve device i q s) (serve_rest i q s)

  -- The driver comes to an end of the queue, whatever the requests are: then the queue is empty, each request that was in it
  -- is free, and the buffer of each is no longer locked.
  pub disk_request-Done :
      (s : Drive D)
      → ((disk_request device s).current ≡ []) × All (Done s (disk_request device s)) s.current
  unfolding disk_request
  disk_request-Done s = (serve_all_current s.current s refl, serve_all-Done s.current s)
