-- ===== src/Kernel/Process/Users.antt =====
-- The checks of user addresses in Reference/Linux-0.11-main/kernel/symplus/process.c. An address is an
-- `unsigned`; the sum of base and size does not wrap.
use linux_0_11_symcc_on_turi.Base.{
  ℕ, zero, suc, ◌+◌, ◌^◌, ◌<◌, ◌≤◌, ◌≡◌, ◌↔◌, refl, sym, arith, Bool, true, false, ◌&&◌, leb, ◌==◌,
  if◌then◌else◌, ==_iff,
}
use mathlib.Core.Path.{subst}
use linux_0_11_symcc_on_turi.Base.Word.{sub32, u32}
use linux_0_11_symcc_on_turi.Emu.State.{Memory}
use linux_0_11_symcc_on_turi.Kernel.Process.State.{sp_user_base, sp_user_size}

unfoldable pub sp_user_range : ℕ → ℕ → Bool
sp_user_range addr len =
    leb sp_user_base addr
    && (leb addr (sp_user_base + sp_user_size)
        && leb len (sub32 (sp_user_base + sp_user_size) addr))

-- `user_string` from the `i`-th byte on, with `left` bytes still allowed.
unfoldable pub string_from : ℕ → Memory → ℕ → ℕ → Bool
string_from zero mem s i = false
string_from (suc left) mem s i =
    let rest = string_from left mem s (i + 1) in
    if sp_user_range (u32 (s + i)) 1 then (if mem (u32 (s + i)) == 0 then true else rest) else false

unfoldable pub user_string : Memory → ℕ → Bool
unfolding string_from
user_string mem s = string_from 4096 mem s 0

-- A range passes exactly when all of it lies in the user window: its end is not past the window's, and
-- no sum wraps.
pub sp_user_range_iff :
    (addr len : ℕ)
    → addr < 2 ^ 32
    → (sp_user_range addr len ≡ true)
      ↔ ((sp_user_base ≤ addr) × (addr + len ≤ sp_user_base + sp_user_size))
unfolding sp_user_range
sp_user_range_iff addr len h = ground arith

-- A NUL stands among the first 4096 bytes, and all bytes up to it in the window.
pub record IsString (mem : Memory) (s : ℕ) : Type 0 where
  pub len : ℕ
  pub short : len < 4096
  pub ends : mem (u32 (s + len)) ≡ 0
  pub inside :
      (j : ℕ) → j ≤ len → (sp_user_base ≤ u32 (s + j)) × (u32 (s + j) < sp_user_base + sp_user_size)

-- The same from the `i`-th byte on, in the code's own test.
record Reaches (mem : Memory) (s i left : ℕ) : Type 0 where
  len : ℕ
  short : len < left
  ends : mem (u32 (s + (i + len))) ≡ 0
  inside : (j : ℕ) → j ≤ len → sp_user_range (u32 (s + (i + j))) 1 ≡ true

bool_clash : {b : Bool} → b ≡ false → b ≡ true → ⊥
bool_clash f t = ground arith

-- One byte further.
further : (i j : ℕ) → i + suc j ≡ i + 1 + j
further i j = omega arith

stays : (i : ℕ) → i ≡ i + 0
stays i = omega arith

string_from_sound :
    (left : ℕ) (mem : Memory) (s i : ℕ) → string_from left mem s i ≡ true → Reaches mem s i left
unfolding string_from
string_from_sound zero mem s i h = absurd (ground arith)
string_from_sound (suc left) mem s i h =
    go (sp_user_range (u32 (s + i)) 1) refl (mem (u32 (s + i)) == 0) refl h
      (string_from_sound left mem s (i + 1))
  where
    first : sp_user_range (u32 (s + i)) 1 ≡ true → sp_user_range (u32 (s + (i + 0))) 1 ≡ true
    first e = rw (← (stays i)) e

    go :
        (r : Bool)
        → sp_user_range (u32 (s + i)) 1 ≡ r
        → (z : Bool) → (mem (u32 (s + i)) == 0) ≡ z
        → (if r then (if z then true else string_from left mem s (i + 1)) else false) ≡ true
        → (string_from left mem s (i + 1) ≡ true → Reaches mem s (i + 1) left)
        → Reaches mem s i (suc left)
    go false er z ez k ih = absurd (ground arith)
    go true er true ez k ih = record {
      len = 0;
      short = omega arith;
      ends = rw (← (stays i)) ((==_iff (mem (u32 (s + i))) 0).0 ez);
      inside = λ j le.
          let none_left : 0 ≡ j = omega arith in
          subst (λ x. sp_user_range (u32 (s + (i + x))) 1 ≡ true) none_left (first er);
    }
    go true er false ez k ih =
        let r = ih k in
        record {
          len = suc r.len;
          short = omega (arith, r.short);
          ends = rw (further i r.len) r.ends;
          inside = λ j.
              elim j as (λ x. x ≤ suc r.len → sp_user_range (u32 (s + (i + x))) 1 ≡ true) [
                | zero ↦ λ le. first er
                | suc m ↦ λ le. rw (further i m) (r.inside m (omega arith))
              ];
        }

string_from_complete :
    (left : ℕ) (mem : Memory) (s i len : ℕ)
    → len < left
    → mem (u32 (s + (i + len))) ≡ 0
    → ((j : ℕ) → j ≤ len → sp_user_range (u32 (s + (i + j))) 1 ≡ true)
    → string_from left mem s i ≡ true
unfolding string_from
string_from_complete zero mem s i len short ends inside = absurd (omega arith)
string_from_complete (suc left) mem s i len short ends inside = rw start (
    go (mem (u32 (s + i)) == 0) refl len short ends inside
      (string_from_complete left mem s (i + 1)))
  where
    start : sp_user_range (u32 (s + i)) 1 ≡ true
    start =
        subst (λ x. sp_user_range (u32 (s + x)) 1 ≡ true) (sym (stays i)) (inside 0 (omega arith))

    go :
        (z : Bool)
        → (mem (u32 (s + i)) == 0) ≡ z
        → (l : ℕ) → l < suc left
        → mem (u32 (s + (i + l))) ≡ 0
        → ((j : ℕ) → j ≤ l → sp_user_range (u32 (s + (i + j))) 1 ≡ true)
        → ((m : ℕ)
            → m < left
            → mem (u32 (s + (i + 1 + m))) ≡ 0
            → ((j : ℕ) → j ≤ m → sp_user_range (u32 (s + (i + 1 + j))) 1 ≡ true)
            → string_from left mem s (i + 1) ≡ true)
        → (if z then true else string_from left mem s (i + 1)) ≡ true
    go true ez l lt e all ih = refl
    go false ez zero lt e all ih = absurd (
        bool_clash ez
          ((==_iff (mem (u32 (s + i))) 0).1 (subst (λ x. mem (u32 (s + x)) ≡ 0) (sym (stays i)) e)))
    go false ez (suc m) lt e all ih =
        ih m (omega arith) (subst (λ x. mem (u32 (s + x)) ≡ 0) (further i m) e) (λ j le.
          subst (λ x. sp_user_range (u32 (s + x)) 1 ≡ true) (further i j)
            (all (suc j) (omega arith)))

-- A byte passes exactly when it lies in the window.
byte_iff :
    (a : ℕ)
    → (sp_user_range (u32 a) 1 ≡ true)
      ↔ ((sp_user_base ≤ u32 a) × (u32 a < sp_user_base + sp_user_size))
byte_iff a =
    let (into, back) = sp_user_range_iff (u32 a) 1 (omega arith) in
    (
      λ e. let (low, high) = into e in (low, omega (arith, high)),
      λ h. back (h.0, omega (arith, h.1)),
    )

from_start : (j : ℕ) → 0 + j ≡ j
from_start j = omega arith

-- `user_string` accepts exactly the strings whose NUL is among the first 4096 bytes, with no byte up to
-- it below the user window or behind it.
pub user_string_iff : (mem : Memory) (s : ℕ) → (user_string mem s ≡ true) ↔ IsString mem s
unfolding user_string
user_string_iff mem s = (
  λ h.
      let r = string_from_sound 4096 mem s 0 h in
      record {
        len = r.len;
        short = r.short;
        ends = subst (λ x. mem (u32 (s + x)) ≡ 0) (from_start r.len) r.ends;
        inside = λ j le.
            (byte_iff (s + j)).0
              (subst (λ x. sp_user_range (u32 (s + x)) 1 ≡ true) (from_start j) (r.inside j le));
      },
  λ r.
      string_from_complete 4096 mem s 0 r.len r.short
        (subst (λ x. mem (u32 (s + x)) ≡ 0) (sym (from_start r.len)) r.ends)
        (λ j le.
          subst (λ x. sp_user_range (u32 (s + x)) 1 ≡ true) (sym (from_start j))
            ((byte_iff (s + j)).1 (r.inside j le))),
)
