-- ===== src/Isa/Writes.antt =====
-- The operand fields of an instruction word as a list of writes at places that do not overlap.
use linux_0_11_symcc_on_turi.Base.{
  ℕ, ◌+◌, ◌*◌, ◌^◌, ◌<◌, ◌≤◌, ◌≡◌, ◌⊎◌, inl, inr, refl, arith, ◌∙◌, Bool, true, false, ◌&&◌, ◌||◌,
  leb, leb→le, le→leb, ◌==◌, ==_iff, List, [], ◌∷◌, bit_or, All,
}
use native.Mathlib.Nat.{mod-eq_of_lt}
use linux_0_11_symcc_on_turi.Base.Word.{u32, ◌<<◌}
use linux_0_11_symcc_on_turi.Base.Bits.{bit_or_field}
use linux_0_11_symcc_on_turi.Isa.Fields.{
  slice, slice-add_self, slice-add_above, slice-add_below, shift-lt,
}

pub record Write : Type 0 where
  pub pos : ℕ
  pub width : ℕ
  pub value : ℕ

-- Two places that do not overlap.
abbrev pub apart : ℕ → ℕ → ℕ → ℕ → Bool
apart p w q u = leb (p + w) q || leb (q + u) p

abbrev pub apart_all : ℕ → ℕ → List Write → Bool
apart_all q u [] = true
apart_all q u (w ∷ ws) = apart w.pos w.width q u && apart_all q u ws

-- The writes fit below bit 24, go to clear bits and do not overlap.
abbrev pub ok_writes : ℕ → List Write → Bool
ok_writes x [] = true
ok_writes x (w ∷ ws) =
    leb (w.pos + w.width) 24
    && ((slice w.pos w.width x == 0) && (apart_all w.pos w.width ws && ok_writes x ws))

abbrev pub InRange : Write → Type 0
InRange w = w.value < 2 ^ w.width

abbrev pub Reads : ℕ → Write → Type 0
Reads x w = slice w.pos w.width x ≡ w.value

unfoldable pub apply : List Write → ℕ → ℕ
apply [] x = x
apply (w ∷ ws) x = apply ws (bit_or x (u32 (w.value << w.pos)))

pub and_parts : (a b : Bool) → (a && b) ≡ true → (a ≡ true) × (b ≡ true)
and_parts true b h = (refl, h)
and_parts false b h = ground arith

and_true : (a b : Bool) → a ≡ true → b ≡ true → (a && b) ≡ true
and_true a b h k = ground arith

apart_sym : (p w q u : ℕ) → apart p w q u ≡ true → apart q u p w ≡ true
apart_sym p w q u h = ground arith

-- What `ok_writes` says of the first write.
record Head (x : ℕ) (w : Write) (ws : List Write) : Type 0 where
  fits : w.pos + w.width ≤ 24
  clear : slice w.pos w.width x ≡ 0
  alone : apart_all w.pos w.width ws ≡ true
  rest : ok_writes x ws ≡ true

head : (x : ℕ) (w : Write) (ws : List Write) → ok_writes x (w ∷ ws) ≡ true → Head x w ws
head x w ws ok =
    let a = and_parts (leb (w.pos + w.width) 24) _ ok in
    let b = and_parts (slice w.pos w.width x == 0) _ a.1 in
    let c = and_parts (apart_all w.pos w.width ws) _ b.1 in
    record {
      fits = leb→le _ _ a.0;
      clear = (==_iff (slice w.pos w.width x) 0).0 b.0;
      alone = c.0;
      rest = c.1;
    }

-- One write is an addition.
put-add :
    (w : Write) (x : ℕ)
    → w.pos + w.width ≤ 24
    → slice w.pos w.width x ≡ 0
    → InRange w
    → bit_or x (u32 (w.value << w.pos)) ≡ x + w.value * 2 ^ w.pos
put-add w x fits clear range =
    rw (mod-eq_of_lt (shift-lt w.pos w.width w.value fits range))
      (bit_or_field w.pos w.width x w.value clear range)

slice-put :
    (w : Write) (q u x : ℕ)
    → w.pos + w.width ≤ 24
    → slice w.pos w.width x ≡ 0
    → InRange w
    → apart w.pos w.width q u ≡ true
    → slice q u (bit_or x (u32 (w.value << w.pos))) ≡ slice q u x
slice-put w q u x fits clear range h = rw (put-add w x fits clear range) (side (leb-or h))
  where
    leb-or : apart w.pos w.width q u ≡ true → (w.pos + w.width ≤ q) ⊎ (q + u ≤ w.pos)
    leb-or e = ground arith

    side :
        (w.pos + w.width ≤ q) ⊎ (q + u ≤ w.pos) → slice q u (x + w.value * 2 ^ w.pos) ≡ slice q u x
    side (inl above) = slice-add_above w.pos w.width q u x w.value clear range above
    side (inr below) = slice-add_below w.pos q u x w.value below

-- A write leaves the rest in order.
ok_writes-put :
    (w : Write) (x : ℕ) (ws : List Write)
    → w.pos + w.width ≤ 24
    → slice w.pos w.width x ≡ 0
    → InRange w
    → apart_all w.pos w.width ws ≡ true
    → ok_writes x ws ≡ true
    → ok_writes (bit_or x (u32 (w.value << w.pos))) ws ≡ true
ok_writes-put w x [] fits clear range h k = refl
ok_writes-put w x (v ∷ ws) fits clear range h k =
    let a = head x v ws k in
    let b = and_parts (apart v.pos v.width w.pos w.width) _ h in
    let same =
      slice-put w v.pos v.width x fits clear range (apart_sym v.pos v.width w.pos w.width b.0) in
    and_true _ _ (le→leb _ _ a.fits) (
      and_true _ _ ((==_iff _ 0).1 (same ∙ a.clear))
        (and_true _ _ a.alone (ok_writes-put w x ws fits clear range b.1 a.rest)))

-- Places apart from all the writes keep what they hold.
pub slice-apply :
    (ws : List Write) (x q u : ℕ)
    → ok_writes x ws ≡ true
    → All InRange ws
    → apart_all q u ws ≡ true
    → slice q u (apply ws x) ≡ slice q u x
unfolding apply
slice-apply [] x q u ok range h = refl
slice-apply (w ∷ ws) x q u ok range h =
    let a = head x w ws ok in
    let b = and_parts (apart w.pos w.width q u) _ h in
    slice-apply ws _ q u (ok_writes-put w x ws a.fits a.clear range.0 a.alone a.rest) range.1 b.1
    ∙ slice-put w q u x a.fits a.clear range.0 b.0

-- Every write is read back from the finished word.
pub apply-Reads :
    (ws : List Write) (x : ℕ) → ok_writes x ws ≡ true → All InRange ws → All (Reads (apply ws x)) ws
unfolding apply
apply-Reads [] x ok range = tt
apply-Reads (w ∷ ws) x ok range =
    let a = head x w ws ok in
    let ok' = ok_writes-put w x ws a.fits a.clear range.0 a.alone a.rest in
    let written : slice w.pos w.width (bit_or x (u32 (w.value << w.pos))) ≡ w.value =
      rw (put-add w x a.fits a.clear range.0)
        (slice-add_self w.pos w.width x w.value a.clear range.0) in
    (slice-apply ws _ w.pos w.width ok' range.1 a.alone ∙ written, apply-Reads ws _ ok' range.1)
