-- ===== src/Symcc/Image/Apart.antt =====
-- The symbols of an image (symcc/src/link_image.c) are told apart.
use linux_0_11_symcc_on_turi.Base.{
  ℕ, ◌+◌, ◌-◌, ◌%◌, ◌^◌, ◌<◌, ◌≤◌, ◌≡◌, ◌≢◌, ◌⊎◌, inl, inr, refl, ap, arith, Bool, true, false,
  ◌||◌, ltb, if◌then◌else◌, List, [], ◌∷◌, ◌++◌, All,
}
use linux_0_11_symcc_on_turi.Base.Int.{ℤ, pos, negsuc}
use linux_0_11_symcc_on_turi.Base.Word.{u32}
use linux_0_11_symcc_on_turi.Base.Text.{str_eq, str_eq_refl}
use linux_0_11_symcc_on_turi.Symcc.Image.Table.{
  ImageSym, Image, advance_image, align_image, is_taken, any_sym, add_sym, fail_image,
}

-- Two symbols of one name have two owners, and one of them at most is exported.
abbrev pub Distinct : ImageSym → ImageSym → Type 0
Distinct s t =
    (s.name ≢ t.name) ⊎ ((s.owner ≢ t.owner) × ((s.is_exported ≡ false) ⊎ (t.is_exported ≡ false)))

abbrev pub Apart : List ImageSym → Type 0
Apart [] = Unit
Apart (s ∷ l) = All (λ t. Distinct s t) l × Apart l

free-Distinct : (s t : ImageSym) → is_taken t.name t.owner t.is_exported s ≡ false → Distinct s t
free-Distinct s t e = names (str_eq s.name t.name) refl
  where
    names : (b : Bool) → str_eq s.name t.name ≡ b → Distinct s t
    names false f = inl (λ z. ground (arith, str_eq_refl t.name, f, ap (λ n. str_eq n t.name) z))
    names true f =
        inr ((λ z. ground (arith, e, f, z)), exports t.is_exported s.is_exported refl refl)
      where
        exports :
            (b c : Bool)
            → t.is_exported ≡ b
            → s.is_exported ≡ c
            → (s.is_exported ≡ false) ⊎ (t.is_exported ≡ false)
        exports false c h k = inr h
        exports true false h k = inl k
        exports true true h k = absurd (ground (arith, e, f, h, k))

all_free :
    (l : List ImageSym) (t : ImageSym)
    → any_sym (is_taken t.name t.owner t.is_exported) l ≡ false
    → All (λ s. Distinct s t) l
all_free [] t e = tt
all_free (s ∷ l) t e = (free-Distinct s t (ground (arith, e)), all_free l t (ground (arith, e)))

Distinct-append :
    (s t : ImageSym) (l : List ImageSym)
    → All (λ u. Distinct s u) l
    → Distinct s t
    → All (λ u. Distinct s u) (l ++ (t ∷ []))
Distinct-append s t [] h d = (d, tt)
Distinct-append s t (u ∷ l) (e, h) d = (e, Distinct-append s t l h d)

Apart-append :
    (l : List ImageSym) (t : ImageSym) → Apart l → All (λ s. Distinct s t) l → Apart (l ++ (t ∷ []))
Apart-append [] t h d = (tt, tt)
Apart-append (s ∷ l) t (h, a) (d, ds) = (Distinct-append s t l h d, Apart-append l t a ds)

pub add_sym-Apart :
    (im : Image) (name : List ℕ) (addr owner : ℕ) (exp : Bool)
    → Apart im.syms
    → Apart (add_sym im name addr owner exp).syms
unfolding add_sym
add_sym-Apart im name addr owner exp h = taken (any_sym (is_taken name owner exp) im.syms) refl
  where
    new : ImageSym
    new = record { name = name; addr = addr; owner = owner; is_exported = exp }

    taken :
        (b : Bool)
        → any_sym (is_taken name owner exp) im.syms ≡ b
        → Apart
            (if◌then◌else◌ {A = Image} b
              (fail_image im)
              (record im { syms = im.syms ++ (new ∷ []) })).syms
    taken true e = h
    taken false e = Apart-append im.syms new h (all_free im.syms new e)

-- A step in the image keeps the symbols, and stays between the position and the limit.
pub record Step (im : Image) (at limit : ℕ) (r : Image × ℕ) : Type 0 where
  pub syms_kept : r.0.syms ≡ im.syms
  pub onwards : at ≤ r.1
  pub inside : r.1 ≤ limit

pub advance_image-Step :
    (im : Image) (at : ℕ) (n : ℤ) (limit : ℕ)
    → at ≤ limit
    → limit < 2 ^ 32
    → Step im at limit (advance_image im at n limit)
unfolding advance_image
advance_image-Step im at (negsuc n) limit le lt = record {
  syms_kept = refl;
  onwards = omega arith;
  inside = le;
}
advance_image-Step im at (pos n) limit le lt = fits (ltb limit at || ltb (limit - at) n) refl
  where
    fits :
        (b : Bool)
        → (ltb limit at || ltb (limit - at) n) ≡ b
        → Step im at limit (if◌then◌else◌ {A = Image × ℕ} b (fail_image im, at) (im, u32 (at + n)))
    fits true e = record { syms_kept = refl; onwards = omega arith; inside = le }
    fits false e = record {
      syms_kept = refl;
      onwards = ground (arith, e, le, lt);
      inside = ground (arith, e, le, lt);
    }

pub align_image-Step :
    (im : Image) (at limit : ℕ)
    → at ≤ limit
    → limit < 2 ^ 32
    → Step im at limit (align_image im at limit)
unfolding align_image
align_image-Step im at limit le lt = advance_image-Step im at (pos ((4 - at % 4) % 4)) limit le lt
