-- ===== src/Symcc/Image/Failed.antt =====
-- A failure of the layout of an image (symcc/src/link_image.c) stays to its end, and without one the symbols
-- of a section are its labels.
use linux_0_11_symcc_on_turi.Base.{
  ℕ, ◌+◌, ◌-◌, ◌%◌, ◌≡◌, refl, sym, ◌∙◌, ap, arith, Bool, true, false, ◌&&◌, ◌||◌, ltb, leb, ◌==◌,
  if◌then◌else◌, List, [], ◌∷◌, ◌++◌, Option, none, some,
}
use mathlib.Core.List.{append_assoc, append-nil}
use linux_0_11_symcc_on_turi.Base.Word.{u32}
use linux_0_11_symcc_on_turi.Base.Int.{ℤ, pos, negsuc}
use linux_0_11_symcc_on_turi.Base.Text.{codes}
use linux_0_11_symcc_on_turi.Symcc.Object.Lines.{obj_label_name_len, starts_with}
use linux_0_11_symcc_on_turi.Symcc.Object.Model.{ObjSymbol, ObjBss, Obj}
use linux_0_11_symcc_on_turi.Symcc.Image.Table.{
  Image, ImageSym, fail_image, advance_image, align_image, is_taken, any_sym, add_sym,
}
use linux_0_11_symcc_on_turi.Symcc.Image.Sizes.{exported, poll_bytes, poll_prefix}
use linux_0_11_symcc_on_turi.Symcc.Image.Layout.{
  ◌>>=◌, Place, unless_failed, moved, section_size, first_chars, labels, place_bss, place_all_bss,
  no_owner, add_own,
}

-- A result, if there is one, has the property.
abbrev pub Holds : {A : Type 0} → (A → Type 0) → Option A → Type 0
Holds P none = Unit
Holds P (some a) = P a

pub then-Holds :
    {A B : Type 0} (P : A → Type 0) (Q : B → Type 0) (m : Option A) (f : A → Option B)
    → Holds P m
    → ((a : A) → P a → Holds Q (f a))
    → Holds Q (m >>= f)
then-Holds P Q none f h k = tt
then-Holds P Q (some a) f h k = k a h

pub map-Holds :
    {A : Type 0} (P Q : A → Type 0) (m : Option A) → Holds P m → ((a : A) → P a → Q a) → Holds Q m
map-Holds P Q none h k = tt
map-Holds P Q (some a) h k = k a h

-- The bytes of a line. Where there is a layout, all lines have a size.
abbrev pub bytes_or_none : Option ℕ → ℕ
bytes_or_none none = 0
bytes_or_none (some n) = n

-- Of an image without a failure, the one before had none, and had its symbols but for the last ones.
abbrev pub Sticky : Image → Image → Type 0
Sticky im im' =
    im'.is_failed ≡ false
    → (im.is_failed ≡ false) × (more : List ImageSym) × (im'.syms ≡ im.syms ++ more)

-- The same with the last symbols known.
abbrev pub Adds : List ImageSym → Image → Image → Type 0
Adds more im im' = im'.is_failed ≡ false → (im.is_failed ≡ false) × (im'.syms ≡ im.syms ++ more)

-- `q` is `n` bytes behind `p` and has `more` symbols, and has failed if `p` had.
abbrev pub Behind : Place → ℕ → List ImageSym → Place → Type 0
Behind p n more q =
    q.im.is_failed ≡ false
    → (p.im.is_failed ≡ false) × (q.at ≡ p.at + n) × (q.im.syms ≡ p.im.syms ++ more)

-- Two steps.
pub append_both : (l m k m' k' : List ImageSym) → m' ≡ l ++ m → k' ≡ m' ++ k → k' ≡ l ++ (m ++ k)
append_both l m k m' k' e f = f ∙ ap (λ x. x ++ k) e ∙ append_assoc l m k

Adds-Sticky : (more : List ImageSym) (im im' : Image) → Adds more im im' → Sticky im im'
Adds-Sticky more im im' a e = let (kept, same) = a e in (kept, more, same)

pub Adds-trans :
    (l m : List ImageSym) (im im' im'' : Image)
    → Adds l im im'
    → Adds m im' im''
    → Adds (l ++ m) im im''
Adds-trans l m im im' im'' a b e =
    let (mid, later) = b e in
    let (kept, first) = a mid in (kept, append_both im.syms l m im'.syms im''.syms first later)

Sticky-trans : (im im' im'' : Image) → Sticky im im' → Sticky im' im'' → Sticky im im''
Sticky-trans im im' im'' a b e =
    let (mid, m, later) = b e in
    let (kept, l, first) = a mid in
    (kept, l ++ m, append_both im.syms l m im'.syms im''.syms first later)

same-Adds : (im : Image) → Adds [] im im
same-Adds im e = (e, sym (append-nil im.syms))

-- The labels of the lines of a section that starts at `base`, where there is no failure.
unfoldable pub label_syms : Bool → Bool → List ObjSymbol → ℕ → List (List ℕ) → ℕ → List ImageSym
label_syms text poll syms owner [] base = []
label_syms text poll syms owner (l ∷ ls) base =
    let n = obj_label_name_len l in
    let name = first_chars n l in
    let size = if text && (poll && starts_with poll_prefix name) then poll_bytes else 0 in
    let plain =
      label_syms text poll syms owner ls (u32 (base + bytes_or_none (section_size text poll l))) in
    let later = label_syms text poll syms owner ls (u32 (base + size)) in
    if n == 0
    then plain
    else (record { name = name; addr = base; owner = owner; is_exported = exported syms name }
        ∷ later)

pub failed-false : {A : Type 0} → true ≡ false → A
failed-false e = absurd (ground arith)

pub unless_failed-Holds : (P : Place → Type 0) (p : Place) → P p → Holds P (unless_failed p)
unless_failed-Holds P p h = tested p.im.is_failed
  where
    tested : (b : Bool) → Holds P (if b then none else some p)
    tested true = tt
    tested false = h

pub advance_image-Adds :
    (im : Image) (at : ℕ) (n : ℤ) (limit : ℕ) → Adds [] im (advance_image im at n limit).0
unfolding advance_image
advance_image-Adds im at (negsuc n) limit = failed-false
advance_image-Adds im at (pos n) limit = tested (ltb limit at || ltb (limit - at) n)
  where
    tested :
        (b : Bool)
        → Adds [] im (if◌then◌else◌ {A = Image × ℕ} b (fail_image im, at) (im, u32 (at + n))).0
    tested true = failed-false
    tested false = same-Adds im

-- The symbol that `add` gives.
abbrev symbol : List ℕ → ℕ → ℕ → Bool → List ImageSym
symbol name addr owner exp =
    record { name = name; addr = addr; owner = owner; is_exported = exp } ∷ []

add_sym-Adds :
    (im : Image) (name : List ℕ) (addr owner : ℕ) (exp : Bool)
    → Adds (symbol name addr owner exp) im (add_sym im name addr owner exp)
unfolding add_sym
add_sym-Adds im name addr owner exp = tested (any_sym (is_taken name owner exp) im.syms)
  where
    tested :
        (b : Bool)
        → Adds (symbol name addr owner exp) im (
            if◌then◌else◌ {A = Image} b
              (fail_image im)
              (record im { syms = im.syms ++ symbol name addr owner exp }))
    tested true = failed-false
    tested false = λ e. (e, refl)

pub labels-Adds :
    (text poll : Bool) (syms : List ObjSymbol) (owner : ℕ) (ls : List (List ℕ)) (im : Image)
    (base : ℕ)
    → Holds
        (Adds (label_syms text poll syms owner ls base) im)
        (labels text poll syms owner ls im base)
unfolding labels label_syms
labels-Adds text poll syms owner [] im base = same-Adds im
labels-Adds text poll syms owner (l ∷ ls) im base =
    branches (obj_label_name_len l == 0) (leb 512 (obj_label_name_len l)) _ _ _ _
      (sized (section_size text poll l)
        (λ k. labels-Adds text poll syms owner ls im (u32 (base + k))))
      (map-Holds (Adds later added) (Adds (symbol name base owner (exported syms name) ++ later) im)
        _ (labels-Adds text poll syms owner ls added (u32 (base + size)))
        (λ k. λ a.
          Adds-trans (symbol name base owner (exported syms name)) later im added k
            (add_sym-Adds im name base owner (exported syms name)) a))
  where
    name : List ℕ
    name = first_chars (obj_label_name_len l) l

    size : ℕ
    size = if text && (poll && starts_with poll_prefix name) then poll_bytes else 0

    added : Image
    added = add_sym im name base owner (exported syms name)

    later : List ImageSym
    later = label_syms text poll syms owner ls (u32 (base + size))

    sized :
        (m : Option ℕ)
        → ((k : ℕ)
            → Holds
                (Adds (label_syms text poll syms owner ls (u32 (base + k))) im)
                (labels text poll syms owner ls im (u32 (base + k))))
        → Holds
            (Adds (label_syms text poll syms owner ls (u32 (base + bytes_or_none m))) im)
            (m >>= (λ k. labels text poll syms owner ls im (u32 (base + k))))
    sized none h = tt
    sized (some k) h = h k

    branches :
        (b c : Bool) (x y : Option Image) (p q : List ImageSym)
        → Holds (Adds p im) x
        → Holds (Adds q im) y
        → Holds
            (Adds (if b then p else q) im)
            (if b then x else if c then some (fail_image im) else y)
    branches true c x y p q h k = h
    branches false true x y p q h k = failed-false
    branches false false x y p q h k = k

place_bss-Sticky :
    (limit : ℕ) (syms : List ObjSymbol) (owner : ℕ) (bs : List ObjBss) (p : Place)
    → Holds (λ q. Sticky p.im q.im) (place_bss limit syms owner bs p)
unfolding place_bss align_image
place_bss-Sticky limit syms owner [] p = Adds-Sticky [] p.im p.im (same-Adds p.im)
place_bss-Sticky limit syms owner (b ∷ bs) p =
    let behind : Place = moved (advance_image p.im p.at b.size limit) in
    let aligned : Place = moved (align_image behind.im behind.at limit) in
    then-Holds (λ q. Sticky p.im q.im) (λ q. Sticky p.im q.im) (unless_failed aligned) _
      (unless_failed-Holds (λ q. Sticky p.im q.im) aligned
        (Adds-Sticky [] p.im aligned.im (
          Adds-trans [] [] p.im behind.im aligned.im (advance_image-Adds p.im p.at b.size limit)
            (advance_image-Adds behind.im behind.at (pos ((4 - behind.at % 4) % 4)) limit))))
      (λ fits. λ f.
        let exp = exported syms b.name in
        let im : Image = add_sym fits.im b.name p.at owner exp in
        map-Holds _ (λ q. Sticky p.im q.im) _
          (place_bss-Sticky limit syms owner bs (record { im = im; at = fits.at }))
          (λ q. λ s. Sticky-trans p.im fits.im q.im f (
            Sticky-trans fits.im im q.im
              (Adds-Sticky (symbol b.name p.at owner exp) fits.im im
                (add_sym-Adds fits.im b.name p.at owner exp))
              s)))

pub place_all_bss-Sticky :
    (limit owner : ℕ) (os : List Obj) (p : Place)
    → Holds (λ q. Sticky p.im q.im) (place_all_bss limit owner os p)
unfolding place_all_bss
place_all_bss-Sticky limit owner [] p = Adds-Sticky [] p.im p.im (same-Adds p.im)
place_all_bss-Sticky limit owner (o ∷ os) p =
    then-Holds (λ q. Sticky p.im q.im) (λ q. Sticky p.im q.im)
      (place_bss limit o.syms owner o.bss p) _ (place_bss-Sticky limit o.syms owner o.bss p)
      (λ q. λ s.
        map-Holds _ (λ r. Sticky p.im r.im) _ (place_all_bss-Sticky limit (owner + 1) os q)
          (λ r. λ t. Sticky-trans p.im q.im r.im s t))

pub add_own-Sticky : (im : Image) (bss bss_end gate : ℕ) → Sticky im (add_own im bss bss_end gate)
unfolding add_own
add_own-Sticky im bss bss_end gate =
    let im1 = add_sym im (codes "__bss_start") bss no_owner true in
    let im2 = add_sym im1 (codes "__bss_end") bss_end no_owner true in
    let im3 = add_sym im2 (codes "end") bss_end no_owner true in
    let s1 = symbol (codes "__bss_start") bss no_owner true in
    let s2 = symbol (codes "__bss_end") bss_end no_owner true in
    let s3 = symbol (codes "end") bss_end no_owner true in
    let s4 = symbol (codes "__syscall_gate") gate no_owner true in
    let im4 = add_sym im3 (codes "__syscall_gate") gate no_owner true in
    Adds-Sticky (s1 ++ (s2 ++ (s3 ++ s4))) im im4 (
      Adds-trans s1 (s2 ++ (s3 ++ s4)) im im1 im4
        (add_sym-Adds im (codes "__bss_start") bss no_owner true)
        (Adds-trans s2 (s3 ++ s4) im1 im2 im4
          (add_sym-Adds im1 (codes "__bss_end") bss_end no_owner true)
          (Adds-trans s3 s4 im2 im3 im4 (add_sym-Adds im2 (codes "end") bss_end no_owner true)
            (add_sym-Adds im3 (codes "__syscall_gate") gate no_owner true))))
