-- ===== src/Symcc/Image/Placed.antt =====
-- The layout of an image (symcc/src/link_image.c) keeps to its window, and its symbols are told apart.
use linux_0_11_symcc_on_turi.Base.{
  ℕ, ◌+◌, ◌^◌, ◌<◌, ◌≤◌, ◌≡◌, refl, sym, arith, Bool, true, false, ◌||◌, ltb, leb, ◌==◌,
  if◌then◌else◌, List, [], ◌∷◌, Option, none, some,
}
use mathlib.Core.Path.{subst}
use linux_0_11_symcc_on_turi.Base.Word.{u32}
use linux_0_11_symcc_on_turi.Base.Int.{pos}
use linux_0_11_symcc_on_turi.Base.Text.{codes}
use linux_0_11_symcc_on_turi.Symcc.Object.Lines.{obj_label_name_len}
use linux_0_11_symcc_on_turi.Symcc.Object.Model.{ObjSymbol, ObjBss, Obj}
use linux_0_11_symcc_on_turi.Symcc.Image.Table.{Image, fail_image, advance_image, align_image}
use linux_0_11_symcc_on_turi.Symcc.Image.Sizes.{exported}
use linux_0_11_symcc_on_turi.Symcc.Image.Layout.{
  Place, unless_failed, moved, section_size, advance_lines, labels, section_lines, place_sections,
  place_bss, place_all_bss, LinkOptions, base_of, no_owner, add_own, ImageLayout, layout_image,
  end_layout, layout_from,
}
use linux_0_11_symcc_on_turi.Symcc.Image.Failed.{Holds, then-Holds}
use linux_0_11_symcc_on_turi.Symcc.Image.Follow.{polls, Follows, layout_image-Follows}
use linux_0_11_symcc_on_turi.Symcc.Image.Apart.{
  Apart, add_sym-Apart, Step, advance_image-Step, align_image-Step,
}

any-Holds : {A : Type 0} (m : Option A) → Holds (λ _. Unit) m
any-Holds none = tt
any-Holds (some a) = tt

-- A place from `low` on within the limit, with symbols that are told apart.
record At (low limit : ℕ) (p : Place) : Type 0 where
  onwards : low ≤ p.at
  inside : p.at ≤ limit
  apart : Apart p.im.syms

Step-At :
    (low limit : ℕ) (p : Place) (r : Image × ℕ)
    → At low limit p
    → Step p.im p.at limit r
    → At low limit (moved r)
Step-At low limit p r a s = record {
  onwards = omega (arith, a.onwards, s.onwards);
  inside = s.inside;
  apart = subst Apart (sym s.syms_kept) a.apart;
}

module _ (limit : ℕ) (word : limit < 2 ^ 32) where
  advance_image-At :
      (low n : ℕ) (p : Place)
      → At low limit p
      → At low limit (moved (advance_image p.im p.at (pos n) limit))
  advance_image-At low n p a =
      Step-At low limit p (advance_image p.im p.at (pos n) limit) a
        (advance_image-Step p.im p.at (pos n) limit a.inside word)

  align-At :
      (low : ℕ) (p : Place) → At low limit p → At low limit (moved (align_image p.im p.at limit))
  align-At low p a =
      Step-At low limit p (align_image p.im p.at limit) a
        (align_image-Step p.im p.at limit a.inside word)

  unless_failed-Holds :
      (low : ℕ) (p : Place) → At low limit p → Holds (At low limit) (unless_failed p)
  unless_failed-Holds low p a = tested p.im.is_failed
    where
      tested : (b : Bool) → Holds (At low limit) (if b then none else some p)
      tested true = tt
      tested false = a

  advance_lines-Holds :
      (text poll : Bool) (low : ℕ) (ls : List (List ℕ)) (p : Place)
      → At low limit p
      → Holds (At low limit) (advance_lines text poll limit ls p)
  unfolding advance_lines
  advance_lines-Holds text poll low [] p a = a
  advance_lines-Holds text poll low (l ∷ ls) p a =
      then-Holds (λ _. Unit) (At low limit) (section_size text poll l) _
        (any-Holds (section_size text poll l))
        (λ n. λ _.
          advance_lines-Holds text poll low ls (moved (advance_image p.im p.at (pos n) limit))
            (advance_image-At low n p a))

labels-Holds :
    (text poll : Bool) (syms : List ObjSymbol) (owner : ℕ) (ls : List (List ℕ)) (im : Image)
    (base : ℕ)
    → Apart im.syms
    → Holds (λ k. Apart k.syms) (labels text poll syms owner ls im base)
unfolding labels
labels-Holds text poll syms owner [] im base a = a
labels-Holds text poll syms owner (l ∷ ls) im base a =
    branches (obj_label_name_len l == 0) (leb 512 (obj_label_name_len l)) _ _
      (then-Holds (λ _. Unit) (λ k. Apart k.syms) (section_size text poll l) _
        (any-Holds (section_size text poll l))
        (λ k. λ _. labels-Holds text poll syms owner ls im (u32 (base + k)) a))
      (labels-Holds text poll syms owner ls _ _ (add_sym-Apart im _ base owner _ a))
  where
    branches :
        (b c : Bool) (x y : Option Image)
        → Holds (λ k. Apart k.syms) x
        → Holds (λ k. Apart k.syms) y
        → Holds (λ k. Apart k.syms) (if b then x else if c then some (fail_image im) else y)
    branches true c x y h k = h
    branches false true x y h k = a
    branches false false x y h k = k

module _ (limit : ℕ) (word : limit < 2 ^ 32) where
  place_sections-Holds :
      (text poll : Bool) (low owner : ℕ) (os : List Obj) (p : Place)
      → At low limit p
      → Holds (At low limit) (place_sections text poll limit owner os p)
  unfolding place_sections
  place_sections-Holds text poll low owner [] p a = a
  place_sections-Holds text poll low owner (o ∷ os) p a =
      then-Holds (At low limit) (At low limit)
        (advance_lines text poll limit (section_lines text o) p) _
        (advance_lines-Holds limit word text poll low (section_lines text o) p a)
        (λ sized. λ s.
          then-Holds (At low limit) (At low limit) (unless_failed sized) _
            (unless_failed-Holds limit word low sized s)
            (λ fits. λ f.
              then-Holds (λ k. Apart k.syms) (At low limit)
                (labels text poll o.syms owner (section_lines text o) fits.im p.at) _
                (labels-Holds text poll o.syms owner (section_lines text o) fits.im p.at f.apart)
                (λ im. λ k.
                  place_sections-Holds text poll low (owner + 1) os
                    (record { im = im; at = fits.at })
                    (record { onwards = f.onwards; inside = f.inside; apart = k }))))

  place_bss-Holds :
      (syms : List ObjSymbol) (low owner : ℕ) (bs : List ObjBss) (p : Place)
      → At low limit p
      → Holds (At low limit) (place_bss limit syms owner bs p)
  unfolding place_bss
  place_bss-Holds syms low owner [] p a = a
  place_bss-Holds syms low owner (b ∷ bs) p a =
      let behind : Place = moved (advance_image p.im p.at b.size limit) in
      let s : At low limit behind =
        Step-At low limit p (advance_image p.im p.at b.size limit) a
          (advance_image-Step p.im p.at b.size limit a.inside word) in
      let aligned : Place = moved (align_image behind.im behind.at limit) in
      then-Holds (At low limit) (At low limit) (unless_failed aligned) _
        (unless_failed-Holds limit word low aligned (align-At limit word low behind s))
        (λ fits. λ f. place_bss-Holds syms low owner bs _ (record {
          onwards = f.onwards;
          inside = f.inside;
          apart = add_sym-Apart fits.im b.name p.at owner (exported syms b.name) f.apart;
        }))

  place_all_bss-Holds :
      (low owner : ℕ) (os : List Obj) (p : Place)
      → At low limit p
      → Holds (At low limit) (place_all_bss limit owner os p)
  unfolding place_all_bss
  place_all_bss-Holds low owner [] p a = a
  place_all_bss-Holds low owner (o ∷ os) p a =
      then-Holds (At low limit) (At low limit) (place_bss limit o.syms owner o.bss p) _
        (place_bss-Holds o.syms low owner o.bss p a)
        (λ q. λ k. place_all_bss-Holds low (owner + 1) os q k)

add_own-Apart :
    (im : Image) (bss bss_end gate : ℕ) → Apart im.syms → Apart (add_own im bss bss_end gate).syms
unfolding add_own
add_own-Apart im bss bss_end gate a = add_sym-Apart _ (codes "__syscall_gate") gate no_owner true (
    add_sym-Apart _ (codes "end") bss_end no_owner true (
      add_sym-Apart _ (codes "__bss_end") bss_end no_owner true
        (add_sym-Apart im (codes "__bss_start") bss no_owner true a)))

-- The parts are in the window, and the symbols are told apart.
record Ordered (base limit : ℕ) (r : ImageLayout) : Type 0 where
  loaded_inside : base ≤ r.loaded
  bss_behind : r.loaded ≤ r.bss
  end_behind : r.bss ≤ r.bss_end
  end_inside : r.bss_end ≤ limit
  apart : Apart r.syms

end_layout-Holds :
    (opt : LinkOptions) (base loaded bss : ℕ) (end : Place)
    → base ≤ loaded
    → loaded ≤ bss
    → At bss opt.limit end
    → Holds (Ordered base opt.limit) (end_layout opt loaded bss end)
unfolding end_layout
end_layout-Holds opt base loaded bss end le le' a =
    tested ((add_own end.im bss end.at opt.syscall_gate).is_failed || ltb opt.limit end.at)
  where
    made : ImageLayout
    made = record {
      syms = (add_own end.im bss end.at opt.syscall_gate).syms;
      loaded = loaded;
      bss = bss;
      bss_end = end.at;
    }

    tested : (b : Bool) → Holds (Ordered base opt.limit) (if b then none else some made)
    tested true = tt
    tested false = record {
      loaded_inside = le;
      bss_behind = le';
      end_behind = a.onwards;
      end_inside = a.inside;
      apart = add_own-Apart end.im bss end.at opt.syscall_gate a.apart;
    }

-- A place is where it is.
from_here : (low limit : ℕ) (p : Place) → At low limit p → At p.at limit p
from_here low limit p a = record { onwards = omega arith; inside = a.inside; apart = a.apart }

layout_from-Holds :
    (opt : LinkOptions) (objs : List Obj) (poll : Bool) (base : ℕ) (start : Place)
    → opt.limit < 2 ^ 32
    → At base opt.limit start
    → Holds (Ordered base opt.limit) (layout_from opt objs poll start)
unfolding layout_from
layout_from-Holds opt objs poll base start word a =
    then-Holds (At base opt.limit) (Ordered base opt.limit)
      (place_sections true poll opt.limit 0 objs start) _
      (place_sections-Holds opt.limit word true poll base 0 objs start a)
      (λ text. λ t.
        then-Holds (At base opt.limit) (Ordered base opt.limit)
          (place_sections false poll opt.limit 0 objs
            (moved (align_image text.im text.at opt.limit)))
          _
          (place_sections-Holds opt.limit word false poll base 0 objs
            (moved (align_image text.im text.at opt.limit)) (align-At opt.limit word base text t))
          (λ data_part. λ d.
            let bss : Place = moved (align_image data_part.im data_part.at opt.limit) in
            let b : At data_part.at opt.limit bss =
              align-At opt.limit word data_part.at data_part
                (from_here base opt.limit data_part d) in
            then-Holds (At bss.at opt.limit) (Ordered base opt.limit)
              (place_all_bss opt.limit 0 objs bss) _
              (place_all_bss-Holds opt.limit word bss.at 0 objs bss
                (from_here data_part.at opt.limit bss b))
              (λ end.
                λ e. end_layout-Holds opt base data_part.at bss.at end d.onwards b.onwards e)))

layout-Holds :
    (opt : LinkOptions) (objs : List Obj)
    → opt.limit < 2 ^ 32
    → Holds (Ordered (base_of opt) opt.limit) (layout_image opt objs)
unfolding layout_image
layout-Holds opt objs word = window (leb opt.limit (base_of opt)) refl
  where
    start : Place
    start = record { im = record { syms = []; is_failed = false }; at = base_of opt }

    window :
        (b : Bool)
        → leb opt.limit (base_of opt) ≡ b
        → Holds
            (Ordered (base_of opt) opt.limit)
            (if b then none else layout_from opt objs (polls opt objs) start)
    window true e = tt
    window false e =
        layout_from-Holds opt objs (polls opt objs) (base_of opt) start word
          (record { onwards = omega arith; inside = ground (arith, e); apart = tt })

-- The parts of an image with these options: each follows the one before it, from the base on and within
-- the limit, the labels are in them, and the symbols are told apart.
pub record Placed (opt : LinkOptions) (objs : List Obj) (r : ImageLayout) : Type 0 where
  pub placed : Follows (polls opt objs) (base_of opt) objs r
  pub end_behind : r.bss ≤ r.bss_end
  pub end_inside : r.bss_end ≤ opt.limit
  pub apart : Apart r.syms

-- In an image that is laid out, in a window that ends below 2 ^ 32, the lines of the text follow each other
-- from the base on, the lines of the data from the first multiple of 4 behind the text, and what is loaded
-- ends behind them: the first symbols are the labels of the text and of the data, those of each object at
-- and behind the end of the lines before it. The uninitialized data begins at the next multiple of 4 and
-- ends within the limit. Of two symbols with one name the owners are different and one at most is exported.
pub layout_image-Placed :
    (opt : LinkOptions) (objs : List Obj) (r : ImageLayout)
    → opt.limit < 2 ^ 32
    → layout_image opt objs ≡ some r
    → Placed opt objs r
layout_image-Placed opt objs r word e =
    let o = subst (Holds (Ordered (base_of opt) opt.limit)) e (layout-Holds opt objs word) in
    record {
      placed =
          subst (Holds (Follows (polls opt objs) (base_of opt) objs)) e
            (layout_image-Follows opt objs word);
      end_behind = o.end_behind;
      end_inside = o.end_inside;
      apart = o.apart;
    }
