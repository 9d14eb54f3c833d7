-- ===== src/Symcc/Image/Follow.antt =====
-- Where the sections of an image (symcc/src/link_image.c) stand: each follows the one before it.
use linux_0_11_symcc_on_turi.Base.{
  ℕ, ◌+◌, ◌-◌, ◌%◌, ◌^◌, ◌<◌, ◌≡◌, refl, sym, ◌∙◌, ap, arith, Bool, true, false, ◌&&◌, ◌||◌, ltb,
  leb, if◌then◌else◌, List, [], ◌∷◌, ◌++◌, Option, none, some,
}
use mathlib.Core.List.{append_assoc, append-nil}
use linux_0_11_symcc_on_turi.Base.Word.{u32}
use linux_0_11_symcc_on_turi.Base.Int.{pos}
use linux_0_11_symcc_on_turi.Symcc.Object.Model.{Obj}
use linux_0_11_symcc_on_turi.Symcc.Image.Table.{
  Image, ImageSym, fail_image, advance_image, align_image,
}
use linux_0_11_symcc_on_turi.Symcc.Image.Layout.{
  ◌>>=◌, Place, unless_failed, moved, section_size, advance_lines, labels, section_lines,
  place_sections, place_all_bss, LinkOptions, base_of, add_own, ImageLayout, layout_image,
  end_layout, layout_from, any_polls,
}
use linux_0_11_symcc_on_turi.Symcc.Image.Failed.{
  Holds, then-Holds, map-Holds, Sticky, Adds, Behind, failed-false, unless_failed-Holds,
  append_both, bytes_or_none, label_syms, labels-Adds, place_all_bss-Sticky, add_own-Sticky,
}

-- The bytes of lines, and of a section of all objects.
unfoldable pub lines_bytes : Bool → Bool → List (List ℕ) → ℕ
lines_bytes text poll [] = 0
lines_bytes text poll (l ∷ ls) = bytes_or_none (section_size text poll l) + lines_bytes text poll ls

unfoldable pub section_bytes : Bool → Bool → List Obj → ℕ
unfolding lines_bytes
section_bytes text poll [] = 0
section_bytes text poll (o ∷ os) =
    lines_bytes text poll (section_lines text o) + section_bytes text poll os

-- The labels of a section of all objects, the first one's at `base` and each one's behind the lines of
-- the one before it.
unfoldable pub section_syms : Bool → Bool → ℕ → List Obj → ℕ → List ImageSym
unfolding label_syms lines_bytes
section_syms text poll owner [] base = []
section_syms text poll owner (o ∷ os) base =
    label_syms text poll o.syms owner (section_lines text o) base
    ++ section_syms text poll (owner + 1) os (base + lines_bytes text poll (section_lines text o))

-- The next address that is a multiple of 4.
abbrev pub word_up : ℕ → ℕ
word_up x = x + (4 - x % 4) % 4

module _ (limit : ℕ) (word : limit < 2 ^ 32) where
  advance_image-Behind :
      (p : Place) (n : ℕ) → Behind p n [] (moved (advance_image p.im p.at (pos n) limit))
  unfolding advance_image
  advance_image-Behind p n = fits (ltb limit p.at || ltb (limit - p.at) n) refl
    where
      fits :
          (b : Bool)
          → (ltb limit p.at || ltb (limit - p.at) n) ≡ b
          → Behind p n [] (
              moved
                (if◌then◌else◌ {A = Image × ℕ} b (fail_image p.im, p.at) (p.im, u32 (p.at + n))))
      fits true e = failed-false
      fits false e = λ h. (h, ground (arith, e, word), sym (append-nil p.im.syms))

  align-Behind :
      (p : Place) → Behind p ((4 - p.at % 4) % 4) [] (moved (align_image p.im p.at limit))
  unfolding align_image
  align-Behind p = advance_image-Behind p ((4 - p.at % 4) % 4)

  advance_lines-Behind :
      (text poll : Bool) (ls : List (List ℕ)) (p : Place)
      → Holds (Behind p (lines_bytes text poll ls) []) (advance_lines text poll limit ls p)
  unfolding advance_lines lines_bytes
  advance_lines-Behind text poll [] p = λ e. (e, omega arith, sym (append-nil p.im.syms))
  advance_lines-Behind text poll (l ∷ ls) p =
      sized (section_size text poll l)
        (λ n. advance_lines-Behind text poll ls (moved (advance_image p.im p.at (pos n) limit)))
    where
      sized :
          (m : Option ℕ)
          → ((n : ℕ)
              → let next = moved (advance_image p.im p.at (pos n) limit) in
                Holds
                  (Behind next (lines_bytes text poll ls) [])
                  (advance_lines text poll limit ls next))
          → Holds (Behind p (bytes_or_none m + lines_bytes text poll ls) []) (
              m >>= (λ n.
                advance_lines text poll limit ls (moved (advance_image p.im p.at (pos n) limit))))
      sized none h = tt
      sized (some n) h = map-Holds _ (Behind p (n + lines_bytes text poll ls) []) _ (h n) (λ q. λ b.
          λ e.
            let next : Place = moved (advance_image p.im p.at (pos n) limit) in
            let (kept, far, later) = b e in
            let (first, near, same) = advance_image-Behind p n kept in
            (
              first,
              omega (arith, far, near),
              append_both p.im.syms [] [] next.im.syms q.im.syms same later,
            ))

  place_sections-Behind :
      (text poll : Bool) (owner : ℕ) (os : List Obj) (p : Place)
      → Holds
          (Behind p (section_bytes text poll os) (section_syms text poll owner os p.at))
          (place_sections text poll limit owner os p)
  unfolding place_sections section_bytes section_syms
  place_sections-Behind text poll owner [] p = λ e. (e, omega arith, sym (append-nil p.im.syms))
  place_sections-Behind text poll owner (o ∷ os) p =
      let n = lines_bytes text poll (section_lines text o) in
      let own = label_syms text poll o.syms owner (section_lines text o) p.at in
      let later = section_syms text poll (owner + 1) os (p.at + n) in
      let All_behind : Place → Type 0 = Behind p (n + section_bytes text poll os) (own ++ later) in
      then-Holds (Behind p n []) All_behind (advance_lines text poll limit (section_lines text o) p)
        _ (advance_lines-Behind text poll (section_lines text o) p)
        (λ sized. λ s.
          then-Holds (Behind p n []) All_behind (unless_failed sized) _
            (unless_failed-Holds (Behind p n []) sized s)
            (λ fits. λ f.
              then-Holds (Adds own fits.im) All_behind
                (labels text poll o.syms owner (section_lines text o) fits.im p.at) _
                (labels-Adds text poll o.syms owner (section_lines text o) fits.im p.at)
                (λ im. λ k.
                  map-Holds _ All_behind _
                    (place_sections-Behind text poll (owner + 1) os
                      (record { im = im; at = fits.at }))
                    (λ q. λ b. λ e.
                      let (kept, far, last) = b e in
                      let (mid, labelled) = k kept in
                      let (first, near, same) = f mid in
                      (
                        first,
                        omega (arith, far, near),
                        append_both p.im.syms own later im.syms q.im.syms
                            (labelled ∙ ap (λ x. x ++ own) (same ∙ append-nil p.im.syms))
                            (last
                              ∙ ap (λ x. im.syms ++ section_syms text poll (owner + 1) os x) near),
                      )))))

-- The data begins at the next word behind the text, which begins at `base`, and the uninitialized data
-- at the next word behind the data. The first symbols are the labels of the text and of the data.
pub record Follows (poll : Bool) (base : ℕ) (objs : List Obj) (r : ImageLayout) : Type 0 where
  pub loaded_at :
      r.loaded ≡ word_up (base + section_bytes true poll objs) + section_bytes false poll objs
  pub bss_at : r.bss ≡ word_up r.loaded
  pub more : List ImageSym
  pub labels_at :
      r.syms
      ≡ section_syms true poll 0 objs base
        ++ (section_syms false poll 0 objs (word_up (base + section_bytes true poll objs)) ++ more)

-- The place before the linker's own symbols.
Ready : Bool → ℕ → List Obj → (loaded bss : ℕ) → Image → Type 0
Ready poll base objs loaded bss im =
    (loaded ≡ word_up (base + section_bytes true poll objs) + section_bytes false poll objs)
    × (bss ≡ word_up loaded)
    × (more : List ImageSym) × (im.syms
        ≡ section_syms true poll 0 objs base
          ++ (section_syms false poll 0 objs (word_up (base + section_bytes true poll objs))
              ++ more))

end_layout-Follows :
    (opt : LinkOptions) (poll : Bool) (base : ℕ) (objs : List Obj) (loaded bss : ℕ) (end : Place)
    → (end.im.is_failed ≡ false → Ready poll base objs loaded bss end.im)
    → Holds (Follows poll base objs) (end_layout opt loaded bss end)
unfolding end_layout Ready
end_layout-Follows opt poll base objs loaded bss end h =
    tested (im.is_failed || ltb opt.limit end.at) refl
  where
    im : Image
    im = add_own end.im bss end.at opt.syscall_gate

    tested :
        (b : Bool)
        → (im.is_failed || ltb opt.limit end.at) ≡ b
        → Holds (Follows poll base objs) (
            if b
            then none
            else some (record { syms = im.syms; loaded = loaded; bss = bss; bss_end = end.at }))
    tested true e = tt
    tested false e =
        let (kept, own, last) =
          add_own-Sticky end.im bss end.at opt.syscall_gate (ground (arith, e)) in
        let (a, b, more, first) = h kept in
        let t = section_syms true poll 0 objs base in
        let d = section_syms false poll 0 objs (word_up (base + section_bytes true poll objs)) in
        record {
          loaded_at = a;
          bss_at = b;
          more = more ++ own;
          labels_at =
              append_both t (d ++ more) own end.im.syms im.syms first last
              ∙ ap (λ x. t ++ x) (append_assoc d more own);
        }

layout_from-Follows :
    (opt : LinkOptions) (objs : List Obj) (poll : Bool) (start : Place)
    → start.im.syms ≡ []
    → opt.limit < 2 ^ 32
    → Holds (Follows poll start.at objs) (layout_from opt objs poll start)
unfolding layout_from Ready
layout_from-Follows opt objs poll start empty word =
    let t = section_bytes true poll objs in
    let d = section_bytes false poll objs in
    let ts = section_syms true poll 0 objs start.at in
    let Good : ImageLayout → Type 0 = Follows poll start.at objs in
    then-Holds (Behind start t ts) Good (place_sections true poll opt.limit 0 objs start) _
      (place_sections-Behind opt.limit word true poll 0 objs start)
      (λ text. λ behind_start.
        let aligned : Place = moved (align_image text.im text.at opt.limit) in
        let ds = section_syms false poll 0 objs aligned.at in
        then-Holds (Behind aligned d ds) Good (place_sections false poll opt.limit 0 objs aligned) _
          (place_sections-Behind opt.limit word false poll 0 objs aligned)
          (λ data_part. λ behind_text.
            let bss : Place = moved (align_image data_part.im data_part.at opt.limit) in
            then-Holds (λ q. Sticky bss.im q.im) Good (place_all_bss opt.limit 0 objs bss) _
              (place_all_bss-Sticky opt.limit 0 objs bss)
              (λ end. λ s. end_layout-Follows opt poll start.at objs data_part.at bss.at end (λ e.
                let (bss_kept, more, end_syms) = s e in
                let (data_kept, bss_far, bss_syms) =
                  align-Behind opt.limit word data_part bss_kept in
                let (aligned_kept, data_far, data_syms) = behind_text data_kept in
                let (text_kept, aligned_far, aligned_syms) =
                  align-Behind opt.limit word text aligned_kept in
                let (_, text_far, text_syms) = behind_start text_kept in
                let at_word = aligned_far ∙ ap word_up text_far in
                (
                  data_far ∙ ap (λ x. x + d) at_word,
                  bss_far,
                  more,
                  chain start.im.syms ts ds more text.im.syms aligned.im.syms data_part.im.syms
                        bss.im.syms end.im.syms empty text_syms aligned_syms data_syms bss_syms
                        end_syms
                      ∙ ap (λ x. ts ++ (section_syms false poll 0 objs x ++ more)) at_word,
                )))))
  where
    chain :
        (s t d m text aligned data_part bss end : List ImageSym)
        → s ≡ []
        → text ≡ s ++ t
        → aligned ≡ text ++ []
        → data_part ≡ aligned ++ d
        → bss ≡ data_part ++ []
        → end ≡ bss ++ m
        → end ≡ t ++ (d ++ m)
    chain s t d m text aligned data_part bss end e0 e1 e2 e3 e4 e5 =
        let to_text : text ≡ t = e1 ∙ ap (λ x. x ++ t) e0 in
        let to_aligned : aligned ≡ t = e2 ∙ append-nil text ∙ to_text in
        let to_bss : bss ≡ t ++ d = e4 ∙ append-nil data_part ∙ e3 ∙ ap (λ x. x ++ d) to_aligned in
        append_both t d m bss end to_bss e5

abbrev pub polls : LinkOptions → List Obj → Bool
polls opt objs = opt.is_user && any_polls objs

pub layout_image-Follows :
    (opt : LinkOptions) (objs : List Obj)
    → opt.limit < 2 ^ 32
    → Holds (Follows (polls opt objs) (base_of opt) objs) (layout_image opt objs)
unfolding layout_image
layout_image-Follows opt objs word = window (leb opt.limit (base_of opt)) _ (
    layout_from-Follows opt objs (polls opt objs)
      (record { im = record { syms = []; is_failed = false }; at = base_of opt }) refl word)
  where
    window :
        (b : Bool) (o : Option ImageLayout)
        → Holds (Follows (polls opt objs) (base_of opt) objs) o
        → Holds (Follows (polls opt objs) (base_of opt) objs) (if b then none else o)
    window true o h = tt
    window false o h = h
