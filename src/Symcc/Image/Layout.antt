-- ===== src/Symcc/Image/Layout.antt =====
-- Where `symld_link_ex` of symcc/src/link_image.c puts the sections of the objects. No result means that there is no image:
-- the link fails, or a line of assembly text ends the program.
use linux_0_11_symcc_on_turi.Base.{
  ℕ, zero, suc, ◌+◌, ◌^◌, ◌-◌, Bool, true, false, ◌&&◌, ◌||◌, ltb, leb, ◌==◌, if◌then◌else◌, List,
  [], ◌∷◌, Option, none, some,
}
use linux_0_11_symcc_on_turi.Base.Word.{u32}
use linux_0_11_symcc_on_turi.Base.Int.{pos}
use linux_0_11_symcc_on_turi.Base.Text.{codes}
use linux_0_11_symcc_on_turi.Symcc.Object.Lines.{starts_with, obj_label_name_len, obj_line_size}
use linux_0_11_symcc_on_turi.Symcc.Object.Model.{ObjSymbol, ObjBss, Obj}
use linux_0_11_symcc_on_turi.Symcc.Image.Table.{
  Image, ImageSym, fail_image, advance_image, align_image, add_sym,
}
use linux_0_11_symcc_on_turi.Symcc.Image.Sizes.{poll_bytes, poll_prefix, line_size, exported}

infixl 5 ◌>>=◌
abbrev pub ◌>>=◌ : {A B : Type 0} → Option A → (A → Option B) → Option B
none >>= next = none
some a >>= next = next a

-- The image and the position in it.
pub record Place : Type 0 where
  pub im : Image
  pub at : ℕ

-- `if(im.failed)goto done;`
abbrev pub unless_failed : Place → Option Place
unless_failed p = if p.im.is_failed then none else some p

abbrev pub moved : Image × ℕ → Place
moved r = record { im = r.0; at = r.1 }

-- The size of a line of a section: `text` is whether it is the one of the instructions.
abbrev pub section_size : Bool → Bool → List ℕ → Option ℕ
section_size text poll l = if text then line_size l poll else obj_line_size l

-- The loop of `advance_image` over the lines of a section.
unfoldable pub advance_lines : Bool → Bool → ℕ → List (List ℕ) → Place → Option Place
unfolding line_size advance_image
advance_lines text poll limit [] p = some p
advance_lines text poll limit (l ∷ ls) p = do
  n ← section_size text poll l
  advance_lines text poll limit ls (moved (advance_image p.im p.at (pos n) limit))

unfoldable pub first_chars : ℕ → List ℕ → List ℕ
first_chars zero s = []
first_chars (suc n) [] = []
first_chars (suc n) (c ∷ s) = c ∷ first_chars n s

-- `labels`: those of the owner's section that starts at `base`.
unfoldable pub labels : Bool → Bool → List ObjSymbol → ℕ → List (List ℕ) → Image → ℕ → Option Image
unfolding line_size exported first_chars add_sym
labels text poll syms owner [] im base = some im
labels text poll syms owner (l ∷ ls) im base =
    let n = obj_label_name_len l in
    let name = first_chars n l in
    let size = if text && (poll && starts_with poll_prefix name) then poll_bytes else 0 in
    let named =
      labels text poll syms owner ls (add_sym im name base owner (exported syms name))
        (u32 (base + size)) in
    let plain =
      section_size text poll l >>= (λ k. labels text poll syms owner ls im (u32 (base + k))) in
    if n == 0 then plain else if leb 512 n then some (fail_image im) else named

abbrev pub section_lines : Bool → Obj → List (List ℕ)
section_lines text o = if text then o.text_lines else o.data_lines

-- The loop over the objects for one section; `owner` is the first one's number.
unfoldable pub place_sections : Bool → Bool → ℕ → ℕ → List Obj → Place → Option Place
unfolding advance_lines labels
place_sections text poll limit owner [] p = some p
place_sections text poll limit owner (o ∷ os) p = do
  sized ← advance_lines text poll limit (section_lines text o) p
  fits ← unless_failed sized
  im ← labels text poll o.syms owner (section_lines text o) fits.im p.at
  place_sections text poll limit (owner + 1) os (record { im = im; at = fits.at })

-- The loops over the uninitialized data.
unfoldable pub place_bss : ℕ → List ObjSymbol → ℕ → List ObjBss → Place → Option Place
unfolding advance_image align_image add_sym exported
place_bss limit syms owner [] p = some p
place_bss limit syms owner (b ∷ bs) p = do
  let behind : Place = moved (advance_image p.im p.at b.size limit)
  fits ← unless_failed (moved (align_image behind.im behind.at limit))
  place_bss limit syms owner bs
      (record { im = add_sym fits.im b.name p.at owner (exported syms b.name); at = fits.at })

unfoldable pub place_all_bss : ℕ → ℕ → List Obj → Place → Option Place
unfolding place_bss
place_all_bss limit owner [] p = some p
place_all_bss limit owner (o ∷ os) p = do
  q ← place_bss limit o.syms owner o.bss p
  place_all_bss limit (owner + 1) os q

-- Of `LinkOptions`, what the layout uses; `is_user` is `image_kind==SP_IMAGE_USER`, and else it is the kernel's.
pub record LinkOptions : Type 0 where
  pub is_user : Bool
  pub base : ℕ
  pub limit : ℕ
  pub syscall_gate : ℕ

abbrev pub base_of : LinkOptions → ℕ
base_of opt = if opt.is_user then opt.base else 0x3000

-- The owner -1 of the linker's own symbols.
abbrev pub no_owner : ℕ
no_owner = 2 ^ 32 - 1

-- The symbols that the linker adds.
unfoldable pub add_own : Image → ℕ → ℕ → ℕ → Image
unfolding add_sym
add_own im bss bss_end gate =
    let im1 = add_sym im (codes "__bss_start") bss no_owner true in
    let im2 = add_sym im1 (codes "__bss_end") bss_end no_owner true in
    let im3 = add_sym im2 (codes "end") bss_end no_owner true in
    add_sym im3 (codes "__syscall_gate") gate no_owner true

abbrev pub any_polls : List Obj → Bool
any_polls [] = false
any_polls (o ∷ os) = exported o.syms (codes "__sp_poll") || any_polls os

-- The end of what is loaded, and the uninitialized data.
pub record ImageLayout : Type 0 where
  pub syms : List ImageSym
  pub loaded : ℕ
  pub bss : ℕ
  pub bss_end : ℕ

-- The linker's symbols, and the last test. The failure of `add` here is tested behind the output.
unfoldable pub end_layout : LinkOptions → ℕ → ℕ → Place → Option ImageLayout
unfolding add_own
end_layout opt loaded bss end =
    let im = add_own end.im bss end.at opt.syscall_gate in
    if im.is_failed || ltb opt.limit end.at
    then none
    else some (record { syms = im.syms; loaded = loaded; bss = bss; bss_end = end.at })

-- The sections from `start` on.
unfoldable pub layout_from : LinkOptions → List Obj → Bool → Place → Option ImageLayout
unfolding place_sections place_all_bss align_image end_layout
layout_from opt objs poll start = do
  text ← place_sections true poll opt.limit 0 objs start
  data_part ←
      place_sections false poll opt.limit 0 objs (moved (align_image text.im text.at opt.limit))
  let bss : Place = moved (align_image data_part.im data_part.at opt.limit)
  end ← place_all_bss opt.limit 0 objs bss
  end_layout opt data_part.at bss.at end

-- The layout of the objects, the start code the first one.
unfoldable pub layout_image : LinkOptions → List Obj → Option ImageLayout
unfolding layout_from exported
layout_image opt objs =
    if leb opt.limit (base_of opt)
    then none
    else layout_from opt objs (opt.is_user && any_polls objs)
        (record { im = record { syms = []; is_failed = false }; at = base_of opt })
