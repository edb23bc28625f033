-- ===== src/Relocations/Rebase/Laws.antt =====
-- About a rebase: what it changes, and how it fails.
use pe_bliss.Base.{
  ℕ, ◌+◌, ◌*◌, ◌^◌, ◌≤◌, ◌<◌, ◌≡◌, ◌≢◌, refl, ap, subst, ◌∙◌, Bool, true, false, not, ◌&&◌, Option,
  none, some, List, [], ◌∷◌, arith, All, ◌==◌, if◌then◌else◌, length, take, drop,
}
use pe_bliss.Base.Words.{cast, sub_wrap}
use pe_bliss.Packed.Struct.Numbers.{length-serialize}
use pe_bliss.Errors.{Error, Result, ok, err, is_ok}
use pe_bliss.Utilities.Math.Laws.{add_if_safe-some}
use pe_bliss.Core.OptionalHeader.{set_raw_image_base}
use pe_bliss.Buffers.Input.{Buffer}
use pe_bliss.Buffers.Input.Contents.{contents, physical}
use pe_bliss.Buffers.Output.{overwrite}
use pe_bliss.Image.Layout.{Image}
use pe_bliss.Image.SectionData.Laws.{IsLoaded}
use pe_bliss.Packed.Struct.{deserialize, serialize}
use pe_bliss.Image.Structures.{struct_from_rva}
use pe_bliss.Image.Structures.Laws.{IsByteOf, struct_from_rva_lem}
use pe_bliss.Image.Writes.{
  Place, headers, section_data, Span, set_buffer, place_of, write_span, struct_to_rva,
  span_from_rva,
}
use pe_bliss.Image.Writes.Laws.{struct_from_rva-struct_to_rva}
use pe_bliss.Relocations.Entry.{RelocationEntry, get_address, apply_to, get_affected_size_in_bytes}
use pe_bliss.Relocations.Builder.{BaseRelocation}
use pe_bliss.Relocations.Rebase.{
  RebaseOptions, Step, thrown_by, relocated_value, process_relocation, relocate_entry, then_step,
  relocate_entries, relocate_blocks, check_entries, check_blocks, with_base, rebase_image,
}

-- The header of the image behind a step is that before it.
abbrev pub KeepsHeader : Image → Step → Type 0
KeepsHeader img (after, result) = after.optional_header ≡ img.optional_header

set_buffer-header :
    (img : Image) (p : Place) (b : Buffer)
    → (set_buffer img p b).optional_header ≡ img.optional_header
unfolding set_buffer
set_buffer-header img headers b = refl
set_buffer-header img (section_data i) b = refl

-- The header of the image behind a write.
abbrev WriteKeeps : Image → Image × Result ℕ → Type 0
WriteKeeps img (after, r) = after.optional_header ≡ img.optional_header

-- A choice of two writes to the same place.
choice-header :
    (img : Image) (c : Bool) (p : Place) (a b : Buffer) (x y : Result ℕ)
    → WriteKeeps img (if c then (set_buffer img p a, x) else (set_buffer img p b, y))
choice-header img true p a b x y = set_buffer-header img p a
choice-header img false p a b x y = set_buffer-header img p b

struct_to_rva-header :
    (img : Image) (rva : ℕ) (value : List ℕ) (real : ℕ) (include all cut : Bool)
    → (struct_to_rva img rva value real include all cut).0.optional_header ≡ img.optional_header
unfolding struct_to_rva write_span
struct_to_rva-header img rva value real include all cut =
    go (real == 0 && not all) (span_from_rva img rva include)
  where
    go :
        (c : Bool) (r : Result Span)
        → WriteKeeps img (
            if c then (img, ok rva) else (elim r [
              | err e ↦ (img, err e)
              | ok span ↦ write_span img rva span (if all then length value else real) value cut
            ]))
    go true r = refl
    go false (err e) = refl
    go false (ok span) = choice-header img _ span.place _ _ _ _

process-header :
    (img : Image) (sz base_rva diff : ℕ) (entry : RelocationEntry) (ignore : Bool)
    → KeepsHeader img (process_relocation img sz base_rva diff entry ignore)
unfolding process_relocation
process-header img sz base_rva diff entry ignore =
    go (relocated_value img sz base_rva diff entry ignore)
  where
    go :
        (r : Result (ℕ × (ℕ × List ℕ)))
        → KeepsHeader img (elim r [
          | err e ↦ (img, some e)
          | ok (rva, (physical, value)) ↦
              let written = struct_to_rva img rva value physical true (not ignore) false in
              (written.0, thrown_by written.1)
        ])
    go (err e) = refl
    go (ok (rva, (physical, value))) =
        struct_to_rva-header img rva value physical true (not ignore) false

KeepsHeader-if :
    (img : Image) (b : Bool) (m n : Step)
    → KeepsHeader img m
    → KeepsHeader img n
    → KeepsHeader img (if b then m else n)
KeepsHeader-if img true m n p q = p
KeepsHeader-if img false m n p q = q

relocate_entry-header :
    (img : Image) (base_rva diff : ℕ) (entry : RelocationEntry) (ignore : Bool)
    → KeepsHeader img (relocate_entry img base_rva diff entry ignore)
unfolding relocate_entry
relocate_entry-header img base_rva diff entry ignore =
    go (get_affected_size_in_bytes entry img.machine)
  where
    processed : (sz : ℕ) → KeepsHeader img (process_relocation img sz base_rva diff entry ignore)
    processed sz = process-header img sz base_rva diff entry ignore

    go :
        (r : Result ℕ)
        → KeepsHeader img (elim r [
          | err e ↦ (img, some e)
          | ok sz ↦
              if sz == 2
              then process_relocation img 2 base_rva diff entry ignore
              else (if sz == 4
                  then process_relocation img 4 base_rva diff entry ignore
                  else (if sz == 8
                      then process_relocation img 8 base_rva diff entry ignore
                      else (img, none)))
        ])
    go (err e) = refl
    go (ok sz) = KeepsHeader-if img (sz == 2) _ _ (processed 2) (
        KeepsHeader-if img (sz == 4) _ _ (processed 4)
          (KeepsHeader-if img (sz == 8) _ (img, none) (processed 8) refl))

then_step-header :
    (img : Image) (s : Step) (rest : Image → Step)
    → KeepsHeader img s
    → ((next : Image) → KeepsHeader next (rest next))
    → KeepsHeader img (then_step s rest)
then_step-header img (after, some e) rest p q = p
then_step-header img (after, none) rest p q = q after ∙ p

relocate_entries-header :
    (base_rva diff : ℕ) (ignore : Bool) (es : List RelocationEntry) (img : Image)
    → KeepsHeader img (relocate_entries base_rva diff ignore es img)
unfolding relocate_entries
relocate_entries-header base_rva diff ignore [] img = refl
relocate_entries-header base_rva diff ignore (e ∷ es) img =
    then_step-header img (relocate_entry img base_rva diff e ignore) _
      (relocate_entry-header img base_rva diff e ignore)
      (λ next. relocate_entries-header base_rva diff ignore es next)

relocate_blocks-header :
    (diff : ℕ) (ignore : Bool) (rs : List BaseRelocation) (img : Image)
    → KeepsHeader img (relocate_blocks diff ignore rs img)
unfolding relocate_blocks
relocate_blocks-header diff ignore [] img = refl
relocate_blocks-header diff ignore (r ∷ rs) img =
    then_step-header img (relocate_entries r.virtual_address diff ignore r.relocations img) _
      (relocate_entries-header r.virtual_address diff ignore r.relocations img)
      (λ next. relocate_blocks-header diff ignore rs next)

-- Every entry is of a type that the machine supports.
abbrev pub AllSupported : ℕ → List BaseRelocation → Type 0
AllSupported machine relocs =
    All (λ b. All (λ e. is_ok (get_affected_size_in_bytes e machine) ≡ true) b.relocations) relocs

check-step :
    (r : Result ℕ) (rest : Option Error)
    → elim r as (λ x. Option Error) [ err e ↦ some e | ok sz ↦ rest ] ≡ none
    → (is_ok r ≡ true) × (rest ≡ none)
check-step (err e) rest h = cc
check-step (ok sz) rest h = (refl, h)

first-step :
    (o rest : Option Error)
    → elim o as (λ x. Option Error) [ some e ↦ some e | none ↦ rest ] ≡ none
    → (o ≡ none) × (rest ≡ none)
first-step (some e) rest h = cc
first-step none rest h = (refl, h)

check_entries-supported :
    (machine : ℕ) (es : List RelocationEntry)
    → check_entries machine es ≡ none
    → All (λ e. is_ok (get_affected_size_in_bytes e machine) ≡ true) es
unfolding check_entries
check_entries-supported machine [] h = tt
check_entries-supported machine (e ∷ es) h =
    let (first, rest) =
      check-step (get_affected_size_in_bytes e machine) (check_entries machine es) h in
    (first, check_entries-supported machine es rest)

check_blocks-supported :
    (machine : ℕ) (rs : List BaseRelocation)
    → check_blocks machine rs ≡ none
    → AllSupported machine rs
unfolding check_blocks
check_blocks-supported machine [] h = tt
check_blocks-supported machine (r ∷ rs) h =
    let (first, rest) =
      first-step (check_entries machine r.relocations) (check_blocks machine rs) h in
    (check_entries-supported machine r.relocations first, check_blocks-supported machine rs rest)

-- The header behind a rebase that ends in this way.
abbrev pub HeaderAfter : Image → ℕ → Step → Type 0
HeaderAfter img new_base (after, none) =
    after.optional_header ≡ set_raw_image_base img.optional_header new_base
HeaderAfter img new_base (after, some e) = after.optional_header ≡ img.optional_header

moved-header :
    (img : Image) (new_base : ℕ) (s : Step)
    → KeepsHeader img s
    → HeaderAfter img new_base (then_step s (with_base new_base))
unfolding with_base
moved-header img new_base (after, some e) keeps = keeps
moved-header img new_base (after, none) keeps = ap (λ h. set_raw_image_base h new_base) keeps

-- For 64-bit bases: a rebase to the base that the image has changes nothing; one of an image with
-- an entry that its machine does not support changes nothing and throws, before anything is
-- written; any other one sets the new base as its last step, if it returns, and leaves the header
-- as it was, if it throws.
pub rebase_image_lem :
    (img : Image) (relocs : List BaseRelocation) (options : RebaseOptions)
    → options.new_base < 2 ^ 64
    → img.optional_header.image_base < 2 ^ 64
    → (options.new_base ≡ img.optional_header.image_base
        → rebase_image img relocs options ≡ (img, none))
      × (options.new_base ≢ img.optional_header.image_base
          → (¬ AllSupported img.machine relocs)
          → (e : Error) × (rebase_image img relocs options ≡ (img, some e)))
      × (options.new_base ≢ img.optional_header.image_base
          → HeaderAfter img options.new_base (rebase_image img relocs options))
unfolding rebase_image
rebase_image_lem img relocs options new_word old_word =
    let old = img.optional_header.image_base in
    let diff = sub_wrap 64 options.new_base old in
    (
      λ same.
          let none_moved : (sub_wrap 64 options.new_base old == 0) ≡ true = ground arith in
          rw none_moved,
      λ apart unsupported.
          let moved : (diff == 0) ≡ false = ground arith in
          rw moved (
            refused (check_blocks img.machine relocs)
              (λ e. unsupported (check_blocks-supported img.machine relocs e))),
      λ apart.
          let moved : (diff == 0) ≡ false = ground arith in
          rw moved (ended (check_blocks img.machine relocs)),
    )
  where
    run : Step
    run =
        then_step
          (relocate_blocks (sub_wrap 64 options.new_base img.optional_header.image_base)
            options.ignore_virtual_data relocs img)
          (with_base options.new_base)

    refused :
        (o : Option Error)
        → (¬ (o ≡ none))
        → (e : Error) × (◌≡◌ {A = Step}
            (elim o [ some e ↦ (img, some e) | none ↦ run ])
            (img, some e))
    refused (some e) h = (e, refl)
    refused none h = absurd (h refl)

    ended :
        (o : Option Error)
        → HeaderAfter img options.new_base (elim o [ some e ↦ (img, some e) | none ↦ run ])
    ended (some e) = refl
    ended none = moved-header img options.new_base _ (
        relocate_blocks-header (sub_wrap 64 options.new_base img.optional_header.image_base)
          options.ignore_virtual_data relocs img)

processed :
    (img after : Image) (sz base_rva diff rva n x : ℕ) (entry : RelocationEntry) (ignore : Bool)
    (value : List ℕ)
    → relocated_value img sz base_rva diff entry ignore ≡ ok (rva, (n, value))
    → struct_to_rva img rva value n true (not ignore) false ≡ (after, ok x)
    → process_relocation img sz base_rva diff entry ignore ≡ (after, none)
unfolding process_relocation
processed img after sz base_rva diff rva n x entry ignore value relocated wrote =
    rw (process_relocation, relocated, wrote)

-- For a loaded image and an entry at a 32-bit address whose value of `sz` bytes lies in the file
-- and ends at a 32-bit address: if the entry gives a new value, that value, cut to the size, is
-- what is read at the address afterwards, no other byte of the buffer there has changed, and the
-- image is still a loaded one.
pub process_relocation_lem :
    (img : Image) (loaded : IsLoaded img) (sz base_rva diff v offset : ℕ) (entry : RelocationEntry)
    (ignore : Bool) (b : Buffer)
    → 0 < sz
    → base_rva + get_address entry + sz < 2 ^ 32
    → IsByteOf img true (base_rva + get_address entry) b offset
    → offset + sz ≤ physical b
    → apply_to entry (deserialize (take sz (drop offset (contents b)))) diff img.machine ≡ ok v
    → (after : Image) × (process_relocation img sz base_rva diff entry ignore ≡ (after, none))
      × (struct_from_rva after (base_rva + get_address entry) sz true ignore
          ≡ ok (sz, serialize sz (cast (8 * sz) v)))
      × ((c : Buffer) × (contents c
            ≡ overwrite offset (serialize sz (cast (8 * sz) v)) (contents b))
          × (after ≡ set_buffer img (place_of img (base_rva + get_address entry)) c))
      × IsLoaded after
unfolding relocated_value
process_relocation_lem img loaded sz base_rva diff v offset entry ignore b long word byte in_file
      applied =
    let rva = base_rva + get_address entry in
    let value = serialize sz (cast (8 * sz) v) in
    let size = length-serialize sz (cast (8 * sz) v) in
    let read =
      struct_from_rva_lem img loaded rva (omega arith) b offset sz true ignore byte long in_file in
    let (after, c, wrote, back, is, shown, loaded') =
      struct_from_rva-struct_to_rva img loaded rva (omega arith) b offset value true (not ignore)
        false ignore byte (omega (arith, size)) (omega (arith, size)) (omega (arith, size)) in
    let wrote' =
      subst (λ n. struct_to_rva img rva value n true (not ignore) false ≡ (after, ok (rva + n)))
        size wrote in
    let back' = subst (λ n. struct_from_rva after rva n true ignore ≡ ok (n, value)) size back in
    (
      after,
      processed img after sz base_rva diff rva sz (rva + sz) entry ignore value
          (rw (
            add_if_safe-some 32 base_rva (get_address entry) (omega arith) (omega arith),
            read,
            applied,
          ))
          wrote',
      back',
      (c, shown, is),
      loaded',
    )
