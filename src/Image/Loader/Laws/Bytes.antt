-- ===== src/Image/Loader/Laws/Bytes.antt =====
-- The bytes that the data of a section shows: those of the file, then zeros.
use pe_bliss.Base.{
  ℕ, zero, suc, ◌+◌, ◌-◌, ◌^◌, ◌≤◌, ◌<◌, ◌≡◌, refl, sym, ap, subst, ◌∙◌, some, List, [], ◌∷◌, ◌++◌,
  map, arith, length, take, drop, replicate, get_elem?, length-take, length-drop, dec_lt,
}
use pe_bliss.Base.Slices.{drop-drop, drop-take, take-take, drop-append_within, take-append_within}
use pe_bliss.Buffers.Input.{Buffer}
use pe_bliss.Buffers.Input.Contents.{contents, physical}
use pe_bliss.Buffers.RefBuffer.{RefBuffer, contents_of, new}
use pe_bliss.Section.Header
use pe_bliss.Section.Header.{SectionHeader}
use pe_bliss.Section.Data.{SectionDataLoadOptions}
use pe_bliss.Section.Data.Laws.{
  HasRoom, first_byte, raw_size, loaded_size, section_bytes, deserialize_section_data_lem,
}
use pe_bliss.Image.Loader.Sections.{section_or_new}
use pe_bliss.Image.Loader.Laws.Data.{read_data}

pub get_elem?-map {ℓ κ} :
    {A : Type ℓ} {B : Type κ} (f : A → B) (xs : List A) (i : ℕ) (a : A)
    → get_elem? xs i ≡ some a
    → get_elem? (map f xs) i ≡ some (f a)
get_elem?-map f [] i a e = cc
get_elem?-map f (x ∷ xs) zero a e = cc
get_elem?-map f (x ∷ xs) (suc i) a e = get_elem?-map f xs i a e

-- A slice of a list with zeros behind it that stays in the list.
slice_within :
    (count offset raw start virt : ℕ) (xs : List ℕ)
    → offset + count ≤ raw
    → start + raw ≤ length xs
    → take count (drop offset (take raw (drop start xs) ++ replicate virt 0))
      ≡ take count (drop (offset + start) xs)
slice_within count offset raw start virt xs within inside =
    let part = take raw (drop start xs) in
    let long : length part ≡ raw =
      omega (arith, length-take raw (drop start xs), length-drop start xs) in
    rw
      (
        drop-append_within offset part (replicate virt 0) (omega arith),
        take-append_within count (drop offset part) (replicate virt 0)
            (omega (arith, length-drop offset part)),
        drop-take offset raw (drop start xs),
        take-take count (raw - offset) (drop offset (drop start xs)) (omega arith),
      )
      (ap (take count) (drop-drop offset start xs))

-- The place of a byte of a section in the file.
abbrev pub place : SectionHeader → SectionDataLoadOptions → ℕ → ℕ
place h options offset = offset + first_byte h options

module _ (h : SectionHeader) (b : Buffer) (options : SectionDataLoadOptions)
    (valid : Header.IsValid h) (room : HasRoom b) (align : options.section_alignment < 2 ^ 32)
    (start : options.image_start_buffer_pos < 2 ^ 32) where
  -- A slice of a buffer that is one of the section's bytes, and one of the file if it has no
  -- virtual bytes.
  abbrev pub IsSlice : ℕ → ℕ → RefBuffer → Type 0
  IsSlice count offset c =
      offset + count ≤ length (contents (contents_of c))
      → (take count (drop offset (contents (contents_of c)))
          ≡ take count (drop offset (section_bytes h b options)))
        × (count ≤ physical (contents_of c) - offset
            → take count (drop offset (contents (contents_of c)))
              ≡ take count (drop (place h options offset) (contents b)))

  new-IsSlice : (count offset : ℕ) → IsSlice count offset new
  unfolding contents_of new contents
  new-IsSlice zero offset within = (refl, λ _. refl)
  new-IsSlice (suc count) offset within = absurd (omega arith)

  view-IsSlice :
      (count offset : ℕ) (c : RefBuffer)
      → first_byte h options + raw_size h options ≤ length (contents b)
      → contents (contents_of c) ≡ section_bytes h b options
      → physical (contents_of c) ≤ raw_size h options
      → IsSlice count offset c
  view-IsSlice zero offset c inside shown in_file within = (refl, λ _. refl)
  view-IsSlice (suc count) offset c inside shown in_file within =
      let same = ap (λ xs. take (suc count) (drop offset xs)) shown in
      (
        same,
        λ fits.
            same
            ∙ slice_within (suc count) offset (raw_size h options) (first_byte h options)
                (loaded_size h options - raw_size h options) (contents b) (omega arith) inside,
      )

  pub read_data-IsSlice : (count offset : ℕ) → IsSlice count offset (read_data b options h)
  read_data-IsSlice count offset =
      let (inside, outside) = deserialize_section_data_lem h b options valid room align start in
      elim (dec_lt (length (contents b)) (first_byte h options + raw_size h options)) [
        | yes leaves ↦
            subst (IsSlice count offset)
              (sym (ap (λ r. (section_or_new r [] 0).0) (outside leaves)))
              (new-IsSlice count offset)
        | no stays ↦
            let (c, got, (v, shown, in_file, _, _)) = inside (omega arith) in
            subst (IsSlice count offset) (sym (ap (λ r. (section_or_new r [] 0).0) got))
              (view-IsSlice count offset c (omega arith) shown (omega arith))
      ]
