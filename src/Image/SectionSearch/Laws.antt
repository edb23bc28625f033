-- ===== src/Image/SectionSearch/Laws.antt =====
-- About the searches of an image for a section.
use pe_bliss.Base.{ℕ, ◌+◌, ◌^◌, ◌<◌, arith, All, dec_lt}
use pe_bliss.Section.Header.{
  IsValid, get_rva, get_virtual_size, get_raw_size, get_pointer_to_raw_data,
}
use pe_bliss.Section.Search.Laws.{Covers}
use pe_bliss.Section.Table.Laws.{IsFirst, by_rva_lem, by_raw_offset_lem}
use pe_bliss.Image.Layout.{Image, alignment}
use pe_bliss.Image.SectionSearch.{section_from_rva, section_from_file_offset}

module _ (image : Image) (size : ℕ) (valid : All IsValid image.section_table)
    (align_fits : alignment image < 2 ^ 32) (size_fits : size < 2 ^ 32) where
  -- In an image with valid headers and a 32-bit alignment, the section of an address and a 32-bit
  -- size is the first whose loaded part holds the whole range, and there is none if no section
  -- holds it.
  pub section_from_rva_lem :
      (rva : ℕ)
      → IsFirst
          (λ h. Covers (get_rva h) (get_virtual_size h (alignment image)) rva size)
          image.section_table
          (section_from_rva image rva size)
  unfolding section_from_rva
  section_from_rva_lem rva =
      let (over, fits) =
        by_rva_lem image.section_table (alignment image) size valid align_fits size_fits rva in
      elim (dec_lt (rva + size) (2 ^ 32)) [
        | yes lt ↦ let (r, found, first) = fits lt in rw found first
        | no ge ↦ rw (over (omega arith)) (λ l g at c. omega arith)
      ]

  -- In an image with valid headers and a 32-bit alignment, the section of a file offset and a
  -- 32-bit size is the first whose part of the file holds the whole range, and there is none if no
  -- section holds it.
  pub section_from_file_offset_lem :
      (offset : ℕ)
      → IsFirst
          (λ h. Covers (get_pointer_to_raw_data h) (get_raw_size h (alignment image)) offset size)
          image.section_table
          (section_from_file_offset image offset size)
  unfolding section_from_file_offset
  section_from_file_offset_lem offset =
      let (over, fits) =
        by_raw_offset_lem image.section_table (alignment image) size valid align_fits size_fits
          offset in
      elim (dec_lt (offset + size) (2 ^ 32)) [
        | yes lt ↦ let (r, found, first) = fits lt in rw found first
        | no ge ↦ rw (over (omega arith)) (λ l g at c. omega arith)
      ]
