-- ===== src/Image/Layout.antt =====
-- The parts of class image that the modelled functions read (include/pe_bliss2/image/image.h), and
-- what the conversions of addresses ask of an image.
use pe_bliss.Base.{ℕ, ◌+◌, ◌^◌, ◌≤◌, ◌<◌, ◌≡◌, ◌⊎◌, List, some, get_elem?, All}
use pe_bliss.Buffers.Input.{Buffer}
use pe_bliss.Core.DataDirectories.{DataDirectories}
use pe_bliss.Core.OptionalHeader.{OptionalHeader}
use pe_bliss.Section.Header.{
  SectionHeader, IsValid, get_rva, get_virtual_size, get_raw_size, get_pointer_to_raw_data,
}
use pe_bliss.Section.Table.{SectionTable}

pub record Image : Type 0 where
  pub e_lfanew : ℕ
  pub optional_header : OptionalHeader
  pub machine : ℕ
  pub data_directories : DataDirectories
  pub section_table : SectionTable
  pub section_data_list : List Buffer
  pub overlay : Buffer
  pub full_headers_buffer : Buffer
  pub full_sections_buffer : Buffer

abbrev pub alignment : Image → ℕ
alignment image = image.optional_header.section_alignment

-- The ranges of a section in memory and in the file.
abbrev pub virtual_end : Image → SectionHeader → ℕ
virtual_end image h = get_rva h + get_virtual_size h (alignment image)

abbrev pub raw_end : Image → SectionHeader → ℕ
raw_end image h = get_pointer_to_raw_data h + get_raw_size h (alignment image)

abbrev pub IsBounded : Image → SectionHeader → Type 0
IsBounded image h = (virtual_end image h < 2 ^ 32) × (raw_end image h < 2 ^ 32)

-- Valid headers, ranges that end at 32-bit addresses, and no two sections that share a byte of
-- memory or of the file.
pub record IsLaidOut (image : Image) : Type 0 where
  pub alignment_fits : alignment image < 2 ^ 32
  pub headers : All IsValid image.section_table
  pub bounds : All (IsBounded image) image.section_table
  pub virtual_disjoint :
      (l m : ℕ) (g h : SectionHeader)
      → l < m
      → get_elem? image.section_table l ≡ some g
      → get_elem? image.section_table m ≡ some h
      → (virtual_end image g ≤ get_rva h) ⊎ (virtual_end image h ≤ get_rva g)
  pub raw_disjoint :
      (l m : ℕ) (g h : SectionHeader)
      → l < m
      → get_elem? image.section_table l ≡ some g
      → get_elem? image.section_table m ≡ some h
      → (raw_end image g ≤ get_pointer_to_raw_data h)
        ⊎ (raw_end image h ≤ get_pointer_to_raw_data g)
