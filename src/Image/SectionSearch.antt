-- ===== src/Image/SectionSearch.antt =====
-- src/image/image_section_search.cpp. A pair of iterators to a header and to its data is the
-- index of both with the header, and `none` the two ends. An overflow of the search is no error
-- here: it finds nothing.
pub mod Laws
use pe_bliss.Base.{ℕ, Bool, Option, none, some, get_elem?}
use pe_bliss.Errors.{Result, ok, err}
use pe_bliss.Section.Header.{SectionHeader}
use pe_bliss.Section.Table
use pe_bliss.Image.AddressConverter.{va_to_rva}
use pe_bliss.Image.Layout.{Image, alignment}
use pe_bliss.Core.DataDirectories.{get_directory}

abbrev pub Found : Type 0
Found = Option (ℕ × SectionHeader)

-- `try { … } catch (const pe_error&) {}`, and the end iterators behind it.
abbrev pub or_end : Result Found → Found
or_end (ok r) = r
or_end (err e) = none

unfoldable pub section_from_rva : Image → ℕ → ℕ → Found
section_from_rva image rva data_size =
    or_end (Table.by_rva image.section_table rva (alignment image) data_size)

pub section_from_file_offset : Image → ℕ → ℕ → Found
section_from_file_offset image offset data_size =
    or_end (Table.by_raw_offset image.section_table offset (alignment image) data_size)

pub section_from_va : Image → ℕ → ℕ → Found
section_from_va image va data_size = elim (va_to_rva image.optional_header.image_base va) [
  | ok rva ↦ section_from_rva image rva data_size
  | err e ↦ none
]

-- A directory is absent if its index is past the table.
pub section_from_directory : Image → ℕ → Found
section_from_directory image directory = elim (get_directory image.data_directories directory) [
  | none ↦ none
  | some d ↦ section_from_rva image d.virtual_address 0
]
