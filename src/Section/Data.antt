-- ===== src/Section/Data.antt =====
-- class section_data (include/pe_bliss2/section/section_data.h, src/section/section_data.cpp): the
-- bytes of a section, with virtual ones up to its size in memory.
pub mod Laws
mod Tests
use pe_bliss.Base.{ℕ, ◌-◌, Bool, ltb, if◌then◌else◌}
use pe_bliss.Errors.{Result, ok, ◌>>=◌, rethrow, section, unable_to_read_section_data}
use pe_bliss.Utilities.SafeUint.{plus}
use pe_bliss.Buffers.Input.{Buffer}
use pe_bliss.Buffers.Views.{make_section, make_virtual, without_relative_offset}
use pe_bliss.Buffers.RefBuffer.{RefBuffer}
use pe_bliss.Buffers.RefBuffer
use pe_bliss.Section.Header.{SectionHeader, get_raw_size, get_virtual_size, get_pointer_to_raw_data}

pub record SectionDataLoadOptions : Type 0 where
  pub section_alignment : ℕ
  pub copy_memory : Bool
  pub image_loaded_to_memory : Bool
  pub image_start_buffer_pos : ℕ

-- Where the bytes of a section begin.
unfoldable pub data_start : SectionHeader → SectionDataLoadOptions → ℕ
data_start header options =
    if options.image_loaded_to_memory
    then header.virtual_address
    else get_pointer_to_raw_data header

unfoldable pub deserialize_section_data :
    SectionHeader → Buffer → SectionDataLoadOptions → Result RefBuffer
deserialize_section_data header buffer options =
    let raw_size = get_raw_size header options.section_alignment in
    let virtual_size = get_virtual_size header options.section_alignment in
    rethrow
      (do
        buffer_pos ← plus 64 (data_start header options) options.image_start_buffer_pos
        view ← make_section buffer buffer_pos raw_size
        let buffer_section = without_relative_offset view
        RefBuffer.deserialize
            (if ltb raw_size virtual_size
              then make_virtual buffer_section (virtual_size - raw_size)
              else buffer_section)
            options.copy_memory)
      (section unable_to_read_section_data)
