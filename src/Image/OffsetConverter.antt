-- ===== src/Image/OffsetConverter.antt =====
-- src/image/rva_file_offset_converter.cpp: addresses of an image in memory and in its file.
-- Differences are of 32-bit words, and wrap where the section lies past the address.
pub mod Laws
use pe_bliss.Base.{ℕ, Option, none, some, ltb, leb, if◌then◌else◌}
use pe_bliss.Base.Words.{sub_wrap}
use pe_bliss.Errors.{
  generic, buffer_overrun, integer_overflow, Result, ok, err, ◌>>=◌, ◌>>◌, throw_if, or_throw,
}
use pe_bliss.Utilities.Math.{add_if_safe}
use pe_bliss.Utilities.SafeUint.{plus}
use pe_bliss.Section.Header.{
  SectionHeader, get_rva, get_virtual_size, get_raw_size, get_pointer_to_raw_data,
}
use pe_bliss.Buffers.Input.{Buffer, absolute_offset}
use pe_bliss.Image.Layout.{Image, alignment}
use pe_bliss.Image.SectionSearch.{Found, section_from_rva, section_from_file_offset}

-- The move of an address from one range to another: its distance from `start`, less than `size`,
-- is added to `target`.
abbrev pub move : ℕ → ℕ → ℕ → ℕ → Result ℕ
move address start size target =
    let result = sub_wrap 32 address start in
    do
      throw_if (leb size result) (generic buffer_overrun)
      or_throw (add_if_safe 32 result target) (generic integer_overflow)

-- What follows the search for the section, whose result is given.
abbrev pub rva_in_section : Image → ℕ → Found → Result ℕ
rva_in_section img offset none = err (generic buffer_overrun)
rva_in_section img offset (some (index, it)) =
    move offset (get_pointer_to_raw_data it) (get_virtual_size it (alignment img)) (get_rva it)

abbrev pub offset_in_section : Image → ℕ → Found → Result ℕ
offset_in_section img rva none = err (generic buffer_overrun)
offset_in_section img rva (some (index, it)) =
    move rva (get_rva it) (get_raw_size it (alignment img)) (get_pointer_to_raw_data it)

pub file_offset_to_rva : Image → ℕ → Result ℕ
file_offset_to_rva img offset =
    if ltb offset img.optional_header.size_of_headers
    then ok offset
    else rva_in_section img offset (section_from_file_offset img offset 1)

pub rva_to_file_offset : Image → ℕ → Result ℕ
rva_to_file_offset img rva =
    if ltb rva img.optional_header.size_of_headers
    then ok rva
    else offset_in_section img rva (section_from_rva img rva 1)

pub absolute_offset_to_rva : Image → Buffer → Result ℕ
absolute_offset_to_rva img buf = do
  offset ← plus 32 0 (absolute_offset buf)
  file_offset_to_rva img offset
