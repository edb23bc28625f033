-- ===== src/Image/SectionData/Length.antt =====
-- src/image/section_data_length_from_va.cpp: how many bytes of data an address has behind it.
pub mod Laws
mod Tests
use pe_bliss.Base.{ℕ, ◌-◌, Bool, Option, none, some, leb, if◌then◌else◌}
use pe_bliss.Base.Words.{cast, sub_wrap}
use pe_bliss.Errors.{Result, ok, err, ◌>>=◌, image, section_data_does_not_exist}
use pe_bliss.Section.Header.{SectionHeader, get_rva}
use pe_bliss.Buffers.Input.{Buffer, size, virtual_size}
use pe_bliss.Image.AddressConverter.{va_to_rva}
use pe_bliss.Image.Layout.{Image}
use pe_bliss.Image.SectionSearch.{section_from_rva}
use pe_bliss.Image.SectionData.Whole.{data_of}

-- The size of a buffer, or of its bytes of the file.
abbrev pub counted_size : Buffer → Bool → ℕ
counted_size buf allow_virtual_data =
    if allow_virtual_data then size buf else sub_wrap 64 (size buf) (virtual_size buf)

abbrev pub length_in_section :
    ℕ → Bool → Option (SectionHeader × Buffer) → Option (SectionHeader × Buffer) → Result ℕ
length_in_section rva allow none none = err (image section_data_does_not_exist)
length_in_section rva allow none (some empty) = ok 0
length_in_section rva allow (some (header, data_it)) empty =
    let data_offset = sub_wrap 32 rva (get_rva header) in
    let real_size = counted_size data_it allow in
    ok (if leb real_size data_offset then 0 else cast 32 (real_size - data_offset))

pub section_data_length_from_rva : Image → ℕ → Bool → Bool → Result ℕ
section_data_length_from_rva img rva include_headers allow_virtual_data =
    let headers = img.full_headers_buffer in
    if leb rva (size headers)
    then (if include_headers
        then ok (cast 32 (sub_wrap 64 (counted_size headers allow_virtual_data) rva))
        else err (image section_data_does_not_exist))
    else length_in_section rva allow_virtual_data (data_of img (section_from_rva img rva 1))
        (data_of img (section_from_rva img rva 0))

pub section_data_length_from_va : Image → ℕ → Bool → Bool → Result ℕ
section_data_length_from_va img va include_headers allow_virtual_data = do
  rva ← va_to_rva img.optional_header.image_base va
  section_data_length_from_rva img rva include_headers allow_virtual_data
