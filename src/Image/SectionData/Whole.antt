-- ===== src/Image/SectionData/Whole.antt =====
-- src/image/section_data_from_va.cpp, the overloads without a size that return a buffer: all data
-- from an address to the end of the headers or of its section.
use pe_bliss.Base.{ℕ, Bool, Option, none, some, ltb, if◌then◌else◌, get_elem?}
use pe_bliss.Base.Words.{add_wrap}
use pe_bliss.Errors.{Result, ok, err, ◌>>=◌, image, section_data_does_not_exist}
use pe_bliss.Section.Header.{SectionHeader, get_rva}
use pe_bliss.Buffers.Input.{Buffer, size}
use pe_bliss.Buffers.Views.{reduce}
use pe_bliss.Image.AddressConverter.{va_to_rva}
use pe_bliss.Image.Layout.{Image}
use pe_bliss.Image.SectionSearch.{Found, section_from_rva}
use pe_bliss.Image.SectionData.{DataResult, to_data_result}

-- The header and the data of a section that a search found, and `none` if its data iterator is
-- the end.
abbrev pub data_of : Image → Found → Option (SectionHeader × Buffer)
data_of img none = none
data_of img (some (index, header)) = elim (get_elem? img.section_data_list index) [
  | none ↦ none
  | some data_it ↦ some (header, data_it)
]

-- The end of the data of a section that holds the address, but has no byte there.
abbrev pub empty_result : Option (SectionHeader × Buffer) → Result DataResult
empty_result none = err (image section_data_does_not_exist)
empty_result (some (header, data_it)) = ok (record {
  buffer = data_it;
  data_offset = size data_it;
  data_size = 0;
  additional_virtual_size = 0;
})

abbrev pub result_or_empty :
    ℕ → Option (SectionHeader × Buffer) → Option (SectionHeader × Buffer) → Result DataResult
result_or_empty rva none empty = empty_result empty
result_or_empty rva (some (header, data_it)) empty =
    ok (to_data_result rva (get_rva header) data_it)

unfoldable pub all_section_data_from_rva_impl : Image → ℕ → Bool → Result DataResult
all_section_data_from_rva_impl img rva include_headers =
    let headers = img.full_headers_buffer in
    if ltb rva (size headers)
    then (if include_headers
        then ok (to_data_result rva 0 headers)
        else err (image section_data_does_not_exist))
    else result_or_empty rva (data_of img (section_from_rva img rva 1))
        (data_of img (section_from_rva img rva 0))

-- The view of the data that was found.
abbrev pub serve_all : Bool → DataResult → Result Buffer
serve_all allow_virtual_data result = reduce result.buffer result.data_offset (
    if allow_virtual_data
    then add_wrap 64 result.data_size result.additional_virtual_size
    else result.data_size)

unfoldable pub all_section_data_from_rva : Image → ℕ → Bool → Bool → Result Buffer
all_section_data_from_rva img rva include_headers allow_virtual_data =
    all_section_data_from_rva_impl img rva include_headers >>= serve_all allow_virtual_data

pub all_section_data_from_va : Image → ℕ → Bool → Bool → Result Buffer
all_section_data_from_va img va include_headers allow_virtual_data = do
  rva ← va_to_rva img.optional_header.image_base va
  all_section_data_from_rva img rva include_headers allow_virtual_data
