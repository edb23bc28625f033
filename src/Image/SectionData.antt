-- ===== src/Image/SectionData.antt =====
-- src/image/section_data_from_va.cpp, the overloads that take a size and return a buffer: the data
-- behind an address, in the headers or in a section. The data of a ref_buffer is the buffer it
-- holds. The data of a section is that with its index; an index at the end of the list is the end
-- iterator, and one past it does not occur.
mod Tests
pub mod Samples
pub mod Laws
pub mod Whole
pub mod Length
use pe_bliss.Base.{ℕ, ◌-◌, Bool, not, ◌&&◌, ◌||◌, Option, none, some, ltb, if◌then◌else◌, get_elem?}
use pe_bliss.Base.Words.{add_wrap, sub_wrap}
use pe_bliss.Errors.{
  Result, ok, err, ◌>>=◌, ◌>>◌, throw_if, or_throw, image, section_data_does_not_exist,
}
use pe_bliss.Utilities.Math.{is_sum_safe}
use pe_bliss.Section.Header.{SectionHeader, get_rva}
use pe_bliss.Buffers.Input.{Buffer, size, physical_size}
use pe_bliss.Buffers.Views.{reduce}
use pe_bliss.Image.AddressConverter.{va_to_rva}
use pe_bliss.Image.Layout.{Image}
use pe_bliss.Image.SectionSearch.{Found, section_from_rva}

pub record DataResult : Type 0 where
  pub buffer : Buffer
  pub data_offset : ℕ
  pub data_size : ℕ
  pub additional_virtual_size : ℕ

-- What is left of `total` bytes behind an offset.
abbrev pub available : ℕ → ℕ → ℕ
available total offset = if ltb total offset then 0 else total - offset

unfoldable pub to_data_result : ℕ → ℕ → Buffer → DataResult
to_data_result rva section_rva buf =
    let offset = sub_wrap 32 rva section_rva in
    let in_file = available (physical_size buf) offset in
    record {
      buffer = buf;
      data_offset = offset;
      data_size = in_file;
      additional_virtual_size = sub_wrap 64 (available (size buf) offset) in_file;
    }

-- The data of the section that a search found.
unfoldable pub in_section : Image → ℕ → Found → Result DataResult
in_section img rva none = err (image section_data_does_not_exist)
in_section img rva (some (index, header)) = do
  data_it ← or_throw (get_elem? img.section_data_list index) (image section_data_does_not_exist)
  ok (to_data_result rva (get_rva header) data_it)

unfoldable pub section_data_from_rva_impl : Image → ℕ → ℕ → Bool → Result DataResult
section_data_from_rva_impl img rva data_size include_headers =
    let headers = img.full_headers_buffer in
    if ltb rva (size headers)
    then (do
      throw_if (not (is_sum_safe 32 rva data_size)) (image section_data_does_not_exist)
      throw_if (not include_headers || ltb (size headers) (add_wrap 32 rva data_size))
          (image section_data_does_not_exist)
      ok (to_data_result rva 0 headers))
    else in_section img rva (section_from_rva img rva data_size)

-- What the overload does with the data that was found.
unfoldable pub serve : ℕ → Bool → DataResult → Result Buffer
serve data_size allow_virtual_data result = do
  throw_if (not allow_virtual_data && ltb result.data_size data_size)
      (image section_data_does_not_exist)
  throw_if (ltb (add_wrap 64 result.data_size result.additional_virtual_size) data_size)
      (image section_data_does_not_exist)
  reduce result.buffer result.data_offset data_size

unfoldable pub section_data_from_rva : Image → ℕ → ℕ → Bool → Bool → Result Buffer
section_data_from_rva img rva data_size include_headers allow_virtual_data =
    section_data_from_rva_impl img rva data_size include_headers
    >>= serve data_size allow_virtual_data

pub section_data_from_va : Image → ℕ → ℕ → Bool → Bool → Result Buffer
section_data_from_va img va data_size include_headers allow_virtual_data = do
  rva ← va_to_rva img.optional_header.image_base va
  section_data_from_rva img rva data_size include_headers allow_virtual_data
