-- ===== src/Image/Writes.antt =====
-- Writes of structures to an address (include/pe_bliss2/image/struct_to_va.h) through the overload
-- of section_data_from_rva that returns a range of copied memory
-- (src/image/section_data_from_va.cpp). The range is its place in the image, its offset in the
-- bytes of the place and its size. A call gives the image behind it, also where it throws.
pub mod Laws
mod Tests
use pe_bliss.Base.{
  ℕ, zero, suc, Bool, not, ◌&&◌, ◌||◌, Option, none, some, List, [], ◌∷◌, ltb, ◌==◌, if◌then◌else◌,
  length, min, take, get_elem?,
}
use pe_bliss.Errors.{Error, Result, ok, err, ◌>>=◌, generic, buffer_overrun}
use pe_bliss.Utilities.SafeUint.{plus}
use pe_bliss.Buffers.Input.{Buffer, size}
use pe_bliss.Buffers.Output.{overwrite}
use pe_bliss.Buffers.RefBuffer.{RefBuffer, copied, referenced, contents_of, read_buffer}
use pe_bliss.Image.Layout.{Image}
use pe_bliss.Image.SectionSearch.{Found, section_from_rva}
use pe_bliss.Image.SectionData.{DataResult}
use pe_bliss.Image.SectionData.Whole.{all_section_data_from_rva_impl}

-- The buffers of an image that hold data.
pub data Place : Type 0 where
  headers : Place
  section_data : ℕ → Place

abbrev pub place_in : List Buffer → Found → Place
place_in list none = section_data (length list)
place_in list (some (index, header)) = section_data index

-- The first search, or the one for an empty range if its data iterator is the end.
abbrev pub first_place : List Buffer → Found → Found → Place
first_place list none empty = place_in list empty
first_place list (some (index, header)) empty =
    if ltb index (length list) then section_data index else place_in list empty

-- Where all_section_data_from_rva_impl finds its buffer.
unfoldable pub place_of : Image → ℕ → Place
place_of img rva =
    if ltb rva (size img.full_headers_buffer)
    then headers
    else first_place img.section_data_list (section_from_rva img rva 1) (section_from_rva img rva 0)

abbrev pub set_at : List Buffer → ℕ → Buffer → List Buffer
set_at [] i b = []
set_at (x ∷ xs) zero b = b ∷ xs
set_at (x ∷ xs) (suc i) b = x ∷ set_at xs i b

unfoldable pub set_buffer : Image → Place → Buffer → Image
set_buffer img headers b = record img { full_headers_buffer = b }
set_buffer img (section_data i) b = record img {
  section_data_list = set_at img.section_data_list i b;
}

-- The copied memory with these bytes at an offset; a buffer that has been read is a copy.
unfoldable pub write_copied : RefBuffer → ℕ → List ℕ → RefBuffer
write_copied (copied bytes absolute relative virt) offset xs =
    copied (overwrite offset xs bytes) absolute relative virt
write_copied (referenced b) offset xs = referenced b

-- The range that section_data_from_rva returns, behind the copy that it makes.
pub record Span : Type 0 where
  pub place : Place
  pub memory : RefBuffer
  pub data_offset : ℕ
  pub data_size : ℕ

unfoldable pub span_from_rva : Image → ℕ → Bool → Result Span
span_from_rva img rva include_headers = do
  result ← all_section_data_from_rva_impl img rva include_headers
  memory ← read_buffer result.buffer
  ok (record {
    place = place_of img rva;
    memory = memory;
    data_offset = result.data_offset;
    data_size = result.data_size;
  })

-- `serialize` to the range, or `serialize_until`, of the bytes of a structure, and the address
-- behind them.
unfoldable pub write_span : Image → ℕ → Span → ℕ → List ℕ → Bool → Image × Result ℕ
write_span img rva span value_size value cut =
    let sz = if cut then min span.data_size value_size else value_size in
    if ltb span.data_size sz
    then (set_buffer img span.place (contents_of span.memory), err (generic buffer_overrun))
    else (
      set_buffer img span.place
          (contents_of (write_copied span.memory span.data_offset (take sz value))),
      plus 32 rva sz,
    )

-- The structure is its bytes and the count of the physical ones.
unfoldable pub struct_to_rva : Image → ℕ → List ℕ → ℕ → Bool → Bool → Bool → Image × Result ℕ
struct_to_rva img rva value physical include_headers write_virtual_part cut_if_does_not_fit =
    if physical == 0 && not write_virtual_part
    then (img, ok rva)
    else (elim (span_from_rva img rva include_headers) [
      | err e ↦ (img, err e)
      | ok span ↦
          write_span img rva span (if write_virtual_part then length value else physical) value
            cut_if_does_not_fit
    ])
