-- ===== src/Image/Strings.antt =====
-- Strings of characters of `width` bytes at an address: read through a copy of its data
-- (src/image/string_from_va.cpp) and written to the copied memory there
-- (src/image/string_to_va.cpp). A write gives the image behind it, also where it throws.
pub mod Laws
mod Tests
use pe_bliss.Base.{ℕ, ◌-◌, ◌^◌, Bool, not, ◌&&◌, List, [], ◌∷◌, length, ◌==◌, if◌then◌else◌}
use pe_bliss.Base.Loops.{Run, out_of_fuel, done}
use pe_bliss.Base.Words.{cast, add_wrap}
use pe_bliss.Errors.{Result, ok, err, ◌>>=◌}
use pe_bliss.Buffers.RefBuffer.{contents_of}
use pe_bliss.Buffers.Reader.{Reader}
use pe_bliss.Packed.CString.{CString, deserialize_string, serialize_to_memory}
use pe_bliss.Image.AddressConverter.{va_to_rva}
use pe_bliss.Image.Layout.{Image}
use pe_bliss.Image.SectionData.Whole.{all_section_data_from_rva}
use pe_bliss.Image.Writes.{Span, set_buffer, write_copied, span_from_rva}

-- The string of a read.
abbrev pub string_of : Run (CString × Reader) → Run CString
string_of out_of_fuel = out_of_fuel
string_of (done (str, after)) = done str

-- The limit is the greatest `std::size_t`.
pub string_from_rva : ℕ → Image → ℕ → Bool → Bool → Result (Run CString)
string_from_rva width img rva include_headers allow_virtual_data = do
  buf ← all_section_data_from_rva img rva include_headers allow_virtual_data
  str ←
      deserialize_string width (record { buffer = buf; position = 0 }) allow_virtual_data
        (2 ^ 64 - 1)
  ok (string_of str)

pub string_from_va : ℕ → Image → ℕ → Bool → Bool → Result (Run CString)
string_from_va width img va include_headers allow_virtual_data = do
  rva ← va_to_rva img.optional_header.image_base va
  string_from_rva width img rva include_headers allow_virtual_data

-- Whether nothing is to be written.
abbrev pub is_nothing : CString → Bool → Bool
is_nothing str write_virtual_part =
    length str.value == 0 && str.virtual_nullbyte && not write_virtual_part

-- A string that is written to a range, and the `w`-bit address behind it.
unfoldable pub write_string : ℕ → ℕ → Image → ℕ → Span → CString → Bool → Image × Result ℕ
write_string w width img address span str write_virtual_part =
    elim (serialize_to_memory width str span.data_size write_virtual_part) [
      | err e ↦ (set_buffer img span.place (contents_of span.memory), err e)
      | ok (sz, bytes) ↦ (
        set_buffer img span.place (contents_of (write_copied span.memory span.data_offset bytes)),
        ok (add_wrap w address (cast w sz)),
      )
    ]

unfoldable pub string_to_rva : ℕ → Image → ℕ → CString → Bool → Bool → Image × Result ℕ
string_to_rva width img rva str include_headers write_virtual_part =
    if is_nothing str write_virtual_part
    then (img, ok rva)
    else (elim (span_from_rva img rva include_headers) [
      | err e ↦ (img, err e)
      | ok span ↦ write_string 32 width img rva span str write_virtual_part
    ])

-- The overload for addresses of `w` bits, which is 32 or 64.
pub string_to_va : ℕ → ℕ → Image → ℕ → CString → Bool → Bool → Image × Result ℕ
string_to_va w width img va str include_headers write_virtual_part =
    if is_nothing str write_virtual_part
    then (img, ok va)
    else (elim (va_to_rva img.optional_header.image_base va >>= λ rva.
        span_from_rva img rva include_headers) [
          | err e ↦ (img, err e)
          | ok span ↦ write_string w width img va span str write_virtual_part
        ])
