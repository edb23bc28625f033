-- ===== src/Image/Structures.antt =====
-- Packed structures read at an address (include/pe_bliss2/image/struct_from_va.h).
mod Tests
pub mod Laws
use pe_bliss.Base.{ℕ, ◌+◌, ◌*◌, Bool, not, ◌&&◌, List, [], ◌∷◌, ◌!=◌}
use pe_bliss.Errors.{Result, ok, ◌>>=◌, ◌>>◌, throw_if, generic, buffer_overrun}
use pe_bliss.Buffers.Reader.{Reader}
use pe_bliss.Packed.Struct.{deserialize_struct}
use pe_bliss.Image.AddressConverter.{va_to_rva}
use pe_bliss.Image.Layout.{Image}
use pe_bliss.Image.SectionData.Whole.{all_section_data_from_rva}

pub struct_from_rva : Image → ℕ → ℕ → Bool → Bool → Result (ℕ × List ℕ)
struct_from_rva img rva packed_size include_headers allow_virtual_data = do
  buf ← all_section_data_from_rva img rva include_headers allow_virtual_data
  got ← deserialize_struct (record { buffer = buf; position = 0 }) packed_size allow_virtual_data
  ok got.0

pub struct_from_va : Image → ℕ → ℕ → Bool → Bool → Result (ℕ × List ℕ)
struct_from_va img va packed_size include_headers allow_virtual_data = do
  rva ← va_to_rva img.optional_header.image_base va
  struct_from_rva img rva packed_size include_headers allow_virtual_data
