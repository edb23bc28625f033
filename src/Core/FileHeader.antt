-- ===== src/Core/FileHeader.antt =====
-- class file_header (include/pe_bliss2/core/file_header.h, src/core/file_header.cpp). Of the state
-- of its descriptor the position in the buffer is kept.
use pe_bliss.Base.{ℕ, ◌+◌, ◌%◌, ◌^◌, Bool, bit_and, List, ◌!=◌}
use pe_bliss.Errors.{Result, ok, ◌>>=◌, rethrow, file_header, unable_to_read_file_header}
use pe_bliss.Buffers.Reader.{Reader}
use pe_bliss.Packed.Struct.{deserialize_struct}
use pe_bliss.Packed.Struct.Fields.{field}

pub record FileHeader : Type 0 where
  pub machine : ℕ
  pub number_of_sections : ℕ
  pub time_date_stamp : ℕ
  pub pointer_to_symbol_table : ℕ
  pub number_of_symbols : ℕ
  pub size_of_optional_header : ℕ
  pub characteristics : ℕ
  pub buffer_pos : ℕ

abbrev pub packed_size : ℕ
packed_size = 20

abbrev pub relocs_stripped : ℕ
relocs_stripped = 1

abbrev pub dll : ℕ
dll = 0x2000

unfoldable pub file_header_of : List ℕ → ℕ → FileHeader
file_header_of bytes buffer_pos = record {
  machine = field bytes 0 2;
  number_of_sections = field bytes 2 2;
  time_date_stamp = field bytes 4 4;
  pointer_to_symbol_table = field bytes 8 4;
  number_of_symbols = field bytes 12 4;
  size_of_optional_header = field bytes 16 2;
  characteristics = field bytes 18 2;
  buffer_pos = buffer_pos;
}

unfoldable pub deserialize_file_header : Reader → Bool → Result (FileHeader × Reader)
deserialize_file_header buf allow_virtual_data = do
  got ←
      rethrow (deserialize_struct buf packed_size allow_virtual_data)
        (file_header unable_to_read_file_header)
  ok (file_header_of got.0.1 buf.position, got.1)

pub is_dll : FileHeader → Bool
is_dll header = bit_and header.characteristics dll != 0

unfoldable pub get_section_table_buffer_pos : FileHeader → ℕ
get_section_table_buffer_pos header =
    (header.size_of_optional_header + packed_size + header.buffer_pos) % 2 ^ 64
