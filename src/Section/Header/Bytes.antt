-- ===== src/Section/Header/Bytes.antt =====
-- A section header in a buffer (src/section/section_header.cpp).
use pe_bliss.Base.{ℕ, Bool, List}
use pe_bliss.Errors.{Result, ok, ◌>>=◌, rethrow, section, unable_to_read_section_table}
use pe_bliss.Buffers.Reader.{Reader}
use pe_bliss.Packed.Struct.{deserialize_struct}
use pe_bliss.Packed.Struct.Fields.{field, field_array}
use pe_bliss.Section.Header.{SectionHeader}

abbrev pub packed_size : ℕ
packed_size = 40

unfoldable pub section_header_of : List ℕ → SectionHeader
section_header_of bytes = record {
  name = field_array bytes 0 1 8;
  virtual_size = field bytes 8 4;
  virtual_address = field bytes 12 4;
  size_of_raw_data = field bytes 16 4;
  pointer_to_raw_data = field bytes 20 4;
  pointer_to_relocations = field bytes 24 4;
  pointer_to_line_numbers = field bytes 28 4;
  number_of_relocations = field bytes 32 2;
  number_of_line_numbers = field bytes 34 2;
  characteristics = field bytes 36 4;
}

-- The header, with the count of its physical bytes.
unfoldable pub deserialize_section_header : Reader → Bool → Result ((ℕ × SectionHeader) × Reader)
deserialize_section_header buf allow_virtual_data = do
  got ←
      rethrow (deserialize_struct buf packed_size allow_virtual_data)
        (section unable_to_read_section_table)
  ok ((got.0.0, section_header_of got.0.1), got.1)
