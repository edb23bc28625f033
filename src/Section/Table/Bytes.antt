-- ===== src/Section/Table/Bytes.antt =====
-- The section table in a buffer (src/section/section_table.cpp): behind a header with virtual bytes
-- no other one is read, and all fields of the others are zero.
use pe_bliss.Base.{ℕ, zero, suc, Bool, [], ◌∷◌, ltb, if◌then◌else◌, replicate}
use pe_bliss.Errors.{Result, ok, err}
use pe_bliss.Buffers.Reader.{Reader}
use pe_bliss.Section.Header.{SectionHeader}
use pe_bliss.Section.Header.Bytes.{packed_size, deserialize_section_header}
use pe_bliss.Section.Table.{SectionTable}

abbrev pub no_header : SectionHeader
no_header = record {
  name = replicate 8 0;
  virtual_size = 0;
  virtual_address = 0;
  size_of_raw_data = 0;
  pointer_to_raw_data = 0;
  pointer_to_relocations = 0;
  pointer_to_line_numbers = 0;
  number_of_relocations = 0;
  number_of_line_numbers = 0;
  characteristics = 0;
}

-- A header that was read, or could not be read, and the rest of the loop with `left` headers.
unfoldable pub header_then :
    (Reader → SectionTable × Result Reader)
    → ℕ
    → Result ((ℕ × SectionHeader) × Reader)
    → SectionTable × Result Reader
header_then rest left (err e) = (no_header ∷ [], err e)
header_then rest left (ok ((physical, header), after)) =
    if ltb physical packed_size
    then (header ∷ replicate left no_header, ok after)
    else (let (headers, r) = rest after in (header ∷ headers, r))

-- The headers that the call leaves, also where it throws.
unfoldable pub deserialize_table : ℕ → Reader → Bool → SectionTable × Result Reader
deserialize_table zero buf allow_virtual_data = ([], ok buf)
deserialize_table (suc left) buf allow_virtual_data =
    header_then (λ after. deserialize_table left after allow_virtual_data) left
      (deserialize_section_header buf allow_virtual_data)
