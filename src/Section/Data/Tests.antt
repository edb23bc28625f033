-- ===== src/Section/Data/Tests.antt =====
-- The data of a small section.
use pe_bliss.Base.{
  ◌+◌, ◌-◌, ◌≤◌, ◌<◌, ◌≡◌, true, false, [], ◌∷◌, ◌++◌, arith, length, min, replicate,
}
use pe_bliss.Errors.{ok, err, section, unable_to_read_section_data}
use pe_bliss.Buffers.Input.{Buffer, container, absolute_offset, relative_offset}
use pe_bliss.Buffers.Input.Contents.{contents, physical}
use pe_bliss.Buffers.RefBuffer.{RefBuffer, contents_of}
use pe_bliss.Buffers.RefBuffer.Laws.{IsView}
use pe_bliss.Section.Header
use pe_bliss.Section.Header.{SectionHeader}
use pe_bliss.Section.Data.{SectionDataLoadOptions, deserialize_section_data}
use pe_bliss.Section.Data.Laws.{
  HasRoom, first_byte, raw_size, section_bytes, deserialize_section_data_lem,
}

abbrev header : SectionHeader
header = record {
  name = replicate 8 0;
  virtual_size = 16;
  virtual_address = 0x1000;
  size_of_raw_data = 4;
  pointer_to_raw_data = 0x200;
  pointer_to_relocations = 0;
  pointer_to_line_numbers = 0;
  number_of_relocations = 0;
  number_of_line_numbers = 0;
  characteristics = 0;
}

header-IsValid : Header.IsValid header
header-IsValid = record {
  virtual_size_fits = omega arith;
  virtual_address_fits = omega arith;
  size_of_raw_data_fits = omega arith;
  pointer_to_raw_data_fits = omega arith;
  characteristics_fits = omega arith;
}

abbrev file : Buffer
file = container (replicate 0x200 0 ++ (1 ∷ 2 ∷ 3 ∷ 4 ∷ [])) 0 0

file-HasRoom : HasRoom file
unfolding contents absolute_offset relative_offset
file-HasRoom = (omega arith, omega arith, omega arith, omega arith)

abbrev options : SectionDataLoadOptions
options = record {
  section_alignment = 0x1000;
  copy_memory = true;
  image_loaded_to_memory = false;
  image_start_buffer_pos = 0;
}

deserialize_section_data_lem_example :
    (first_byte header options + raw_size header options ≤ length (contents file)
      → (c : RefBuffer) × (deserialize_section_data header file options ≡ ok c)
        × IsView
            (contents_of c)
            (section_bytes header file options)
            (min (raw_size header options) (physical file - first_byte header options))
            (first_byte header options + absolute_offset file)
            0)
    × (length (contents file) < first_byte header options + raw_size header options
        → deserialize_section_data header file options ≡ err (section unable_to_read_section_data))
deserialize_section_data_lem_example =
    deserialize_section_data_lem header file options header-IsValid file-HasRoom (omega arith)
      (omega arith)
