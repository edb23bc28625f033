-- ===== src/Image/Loader/Tests.antt =====
-- A load of the small executable, the data behind an address of its section, and the theorems at
-- them.
use pe_bliss.Base.{some, none, map, ◌≡◌, refl, true, arith}
use pe_bliss.Errors.{Error}
use pe_bliss.Buffers.Input.{Buffer, section, virtual}
use pe_bliss.Image.SectionData.Laws.{IsLoaded}
use pe_bliss.Image.Loader.Samples.{tiny, tiny-HasRoom, tiny-IsByte, all_options}
use pe_bliss.Image.Loader.Laws.{load-IsLoaded}
use pe_bliss.Image.Loader.Laws.Data.{read_data}
use pe_bliss.Image.Loader.Laws.Fatal.{IsFresh, load-fatal_error}
use pe_bliss.Image.Loader.Laws.Success.{HasHeaders, load-HasHeaders}
use pe_bliss.Core.OptionalHeader.{pe32}
use pe_bliss.Buffers.Input.Contents.{contents, physical}
use pe_bliss.Image.Loader.Laws.Addresses.{data_options}
use pe_bliss.Buffers.Input
use pe_bliss.Buffers.Reader
use pe_bliss.Buffers.RefBuffer
use pe_bliss.Image.Loader
use pe_bliss.Image.Loader.State
use pe_bliss.Image.SectionData
use pe_bliss.Packed.Struct
use pe_bliss.Section.Search
use pe_bliss.Section.Table
use pe_bliss.Image.Loader.State.{image_of}
use pe_bliss.Dos.{validate_magic, dos_header_of, validate_e_lfanew}
use pe_bliss.Utilities.Math.{is_aligned}
use pe_bliss.Core.ImageSignature.{validate_signature}
use pe_bliss.Core.FileHeader.{get_section_table_buffer_pos, file_header_of}
use pe_bliss.Core.OptionalHeader.Bytes.{header_of, header_32_of}
use pe_bliss.Core.OptionalHeader.{get_number_of_rva_and_sizes}

-- Four bytes of the section's data.
abbrev four_bytes : Buffer
four_bytes = section (virtual (section tiny 512 8 0 512 0) 4088 512 0) 0 4 0 512 0

load-IsLoaded_example : IsLoaded (image_of (Loader.load tiny (all_options true)).image)
load-IsLoaded_example = load-IsLoaded tiny tiny-HasRoom tiny-IsByte (all_options true)

load-fatal_error_example :
    ((e : Error)
      → (Loader.load tiny (all_options true)).fatal_error ≡ some e
      → IsFresh tiny tiny-HasRoom tiny-IsByte
          (all_options true)
          (Loader.load tiny (all_options true)).image)
    × ((Loader.load tiny (all_options true)).fatal_error ≡ none
        → true ≡ true
        → (Loader.load tiny (all_options true)).image.section_list
          ≡ map
              (read_data tiny
                (data_options (Loader.load tiny (all_options true)).image (all_options true)))
              (Loader.load tiny (all_options true)).image.section_table)
load-fatal_error_example = load-fatal_error tiny tiny-HasRoom tiny-IsByte (all_options true)

tiny-HasHeaders : HasHeaders tiny pe32
unfolding dos_header_of file_header_of header_of header_32_of Struct.deserialize validate_magic
    validate_e_lfanew validate_signature is_aligned get_number_of_rva_and_sizes
    get_section_table_buffer_pos physical contents
tiny-HasHeaders = record {
  dos_in_file = omega arith;
  magic = refl;
  e_lfanew = refl;
  signature = refl;
  kind = refl;
  headers_in_file = omega arith;
  table_in_file = omega arith;
}

load-HasHeaders_example : (Loader.load tiny (all_options true)).fatal_error ≡ none
load-HasHeaders_example = load-HasHeaders tiny pe32 tiny-HasRoom tiny-HasHeaders (all_options true)
