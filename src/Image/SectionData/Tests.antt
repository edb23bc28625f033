-- ===== src/Image/SectionData/Tests.antt =====
-- The data behind an address in the headers of an executable.
use pe_bliss.Base.{ℕ, ◌<◌, ◌≡◌, refl, true, false, arith, length}
use pe_bliss.Errors.{ok}
use pe_bliss.Utilities.Math.{is_sum_safe, add_if_safe}
use pe_bliss.Buffers.Input.{
  Buffer, section, size, virtual_size, physical_size, absolute_offset, relative_offset,
}
use pe_bliss.Buffers.Input.Contents.{contents}
use pe_bliss.Buffers.Views.{make_section, reduce}
use pe_bliss.Image.Samples.{program, headers}
use pe_bliss.Image.SectionData.Samples.{program-IsLoaded}
use pe_bliss.Image.SectionData.{
  to_data_result, section_data_from_rva_impl, serve, section_data_from_rva,
}
use pe_bliss.Image.SectionData.Laws.{IsPlace, Shows, section_data_from_rva-Shows}

abbrev view : Buffer
view = section headers 4 8 0 4 4

in_headers : section_data_from_rva program 4 8 true false ≡ ok view
unfolding section_data_from_rva section_data_from_rva_impl to_data_result serve reduce make_section
    add_if_safe is_sum_safe size virtual_size physical_size absolute_offset relative_offset
in_headers = refl

section_data_from_rva-Shows_example :
    (4 < length (contents headers) → true ≡ true)
    × ((b : Buffer) × (offset : ℕ) × IsPlace program 4 8 b offset × Shows b offset 8 false view)
section_data_from_rva-Shows_example =
    section_data_from_rva-Shows program program-IsLoaded 4 8 (omega arith) (omega arith) true false
      view in_headers
