-- ===== src/Section/Validator/Tests.antt =====
-- The validator at two sections of an executable.
use pe_bliss.Base.{◌+◌, ◌≤◌, ◌≡◌, ◌↔◌, refl, none, [], arith}
use pe_bliss.Base.Words.{has_single_bit, popcount}
use pe_bliss.Errors.List.{has_errors-nil}
use pe_bliss.Utilities.Math.{align_up_if_safe, align_down, add_if_safe, is_sum_safe}
use pe_bliss.Core.OptionalHeader.{is_low_alignment}
use pe_bliss.Core.Samples.{sample_header}
use pe_bliss.Section.Samples.{text, rodata, two_sections, two_sections-IsValid}
use pe_bliss.Section.Header.{get_rva, get_virtual_size, get_raw_size, get_pointer_to_raw_data}
use pe_bliss.Section.Header
use pe_bliss.Section.Validator.{
  report_at, validate_raw_size, validate_virtual_size, validate_raw_address,
  validate_raw_size_alignment, validate_raw_address_alignment, validate_virtual_address_alignment,
  validate_raw_size_bounds, validate_virtual_size_bounds, validate_low_alignment,
  validate_section_header, validate_gap, validate_section_at, validate_from,
  validate_section_headers,
}
use pe_bliss.Section.Validator.Single.{IsClean, AllPass, validate_section_headers_iff}
use pe_bliss.Section.Validator.Contiguous.{sections_disjoint}

nothing_reported : validate_section_headers sample_header two_sections [] ≡ []
unfolding has_single_bit popcount align_up_if_safe align_down add_if_safe is_sum_safe
    is_low_alignment get_rva get_virtual_size get_raw_size get_pointer_to_raw_data
    Header.is_low_alignment report_at validate_raw_size validate_virtual_size validate_raw_address
    validate_raw_size_alignment validate_raw_address_alignment validate_virtual_address_alignment
    validate_raw_size_bounds validate_virtual_size_bounds validate_low_alignment
    validate_section_header validate_gap validate_section_at validate_from validate_section_headers
nothing_reported = refl

two_sections-IsClean : IsClean (validate_section_headers sample_header two_sections [])
two_sections-IsClean = rw nothing_reported has_errors-nil

validate_section_headers_iff_example :
    IsClean (validate_section_headers sample_header two_sections [])
    ↔ AllPass sample_header none two_sections
validate_section_headers_iff_example =
    validate_section_headers_iff sample_header two_sections two_sections-IsValid

sections_disjoint_example : get_rva text + get_virtual_size text 0x1000 ≤ get_rva rodata
sections_disjoint_example =
    (sections_disjoint sample_header two_sections two_sections-IsValid two_sections-IsClean).0 0 1
      text rodata (omega arith) refl refl
