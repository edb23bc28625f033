-- ===== src/Core/OptionalHeader/Validator.antt =====
-- src/core/optional_header_validator.cpp. A `pe_error_wrapper` is an optional error.
pub mod ImageBase
pub mod Alignment
pub mod All
use pe_bliss.Base.{
  ℕ, ◌+◌, ◌*◌, ◌%◌, ◌^◌, Bool, true, false, not, ◌&&◌, ◌||◌, Option, none, some, leb, ltb, ◌==◌,
  ◌!=◌, if◌then◌else◌,
}
use mathlib.Core.Option.{get_or}
use pe_bliss.Base.Words.{cast, has_single_bit}
use pe_bliss.Errors
use pe_bliss.Errors.{Error, optional_header}
use pe_bliss.Errors.List.{ErrorList, add_error, has_errors}
use pe_bliss.Utilities.Math.{add_if_safe, align_up_if_safe}
use pe_bliss.Section.Header.{SectionHeader, get_virtual_size}
use pe_bliss.Core.OptionalHeader.{
  OptionalHeader, Magic, pe32, pe64, minimum_file_alignment, minimum_section_alignment,
  min_major_subsystem_version, min_minor_subsystem_version, get_number_of_rva_and_sizes,
  get_size_of_structure, is_low_alignment, is_windows_console, is_windows_gui,
}

abbrev pub fail : Errors.OptionalHeaderErrc → Option Error
fail e = some (optional_header e)

pub validate_address_of_entry_point : OptionalHeader → Bool → Option Error
validate_address_of_entry_point oh is_dll =
    let entry_point = oh.address_of_entry_point in
    if entry_point == 0 && not is_dll
    then fail Errors.invalid_address_of_entry_point
    else (if entry_point != 0 && ltb entry_point oh.size_of_headers
        then fail Errors.invalid_address_of_entry_point
        else none)

abbrev pub max_nonreloc_image_base : Magic → ℕ
max_nonreloc_image_base pe32 = 0x80000000
max_nonreloc_image_base pe64 = 0x800000000000

abbrev is_pe32 : Magic → Bool
is_pe32 pe32 = true
is_pe32 pe64 = false

-- The checks on the sum of the image base and the size of the image.
pub validate_image_end : OptionalHeader → Bool → ℕ → Option Error
validate_image_end oh has_relocations image_base_sum =
    if is_pe32 oh.magic && cast 32 image_base_sum != image_base_sum
    then fail Errors.too_large_image_base
    else (if not has_relocations && leb (max_nonreloc_image_base oh.magic) image_base_sum
        then fail Errors.too_large_image_base
        else none)

pub validate_image_base : OptionalHeader → Bool → Option Error
validate_image_base oh has_relocations =
    if oh.image_base % 0x10000 != 0
    then fail Errors.unaligned_image_base
    else elim (add_if_safe 64 oh.image_base oh.size_of_image) [
      | none ↦ fail Errors.too_large_image_base
      | some image_base_sum ↦ validate_image_end oh has_relocations image_base_sum
    ]

pub validate_file_alignment : OptionalHeader → Option Error
validate_file_alignment oh =
    if not (has_single_bit 32 oh.file_alignment)
    then fail Errors.incorrect_file_alignment
    else (if not (is_low_alignment oh)
          && (ltb oh.file_alignment minimum_file_alignment
              || ltb oh.section_alignment oh.file_alignment)
        then fail Errors.file_alignment_out_of_range
        else none)

pub validate_section_alignment : OptionalHeader → Option Error
validate_section_alignment oh =
    if not (has_single_bit 32 oh.section_alignment)
    then fail Errors.incorrect_section_alignment
    else (if not (is_low_alignment oh)
          && (ltb oh.section_alignment minimum_section_alignment
              || ltb oh.section_alignment oh.file_alignment)
        then fail Errors.section_alignment_out_of_range
        else none)

pub validate_subsystem_version : OptionalHeader → Option Error
validate_subsystem_version oh =
    if not (is_windows_console oh) && not (is_windows_gui oh)
    then none
    else (if ltb oh.major_subsystem_version min_major_subsystem_version
          || (oh.major_subsystem_version == min_major_subsystem_version
              && ltb oh.minor_subsystem_version min_minor_subsystem_version)
        then fail Errors.too_low_subsystem_version
        else none)

pub validate_size_of_heap : OptionalHeader → Option Error
validate_size_of_heap oh =
    if ltb oh.size_of_heap_reserve oh.size_of_heap_commit
    then fail Errors.invalid_size_of_heap
    else none

pub validate_size_of_stack : OptionalHeader → Option Error
validate_size_of_stack oh =
    if ltb oh.size_of_stack_reserve oh.size_of_stack_commit
    then fail Errors.invalid_size_of_stack
    else none

pub validate_size_of_headers : OptionalHeader → Option Error
validate_size_of_headers oh =
    if not (is_low_alignment oh) && ltb oh.section_alignment oh.size_of_headers
    then fail Errors.invalid_size_of_headers
    else (if ltb oh.size_of_image oh.size_of_headers
        then fail Errors.invalid_size_of_headers
        else none)

pub record ValidationOptions : Type 0 where
  pub check_address_of_entry_point : Bool
  pub check_alignments : Bool
  pub check_subsystem_version : Bool
  pub check_size_of_heap : Bool
  pub check_size_of_stack : Bool
  pub check_size_of_headers : Bool

-- `if (option && (result = check)) errors.add_error(result);`
pub report : Bool → Option Error → ErrorList → ErrorList
report enabled none errors = errors
report enabled (some e) errors = if enabled then add_error errors e else errors

-- The errors after the call, and its result.
pub validate : OptionalHeader → ValidationOptions → Bool → ErrorList → ErrorList × Bool
validate oh options is_dll errors =
    let e₁ =
      report options.check_address_of_entry_point (validate_address_of_entry_point oh is_dll)
        errors in
    let e₂ = report options.check_alignments (validate_file_alignment oh) e₁ in
    let e₃ = report options.check_alignments (validate_section_alignment oh) e₂ in
    let e₄ = report options.check_subsystem_version (validate_subsystem_version oh) e₃ in
    let e₅ = report options.check_size_of_heap (validate_size_of_heap oh) e₄ in
    let e₆ = report options.check_size_of_stack (validate_size_of_stack oh) e₅ in
    let e₇ = report options.check_size_of_headers (validate_size_of_headers oh) e₆ in
    (e₇, not (has_errors e₇))

pub validate_size_of_optional_header : ℕ → OptionalHeader → Option Error
validate_size_of_optional_header size oh =
    if ltb size (get_size_of_structure oh + 8 * get_number_of_rva_and_sizes oh)
    then fail Errors.invalid_size_of_optional_header
    else none

pub validate_size_of_image : Option SectionHeader → OptionalHeader → Option Error
validate_size_of_image none oh =
    if oh.size_of_image != oh.size_of_headers then fail Errors.invalid_size_of_image else none
validate_size_of_image (some last) oh =
    elim (add_if_safe 32 last.virtual_address (get_virtual_size last oh.section_alignment)) [
      | none ↦ fail Errors.invalid_size_of_image
      | some real_size_of_image ↦
          let size_of_image =
            (if has_single_bit 32 oh.section_alignment
              then get_or (align_up_if_safe 32 oh.size_of_image oh.section_alignment)
                  oh.size_of_image
              else oh.size_of_image) in
          if size_of_image != real_size_of_image then fail Errors.invalid_size_of_image else none
    ]
