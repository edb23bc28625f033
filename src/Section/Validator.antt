-- ===== src/Section/Validator.antt =====
-- src/section/section_header_validator.cpp and src/section/section_table_validator.cpp.
mod Tests
pub mod Contiguous
pub mod Single
use pe_bliss.Base.{
  ℕ, suc, ◌+◌, ◌-◌, ◌%◌, Bool, true, false, not, ◌&&◌, ◌||◌, Option, none, some, List, [], ◌∷◌, ltb,
  ◌==◌, ◌!=◌, if◌then◌else◌,
}
use pe_bliss.Base.Words.{has_single_bit}
use pe_bliss.Errors
use pe_bliss.Errors.{Error, section, optional_header}
use pe_bliss.Errors.List.{ErrorList, add_error, add_error_at}
use pe_bliss.Utilities.Math.{is_sum_safe, add_if_safe}
use pe_bliss.Core.OptionalHeader.{OptionalHeader}
use pe_bliss.Core.OptionalHeader
use pe_bliss.Section.Header.{
  SectionHeader, two_gb_size, get_raw_size, get_virtual_size, get_pointer_to_raw_data, get_rva,
  is_low_alignment,
}

abbrev fail : Errors.SectionErrc → Option Error
fail e = some (section e)

pub validate_raw_size : SectionHeader → ℕ → Option Error
validate_raw_size h section_alignment =
    if ltb (get_raw_size h section_alignment) two_gb_size
    then none
    else fail Errors.invalid_section_raw_size

pub validate_virtual_size : SectionHeader → Option Error
validate_virtual_size h =
    if h.virtual_size == 0 && h.size_of_raw_data == 0
    then fail Errors.invalid_section_virtual_size
    else (if ltb h.virtual_size two_gb_size then none else fail Errors.invalid_section_virtual_size)

pub validate_raw_address : SectionHeader → Option Error
validate_raw_address h =
    if h.size_of_raw_data == 0 && h.virtual_size == 0
    then fail Errors.invalid_section_raw_address
    else (if h.size_of_raw_data != 0 && h.pointer_to_raw_data == 0
        then fail Errors.invalid_section_raw_address
        else none)

pub validate_raw_size_alignment : SectionHeader → ℕ → ℕ → Bool → Option Error
validate_raw_size_alignment h section_alignment file_alignment last_section =
    if not (has_single_bit 32 section_alignment) || not (has_single_bit 32 file_alignment)
    then fail Errors.invalid_section_raw_size_alignment
    else (if last_section || get_raw_size h section_alignment % file_alignment == 0
        then none
        else fail Errors.invalid_section_raw_size_alignment)

pub validate_raw_address_alignment : SectionHeader → ℕ → Option Error
validate_raw_address_alignment h file_alignment =
    if not (has_single_bit 32 file_alignment)
    then fail Errors.invalid_section_raw_address_alignment
    else (if get_pointer_to_raw_data h % file_alignment == 0
        then none
        else fail Errors.invalid_section_raw_address_alignment)

pub validate_virtual_address_alignment : SectionHeader → ℕ → Option Error
validate_virtual_address_alignment h section_alignment =
    if not (has_single_bit 32 section_alignment)
    then fail Errors.invalid_section_virtual_address_alignment
    else (if h.virtual_address % section_alignment == 0
        then none
        else fail Errors.invalid_section_virtual_address_alignment)

pub validate_raw_size_bounds : SectionHeader → ℕ → Option Error
validate_raw_size_bounds h section_alignment =
    if is_sum_safe 32 (get_raw_size h section_alignment) (get_pointer_to_raw_data h)
    then none
    else fail Errors.raw_section_size_overflow

pub validate_virtual_size_bounds : SectionHeader → ℕ → Option Error
validate_virtual_size_bounds h section_alignment =
    if is_sum_safe 32 (get_virtual_size h section_alignment) (get_rva h)
    then none
    else fail Errors.virtual_section_size_overflow

-- `if (auto err = check; err) errors.add_error(err, section_index);`
pub report_at : ℕ → Option Error → ErrorList → ErrorList
report_at section_index none errors = errors
report_at section_index (some e) errors = add_error_at errors e section_index

pub validate_low_alignment : OptionalHeader → SectionHeader → Option Error
validate_low_alignment oh h =
    if OptionalHeader.is_low_alignment oh && not (is_low_alignment h)
    then fail Errors.invalid_section_low_alignment
    else none

-- The checks of one section that need no other section.
pub validate_section_header : OptionalHeader → SectionHeader → ℕ → ErrorList → ErrorList
validate_section_header oh h section_index errors =
    let section_alignment = oh.section_alignment in
    let file_alignment = oh.file_alignment in
    let e₁ = report_at section_index (validate_raw_size h section_alignment) errors in
    let e₂ = report_at section_index (validate_virtual_size h) e₁ in
    let e₃ = report_at section_index (validate_raw_address h) e₂ in
    let e₄ = report_at section_index (validate_raw_address_alignment h file_alignment) e₃ in
    let e₅ = report_at section_index (validate_raw_size_bounds h section_alignment) e₄ in
    let e₆ = report_at section_index (validate_virtual_size_bounds h section_alignment) e₅ in
    let e₇ = report_at section_index (validate_virtual_address_alignment h section_alignment) e₆ in
    report_at section_index (validate_low_alignment oh h) e₇

-- The distance to the previous section, or to the headers for the first one.
pub validate_gap : OptionalHeader → Option SectionHeader → SectionHeader → ℕ → ErrorList → ErrorList
validate_gap oh none h section_index errors =
    if ltb (get_rva h) oh.size_of_headers
    then add_error errors (optional_header Errors.invalid_size_of_headers)
    else errors
validate_gap oh (some prev) h section_index errors =
    elim (add_if_safe 32 (get_virtual_size prev oh.section_alignment) (get_rva prev)) [
      | none ↦ add_error_at errors (section Errors.invalid_section_virtual_size) (section_index - 1)
      | some next_virtual_address ↦
          if next_virtual_address != get_rva h
          then add_error_at errors (section Errors.virtual_gap_between_sections) section_index
          else errors
    ]

-- The overload that takes an iterator: `prev` is the section before it, `last` whether it is the
-- last one.
pub validate_section_at :
    OptionalHeader → Option SectionHeader → SectionHeader → Bool → ℕ → ErrorList → ErrorList
validate_section_at oh prev h last section_index errors =
    let e₁ = validate_section_header oh h section_index errors in
    let e₂ =
      report_at section_index
        (validate_raw_size_alignment h oh.section_alignment oh.file_alignment last) e₁ in
    validate_gap oh prev h section_index e₂

abbrev is_empty : List SectionHeader → Bool
is_empty [] = true
is_empty (h ∷ hs) = false

pub validate_from :
    OptionalHeader → Option SectionHeader → ℕ → List SectionHeader → ErrorList → ErrorList
validate_from oh prev section_index [] errors = errors
validate_from oh prev section_index (h ∷ hs) errors =
    validate_from oh (some h) (suc section_index) hs
      (validate_section_at oh prev h (is_empty hs) section_index errors)

pub validate_section_headers : OptionalHeader → List SectionHeader → ErrorList → ErrorList
validate_section_headers oh headers errors = validate_from oh none 0 headers errors
