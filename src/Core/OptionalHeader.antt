-- ===== src/Core/OptionalHeader.antt =====
-- class optional_header (include/pe_bliss2/core/optional_header.h, src/core/optional_header.cpp).
-- The source holds one of two structures; here `magic` says which. They differ in the width of
-- the image base and of the four stack and heap sizes, and `base_of_data` belongs to PE32 alone.
pub mod Validator
pub mod Bytes
use pe_bliss.Base.{ℕ, ◌+◌, ◌*◌, ◌^◌, ◌<◌, Bool, true, false, ◌&&◌, leb, ◌==◌, if◌then◌else◌, min}
use pe_bliss.Base.Words.{cast}
use pe_bliss.Errors.{Result, ok, err, optional_header, no_base_of_data_field}

pub data Magic : Type 0 where
  pe32 pe64 : Magic

pub record OptionalHeader : Type 0 where
  pub magic : Magic
  pub major_linker_version : ℕ
  pub minor_linker_version : ℕ
  pub size_of_code : ℕ
  pub size_of_initialized_data : ℕ
  pub size_of_uninitialized_data : ℕ
  pub address_of_entry_point : ℕ
  pub base_of_code : ℕ
  pub base_of_data : ℕ
  pub image_base : ℕ
  pub section_alignment : ℕ
  pub file_alignment : ℕ
  pub major_operating_system_version : ℕ
  pub minor_operating_system_version : ℕ
  pub major_image_version : ℕ
  pub minor_image_version : ℕ
  pub major_subsystem_version : ℕ
  pub minor_subsystem_version : ℕ
  pub win32_version_value : ℕ
  pub size_of_image : ℕ
  pub size_of_headers : ℕ
  pub checksum : ℕ
  pub subsystem : ℕ
  pub dll_characteristics : ℕ
  pub size_of_stack_reserve : ℕ
  pub size_of_stack_commit : ℕ
  pub size_of_heap_reserve : ℕ
  pub size_of_heap_commit : ℕ
  pub loader_flags : ℕ
  pub number_of_rva_and_sizes : ℕ

-- The width of the image base and of the stack and heap sizes.
abbrev pub va_width : Magic → ℕ
va_width pe32 = 32
va_width pe64 = 64

-- The ranges of the fields that the methods and the validator read.
pub record IsValid (oh : OptionalHeader) : Type 0 where
  pub image_base_fits : oh.image_base < 2 ^ va_width oh.magic
  pub section_alignment_fits : oh.section_alignment < 2 ^ 32
  pub file_alignment_fits : oh.file_alignment < 2 ^ 32
  pub size_of_image_fits : oh.size_of_image < 2 ^ 32
  pub size_of_headers_fits : oh.size_of_headers < 2 ^ 32

abbrev pub max_number_of_rva_and_sizes : ℕ
max_number_of_rva_and_sizes = 16

abbrev pub minimum_file_alignment : ℕ
minimum_file_alignment = 0x200

abbrev pub minimum_section_alignment : ℕ
minimum_section_alignment = 0x1000

abbrev pub min_major_subsystem_version : ℕ
min_major_subsystem_version = 3

abbrev pub min_minor_subsystem_version : ℕ
min_minor_subsystem_version = 10

abbrev pub subsystem_windows_gui : ℕ
subsystem_windows_gui = 2

abbrev pub subsystem_windows_cui : ℕ
subsystem_windows_cui = 3

unfoldable pub get_number_of_rva_and_sizes : OptionalHeader → ℕ
get_number_of_rva_and_sizes oh = min oh.number_of_rva_and_sizes max_number_of_rva_and_sizes

-- The packed size of the structure that follows the magic.
abbrev pub packed_size : Magic → ℕ
packed_size pe32 = 2 * 1 + 9 * 4 + 6 * 2 + 4 * 4 + 2 * 2 + 4 * 4 + 2 * 4
packed_size pe64 = 2 * 1 + 5 * 4 + 8 + 2 * 4 + 6 * 2 + 4 * 4 + 2 * 2 + 4 * 8 + 2 * 4

unfoldable pub get_size_of_structure : OptionalHeader → ℕ
get_size_of_structure oh = 2 + packed_size oh.magic

unfoldable pub is_low_alignment : OptionalHeader → Bool
is_low_alignment oh =
    oh.file_alignment == oh.section_alignment
    && leb 1 oh.file_alignment
    && leb oh.file_alignment 0x800

unfoldable pub is_windows_console : OptionalHeader → Bool
is_windows_console oh = oh.subsystem == subsystem_windows_cui

unfoldable pub is_windows_gui : OptionalHeader → Bool
is_windows_gui oh = oh.subsystem == subsystem_windows_gui

pub get_raw_base_of_data : OptionalHeader → Result ℕ
get_raw_base_of_data oh = elim oh.magic [
  | pe32 ↦ ok oh.base_of_data
  | pe64 ↦ err (optional_header no_base_of_data_field)
]

pub set_raw_base_of_data : OptionalHeader → ℕ → Result OptionalHeader
set_raw_base_of_data oh base = elim oh.magic [
  | pe32 ↦ ok (record oh { base_of_data = base })
  | pe64 ↦ err (optional_header no_base_of_data_field)
]

-- The value is a 64-bit word, and is cut to the width of the field.
unfoldable pub set_raw_image_base : OptionalHeader → ℕ → OptionalHeader
set_raw_image_base oh base = record oh { image_base = cast (va_width oh.magic) base }

pub set_raw_size_of_stack_reserve : OptionalHeader → ℕ → OptionalHeader
set_raw_size_of_stack_reserve oh size = record oh {
  size_of_stack_reserve = cast (va_width oh.magic) size;
}

pub set_raw_size_of_stack_commit : OptionalHeader → ℕ → OptionalHeader
set_raw_size_of_stack_commit oh size = record oh {
  size_of_stack_commit = cast (va_width oh.magic) size;
}

pub set_raw_size_of_heap_reserve : OptionalHeader → ℕ → OptionalHeader
set_raw_size_of_heap_reserve oh size = record oh {
  size_of_heap_reserve = cast (va_width oh.magic) size;
}

pub set_raw_size_of_heap_commit : OptionalHeader → ℕ → OptionalHeader
set_raw_size_of_heap_commit oh size = record oh {
  size_of_heap_commit = cast (va_width oh.magic) size;
}
