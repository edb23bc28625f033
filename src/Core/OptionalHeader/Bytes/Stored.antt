-- ===== src/Core/OptionalHeader/Bytes/Stored.antt =====
-- The fields of an optional header in its bytes.
use pe_bliss.Base.{ℕ, ◌^◌, ◌<◌, ◌≡◌, sym}
use pe_bliss.Packed.Struct.{deserialize, serialize}
use pe_bliss.Packed.Struct.Numbers.{deserialize-serialize}
use pe_bliss.Core.OptionalHeader.{Magic, pe32, pe64, OptionalHeader, va_width}
use pe_bliss.Core.OptionalHeader.Bytes.{
  header_32_of, header_64_of, header_32_bytes, header_64_bytes,
}

-- PE32+ has no base of data.
abbrev pub DataFits : Magic → ℕ → Type 0
DataFits pe32 value = value < 2 ^ 32
DataFits pe64 value = value ≡ 0

-- All fields are words of their widths.
pub record IsStored (m : Magic) (oh : OptionalHeader) : Type 0 where
  pub major_linker_version_fits : oh.major_linker_version < 2 ^ 8
  pub minor_linker_version_fits : oh.minor_linker_version < 2 ^ 8
  pub size_of_code_fits : oh.size_of_code < 2 ^ 32
  pub size_of_initialized_data_fits : oh.size_of_initialized_data < 2 ^ 32
  pub size_of_uninitialized_data_fits : oh.size_of_uninitialized_data < 2 ^ 32
  pub address_of_entry_point_fits : oh.address_of_entry_point < 2 ^ 32
  pub base_of_code_fits : oh.base_of_code < 2 ^ 32
  pub base_of_data_fits : DataFits m oh.base_of_data
  pub image_base_fits : oh.image_base < 2 ^ va_width m
  pub section_alignment_fits : oh.section_alignment < 2 ^ 32
  pub file_alignment_fits : oh.file_alignment < 2 ^ 32
  pub major_operating_system_version_fits : oh.major_operating_system_version < 2 ^ 16
  pub minor_operating_system_version_fits : oh.minor_operating_system_version < 2 ^ 16
  pub major_image_version_fits : oh.major_image_version < 2 ^ 16
  pub minor_image_version_fits : oh.minor_image_version < 2 ^ 16
  pub major_subsystem_version_fits : oh.major_subsystem_version < 2 ^ 16
  pub minor_subsystem_version_fits : oh.minor_subsystem_version < 2 ^ 16
  pub win32_version_value_fits : oh.win32_version_value < 2 ^ 32
  pub size_of_image_fits : oh.size_of_image < 2 ^ 32
  pub size_of_headers_fits : oh.size_of_headers < 2 ^ 32
  pub checksum_fits : oh.checksum < 2 ^ 32
  pub subsystem_fits : oh.subsystem < 2 ^ 16
  pub dll_characteristics_fits : oh.dll_characteristics < 2 ^ 16
  pub size_of_stack_reserve_fits : oh.size_of_stack_reserve < 2 ^ va_width m
  pub size_of_stack_commit_fits : oh.size_of_stack_commit < 2 ^ va_width m
  pub size_of_heap_reserve_fits : oh.size_of_heap_reserve < 2 ^ va_width m
  pub size_of_heap_commit_fits : oh.size_of_heap_commit < 2 ^ va_width m
  pub loader_flags_fits : oh.loader_flags < 2 ^ 32
  pub number_of_rva_and_sizes_fits : oh.number_of_rva_and_sizes < 2 ^ 32

pub header_32 :
    (oh : OptionalHeader)
    → oh.magic ≡ pe32
    → IsStored pe32 oh
    → header_32_of (header_32_bytes oh) ≡ oh
unfolding header_32_of header_32_bytes serialize deserialize
header_32 oh is fits = λ i. record {
  magic = (sym is) i;
  major_linker_version =
      deserialize-serialize 1 oh.major_linker_version fits.major_linker_version_fits i;
  minor_linker_version =
      deserialize-serialize 1 oh.minor_linker_version fits.minor_linker_version_fits i;
  size_of_code = deserialize-serialize 4 oh.size_of_code fits.size_of_code_fits i;
  size_of_initialized_data =
      deserialize-serialize 4 oh.size_of_initialized_data fits.size_of_initialized_data_fits i;
  size_of_uninitialized_data =
      deserialize-serialize 4 oh.size_of_uninitialized_data fits.size_of_uninitialized_data_fits i;
  address_of_entry_point =
      deserialize-serialize 4 oh.address_of_entry_point fits.address_of_entry_point_fits i;
  base_of_code = deserialize-serialize 4 oh.base_of_code fits.base_of_code_fits i;
  base_of_data = deserialize-serialize 4 oh.base_of_data fits.base_of_data_fits i;
  image_base = deserialize-serialize 4 oh.image_base fits.image_base_fits i;
  section_alignment = deserialize-serialize 4 oh.section_alignment fits.section_alignment_fits i;
  file_alignment = deserialize-serialize 4 oh.file_alignment fits.file_alignment_fits i;
  major_operating_system_version =
      deserialize-serialize 2 oh.major_operating_system_version
        fits.major_operating_system_version_fits i;
  minor_operating_system_version =
      deserialize-serialize 2 oh.minor_operating_system_version
        fits.minor_operating_system_version_fits i;
  major_image_version =
      deserialize-serialize 2 oh.major_image_version fits.major_image_version_fits i;
  minor_image_version =
      deserialize-serialize 2 oh.minor_image_version fits.minor_image_version_fits i;
  major_subsystem_version =
      deserialize-serialize 2 oh.major_subsystem_version fits.major_subsystem_version_fits i;
  minor_subsystem_version =
      deserialize-serialize 2 oh.minor_subsystem_version fits.minor_subsystem_version_fits i;
  win32_version_value =
      deserialize-serialize 4 oh.win32_version_value fits.win32_version_value_fits i;
  size_of_image = deserialize-serialize 4 oh.size_of_image fits.size_of_image_fits i;
  size_of_headers = deserialize-serialize 4 oh.size_of_headers fits.size_of_headers_fits i;
  checksum = deserialize-serialize 4 oh.checksum fits.checksum_fits i;
  subsystem = deserialize-serialize 2 oh.subsystem fits.subsystem_fits i;
  dll_characteristics =
      deserialize-serialize 2 oh.dll_characteristics fits.dll_characteristics_fits i;
  size_of_stack_reserve =
      deserialize-serialize 4 oh.size_of_stack_reserve fits.size_of_stack_reserve_fits i;
  size_of_stack_commit =
      deserialize-serialize 4 oh.size_of_stack_commit fits.size_of_stack_commit_fits i;
  size_of_heap_reserve =
      deserialize-serialize 4 oh.size_of_heap_reserve fits.size_of_heap_reserve_fits i;
  size_of_heap_commit =
      deserialize-serialize 4 oh.size_of_heap_commit fits.size_of_heap_commit_fits i;
  loader_flags = deserialize-serialize 4 oh.loader_flags fits.loader_flags_fits i;
  number_of_rva_and_sizes =
      deserialize-serialize 4 oh.number_of_rva_and_sizes fits.number_of_rva_and_sizes_fits i;
}

pub header_64 :
    (oh : OptionalHeader)
    → oh.magic ≡ pe64
    → IsStored pe64 oh
    → header_64_of (header_64_bytes oh) ≡ oh
unfolding header_64_of header_64_bytes serialize deserialize
header_64 oh is fits = λ i. record {
  magic = (sym is) i;
  major_linker_version =
      deserialize-serialize 1 oh.major_linker_version fits.major_linker_version_fits i;
  minor_linker_version =
      deserialize-serialize 1 oh.minor_linker_version fits.minor_linker_version_fits i;
  size_of_code = deserialize-serialize 4 oh.size_of_code fits.size_of_code_fits i;
  size_of_initialized_data =
      deserialize-serialize 4 oh.size_of_initialized_data fits.size_of_initialized_data_fits i;
  size_of_uninitialized_data =
      deserialize-serialize 4 oh.size_of_uninitialized_data fits.size_of_uninitialized_data_fits i;
  address_of_entry_point =
      deserialize-serialize 4 oh.address_of_entry_point fits.address_of_entry_point_fits i;
  base_of_code = deserialize-serialize 4 oh.base_of_code fits.base_of_code_fits i;
  base_of_data = (sym fits.base_of_data_fits) i;
  image_base = deserialize-serialize 8 oh.image_base fits.image_base_fits i;
  section_alignment = deserialize-serialize 4 oh.section_alignment fits.section_alignment_fits i;
  file_alignment = deserialize-serialize 4 oh.file_alignment fits.file_alignment_fits i;
  major_operating_system_version =
      deserialize-serialize 2 oh.major_operating_system_version
        fits.major_operating_system_version_fits i;
  minor_operating_system_version =
      deserialize-serialize 2 oh.minor_operating_system_version
        fits.minor_operating_system_version_fits i;
  major_image_version =
      deserialize-serialize 2 oh.major_image_version fits.major_image_version_fits i;
  minor_image_version =
      deserialize-serialize 2 oh.minor_image_version fits.minor_image_version_fits i;
  major_subsystem_version =
      deserialize-serialize 2 oh.major_subsystem_version fits.major_subsystem_version_fits i;
  minor_subsystem_version =
      deserialize-serialize 2 oh.minor_subsystem_version fits.minor_subsystem_version_fits i;
  win32_version_value =
      deserialize-serialize 4 oh.win32_version_value fits.win32_version_value_fits i;
  size_of_image = deserialize-serialize 4 oh.size_of_image fits.size_of_image_fits i;
  size_of_headers = deserialize-serialize 4 oh.size_of_headers fits.size_of_headers_fits i;
  checksum = deserialize-serialize 4 oh.checksum fits.checksum_fits i;
  subsystem = deserialize-serialize 2 oh.subsystem fits.subsystem_fits i;
  dll_characteristics =
      deserialize-serialize 2 oh.dll_characteristics fits.dll_characteristics_fits i;
  size_of_stack_reserve =
      deserialize-serialize 8 oh.size_of_stack_reserve fits.size_of_stack_reserve_fits i;
  size_of_stack_commit =
      deserialize-serialize 8 oh.size_of_stack_commit fits.size_of_stack_commit_fits i;
  size_of_heap_reserve =
      deserialize-serialize 8 oh.size_of_heap_reserve fits.size_of_heap_reserve_fits i;
  size_of_heap_commit =
      deserialize-serialize 8 oh.size_of_heap_commit fits.size_of_heap_commit_fits i;
  loader_flags = deserialize-serialize 4 oh.loader_flags fits.loader_flags_fits i;
  number_of_rva_and_sizes =
      deserialize-serialize 4 oh.number_of_rva_and_sizes fits.number_of_rva_and_sizes_fits i;
}
