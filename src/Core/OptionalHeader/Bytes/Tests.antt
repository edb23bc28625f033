-- ===== src/Core/OptionalHeader/Bytes/Tests.antt =====
-- The optional header of a PE32+ file, read behind a byte of a buffer.
use pe_bliss.Base.{◌+◌, ◌≤◌, ◌≡◌, refl, true, ◌∷◌, arith, take, drop}
use pe_bliss.Errors.{ok}
use pe_bliss.Buffers.Input.{container}
use pe_bliss.Buffers.Input.Contents.{contents, physical, IsValid}
use pe_bliss.Buffers.Reader.{Reader}
use pe_bliss.Packed.Struct.{serialize}
use pe_bliss.Core.OptionalHeader.{OptionalHeader, pe32, pe64}
use pe_bliss.Core.OptionalHeader.Bytes.{
  structure_bytes, header_64_bytes, optional_header_bytes, deserialize_optional_header,
}
use pe_bliss.Core.OptionalHeader.Bytes.Stored.{IsStored}
use pe_bliss.Core.OptionalHeader.Bytes.Laws.{deserialize_optional_header-optional_header_bytes}

abbrev header : OptionalHeader
header = record {
  magic = pe64;
  major_linker_version = 14;
  minor_linker_version = 29;
  size_of_code = 0x200;
  size_of_initialized_data = 0x400;
  size_of_uninitialized_data = 0;
  address_of_entry_point = 0x1000;
  base_of_code = 0x1000;
  base_of_data = 0;
  image_base = 0x140000000;
  section_alignment = 0x1000;
  file_alignment = 0x200;
  major_operating_system_version = 6;
  minor_operating_system_version = 0;
  major_image_version = 0;
  minor_image_version = 0;
  major_subsystem_version = 6;
  minor_subsystem_version = 0;
  win32_version_value = 0;
  size_of_image = 0x3000;
  size_of_headers = 0x200;
  checksum = 0x1234;
  subsystem = 3;
  dll_characteristics = 0x8160;
  size_of_stack_reserve = 0x100000;
  size_of_stack_commit = 0x1000;
  size_of_heap_reserve = 0x100000;
  size_of_heap_commit = 0x1000;
  loader_flags = 0;
  number_of_rva_and_sizes = 16;
}

header-IsStored : IsStored pe64 header
header-IsStored = record {
  major_linker_version_fits = omega arith;
  minor_linker_version_fits = omega arith;
  size_of_code_fits = omega arith;
  size_of_initialized_data_fits = omega arith;
  size_of_uninitialized_data_fits = omega arith;
  address_of_entry_point_fits = omega arith;
  base_of_code_fits = omega arith;
  base_of_data_fits = refl;
  image_base_fits = omega arith;
  section_alignment_fits = omega arith;
  file_alignment_fits = omega arith;
  major_operating_system_version_fits = omega arith;
  minor_operating_system_version_fits = omega arith;
  major_image_version_fits = omega arith;
  minor_image_version_fits = omega arith;
  major_subsystem_version_fits = omega arith;
  minor_subsystem_version_fits = omega arith;
  win32_version_value_fits = omega arith;
  size_of_image_fits = omega arith;
  size_of_headers_fits = omega arith;
  checksum_fits = omega arith;
  subsystem_fits = omega arith;
  dll_characteristics_fits = omega arith;
  size_of_stack_reserve_fits = omega arith;
  size_of_stack_commit_fits = omega arith;
  size_of_heap_reserve_fits = omega arith;
  size_of_heap_commit_fits = omega arith;
  loader_flags_fits = omega arith;
  number_of_rva_and_sizes_fits = omega arith;
}

abbrev reader : Reader
reader = record { buffer = container (0xff ∷ optional_header_bytes header) 0 0; position = 1 }

valid : IsValid reader.buffer
unfolding optional_header_bytes structure_bytes header_64_bytes serialize
valid = omega arith

inside : 1 + 112 ≤ physical reader.buffer
unfolding physical optional_header_bytes structure_bytes header_64_bytes serialize
inside = omega arith

stored : take 112 (drop 1 (contents reader.buffer)) ≡ optional_header_bytes header
unfolding contents optional_header_bytes structure_bytes header_64_bytes serialize
stored = refl

deserialize_optional_header-optional_header_bytes_example :
    deserialize_optional_header (record header { magic = pe32 }) reader true
    ≡ (header, ok (record reader { position = 113 }))
deserialize_optional_header-optional_header_bytes_example =
    deserialize_optional_header-optional_header_bytes header (record header { magic = pe32 }) reader
      true header-IsStored valid inside stored
