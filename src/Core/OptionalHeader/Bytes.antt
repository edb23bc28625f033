-- ===== src/Core/OptionalHeader/Bytes.antt =====
-- The optional header in a buffer (src/core/optional_header.cpp): the magic, then one of the two
-- structures of include/pe_bliss2/detail/image_optional_header.h.
pub mod Stored
pub mod Laws
mod Tests
use pe_bliss.Base.{ℕ, Bool, false, Option, none, some, List, [], ◌++◌, ◌==◌, if◌then◌else◌}
use pe_bliss.Errors.{
  Result, ok, err, rethrow, optional_header, invalid_pe_magic, unable_to_read_optional_header,
}
use pe_bliss.Buffers.Reader.{Reader}
use pe_bliss.Packed.Struct.{serialize, deserialize_struct}
use pe_bliss.Packed.Struct.Fields.{field}
use pe_bliss.Core.OptionalHeader.{Magic, pe32, pe64, OptionalHeader, packed_size}

abbrev pub magic_value : Magic → ℕ
magic_value pe32 = 0x10b
magic_value pe64 = 0x20b

abbrev pub magic_of : ℕ → Option Magic
magic_of value = if value == 0x10b then some pe32 else (if value == 0x20b then some pe64 else none)

unfoldable pub header_32_of : List ℕ → OptionalHeader
header_32_of bytes = record {
  magic = pe32;
  major_linker_version = field bytes 0 1;
  minor_linker_version = field bytes 1 1;
  size_of_code = field bytes 2 4;
  size_of_initialized_data = field bytes 6 4;
  size_of_uninitialized_data = field bytes 10 4;
  address_of_entry_point = field bytes 14 4;
  base_of_code = field bytes 18 4;
  base_of_data = field bytes 22 4;
  image_base = field bytes 26 4;
  section_alignment = field bytes 30 4;
  file_alignment = field bytes 34 4;
  major_operating_system_version = field bytes 38 2;
  minor_operating_system_version = field bytes 40 2;
  major_image_version = field bytes 42 2;
  minor_image_version = field bytes 44 2;
  major_subsystem_version = field bytes 46 2;
  minor_subsystem_version = field bytes 48 2;
  win32_version_value = field bytes 50 4;
  size_of_image = field bytes 54 4;
  size_of_headers = field bytes 58 4;
  checksum = field bytes 62 4;
  subsystem = field bytes 66 2;
  dll_characteristics = field bytes 68 2;
  size_of_stack_reserve = field bytes 70 4;
  size_of_stack_commit = field bytes 74 4;
  size_of_heap_reserve = field bytes 78 4;
  size_of_heap_commit = field bytes 82 4;
  loader_flags = field bytes 86 4;
  number_of_rva_and_sizes = field bytes 90 4;
}

unfoldable pub header_64_of : List ℕ → OptionalHeader
header_64_of bytes = record {
  magic = pe64;
  major_linker_version = field bytes 0 1;
  minor_linker_version = field bytes 1 1;
  size_of_code = field bytes 2 4;
  size_of_initialized_data = field bytes 6 4;
  size_of_uninitialized_data = field bytes 10 4;
  address_of_entry_point = field bytes 14 4;
  base_of_code = field bytes 18 4;
  base_of_data = 0;
  image_base = field bytes 22 8;
  section_alignment = field bytes 30 4;
  file_alignment = field bytes 34 4;
  major_operating_system_version = field bytes 38 2;
  minor_operating_system_version = field bytes 40 2;
  major_image_version = field bytes 42 2;
  minor_image_version = field bytes 44 2;
  major_subsystem_version = field bytes 46 2;
  minor_subsystem_version = field bytes 48 2;
  win32_version_value = field bytes 50 4;
  size_of_image = field bytes 54 4;
  size_of_headers = field bytes 58 4;
  checksum = field bytes 62 4;
  subsystem = field bytes 66 2;
  dll_characteristics = field bytes 68 2;
  size_of_stack_reserve = field bytes 70 8;
  size_of_stack_commit = field bytes 78 8;
  size_of_heap_reserve = field bytes 86 8;
  size_of_heap_commit = field bytes 94 8;
  loader_flags = field bytes 102 4;
  number_of_rva_and_sizes = field bytes 106 4;
}

unfoldable pub header_of : Magic → List ℕ → OptionalHeader
header_of pe32 bytes = header_32_of bytes
header_of pe64 bytes = header_64_of bytes

-- The structure behind a magic: a new one, all zeros, if it cannot be read.
unfoldable pub structure_then :
    Magic → Result ((ℕ × List ℕ) × Reader) → OptionalHeader × Result Reader
structure_then magic (err e) = (header_of magic [], err e)
structure_then magic (ok (got, after)) = (header_of magic got.1, ok after)

-- What follows a magic that is known, or not.
unfoldable pub known_then :
    OptionalHeader → Bool → Reader → Option Magic → OptionalHeader × Result Reader
known_then old allow_virtual_data buf none = (old, err (optional_header invalid_pe_magic))
known_then old allow_virtual_data buf (some magic) = structure_then magic (
    rethrow (deserialize_struct buf (packed_size magic) allow_virtual_data)
      (optional_header unable_to_read_optional_header))

unfoldable pub magic_then :
    OptionalHeader → Bool → Result ((ℕ × List ℕ) × Reader) → OptionalHeader × Result Reader
magic_then old allow_virtual_data (err e) = (old, err e)
magic_then old allow_virtual_data (ok (value, after)) =
    known_then old allow_virtual_data after (magic_of (field value.1 0 2))

-- The header that the call leaves of an old one, also where it throws.
unfoldable pub deserialize_optional_header :
    OptionalHeader → Reader → Bool → OptionalHeader × Result Reader
deserialize_optional_header old buf allow_virtual_data =
    magic_then old allow_virtual_data
      (rethrow (deserialize_struct buf 2 false) (optional_header unable_to_read_optional_header))

unfoldable pub header_32_bytes : OptionalHeader → List ℕ
header_32_bytes oh =
    serialize 1 oh.major_linker_version
    ++ (serialize 1 oh.minor_linker_version
        ++ (serialize 4 oh.size_of_code
            ++ (serialize 4 oh.size_of_initialized_data
                ++ (serialize 4 oh.size_of_uninitialized_data
                    ++ (serialize 4 oh.address_of_entry_point
                        ++ (serialize 4 oh.base_of_code
                            ++ (serialize 4 oh.base_of_data
                                ++ (serialize 4 oh.image_base
                                    ++ (serialize 4 oh.section_alignment
                                        ++ (serialize 4 oh.file_alignment
                                            ++ (serialize 2 oh.major_operating_system_version
                                                ++ (serialize 2 oh.minor_operating_system_version
                                                    ++ (serialize 2 oh.major_image_version
                                                        ++ (serialize 2 oh.minor_image_version
                                                            ++ (serialize 2
                                                            oh.major_subsystem_version
                                                            ++ (serialize 2
                                                            oh.minor_subsystem_version
                                                            ++ (serialize 4 oh.win32_version_value
                                                            ++ (serialize 4 oh.size_of_image
                                                            ++ (serialize 4 oh.size_of_headers
                                                            ++ (serialize 4 oh.checksum
                                                            ++ (serialize 2 oh.subsystem
                                                            ++ (serialize 2 oh.dll_characteristics
                                                            ++ (serialize 4 oh.size_of_stack_reserve
                                                            ++ (serialize 4 oh.size_of_stack_commit
                                                            ++ (serialize 4 oh.size_of_heap_reserve
                                                            ++ (serialize 4 oh.size_of_heap_commit
                                                            ++ (serialize 4 oh.loader_flags
                                                            ++ (serialize 4
                                                            oh.number_of_rva_and_sizes))))))))))))))))))))))))))))

unfoldable pub header_64_bytes : OptionalHeader → List ℕ
header_64_bytes oh =
    serialize 1 oh.major_linker_version
    ++ (serialize 1 oh.minor_linker_version
        ++ (serialize 4 oh.size_of_code
            ++ (serialize 4 oh.size_of_initialized_data
                ++ (serialize 4 oh.size_of_uninitialized_data
                    ++ (serialize 4 oh.address_of_entry_point
                        ++ (serialize 4 oh.base_of_code
                            ++ (serialize 8 oh.image_base
                                ++ (serialize 4 oh.section_alignment
                                    ++ (serialize 4 oh.file_alignment
                                        ++ (serialize 2 oh.major_operating_system_version
                                            ++ (serialize 2 oh.minor_operating_system_version
                                                ++ (serialize 2 oh.major_image_version
                                                    ++ (serialize 2 oh.minor_image_version
                                                        ++ (serialize 2 oh.major_subsystem_version
                                                            ++ (serialize 2
                                                            oh.minor_subsystem_version
                                                            ++ (serialize 4 oh.win32_version_value
                                                            ++ (serialize 4 oh.size_of_image
                                                            ++ (serialize 4 oh.size_of_headers
                                                            ++ (serialize 4 oh.checksum
                                                            ++ (serialize 2 oh.subsystem
                                                            ++ (serialize 2 oh.dll_characteristics
                                                            ++ (serialize 8 oh.size_of_stack_reserve
                                                            ++ (serialize 8 oh.size_of_stack_commit
                                                            ++ (serialize 8 oh.size_of_heap_reserve
                                                            ++ (serialize 8 oh.size_of_heap_commit
                                                            ++ (serialize 4 oh.loader_flags
                                                            ++ (serialize 4
                                                            oh.number_of_rva_and_sizes)))))))))))))))))))))))))))

unfoldable pub structure_bytes : Magic → OptionalHeader → List ℕ
structure_bytes pe32 oh = header_32_bytes oh
structure_bytes pe64 oh = header_64_bytes oh

-- What `serialize` writes, with all bytes.
unfoldable pub optional_header_bytes : OptionalHeader → List ℕ
optional_header_bytes oh = serialize 2 (magic_value oh.magic) ++ structure_bytes oh.magic oh
