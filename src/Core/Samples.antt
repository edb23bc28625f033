-- ===== src/Core/Samples.antt =====
-- The optional header of a 32-bit executable and a directory table, for the tests.
use pe_bliss.Base.{arith, true, [], ◌∷◌}
use pe_bliss.Core.DataDirectories.{DataDirectories}
use pe_bliss.Core.OptionalHeader.{OptionalHeader, IsValid, pe32}
use pe_bliss.Core.OptionalHeader.Validator.{ValidationOptions}

abbrev pub sample_header : OptionalHeader
sample_header = record {
  magic = pe32;
  major_linker_version = 14;
  minor_linker_version = 0;
  size_of_code = 0x1400;
  size_of_initialized_data = 0x200;
  size_of_uninitialized_data = 0;
  address_of_entry_point = 0x1010;
  base_of_code = 0x1000;
  base_of_data = 0x3000;
  image_base = 0x400000;
  section_alignment = 0x1000;
  file_alignment = 0x200;
  major_operating_system_version = 6;
  minor_operating_system_version = 0;
  major_image_version = 0;
  minor_image_version = 0;
  major_subsystem_version = 6;
  minor_subsystem_version = 0;
  win32_version_value = 0;
  size_of_image = 0x4000;
  size_of_headers = 0x400;
  checksum = 0;
  subsystem = 3;
  dll_characteristics = 0;
  size_of_stack_reserve = 0x100000;
  size_of_stack_commit = 0x1000;
  size_of_heap_reserve = 0x100000;
  size_of_heap_commit = 0x1000;
  loader_flags = 0;
  number_of_rva_and_sizes = 16;
}

pub sample_header-IsValid : IsValid sample_header
sample_header-IsValid = record {
  image_base_fits = omega arith;
  section_alignment_fits = omega arith;
  file_alignment_fits = omega arith;
  size_of_image_fits = omega arith;
  size_of_headers_fits = omega arith;
}

-- Only the first two directories are in use.
abbrev pub sample_directories : DataDirectories
sample_directories =
    record { virtual_address = 0x3000; size = 0x10 }
    ∷ record { virtual_address = 0x1200; size = 0x28 }
    ∷ record { virtual_address = 0; size = 0 }
    ∷ record { virtual_address = 0; size = 0x30 }
    ∷ []

abbrev pub all_checks : ValidationOptions
all_checks = record {
  check_address_of_entry_point = true;
  check_alignments = true;
  check_subsystem_version = true;
  check_size_of_heap = true;
  check_size_of_stack = true;
  check_size_of_headers = true;
}
