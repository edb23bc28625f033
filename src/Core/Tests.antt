-- ===== src/Core/Tests.antt =====
-- The optional header of an executable and a directory table: runs, and the theorems at them.
use pe_bliss.Base.{◌≤◌, ◌<◌, ◌≡◌, ◌↔◌, refl, true, false, none, [], length, take}
use pe_bliss.Core.Samples.{sample_header, sample_header-IsValid, sample_directories, all_checks}
use pe_bliss.Core.OptionalHeader.Validator.{
  validate_image_base, validate_file_alignment, validate_section_alignment, validate,
  validate_address_of_entry_point, validate_subsystem_version, validate_size_of_heap,
  validate_size_of_stack, validate_size_of_headers,
}
use pe_bliss.Core.OptionalHeader.Validator.ImageBase.{IsLoadable, validate_image_base_iff}
use pe_bliss.Core.OptionalHeader.Validator.Alignment.{AreAlignments, validate_alignments_iff}
use pe_bliss.Core.OptionalHeader.Validator.All.{Passes, validate_iff}
use pe_bliss.Core.DataDirectories.{strip_data_directories, strip_count}
use pe_bliss.Core.DataDirectories.Strip.{IsStripped, strip_data_directories_lem}

-- The third and fourth directories are empty.
strip_run : strip_data_directories sample_directories 1 ≡ (take 2 sample_directories, 2)
unfolding strip_data_directories strip_count
strip_run = refl

strip_data_directories_lem_example :
    let stripped = strip_data_directories sample_directories 1 in
    (stripped.1 ≡ length stripped.0)
    × (length sample_directories ≤ 1 → stripped.0 ≡ sample_directories)
    × (1 < length sample_directories → IsStripped sample_directories stripped.0 1)
strip_data_directories_lem_example = strip_data_directories_lem sample_directories 1

validate_image_base_iff_example :
    (validate_image_base sample_header true ≡ none)
    ↔ IsLoadable sample_header.magic sample_header.image_base sample_header.size_of_image true
validate_image_base_iff_example = validate_image_base_iff sample_header true sample_header-IsValid

validate_alignments_iff_example :
    ((validate_file_alignment sample_header ≡ none)
      × (validate_section_alignment sample_header ≡ none))
    ↔ AreAlignments 0x200 0x1000
validate_alignments_iff_example = validate_alignments_iff sample_header sample_header-IsValid

validate_iff_example : ((validate sample_header all_checks false []).1 ≡ true) ↔ (
    Passes true (validate_address_of_entry_point sample_header false)
    × Passes true (validate_file_alignment sample_header)
    × Passes true (validate_section_alignment sample_header)
    × Passes true (validate_subsystem_version sample_header)
    × Passes true (validate_size_of_heap sample_header)
    × Passes true (validate_size_of_stack sample_header)
    × Passes true (validate_size_of_headers sample_header))
validate_iff_example = validate_iff sample_header all_checks false
