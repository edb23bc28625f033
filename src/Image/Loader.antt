-- ===== src/Image/Loader.antt =====
-- image_loader (include/pe_bliss2/image/image_loader.h, src/image/image_loader.cpp). A step of the
-- load gives the state behind it, also where it throws; the error that leaves the `try` block is
-- the fatal one.
pub mod State
pub mod Headers
pub mod Sections
pub mod Samples
pub mod Laws
mod Tests
use pe_bliss.Base.{Option, List, [], ◌∷◌, ◌++◌}
use pe_bliss.Errors.{Error}
use pe_bliss.Errors.List.{ErrorList}
use pe_bliss.Buffers.Input.{Buffer}
use pe_bliss.Image.Loader.State.{LoadedImage, LoadState, Step, run, started, new_image}
use pe_bliss.Image.Loader.Headers.{
  ImageLoadOptions, load_dos_header, load_dos_stub, load_signature, load_file_header,
  load_optional_header, validate_optional_header, load_data_directories, validate_base,
  move_to_section_table, load_section_table,
}
use pe_bliss.Image.Loader.Sections.{
  validate_sections, load_section_data, load_full_sections_buffer, load_overlay,
  validate_image_size, load_full_headers_buffer,
}

pub record ImageLoadResult : Type 0 where
  pub image : LoadedImage
  pub warnings : ErrorList
  pub fatal_error : Option Error

-- The `try` block: the steps before the data of the sections are loaded, and those behind.
abbrev pub header_steps : ImageLoadOptions → List Step
header_steps options =
    load_dos_header options
    ∷ load_dos_stub options
    ∷ load_signature options
    ∷ load_file_header options
    ∷ load_optional_header options
    ∷ validate_optional_header options
    ∷ load_data_directories options
    ∷ validate_base options
    ∷ move_to_section_table
    ∷ load_section_table options
    ∷ validate_sections options
    ∷ []

abbrev pub buffer_steps : ImageLoadOptions → List Step
buffer_steps options =
    load_full_sections_buffer options
    ∷ load_overlay options
    ∷ validate_image_size options
    ∷ load_full_headers_buffer options
    ∷ []

unfoldable pub load_steps : ImageLoadOptions → List Step
load_steps options = header_steps options ++ (load_section_data options ∷ buffer_steps options)

unfoldable pub load_into : LoadState → ImageLoadOptions → ImageLoadResult
load_into st options =
    let r = run (load_steps options) st in
    record { image = r.0.image; warnings = r.0.warnings; fatal_error = r.1 }

unfoldable pub load : Buffer → ImageLoadOptions → ImageLoadResult
load buffer options = load_into (started new_image buffer) options
