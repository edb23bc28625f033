-- ===== src/Image/Loader/Headers.antt =====
-- The first half of image_loader::load (src/image/image_loader.cpp): the headers.
use pe_bliss.Base.{Bool, not, ◌&&◌, Option, none, some, ltb, ◌!=◌, bit_and, if◌then◌else◌}
use pe_bliss.Errors.{Error, rethrow, section, unable_to_read_section_table}
use pe_bliss.Buffers.Reader.{set_rpos}
use pe_bliss.Dos
use pe_bliss.Dos.{
  DosHeaderValidationOptions, deserialize_dos_header, validate_magic, validate_e_lfanew,
  deserialize_dos_stub,
}
use pe_bliss.Core.FileHeader.{
  deserialize_file_header, is_dll, relocs_stripped, get_section_table_buffer_pos,
}
use pe_bliss.Core.ImageSignature.{deserialize_signature, validate_signature}
use pe_bliss.Core.OptionalHeader.{get_number_of_rva_and_sizes}
use pe_bliss.Core.OptionalHeader.Bytes.{deserialize_optional_header}
use pe_bliss.Core.OptionalHeader.Validator.{
  ValidationOptions, report, validate, validate_size_of_optional_header, validate_image_base,
}
use pe_bliss.Core.DataDirectories.{basereloc, has_nonempty_directory}
use pe_bliss.Core.DataDirectories.Bytes.{deserialize_directories}
use pe_bliss.Section.Table.Bytes.{deserialize_table}
use pe_bliss.Image.Loader.State.{LoadedImage, Step, try_catch, store, move_reader}

pub record ImageLoadOptions : Type 0 where
  pub allow_virtual_headers : Bool
  pub validate_section_headers : Bool
  pub load_sections : Bool
  pub validate_size_of_image : Bool
  pub image_loaded_to_memory : Bool
  pub eager_section_data_copy : Bool
  pub eager_dos_stub_data_copy : Bool
  pub check_image_base : Bool
  pub check_size_of_optional_header : Bool
  pub load_overlay_data : Bool
  pub eager_overlay_data_copy : Bool
  pub load_full_headers : Bool
  pub eager_full_headers_buffer_copy : Bool
  pub validate_image_signature : Bool
  pub load_full_sections : Bool
  pub eager_full_sections_buffer_copy : Bool
  pub dos_header_validation : DosHeaderValidationOptions
  pub optional_header_validation : ValidationOptions

-- `if (option) validate(…).throw_on_error();`
abbrev pub throw_on_error : Bool → Option Error → Option Error
throw_on_error enabled none = none
throw_on_error enabled (some e) = if enabled then some e else none

abbrev pub first_of : Option Error → Option Error → Option Error
first_of none b = b
first_of (some e) b = some e

unfoldable pub load_dos_header : ImageLoadOptions → Step
load_dos_header options st =
    let image = record st.image { loaded_to_memory = options.image_loaded_to_memory } in
    try_catch (deserialize_dos_header st.wrapper options.allow_virtual_headers)
      (λ got. (
        record st { image = record image { dos_header = got.0 }; wrapper = got.1 },
        first_of (throw_on_error options.dos_header_validation.check_magic (validate_magic got.0))
            (throw_on_error options.dos_header_validation.check_e_lfanew (validate_e_lfanew got.0)),
      ))
      (λ e. (record st { image = image }, some e))

unfoldable pub load_dos_stub : ImageLoadOptions → Step
load_dos_stub options st =
    let e_lfanew = st.image.dos_header.e_lfanew in
    if ltb e_lfanew Dos.packed_size
    then move_reader st (set_rpos st.wrapper e_lfanew)
    else store st (deserialize_dos_stub st.wrapper options.eager_dos_stub_data_copy e_lfanew)
        (λ got. record st { image = record st.image { dos_stub = got.0 }; wrapper = got.1 })

unfoldable pub load_signature : ImageLoadOptions → Step
load_signature options st =
    try_catch (deserialize_signature st.wrapper options.allow_virtual_headers)
      (λ got. (
        record st { image = record st.image { image_signature = got.0 }; wrapper = got.1 },
        throw_on_error options.validate_image_signature (validate_signature got.0),
      ))
      (λ e. (st, some e))

unfoldable pub load_file_header : ImageLoadOptions → Step
load_file_header options st =
    store st (deserialize_file_header st.wrapper options.allow_virtual_headers)
      (λ got. record st { image = record st.image { file_header = got.0 }; wrapper = got.1 })

unfoldable pub load_optional_header : ImageLoadOptions → Step
load_optional_header options st =
    let (header, r) =
      deserialize_optional_header st.image.optional_header st.wrapper
        options.allow_virtual_headers in
    move_reader (record st { image = record st.image { optional_header = header } }) r

unfoldable pub validate_optional_header : ImageLoadOptions → Step
validate_optional_header options st =
    let i = st.image in
    let e₁ =
      report options.check_size_of_optional_header
        (validate_size_of_optional_header i.file_header.size_of_optional_header i.optional_header)
        st.warnings in
    let e₂ =
      (validate i.optional_header options.optional_header_validation (is_dll i.file_header) e₁).0 in
    (record st { warnings = e₂ }, none)

unfoldable pub load_data_directories : ImageLoadOptions → Step
load_data_directories options st =
    let (directories, r) =
      deserialize_directories (get_number_of_rva_and_sizes st.image.optional_header) st.wrapper
        options.allow_virtual_headers in
    move_reader (record st { image = record st.image { data_directories = directories } }) r

pub has_relocations : LoadedImage → Bool
has_relocations i =
    has_nonempty_directory i.data_directories basereloc
    && not (bit_and i.file_header.characteristics relocs_stripped != 0)

unfoldable pub validate_base : ImageLoadOptions → Step
validate_base options st = (
  record st {
    warnings =
        report options.check_image_base
          (validate_image_base st.image.optional_header (has_relocations st.image)) st.warnings;
  },
  none,
)

unfoldable pub move_to_section_table : Step
move_to_section_table st = move_reader st (
    rethrow (set_rpos st.wrapper (get_section_table_buffer_pos st.image.file_header))
      (section unable_to_read_section_table))

unfoldable pub load_section_table : ImageLoadOptions → Step
load_section_table options st =
    let (table, r) =
      deserialize_table st.image.file_header.number_of_sections st.wrapper
        options.allow_virtual_headers in
    move_reader (record st { image = record st.image { section_table = table } }) r
