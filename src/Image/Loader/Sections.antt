-- ===== src/Image/Loader/Sections.antt =====
-- The second half of image_loader::load (src/image/image_loader.cpp): the data of the sections, the
-- overlay and the buffers of all headers and of all sections. Here errors are warnings.
use pe_bliss.Base.{
  ℕ, suc, ◌+◌, ◌-◌, ◌^◌, not, ◌&&◌, Option, none, some, List, [], ◌∷◌, ◌++◌, ◌==◌, ◌!=◌,
  if◌then◌else◌, min, max,
}
use mathlib.Core.Option.{get_or}
use pe_bliss.Base.Words.{has_single_bit, sub_wrap}
use pe_bliss.Utilities.Math.{align_up_if_safe}
use pe_bliss.Errors.{
  Result, ok, err, ◌>>=◌, image_loader, unable_to_load_full_section_buffer,
  unable_to_load_full_headers_buffer,
}
use pe_bliss.Errors.List.{ErrorList, add_error, add_error_at}
use pe_bliss.Buffers.Input.{Buffer}
use pe_bliss.Buffers.Reader.{size}
use pe_bliss.Buffers.Views.{reduce}
use pe_bliss.Buffers.RefBuffer.{RefBuffer, new}
use pe_bliss.Buffers.RefBuffer
use pe_bliss.Core.Overlay.{deserialize_overlay}
use pe_bliss.Core.OptionalHeader.Validator.{report}
use pe_bliss.Core.OptionalHeader.Validator
use pe_bliss.Section.Header.{SectionHeader, get_pointer_to_raw_data, get_raw_size}
use pe_bliss.Section.Table.{SectionTable, get_raw_data_end_offset}
use pe_bliss.Section.Data.{SectionDataLoadOptions, deserialize_section_data}
use pe_bliss.Section.Validator.{validate_section_headers}
use pe_bliss.Image.Loader.State.{LoadState, Step, try_catch}
use pe_bliss.Image.Loader.Headers.{ImageLoadOptions}

unfoldable pub validate_sections : ImageLoadOptions → Step
validate_sections options st =
    if options.validate_section_headers
    then (
      record st {
        warnings =
            validate_section_headers st.image.optional_header st.image.section_table st.warnings;
      },
      none,
    )
    else (st, none)

abbrev pub section_options : ImageLoadOptions → LoadState → SectionDataLoadOptions
section_options options st = record {
  section_alignment = st.image.optional_header.section_alignment;
  copy_memory = options.eager_section_data_copy;
  image_loaded_to_memory = options.image_loaded_to_memory;
  image_start_buffer_pos = 0;
}

-- The data of a section and the warnings: a section that cannot be read is an empty one.
abbrev pub section_or_new : Result RefBuffer → ErrorList → ℕ → RefBuffer × ErrorList
section_or_new (ok data_of) warnings index = (data_of, warnings)
section_or_new (err e) warnings index = (new, add_error_at warnings e index)

-- The loop, from a header's index on.
unfoldable pub load_all :
    SectionTable
    → ℕ
    → Buffer
    → SectionDataLoadOptions
    → List RefBuffer
    → ErrorList
    → List RefBuffer × ErrorList
load_all [] index buffer options list warnings = (list, warnings)
load_all (header ∷ headers) index buffer options list warnings =
    let (got, more) =
      section_or_new (deserialize_section_data header buffer options) warnings index in
    load_all headers (suc index) buffer options (list ++ (got ∷ [])) more

unfoldable pub load_section_data : ImageLoadOptions → Step
load_section_data options st =
    if options.load_sections
    then (let (list, warnings) =
          load_all st.image.section_table 0 st.wrapper.buffer (section_options options st)
            st.image.section_list st.warnings in
        (record st { image = record st.image { section_list = list }; warnings = warnings }, none))
    else (st, none)

-- The least and the greatest offset of section data, from those of earlier headers on.
unfoldable pub data_offsets : ℕ → SectionTable → ℕ → ℕ → ℕ × ℕ
data_offsets section_alignment [] first last = (first, last)
data_offsets section_alignment (header ∷ headers) first last =
    let pointer = get_pointer_to_raw_data header in
    data_offsets section_alignment headers (if pointer == 0 then first else min first pointer)
      (if pointer == 0 then last else max last (pointer + get_raw_size header section_alignment))

abbrev pub all_data_offsets : LoadState → ℕ × ℕ
all_data_offsets st =
    data_offsets st.image.optional_header.section_alignment st.image.section_table (2 ^ 64 - 1) 0

unfoldable pub load_full_sections_buffer : ImageLoadOptions → Step
load_full_sections_buffer options st =
    let (first, last) = all_data_offsets st in
    if options.load_full_sections && last != 0
    then try_catch
        (reduce st.wrapper.buffer first (sub_wrap 64 last first) >>= λ view.
          RefBuffer.deserialize view options.eager_full_sections_buffer_copy)
        (λ view. (record st { image = record st.image { full_sections_buffer = view } }, none))
        (λ e. (
          record st {
            warnings = add_error st.warnings (image_loader unable_to_load_full_section_buffer);
          },
          none,
        ))
    else (st, none)

unfoldable pub load_overlay : ImageLoadOptions → Step
load_overlay options st =
    if options.load_overlay_data && not options.image_loaded_to_memory
    then try_catch
        (deserialize_overlay
          (get_raw_data_end_offset st.image.section_table
            st.image.optional_header.section_alignment)
          st.image.optional_header.size_of_headers 0 st.wrapper options.eager_overlay_data_copy)
        (λ view.
          (record st { image = record st.image { overlay = get_or view st.image.overlay } }, none))
        (λ e. (record st { warnings = add_error st.warnings e }, none))
    else (st, none)

abbrev pub last_section : SectionTable → Option SectionHeader
last_section [] = none
last_section (h ∷ []) = some h
last_section (h ∷ (g ∷ hs)) = last_section (g ∷ hs)

unfoldable pub validate_image_size : ImageLoadOptions → Step
validate_image_size options st = (
  record st {
    warnings =
        report options.validate_size_of_image
          (Validator.validate_size_of_image (last_section st.image.section_table)
            st.image.optional_header)
          st.warnings;
  },
  none,
)

-- How many bytes the headers have: up to the first section, and not past the buffer.
unfoldable pub headers_size : LoadState → ℕ
headers_size st =
    let section_alignment = st.image.optional_header.section_alignment in
    let sz = st.image.optional_header.size_of_headers in
    let (first, last) = all_data_offsets st in
    let aligned =
      if section_alignment != 0 && has_single_bit 32 section_alignment
      then get_or (align_up_if_safe 64 sz section_alignment) sz
      else sz in
    min (if last != 0 then min aligned first else sz) (size st.wrapper)

unfoldable pub load_full_headers_buffer : ImageLoadOptions → Step
load_full_headers_buffer options st =
    if options.load_full_headers
    then try_catch
        (reduce st.wrapper.buffer 0 (headers_size st) >>= λ view.
          RefBuffer.deserialize view options.eager_full_headers_buffer_copy)
        (λ view. (record st { image = record st.image { full_headers_buffer = view } }, none))
        (λ e. (
          record st {
            warnings = add_error st.warnings (image_loader unable_to_load_full_headers_buffer);
          },
          none,
        ))
    else (st, none)
