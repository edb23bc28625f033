-- ===== src/Image/Loader/Laws/Same.antt =====
-- Most steps leave the data of the sections and the buffer of all headers as they are.
use pe_bliss.Base.{◌≡◌, refl, List, Option, ltb, All}
use pe_bliss.Errors.{Error, Result}
use pe_bliss.Errors.Ensures.{Ensures-all}
use pe_bliss.Buffers.RefBuffer.{RefBuffer}
use pe_bliss.Image.Loader.{header_steps}
use pe_bliss.Image.Loader.Laws.Run.{try_catch_lem, if_lem}
use pe_bliss.Image.Loader.State.{LoadState, Step, try_catch}
use pe_bliss.Image.Loader.Headers.{
  ImageLoadOptions, load_dos_header, load_dos_stub, load_signature, load_file_header,
  load_optional_header, validate_optional_header, load_data_directories, validate_base,
  move_to_section_table, load_section_table,
}
use pe_bliss.Image.Loader.Sections.{validate_sections}

abbrev pub HasData : List RefBuffer → RefBuffer → LoadState → Type 0
HasData list headers st = (st.image.section_list ≡ list) × (st.image.full_headers_buffer ≡ headers)

abbrev pub LeavesData : Step → Type 0
LeavesData step =
    (st : LoadState) → HasData st.image.section_list st.image.full_headers_buffer (step st).0

-- A call that changes neither.
try_catch-HasData {ℓ} :
    {A : Type ℓ} (list : List RefBuffer) (headers : RefBuffer) (r : Result A)
    (body : A → LoadState × Option Error) (handler : Error → LoadState × Option Error)
    → ((a : A) → HasData list headers (body a).0)
    → ((e : Error) → HasData list headers (handler e).0)
    → HasData list headers (try_catch r body handler).0
try_catch-HasData list headers r body handler has has' =
    try_catch_lem (HasData list headers) r body handler (Ensures-all _ r has) has'

module _ (options : ImageLoadOptions) where
  dos_header : LeavesData (load_dos_header options)
  unfolding load_dos_header
  dos_header st = try_catch-HasData _ _ _ _ _ (λ a. (refl, refl)) (λ e. (refl, refl))

  dos_stub : LeavesData (load_dos_stub options)
  unfolding load_dos_stub
  dos_stub st =
      if_lem (HasData _ _) (ltb st.image.dos_header.e_lfanew 64) _ _
        (try_catch-HasData _ _ _ _ _ (λ a. (refl, refl)) (λ e. (refl, refl)))
        (try_catch-HasData _ _ _ _ _ (λ a. (refl, refl)) (λ e. (refl, refl)))

  signature : LeavesData (load_signature options)
  unfolding load_signature
  signature st = try_catch-HasData _ _ _ _ _ (λ a. (refl, refl)) (λ e. (refl, refl))

  file_header : LeavesData (load_file_header options)
  unfolding load_file_header
  file_header st = try_catch-HasData _ _ _ _ _ (λ a. (refl, refl)) (λ e. (refl, refl))

  optional_header : LeavesData (load_optional_header options)
  unfolding load_optional_header
  optional_header st = try_catch-HasData _ _ _ _ _ (λ a. (refl, refl)) (λ e. (refl, refl))

  optional_header_checks : LeavesData (validate_optional_header options)
  unfolding validate_optional_header
  optional_header_checks st = (refl, refl)

  data_directories : LeavesData (load_data_directories options)
  unfolding load_data_directories
  data_directories st = try_catch-HasData _ _ _ _ _ (λ a. (refl, refl)) (λ e. (refl, refl))

  base_check : LeavesData (validate_base options)
  unfolding validate_base
  base_check st = (refl, refl)

  position : LeavesData move_to_section_table
  unfolding move_to_section_table
  position st = try_catch-HasData _ _ _ _ _ (λ a. (refl, refl)) (λ e. (refl, refl))

  section_table : LeavesData (load_section_table options)
  unfolding load_section_table
  section_table st = try_catch-HasData _ _ _ _ _ (λ a. (refl, refl)) (λ e. (refl, refl))

  section_checks : LeavesData (validate_sections options)
  unfolding validate_sections
  section_checks st =
      if_lem (HasData _ _) options.validate_section_headers _ _ (refl, refl) (refl, refl)

  pub header_steps-LeaveData : All LeavesData (header_steps options)
  header_steps-LeaveData = (
    dos_header,
    (
      dos_stub,
      (
        signature,
        (
          file_header,
          (
            optional_header,
            (
              optional_header_checks,
              (data_directories, (base_check, (position, (section_table, (section_checks, tt))))),
            ),
          ),
        ),
      ),
    ),
  )
