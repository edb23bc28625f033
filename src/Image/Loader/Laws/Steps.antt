-- ===== src/Image/Loader/Laws/Steps.antt =====
-- Every step of a load keeps the invariant, whether it throws or not.
use pe_bliss.Base.{◌≡◌, Option, All, ltb}
use pe_bliss.Errors.{Error, Result}
use pe_bliss.Errors.Ensures.{Ensures, Ensures-rethrow, Ensures-map}
use pe_bliss.Buffers.Input.{Buffer}
use pe_bliss.Buffers.Input.Contents.{contents}
use pe_bliss.Buffers.Reader.{Reader}
use pe_bliss.Packed.Struct.Fields.{IsByte}
use pe_bliss.Section.Data.Laws.{HasRoom}
use pe_bliss.Image.Loader.State.{LoadState, Step, try_catch, move_reader}
use pe_bliss.Image.Loader.Headers.{
  ImageLoadOptions, load_dos_header, load_dos_stub, load_signature, load_file_header,
  load_optional_header, validate_optional_header, load_data_directories, validate_base,
  move_to_section_table, load_section_table,
}
use pe_bliss.Image.Loader.Sections.{validate_sections}
use pe_bliss.Image.Loader.Laws.Run.{try_catch_lem, if_lem, Leads}
use pe_bliss.Image.Loader.{header_steps}
use pe_bliss.Image.Loader.Laws.Readers.{
  Inv, StaysAt, dos_header-StaysAt, signature-StaysAt, file_header-StaysAt, set_rpos-StaysAt,
  optional_header-IsAligned, dos_stub-StaysAt, directories-IsAt, table-HoldsTable,
}

module _ (b : Buffer) (room : HasRoom b) (bytes : All IsByte (contents b)) where
  abbrev pub Keeps : Step → Type 0
  Keeps step = Leads (Inv b room bytes) (Inv b room bytes) step

  -- A call that keeps the buffer.
  stays-Inv {ℓ} :
      {A : Type ℓ} (r : Result (A × Reader)) (body : A × Reader → LoadState × Option Error)
      (handler : Error → LoadState × Option Error)
      → Ensures (StaysAt b room bytes) r
      → ((got : A × Reader) → got.1.buffer ≡ b → Inv b room bytes (body got).0)
      → ((e : Error) → Inv b room bytes (handler e).0)
      → Inv b room bytes (try_catch r body handler).0
  stays-Inv r body handler stays next inv =
      try_catch_lem (Inv b room bytes) r body handler (Ensures-map r stays next) inv

  load_dos_header-Keeps : (options : ImageLoadOptions) → Keeps (load_dos_header options)
  unfolding load_dos_header
  load_dos_header-Keeps options st (parts, is) =
      stays-Inv _ _ _ (dos_header-StaysAt b room bytes st.wrapper options.allow_virtual_headers is)
        (λ got stays. (parts, stays)) (λ e. (parts, is))

  load_signature-Keeps : (options : ImageLoadOptions) → Keeps (load_signature options)
  unfolding load_signature
  load_signature-Keeps options st (parts, is) =
      stays-Inv _ _ _ (signature-StaysAt b room bytes st.wrapper options.allow_virtual_headers is)
        (λ got stays. (parts, stays)) (λ e. (parts, is))

  load_file_header-Keeps : (options : ImageLoadOptions) → Keeps (load_file_header options)
  unfolding load_file_header
  load_file_header-Keeps options st (parts, is) =
      stays-Inv _ _ _ (file_header-StaysAt b room bytes st.wrapper options.allow_virtual_headers is)
        (λ got stays. (parts, stays)) (λ e. (parts, is))

  -- A reader that moves.
  move_reader-Inv :
      (st : LoadState) (r : Result Reader)
      → Inv b room bytes st
      → Ensures (λ (after : Reader). after.buffer ≡ b) r
      → Inv b room bytes (move_reader st r).0
  move_reader-Inv st r (parts, is) stays =
      try_catch_lem (Inv b room bytes) r _ _ (Ensures-map r stays (λ after at. (parts, at)))
        (λ e. (parts, is))

  load_dos_stub-Keeps : (options : ImageLoadOptions) → Keeps (load_dos_stub options)
  unfolding load_dos_stub
  load_dos_stub-Keeps options st (parts, is) =
      let e_lfanew = st.image.dos_header.e_lfanew in
      if_lem (Inv b room bytes) (ltb e_lfanew 64) _ _
        (move_reader-Inv st _ (parts, is) (set_rpos-StaysAt b room bytes st.wrapper e_lfanew is))
        (stays-Inv _ _ _
          (dos_stub-StaysAt b room bytes st.wrapper options.eager_dos_stub_data_copy e_lfanew is)
          (λ got stays. (parts, stays)) (λ e. (parts, is)))

  load_optional_header-Keeps : (options : ImageLoadOptions) → Keeps (load_optional_header options)
  unfolding load_optional_header
  load_optional_header-Keeps options st ((table, fits, headers, list), is) =
      let (aligned, at) =
        optional_header-IsAligned b room bytes st.image.optional_header st.wrapper
          options.allow_virtual_headers fits is in
      move_reader-Inv _ _ ((table, aligned, headers, list), is) at

  validate_optional_header-Keeps :
      (options : ImageLoadOptions) → Keeps (validate_optional_header options)
  unfolding validate_optional_header
  validate_optional_header-Keeps options st inv = inv

  load_data_directories-Keeps : (options : ImageLoadOptions) → Keeps (load_data_directories options)
  unfolding load_data_directories
  load_data_directories-Keeps options st (parts, is) =
      move_reader-Inv _ _ (parts, is)
        (directories-IsAt b room bytes _ st.wrapper options.allow_virtual_headers is)

  validate_base-Keeps : (options : ImageLoadOptions) → Keeps (validate_base options)
  unfolding validate_base
  validate_base-Keeps options st inv = inv

  move_to_section_table-Keeps : Keeps move_to_section_table
  unfolding move_to_section_table
  move_to_section_table-Keeps st (parts, is) =
      move_reader-Inv st _ (parts, is)
        (Ensures-rethrow (λ (after : Reader). after.buffer ≡ b) _ _
          (set_rpos-StaysAt b room bytes st.wrapper _ is))

  load_section_table-Keeps : (options : ImageLoadOptions) → Keeps (load_section_table options)
  unfolding load_section_table
  load_section_table-Keeps options st ((table, fits, headers, list), is) =
      let (all, at) = table-HoldsTable b room bytes _ st.wrapper options.allow_virtual_headers is in
      move_reader-Inv _ _ ((all, fits, headers, list), is) at

  validate_sections-Keeps : (options : ImageLoadOptions) → Keeps (validate_sections options)
  unfolding validate_sections
  validate_sections-Keeps options st inv =
      if_lem (Inv b room bytes) options.validate_section_headers _ _ inv inv

  pub header_steps-Keep : (options : ImageLoadOptions) → All Keeps (header_steps options)
  header_steps-Keep options = (
    load_dos_header-Keeps options,
    (
      load_dos_stub-Keeps options,
      (
        load_signature-Keeps options,
        (
          load_file_header-Keeps options,
          (
            load_optional_header-Keeps options,
            (
              validate_optional_header-Keeps options,
              (
                load_data_directories-Keeps options,
                (
                  validate_base-Keeps options,
                  (
                    move_to_section_table-Keeps,
                    (load_section_table-Keeps options, (validate_sections-Keeps options, tt)),
                  ),
                ),
              ),
            ),
          ),
        ),
      ),
    ),
  )
