-- ===== src/Image/Loader/Laws/Fatal.antt =====
-- Which errors end a load: those of the headers, before anything is loaded behind them.
use pe_bliss.Base.{◌≡◌, refl, ap, ◌∙◌, true, Option, none, some, List, [], ◌∷◌, ◌++◌, map, All}
use pe_bliss.Errors.{Error}
use pe_bliss.Errors.Ensures.{Ensures-all}
use pe_bliss.Buffers.Input.{Buffer}
use pe_bliss.Buffers.Input.Contents.{contents}
use pe_bliss.Buffers.RefBuffer.{new}
use pe_bliss.Packed.Struct.Fields.{IsByte}
use pe_bliss.Section.Data.Laws.{HasRoom}
use pe_bliss.Image.Loader
use pe_bliss.Image.Loader.{load_into, load_steps, header_steps, buffer_steps}
use pe_bliss.Image.Loader.State.{LoadedImage, LoadState, Step, run, started, new_image}
use pe_bliss.Image.Loader.Headers.{ImageLoadOptions}
use pe_bliss.Image.Loader.Sections.{
  section_options, load_section_data, load_full_sections_buffer, load_overlay, validate_image_size,
  load_full_headers_buffer,
}
use pe_bliss.Image.Loader.Laws.{started-Inv}
use pe_bliss.Image.Loader.Laws.Run.{Leads, try_catch_lem, if_lem}
use pe_bliss.Image.Loader.Laws.Readers.{Inv}
use pe_bliss.Image.Loader.Laws.Steps.{Keeps, header_steps-Keep}
use pe_bliss.Image.Loader.Laws.Same.{LeavesData, header_steps-LeaveData}
use pe_bliss.Image.Loader.Laws.Data.{read_data, load_all-read_data}
use pe_bliss.Image.Loader.Laws.Addresses.{data_options}
use pe_bliss.Image.Loader.Laws.Ends.{
  Ends, run-Ends, section_data-NeverThrows, full_sections-NeverThrows, overlay-NeverThrows,
  image_size-NeverThrows, full_headers-NeverThrows,
}

module _ (b : Buffer) (room : HasRoom b) (bytes : All IsByte (contents b))
    (options : ImageLoadOptions) where
  -- Nothing is loaded but headers.
  abbrev pub IsFresh : LoadedImage → Type 0
  IsFresh i = (i.section_list ≡ []) × (i.full_headers_buffer ≡ new)

  -- Each section has its data, if they are loaded.
  abbrev pub IsWhole : LoadState → Type 0
  IsWhole st =
      options.load_sections ≡ true
      → st.image.section_list
        ≡ map (read_data b (section_options options st)) st.image.section_table

  abbrev IsStart : LoadState → Type 0
  IsStart st = Inv b room bytes st × IsFresh st.image

  leaves-IsStart :
      (steps : List Step)
      → All (Keeps b room bytes) steps
      → All LeavesData steps
      → All (Leads IsStart IsStart) steps
  leaves-IsStart [] keeps leaves = tt
  leaves-IsStart (step ∷ steps) (k, keeps) (l, leaves) = (
    λ st (inv, (list, headers)). (k st inv, ((l st).0 ∙ list, (l st).1 ∙ headers)),
    leaves-IsStart steps keeps leaves,
  )

  section_data-IsWhole : Leads IsStart IsWhole (load_section_data options)
  unfolding load_section_data
  section_data-IsWhole st ((parts, is), (list, headers)) on =
      let t = st.image.section_table in
      let so = section_options options st in
      rw on (
        load_all-read_data t 0 st.wrapper.buffer so st.image.section_list st.warnings
        ∙ ap (λ l. l ++ map (read_data st.wrapper.buffer so) t) list
        ∙ ap (λ c. map (read_data c so) t) is)

  full_sections-IsWhole : Leads IsWhole IsWhole (load_full_sections_buffer options)
  unfolding load_full_sections_buffer
  full_sections-IsWhole st whole =
      if_lem IsWhole _ _ (st, none)
        (try_catch_lem IsWhole _ _ _ (Ensures-all _ _ (λ view. whole)) (λ e. whole)) whole

  overlay-IsWhole : Leads IsWhole IsWhole (load_overlay options)
  unfolding load_overlay
  overlay-IsWhole st whole =
      if_lem IsWhole _ _ (st, none)
        (try_catch_lem IsWhole _ _ _ (Ensures-all _ _ (λ view. whole)) (λ e. whole)) whole

  image_size-IsWhole : Leads IsWhole IsWhole (validate_image_size options)
  unfolding validate_image_size
  image_size-IsWhole st whole = whole

  full_headers-IsWhole : Leads IsWhole IsWhole (load_full_headers_buffer options)
  unfolding load_full_headers_buffer
  full_headers-IsWhole st whole =
      if_lem IsWhole options.load_full_headers _ (st, none)
        (try_catch_lem IsWhole _ _ _ (Ensures-all _ _ (λ view. whole)) (λ e. whole)) whole

  started-IsStart : IsStart (started new_image b)
  unfolding started new_image
  started-IsStart = (started-Inv b room bytes options, (refl, refl))

  load_steps-Ends : Ends IsStart IsWhole (run (load_steps options) (started new_image b))
  unfolding load_steps
  load_steps-Ends =
      run-Ends IsStart IsWhole (header_steps options) (load_section_data options)
        (buffer_steps options)
        (leaves-IsStart (header_steps options) (header_steps-Keep b room bytes options)
          (header_steps-LeaveData options))
        section_data-IsWhole (section_data-NeverThrows options)
        (
          (full_sections-IsWhole, full_sections-NeverThrows options),
          (
            (overlay-IsWhole, overlay-NeverThrows options),
            (
              (image_size-IsWhole, image_size-NeverThrows options),
              ((full_headers-IsWhole, full_headers-NeverThrows options), tt),
            ),
          ),
        )
        (started new_image b) started-IsStart

  -- What the two ends of a load tell of the image.
  told :
      (r : LoadState × Option Error)
      → Ends IsStart IsWhole r
      → ((e : Error) → r.1 ≡ some e → IsFresh r.0.image) × (r.1 ≡ none → IsWhole r.0)
  told (st, none) whole = (λ e h. cc, λ h. whole)
  told (st, some _) start = (λ e h. start.1, λ h. cc)

  -- For a valid buffer of fewer than 2 ^ 62 bytes, each below 256, at offsets below 2 ^ 62, and
  -- all options: if the load ends by a fatal error, no data of a section and no buffer of the
  -- headers has been loaded; if it does not, and the data of sections are to be loaded, each
  -- header of the table has its own in the list, in the order of the table: what is read for it,
  -- or an empty buffer.
  pub load-fatal_error :
      ((e : Error)
        → (Loader.load b options).fatal_error ≡ some e
        → IsFresh (Loader.load b options).image)
      × ((Loader.load b options).fatal_error ≡ none
          → options.load_sections ≡ true
          → (Loader.load b options).image.section_list
            ≡ map
                (read_data b (data_options (Loader.load b options).image options))
                (Loader.load b options).image.section_table)
  unfolding Loader.load load_into
  load-fatal_error = told (run (load_steps options) (started new_image b)) load_steps-Ends
