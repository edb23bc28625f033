-- ===== src/Image/Loader/Laws/Sections.antt =====
-- The steps behind the section table keep the invariant: what they read is usable.
use pe_bliss.Base.{
  ℕ, suc, ◌+◌, ◌^◌, ◌≤◌, ◌<◌, ◌≡◌, refl, sym, subst, Bool, List, [], ◌∷◌, ◌++◌, arith, All, length,
  take, dec_lt,
}
use pe_bliss.Errors.{Result, ok, ◌>>=◌}
use pe_bliss.Errors.List.{ErrorList}
use pe_bliss.Errors.Ensures.{Ensures, Ensures-map, Ensures-all}
use pe_bliss.Buffers.Input.{Buffer, absolute_offset, relative_offset}
use pe_bliss.Buffers.Input
use pe_bliss.Buffers.Input.Contents.{contents, size-length}
use pe_bliss.Buffers.Views.{reduce}
use pe_bliss.Buffers.Views.Laws.{section_of, reduce-section_of}
use pe_bliss.Buffers.Reader.{size}
use pe_bliss.Buffers.RefBuffer.{RefBuffer, contents_of, new}
use pe_bliss.Buffers.RefBuffer
use pe_bliss.Buffers.RefBuffer.Laws.{deserialize-IsView}
use pe_bliss.Packed.Struct.Fields.{IsByte}
use pe_bliss.Section.Header
use pe_bliss.Section.Table.{SectionTable}
use pe_bliss.Section.Data.{SectionDataLoadOptions, deserialize_section_data}
use pe_bliss.Section.Data.Laws.{HasRoom, first_byte, raw_size, deserialize_section_data_lem}
use pe_bliss.Image.Loader.State.{LoadState}
use pe_bliss.Image.Loader.Headers.{ImageLoadOptions}
use pe_bliss.Image.Loader.Sections.{
  section_options, section_or_new, load_all, load_section_data, load_full_sections_buffer,
  load_overlay, validate_image_size, headers_size, load_full_headers_buffer,
}
use pe_bliss.Image.Loader.Laws.Readers.{Inv}
use pe_bliss.Image.Loader.Laws.Parts.{IsUsable, IsView-IsUsable, new-IsUsable, All-snoc}
use pe_bliss.Image.Loader.Laws.Steps.{Keeps}
use pe_bliss.Image.Loader.Laws.Run.{try_catch_lem, if_lem}
use pe_bliss.Image.Loader.{buffer_steps}

abbrev pub first_bytes : Buffer → ℕ → Bool → Result RefBuffer
first_bytes b sz copy_memory = reduce b 0 sz >>= λ view. RefBuffer.deserialize view copy_memory

module _ (b : Buffer) (room : HasRoom b) (bytes : All IsByte (contents b)) where
  load_full_sections_buffer-Keeps :
      (options : ImageLoadOptions) → Keeps b room bytes (load_full_sections_buffer options)
  unfolding load_full_sections_buffer
  load_full_sections_buffer-Keeps options st inv =
      if_lem (Inv b room bytes) _ _ _
        (try_catch_lem (Inv b room bytes) _ _ _ (Ensures-all _ _ (λ view. inv)) (λ e. inv)) inv

  load_overlay-Keeps : (options : ImageLoadOptions) → Keeps b room bytes (load_overlay options)
  unfolding load_overlay
  load_overlay-Keeps options st inv =
      if_lem (Inv b room bytes) _ _ _
        (try_catch_lem (Inv b room bytes) _ _ _ (Ensures-all _ _ (λ view. inv)) (λ e. inv)) inv

  validate_image_size-Keeps :
      (options : ImageLoadOptions) → Keeps b room bytes (validate_image_size options)
  unfolding validate_image_size
  validate_image_size-Keeps options st inv = inv

  section_data-IsUsable :
      (h : Header.SectionHeader) (options : SectionDataLoadOptions) (errors : ErrorList) (index : ℕ)
      → Header.IsValid h
      → options.section_alignment < 2 ^ 32
      → options.image_start_buffer_pos < 2 ^ 32
      → IsUsable (section_or_new (deserialize_section_data h b options) errors index).0
  section_data-IsUsable h options errors index valid align start =
      let (inside, outside) = deserialize_section_data_lem h b options valid room align start in
      elim (dec_lt (length (contents b)) (first_byte h options + raw_size h options)) [
        | yes leaves ↦ rw (outside leaves) new-IsUsable
        | no within ↦
            let (c, got, view) = inside (omega arith) in
            rw got (IsView-IsUsable c _ _ _ _ view (omega arith) (omega arith))
      ]

  load_all-IsUsable :
      (table : SectionTable) (index : ℕ) (options : SectionDataLoadOptions) (list : List RefBuffer)
      (errors : ErrorList)
      → All Header.IsValid table
      → options.section_alignment < 2 ^ 32
      → options.image_start_buffer_pos < 2 ^ 32
      → All IsUsable list
      → All IsUsable (load_all table index b options list errors).0
  unfolding load_all
  load_all-IsUsable [] index options list errors valid align start usable = usable
  load_all-IsUsable (h ∷ hs) index options list errors (valid, all) align start usable =
      load_all-IsUsable hs (suc index) options (list ++ _ ∷ []) _ all align start (
        All-snoc IsUsable list _ usable
          (section_data-IsUsable h options errors index valid align start))

  pub load_section_data-Keeps :
      (options : ImageLoadOptions) → Keeps b room bytes (load_section_data options)
  unfolding load_section_data
  load_section_data-Keeps options st ((table, fits, headers, list), is) =
      let t = st.image.section_table in
      let so = section_options options st in
      let loaded =
        load_all-IsUsable t 0 so st.image.section_list st.warnings table fits (omega arith) list in
      let same : All IsUsable
          (load_all t 0 st.wrapper.buffer so st.image.section_list st.warnings).0 =
        rw is loaded in
      if_lem (Inv b room bytes) options.load_sections _ _ ((table, fits, headers, same), is)
        ((table, fits, headers, list), is)

  pub headers_size-le :
      (st : LoadState) → st.wrapper.buffer ≡ b → headers_size st ≤ length (contents b)
  unfolding headers_size size
  headers_size-le st is =
      let whole : Input.size st.wrapper.buffer ≡ length (contents b) =
        rw is (size-length b room.0) in
      rw whole (omega arith)

  -- A view of the first bytes.
  pub first_bytes_lem :
      (sz : ℕ) (copy_memory : Bool)
      → sz ≤ length (contents b)
      → Ensures
          (λ c. IsUsable c × (contents (contents_of c) ≡ take sz (contents b)))
          (first_bytes b sz copy_memory)
  unfolding absolute_offset relative_offset contents
  first_bytes_lem sz copy_memory le =
      let view = section_of b 0 sz in
      let (c, kept, shows) =
        deserialize-IsView view copy_memory (room.0, omega (arith, le), refl) in
      let made : reduce b 0 sz ≡ ok view =
        reduce-section_of b 0 sz room.0 (omega arith) (omega arith) (omega (arith, le)) in
      rw (made, kept) (IsView-IsUsable c _ _ _ _ shows (omega arith) (omega arith), shows.1)

  pub all_headers_lem :
      (st : LoadState) (copy_memory : Bool)
      → st.wrapper.buffer ≡ b
      → Ensures
          (λ c. IsUsable c × (contents (contents_of c) ≡ take (headers_size st) (contents b)))
          (first_bytes st.wrapper.buffer (headers_size st) copy_memory)
  all_headers_lem st copy_memory is =
      subst
        (λ c.
          Ensures
            (λ c. IsUsable c × (contents (contents_of c) ≡ take (headers_size st) (contents b)))
            (first_bytes c (headers_size st) copy_memory))
        (sym is) (first_bytes_lem (headers_size st) copy_memory (headers_size-le st is))

  load_full_headers_buffer-Keeps :
      (options : ImageLoadOptions) → Keeps b room bytes (load_full_headers_buffer options)
  unfolding load_full_headers_buffer
  load_full_headers_buffer-Keeps options st ((table, fits, headers, list), is) =
      let r =
        first_bytes st.wrapper.buffer (headers_size st) options.eager_full_headers_buffer_copy in
      let usable = all_headers_lem st options.eager_full_headers_buffer_copy is in
      if_lem (Inv b room bytes) options.load_full_headers _ _
        (try_catch_lem (Inv b room bytes) r _ _
          (Ensures-map r usable (λ view u. ((table, fits, u.0, list), is)))
          (λ e. ((table, fits, headers, list), is)))
        ((table, fits, headers, list), is)

  pub buffer_steps-Keep :
      (options : ImageLoadOptions) → All (Keeps b room bytes) (buffer_steps options)
  buffer_steps-Keep options = (
    load_full_sections_buffer-Keeps options,
    (
      load_overlay-Keeps options,
      (validate_image_size-Keeps options, (load_full_headers_buffer-Keeps options, tt)),
    ),
  )
