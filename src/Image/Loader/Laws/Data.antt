-- ===== src/Image/Loader/Laws/Data.antt =====
-- What the image behind a load holds: the data of each section, and the first bytes of the file.
use mathlib.Core.List.{append-nil, append_assoc}
use pe_bliss.Base.{
  ℕ, suc, ◌^◌, ◌≤◌, ◌<◌, ◌≡◌, refl, sym, ap, subst, ◌∙◌, ◌⊎◌, inl, inr, none, List, [], ◌∷◌, ◌++◌,
  map, arith, All, length, take,
}
use pe_bliss.Errors.{Result, ok, err}
use pe_bliss.Errors.List.{ErrorList}
use pe_bliss.Errors.Ensures.{Ensures-map, Ensures-all}
use pe_bliss.Buffers.Input.{Buffer}
use pe_bliss.Buffers.Input.Contents.{contents}
use pe_bliss.Buffers.RefBuffer.{RefBuffer, contents_of}
use pe_bliss.Packed.Struct.Fields.{IsByte}
use pe_bliss.Section.Header.{SectionHeader}
use pe_bliss.Section.Table.{SectionTable}
use pe_bliss.Section.Data.{SectionDataLoadOptions, deserialize_section_data}
use pe_bliss.Section.Data.Laws.{HasRoom}
use pe_bliss.Image.Loader.{header_steps, buffer_steps}
use pe_bliss.Image.Loader.State.{LoadedImage, LoadState, Step}
use pe_bliss.Image.Loader.Headers.{ImageLoadOptions}
use pe_bliss.Image.Loader.Sections.{
  section_or_new, load_all, section_options, load_section_data, load_full_sections_buffer,
  load_overlay, validate_image_size, load_full_headers_buffer, headers_size,
}
use pe_bliss.Image.Loader.Laws.Run.{Leads, try_catch_lem, if_lem}
use pe_bliss.Image.Loader.Laws.Readers.{Inv}
use pe_bliss.Image.Loader.Laws.Steps.{Keeps, header_steps-Keep}
use pe_bliss.Image.Loader.Laws.Sections.{
  load_section_data-Keeps, buffer_steps-Keep, first_bytes, all_headers_lem, headers_size-le,
}
use pe_bliss.Image.Loader.Laws.HeadersSize.{IsInHeaders, headers_size-IsInHeaders}
use pe_bliss.Image.Loader.Laws.Same.{LeavesData, header_steps-LeaveData}

-- The data of a section: what is read, or an empty buffer.
abbrev pub read_data : Buffer → SectionDataLoadOptions → SectionHeader → RefBuffer
read_data b options h = (section_or_new (deserialize_section_data h b options) [] 0).0

section_or_new-data :
    (r : Result RefBuffer) (errors : ErrorList) (index : ℕ)
    → (section_or_new r errors index).0 ≡ (section_or_new r [] 0).0
section_or_new-data (ok c) errors index = refl
section_or_new-data (err e) errors index = refl

pub load_all-read_data :
    (table : SectionTable) (index : ℕ) (b : Buffer) (options : SectionDataLoadOptions)
    (list : List RefBuffer) (errors : ErrorList)
    → (load_all table index b options list errors).0 ≡ list ++ map (read_data b options) table
unfolding load_all
load_all-read_data [] index b options list errors = sym (append-nil list)
load_all-read_data (h ∷ hs) index b options list errors =
    let r = deserialize_section_data h b options in
    let got = (section_or_new r errors index).0 in
    load_all-read_data hs (suc index) b options (list ++ (got ∷ [])) _
    ∙ append_assoc list (got ∷ []) (map (read_data b options) hs)
    ∙ ap (λ c. list ++ (c ∷ map (read_data b options) hs)) (section_or_new-data r errors index)

module _ (b : Buffer) (room : HasRoom b) (bytes : All IsByte (contents b))
    (options : ImageLoadOptions) where
  -- The first bytes of the file, no more than the image has headers.
  abbrev pub ShowsFirst : LoadedImage → Type 0
  ShowsFirst i =
      (n : ℕ) × (n ≤ length (contents b))
      × IsInHeaders i n
      × (contents (contents_of i.full_headers_buffer) ≡ take n (contents b))

  abbrev ShowsNothing : LoadedImage → Type 0
  ShowsNothing i = contents (contents_of i.full_headers_buffer) ≡ []

  pub shows_nothing : (i : LoadedImage) → ShowsNothing i → ShowsFirst i
  shows_nothing i nothing = (0, omega arith, (inl (omega arith), λ l h at. omega arith), nothing)

  abbrev pub IsBefore : LoadState → Type 0
  IsBefore st = Inv b room bytes st × (st.image.section_list ≡ []) × ShowsNothing st.image

  -- The data of no section, or of all.
  abbrev pub HasAll : LoadState → Type 0
  HasAll st =
      ((st.image.section_list ≡ [])
        ⊎ (st.image.section_list
            ≡ map (read_data b (section_options options st)) st.image.section_table))
      × ShowsFirst st.image

  abbrev pub IsBehind : LoadState → Type 0
  IsBehind st = Inv b room bytes st × HasAll st

  leaves-IsBefore :
      (step : Step) → Keeps b room bytes step → LeavesData step → Leads IsBefore IsBefore step
  leaves-IsBefore step keeps leaves st (inv, empty, first) =
      let (list, headers) = leaves st in
      (keeps st inv, list ∙ empty, subst (λ c. contents (contents_of c) ≡ []) (sym headers) first)

  all-IsBefore :
      (steps : List Step)
      → All (Keeps b room bytes) steps
      → All LeavesData steps
      → All (Leads IsBefore IsBefore) steps
  all-IsBefore [] keeps leaves = tt
  all-IsBefore (step ∷ steps) (k, keeps) (l, leaves) =
      (leaves-IsBefore step k l, all-IsBefore steps keeps leaves)

  pub header_steps-IsBefore : All (Leads IsBefore IsBefore) (header_steps options)
  header_steps-IsBefore =
      all-IsBefore (header_steps options) (header_steps-Keep b room bytes options)
        (header_steps-LeaveData options)

  section_data :
      (st : LoadState)
      → st.wrapper.buffer ≡ b
      → st.image.section_list ≡ []
      → ShowsNothing st.image
      → HasAll (load_section_data options st).0
  unfolding load_section_data
  section_data st is empty nothing =
      let t = st.image.section_table in
      let so = section_options options st in
      if_lem HasAll options.load_sections _ (st, none)
        (
          inr (
              load_all-read_data t 0 st.wrapper.buffer so st.image.section_list st.warnings
              ∙ ap (λ l. l ++ map (read_data st.wrapper.buffer so) t) empty
              ∙ ap (λ c. map (read_data c so) t) is),
          shows_nothing st.image nothing,
        )
        (inl empty, shows_nothing st.image nothing)

  pub load_section_data-IsBehind : Leads IsBefore IsBehind (load_section_data options)
  load_section_data-IsBehind st (inv, empty, first) =
      (load_section_data-Keeps b room bytes options st inv, section_data st inv.1 empty first)

  full_sections : Leads HasAll HasAll (load_full_sections_buffer options)
  unfolding load_full_sections_buffer
  full_sections st has =
      if_lem HasAll _ _ (st, none)
        (try_catch_lem HasAll _ _ _ (Ensures-all _ _ (λ view. has)) (λ e. has)) has

  overlay : Leads HasAll HasAll (load_overlay options)
  unfolding load_overlay
  overlay st has =
      if_lem HasAll _ _ (st, none)
        (try_catch_lem HasAll _ _ _ (Ensures-all _ _ (λ view. has)) (λ e. has)) has

  image_size : Leads HasAll HasAll (validate_image_size options)
  unfolding validate_image_size
  image_size st has = has

  full_headers :
      (st : LoadState)
      → st.wrapper.buffer ≡ b
      → st.image.optional_header.section_alignment < 2 ^ 32
      → HasAll st
      → HasAll (load_full_headers_buffer options st).0
  unfolding load_full_headers_buffer
  full_headers st is word (list, first) =
      let r =
        first_bytes st.wrapper.buffer (headers_size st) options.eager_full_headers_buffer_copy in
      if_lem HasAll options.load_full_headers _ (st, none)
        (try_catch_lem HasAll r _ _
          (Ensures-map r (all_headers_lem b room bytes st options.eager_full_headers_buffer_copy is)
            (λ view shows. (
              list,
              (
                headers_size st,
                headers_size-le b room bytes st is,
                headers_size-IsInHeaders st word,
                shows.1,
              ),
            )))
          (λ e. (list, first)))
        (list, first)

  pub buffer_steps-IsBehind : All (Leads IsBehind IsBehind) (buffer_steps options)
  buffer_steps-IsBehind =
      let (k₁, (k₂, (k₃, (k₄, _)))) = buffer_steps-Keep b room bytes options in
      (
        λ st p. (k₁ st p.0, full_sections st p.1),
        (
          λ st p. (k₂ st p.0, overlay st p.1),
          (
            λ st p. (k₃ st p.0, image_size st p.1),
            (λ st p. (k₄ st p.0, full_headers st p.0.1 p.0.0.1 p.1), tt),
          ),
        ),
      )
