-- ===== src/Image/Loader/Laws/Success.antt =====
-- A file with its headers in it is loaded without a fatal error.
use pe_bliss.Base.{ℕ, ◌+◌, ◌*◌, ◌≤◌, ◌≡◌, refl, ap, ◌∙◌, none, some, ◌∷◌, arith, ltb}
use pe_bliss.Errors.{rethrow, section, unable_to_read_section_table}
use pe_bliss.Buffers.Input.{Buffer}
use pe_bliss.Buffers.Input.Contents.{physical}
use pe_bliss.Buffers.Reader.{set_rpos}
use pe_bliss.Packed.Struct.Fields.{field}
use pe_bliss.Section.Data.Laws.{HasRoom}
use pe_bliss.Dos.{
  DosHeader, dos_header_of, deserialize_dos_header, deserialize_dos_stub, validate_magic,
  validate_e_lfanew,
}
use pe_bliss.Core.FileHeader.{
  FileHeader, file_header_of, deserialize_file_header, get_section_table_buffer_pos,
}
use pe_bliss.Core.ImageSignature.{deserialize_signature, validate_signature}
use pe_bliss.Core.OptionalHeader.{Magic, OptionalHeader, packed_size, get_number_of_rva_and_sizes}
use pe_bliss.Core.OptionalHeader.Bytes.{magic_of, header_of, deserialize_optional_header}
use pe_bliss.Core.DataDirectories.Bytes.{deserialize_directories}
use pe_bliss.Section.Table.Bytes.{deserialize_table}
use pe_bliss.Image.Loader
use pe_bliss.Image.Loader.{load_into, load_steps, header_steps, buffer_steps}
use pe_bliss.Image.Loader.State.{LoadState, started, new_image}
use pe_bliss.Image.Loader.Headers.{
  ImageLoadOptions, load_dos_header, load_dos_stub, load_signature, load_file_header,
  load_optional_header, validate_optional_header, load_data_directories, validate_base,
  move_to_section_table, load_section_table,
}
use pe_bliss.Image.Loader.Sections.{validate_sections, load_section_data}
use pe_bliss.Image.Loader.Laws.Ends.{data_steps-NeverThrow, if-none}
use pe_bliss.Image.Loader.Laws.Reads.{
  reader_at, bytes_at, dos_header-read, signature-read, file_header-read, set_rpos-inside,
  dos_stub-read, optional_header-read, directories-read, table-read,
}
use pe_bliss.Image.Loader.Laws.Goes.{
  Goes, Succeeds, cons-Succeeds, never-Succeeds, try_catch-Goes, if-Goes,
}

-- The headers of a file, at their places.
abbrev pub dos_of : Buffer → DosHeader
dos_of b = dos_header_of (bytes_at b 0 64)

abbrev pub pe_offset : Buffer → ℕ
pe_offset b = (dos_of b).e_lfanew

abbrev pub file_of : Buffer → FileHeader
file_of b = file_header_of (bytes_at b (pe_offset b + 4) 20) (pe_offset b + 4)

abbrev pub optional_of : Buffer → Magic → OptionalHeader
optional_of b m = header_of m (bytes_at b (pe_offset b + 4 + 20 + 2) (packed_size m))

-- The headers pass the checks that end a load, and they are in the file.
pub record HasHeaders (b : Buffer) (m : Magic) : Type 0 where
  pub dos_in_file : 64 ≤ physical b
  pub magic : validate_magic (dos_of b) ≡ none
  pub e_lfanew : validate_e_lfanew (dos_of b) ≡ none
  pub signature : validate_signature (field (bytes_at b (pe_offset b) 4) 0 4) ≡ none
  pub kind : magic_of (field (bytes_at b (pe_offset b + 4 + 20) 2) 0 2) ≡ some m
  pub headers_in_file :
      pe_offset b + 4 + 20 + 2 + packed_size m + get_number_of_rva_and_sizes (optional_of b m) * 8
      ≤ physical b
  pub table_in_file :
      get_section_table_buffer_pos (file_of b) + (file_of b).number_of_sections * 40 ≤ physical b

module _ (b : Buffer) (m : Magic) (room : HasRoom b) (headers : HasHeaders b m)
    (options : ImageLoadOptions) where
  abbrev At : ℕ → LoadState → Type 0
  At pos st = st.wrapper ≡ reader_at b pos

  dos_header-Goes :
      Goes (At 0) (λ st. At 64 st × (st.image.dos_header ≡ dos_of b)) (load_dos_header options)
  unfolding load_dos_header
  dos_header-Goes st at =
      try_catch-Goes (λ st. At 64 st × (st.image.dos_header ≡ dos_of b)) _ _ _ _
        (ap (λ w. deserialize_dos_header w options.allow_virtual_headers) at
          ∙ dos_header-read b room 0 options.allow_virtual_headers headers.dos_in_file)
        (rw (headers.magic, headers.e_lfanew) refl, (refl, refl))

  dos_stub-Goes :
      Goes
        (λ st. At 64 st × (st.image.dos_header ≡ dos_of b))
        (At (pe_offset b))
        (load_dos_stub options)
  unfolding load_dos_stub
  dos_stub-Goes st (at, dos) =
      let e = st.image.dos_header.e_lfanew in
      let same : e ≡ pe_offset b = ap (λ h. h.e_lfanew) dos in
      let in_file = headers.headers_in_file in
      let there = At (pe_offset b) in
      if-Goes there (ltb e 64) _ _
        (λ overlaps.
          try_catch-Goes there _ _ _ _
            (set_rpos-inside b room st.wrapper e (ap (λ w. w.buffer) at)
              (omega (arith, in_file, same)))
            (refl, ap (reader_at b) same))
        (λ behind.
          let (stub, read_ok) =
            dos_stub-read b room 64 e options.eager_dos_stub_data_copy (ground (arith, behind))
              (omega (arith, in_file, same)) in
          try_catch-Goes there _ _ _ _
            (ap (λ w. deserialize_dos_stub w options.eager_dos_stub_data_copy e) at ∙ read_ok)
            (refl, ap (reader_at b) same))

  signature-Goes : Goes (At (pe_offset b)) (At (pe_offset b + 4)) (load_signature options)
  unfolding load_signature
  signature-Goes st at =
      try_catch-Goes (At (pe_offset b + 4)) _ _ _ _
        (ap (λ w. deserialize_signature w options.allow_virtual_headers) at
          ∙ signature-read b room (pe_offset b) options.allow_virtual_headers
              (omega (arith, headers.headers_in_file)))
        (rw headers.signature refl, refl)

  abbrev HasFile : LoadState → Type 0
  HasFile st = (st.wrapper.buffer ≡ b) × (st.image.file_header ≡ file_of b)

  file_header-Goes :
      Goes
        (At (pe_offset b + 4))
        (λ st. At (pe_offset b + 4 + 20) st × (st.image.file_header ≡ file_of b))
        (load_file_header options)
  unfolding load_file_header
  file_header-Goes st at =
      try_catch-Goes (λ st. At (pe_offset b + 4 + 20) st × (st.image.file_header ≡ file_of b)) _ _ _
        _
        (ap (λ w. deserialize_file_header w options.allow_virtual_headers) at
          ∙ file_header-read b room (pe_offset b + 4) options.allow_virtual_headers
              (omega (arith, headers.headers_in_file)))
        (refl, (refl, refl))

  -- The reader behind the optional header, and the headers that are read later.
  abbrev IsBehindHeader : LoadState → Type 0
  IsBehindHeader st =
      At (pe_offset b + 4 + 20 + 2 + packed_size m) st
      × (st.image.file_header ≡ file_of b)
      × (st.image.optional_header ≡ optional_of b m)

  optional_header-Goes :
      Goes
        (λ st. At (pe_offset b + 4 + 20) st × (st.image.file_header ≡ file_of b))
        IsBehindHeader
        (load_optional_header options)
  unfolding load_optional_header
  optional_header-Goes st (at, file) =
      let old = st.image.optional_header in
      let read_ok =
        ap (λ w. deserialize_optional_header old w options.allow_virtual_headers) at
        ∙ optional_header-read b room m old (pe_offset b + 4 + 20) options.allow_virtual_headers
            headers.kind (omega (arith, headers.headers_in_file)) in
      try_catch-Goes IsBehindHeader _ _ _ _ (ap (λ r. r.1) read_ok)
        (refl, (refl, file, ap (λ r. r.0) read_ok))

  optional_checks-Goes : Goes IsBehindHeader IsBehindHeader (validate_optional_header options)
  unfolding validate_optional_header
  optional_checks-Goes st behind = (refl, behind)

  directories-Goes : Goes IsBehindHeader HasFile (load_data_directories options)
  unfolding load_data_directories
  directories-Goes st (at, file, header) =
      let pos = pe_offset b + 4 + 20 + 2 + packed_size m in
      let count : get_number_of_rva_and_sizes st.image.optional_header
          ≡ get_number_of_rva_and_sizes (optional_of b m) =
        ap get_number_of_rva_and_sizes header in
      try_catch-Goes HasFile _ _ _ _
        (ap (λ n. (deserialize_directories n st.wrapper options.allow_virtual_headers).1) count
          ∙ ap
              (λ w.
                (deserialize_directories (get_number_of_rva_and_sizes (optional_of b m)) w
                  options.allow_virtual_headers).1)
              at
          ∙ directories-read b room (get_number_of_rva_and_sizes (optional_of b m)) pos
              options.allow_virtual_headers headers.headers_in_file)
        (refl, (refl, file))

  base_check-Goes : Goes HasFile HasFile (validate_base options)
  unfolding validate_base
  base_check-Goes st has = (refl, has)

  abbrev IsAtTable : LoadState → Type 0
  IsAtTable st =
      At (get_section_table_buffer_pos (file_of b)) st × (st.image.file_header ≡ file_of b)

  position-Goes : Goes HasFile IsAtTable move_to_section_table
  unfolding move_to_section_table
  position-Goes st (is, file) =
      let there : get_section_table_buffer_pos st.image.file_header
          ≡ get_section_table_buffer_pos (file_of b) =
        ap get_section_table_buffer_pos file in
      try_catch-Goes IsAtTable _ _ _ _
        (ap (λ r. rethrow r (section unable_to_read_section_table))
          (ap (set_rpos st.wrapper) there
            ∙ set_rpos-inside b room st.wrapper (get_section_table_buffer_pos (file_of b)) is
                (omega (arith, headers.table_in_file))))
        (refl, (refl, file))

  section_table-Goes : Goes IsAtTable (λ _. Unit) (load_section_table options)
  unfolding load_section_table
  section_table-Goes st (at, file) =
      let n = (file_of b).number_of_sections in
      try_catch-Goes (λ _. Unit) _ _ _ _
        (ap
            (λ h.
              (deserialize_table h.number_of_sections st.wrapper options.allow_virtual_headers).1)
            file
          ∙ ap (λ w. (deserialize_table n w options.allow_virtual_headers).1) at
          ∙ (table-read b room n (get_section_table_buffer_pos (file_of b))
              options.allow_virtual_headers headers.table_in_file).0)
        (refl, tt)

  section_checks-Goes : Goes (λ _. Unit) (λ _. Unit) (validate_sections options)
  unfolding validate_sections
  section_checks-Goes st _ =
      (if-none options.validate_section_headers (_, none) (st, none) refl refl, tt)

  from_table : Succeeds IsAtTable (
      load_section_table options
      ∷ validate_sections options
      ∷ load_section_data options
      ∷ buffer_steps options)
  from_table =
      cons-Succeeds IsAtTable (λ _. Unit) _ _ section_table-Goes
        (cons-Succeeds (λ _. Unit) (λ _. Unit) _ _ section_checks-Goes
          (never-Succeeds (λ _. Unit) (load_section_data options ∷ buffer_steps options)
            (data_steps-NeverThrow options)))

  from_optional_header : Succeeds IsBehindHeader (
      validate_optional_header options
      ∷ load_data_directories options
      ∷ validate_base options
      ∷ move_to_section_table
      ∷ load_section_table options
      ∷ validate_sections options
      ∷ load_section_data options
      ∷ buffer_steps options)
  from_optional_header = cons-Succeeds IsBehindHeader IsBehindHeader _ _ optional_checks-Goes (
      cons-Succeeds IsBehindHeader HasFile _ _ directories-Goes (
        cons-Succeeds HasFile HasFile _ _ base_check-Goes
          (cons-Succeeds HasFile IsAtTable _ _ position-Goes from_table)))

  load_steps-Succeeds : Succeeds (At 0) (load_steps options)
  unfolding load_steps
  load_steps-Succeeds = cons-Succeeds (At 0) _ _ _ dos_header-Goes (
      cons-Succeeds _ (At (pe_offset b)) _ _ dos_stub-Goes (
        cons-Succeeds (At (pe_offset b)) (At (pe_offset b + 4)) _ _ signature-Goes (
          cons-Succeeds (At (pe_offset b + 4)) _ _ _ file_header-Goes
            (cons-Succeeds _ IsBehindHeader _ _ optional_header-Goes from_optional_header))))

  -- For a valid buffer of fewer than 2 ^ 62 bytes, at offsets below 2 ^ 62, whose headers,
  -- directories and section table are in the file, with the DOS header and the signature valid and
  -- the magic of the optional header known: a load with any options has no fatal error.
  pub load-HasHeaders : (Loader.load b options).fatal_error ≡ none
  unfolding Loader.load load_into started
  load-HasHeaders = load_steps-Succeeds (started new_image b) refl
