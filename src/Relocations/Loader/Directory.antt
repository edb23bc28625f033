-- ===== src/Relocations/Loader/Directory.antt =====
-- src/relocations/relocation_directory_loader.cpp, `load`: the loop over the blocks.
pub mod Termination
pub mod RoundTrip
use pe_bliss.Base.{
  ℕ, zero, suc, ◌-◌, ◌/◌, ◌%◌, Bool, true, false, Option, none, some, List, [], ◌∷◌, ◌++◌, ltb,
  ◌!=◌, if◌then◌else◌, take, drop,
}
use pe_bliss.Base.Loops.{Run, out_of_fuel, done}
use pe_bliss.Errors.{
  Error, Result, ok, err, ◌>>=◌, relocation_loader, invalid_relocation_block_size,
  unaligned_relocation_entry, invalid_directory_size,
}
use pe_bliss.Errors.List.{add_error}
use pe_bliss.Utilities.Math.{add_if_safe}
use pe_bliss.Utilities.SafeUint.{plus, align_up}
use pe_bliss.Core.DataDirectories.{DataDirectory, basereloc, get_directory, has_nonempty_directory}
use pe_bliss.Image.Layout.{Image}
use pe_bliss.Packed.Struct.{deserialize}
use pe_bliss.Relocations.Builder.{block_header_size}
use pe_bliss.Relocations.Loader.{
  LoaderOptions, LoadedBlock, LoadedDirectory, ElementState, invalid_block, read_struct,
  load_elements,
}

-- A round of the loop goes on at a position, or returns from the function.
pub data Round : Type 0 where
  continued : List LoadedBlock → ℕ → Round
  returned : List LoadedBlock → Round

abbrev pub with_error : LoadedBlock → Error → LoadedBlock
with_error b e = record b { block_errors = add_error b.block_errors e }

-- The block whose header has these bytes.
abbrev pub described : List ℕ → LoadedBlock
described bytes = record {
  virtual_address = deserialize (take 4 bytes);
  size_of_block = deserialize (drop 4 bytes);
  relocations = [];
  block_errors = [];
}

abbrev pub empty_block : LoadedBlock
empty_block = record { virtual_address = 0; size_of_block = 0; relocations = []; block_errors = [] }

-- Where the elements of a block have ended.
abbrev pub end_block : List LoadedBlock → LoadedBlock → Run (Bool × ElementState) → Run Round
end_block list block out_of_fuel = out_of_fuel
end_block list block (done (all, st)) =
    let loaded = list ++ (record block { relocations = st.entries } ∷ []) in
    done (if all then continued loaded st.current_rva else returned loaded)

-- The directory in the optional that `load` returns.
unfoldable pub found : Run LoadedDirectory → Run (Option LoadedDirectory)
found out_of_fuel = out_of_fuel
found (done d) = done (some d)

module _ (img : Image) (options : LoaderOptions) where
  -- The elements of a block, from the position behind its header.
  pub load_block_elements : ℕ → List LoadedBlock → LoadedBlock → ℕ → Result (Run Round)
  load_block_elements last_rva list block current_rva =
      let elem_count = block.size_of_block - block_header_size in
      if elem_count % 2 != 0
      then (do
        next ← plus 32 current_rva elem_count
        ok (
            done (
              continued
                (list ++ (with_error block (relocation_loader invalid_relocation_block_size) ∷ []))
                next)))
      else (do
        loaded ←
            load_elements img options (suc (elem_count / 2)) last_rva
              (record { entries = []; elem_count = elem_count / 2; current_rva = current_rva })
        ok (end_block list block loaded))

  -- A block whose header has been read.
  pub load_described_block : ℕ → List LoadedBlock → LoadedBlock → ℕ → Result (Run Round)
  load_described_block last_rva list block current_rva = elim (align_up 32 current_rva 4) [
    | err e ↦ ok (done (returned (list ++ (with_error block invalid_block ∷ []))))
    | ok aligned_rva ↦
        let checked =
          if current_rva != aligned_rva
          then with_error block (relocation_loader unaligned_relocation_entry)
          else block in
        elim (plus 32 current_rva block_header_size) [
          | err e ↦ ok (done (returned (list ++ (with_error checked invalid_block ∷ []))))
          | ok next ↦
              if ltb block.size_of_block block_header_size
              then ok (
                  done (
                    continued
                      (list
                        ++ (with_error checked (relocation_loader invalid_relocation_block_size)
                            ∷ []))
                      next))
              else load_block_elements last_rva list checked next
        ]
  ]

  pub load_block : ℕ → List LoadedBlock → ℕ → Result (Run Round)
  load_block last_rva list current_rva =
      elim (read_struct img options current_rva block_header_size) [
        | err e ↦ ok (done (returned (list ++ (with_error empty_block invalid_block ∷ []))))
        | ok bytes ↦ load_described_block last_rva list (described bytes) current_rva
      ]

  -- What the loop does with a round.
  abbrev pub go_on :
      (List LoadedBlock → ℕ → Result (Run LoadedDirectory))
      → Run Round
      → Result (Run LoadedDirectory)
  go_on rest out_of_fuel = ok out_of_fuel
  go_on rest (done (returned list)) = ok (done (record { blocks = list; directory_errors = [] }))
  go_on rest (done (continued list next)) = rest list next

  -- The end of the loop.
  abbrev pub end_directory : ℕ → List LoadedBlock → ℕ → LoadedDirectory
  end_directory last_rva list current_rva = record {
    blocks = list;
    directory_errors =
        if current_rva != last_rva
        then add_error [] (relocation_loader invalid_directory_size)
        else [];
  }

  pub load_blocks : ℕ → ℕ → List LoadedBlock → ℕ → Result (Run LoadedDirectory)
  load_blocks zero last_rva list current_rva = ok out_of_fuel
  load_blocks (suc fuel) last_rva list current_rva =
      if ltb current_rva last_rva
      then (load_block last_rva list current_rva >>= go_on (load_blocks fuel last_rva))
      else ok (done (end_directory last_rva list current_rva))

  -- `load`, for the directory of relocations.
  pub load_directory : DataDirectory → Result (Run LoadedDirectory)
  load_directory reloc_dir_info =
      elim (add_if_safe 32 reloc_dir_info.virtual_address reloc_dir_info.size) [
        | none ↦ ok (
            done (record {
              blocks = [];
              directory_errors = add_error [] (relocation_loader invalid_directory_size);
            }))
        | some last_rva ↦
            load_blocks (suc reloc_dir_info.size) last_rva [] reloc_dir_info.virtual_address
      ]

  -- An image without relocations has no result.
  pub load : Result (Run (Option LoadedDirectory))
  load =
      if has_nonempty_directory img.data_directories basereloc
      then (elim (get_directory img.data_directories basereloc) [
        | none ↦ ok (done none)
        | some info ↦ load_directory info >>= λ loaded. ok (found loaded)
      ])
      else ok (done none)
