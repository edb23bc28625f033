-- ===== src/Relocations/Loader.antt =====
-- src/relocations/relocation_directory_loader.cpp: the directory is read block by block, and
-- errors are recorded with the block or the entry they belong to. `emplace_back` and the changes
-- to the new element are one step at the end of each branch. The result says out_of_fuel where
-- a loop has used up its fuel.
mod Tests
pub mod Laws
pub mod Directory
pub mod Stored
use pe_bliss.Base.{
  ℕ, zero, suc, ◌-◌, ◌/◌, ◌%◌, Bool, true, false, not, ◌&&◌, Option, none, some, List, [], ◌∷◌,
  ◌++◌, ltb, leb, ◌==◌, ◌!=◌, if◌then◌else◌, take, drop,
}
use pe_bliss.Base.Loops.{Run, out_of_fuel, done}
use pe_bliss.Errors.{
  RelocationEntryErrc, RelocationLoaderErrc, Error, Result, ok, err, ◌>>=◌, relocation_entry,
  relocation_loader, relocation_param_is_absent, invalid_relocation_block_size,
  unaligned_relocation_entry, invalid_directory_size,
}
use pe_bliss.Errors.List.{ErrorList, add_error}
use pe_bliss.Utilities.Math.{is_sum_safe, add_if_safe}
use pe_bliss.Utilities.SafeUint.{plus, align_up}
use pe_bliss.Core.DataDirectories.{DataDirectory, basereloc, get_directory, has_nonempty_directory}
use pe_bliss.Image.Layout.{Image}
use pe_bliss.Packed.Struct.{deserialize}
use pe_bliss.Image.Structures.{struct_from_rva}
use pe_bliss.Relocations.Entry.{RelocationEntry, requires_parameter, get_affected_size_in_bytes}
use pe_bliss.Relocations.Builder.{block_header_size, entry_size}

pub record LoaderOptions : Type 0 where
  pub include_headers : Bool
  pub allow_virtual_data : Bool

-- `relocation_entry_details`
pub record LoadedEntry : Type 0 where
  pub entry : RelocationEntry
  pub entry_errors : ErrorList

-- `base_relocation_details`
pub record LoadedBlock : Type 0 where
  pub virtual_address : ℕ
  pub size_of_block : ℕ
  pub relocations : List LoadedEntry
  pub block_errors : ErrorList

-- `relocation_directory`
pub record LoadedDirectory : Type 0 where
  pub blocks : List LoadedBlock
  pub directory_errors : ErrorList

-- What `load_element` changes through its reference parameters.
pub record ElementState : Type 0 where
  pub entries : List LoadedEntry
  pub elem_count : ℕ
  pub current_rva : ℕ

abbrev pub invalid_entry : Error
invalid_entry = relocation_entry RelocationEntryErrc.invalid_relocation_entry

abbrev pub invalid_block : Error
invalid_block = relocation_loader RelocationLoaderErrc.invalid_relocation_entry

abbrev pub param_absent : Error
param_absent = relocation_entry relocation_param_is_absent

abbrev pub failed_entry : ℕ → LoadedEntry
failed_entry descriptor = record {
  entry = record { descriptor = descriptor; param = none };
  entry_errors = add_error [] invalid_entry;
}

-- The error of an entry with an unsupported type.
abbrev pub support_errors : Result ℕ → ErrorList
support_errors (ok size) = []
support_errors (err e) = add_error [] e

-- `return false` behind an element that could not be read.
abbrev pub stop_at : ElementState → LoadedEntry → Result (Bool × ElementState)
stop_at st elem = ok (false, record st { entries = st.entries ++ (elem ∷ []) })

module _ (img : Image) (options : LoaderOptions) where
  pub read_struct : ℕ → ℕ → Result (List ℕ)
  read_struct rva packed_size =
      struct_from_rva img rva packed_size options.include_headers options.allow_virtual_data
      >>= λ got. ok got.1

  -- A structure at the position, and the position behind it.
  pub read_next : ℕ → ℕ → Result (List ℕ × ℕ)
  read_next current_rva packed_size = do
    bytes ← read_struct current_rva packed_size
    next ← plus 32 current_rva packed_size
    ok (bytes, next)

  -- The parameter of an element, whose descriptor has been read.
  pub load_param : ℕ → RelocationEntry → ErrorList → ElementState → Result (Bool × ElementState)
  load_param last_rva entry errors st = do
    has_space ←
        (if is_sum_safe 32 st.current_rva entry_size
          then (plus 32 st.current_rva entry_size >>= λ after. ok (leb after last_rva))
          else ok false)
    let absent : LoadedEntry = record {
      entry = entry;
      entry_errors = add_error errors param_absent;
    }
    if st.elem_count != 0 && has_space
        then (elim (read_next st.current_rva entry_size) [
          | err e ↦ stop_at st absent
          | ok (bytes, next) ↦ ok (
            has_space,
            record {
              entries =
                  st.entries
                  ++ (record {
                    entry = record entry { param = some (deserialize bytes) };
                    entry_errors = errors;
                  }
                      ∷ []);
              elem_count = st.elem_count - 1;
              current_rva = next;
            },
          )
        ])
        else ok (has_space, record st { entries = st.entries ++ (absent ∷ []) })

  -- An element whose descriptor has been read.
  pub load_described : ℕ → ℕ → ElementState → Result (Bool × ElementState)
  load_described last_rva descriptor st =
      let entry : RelocationEntry = record { descriptor = descriptor; param = none } in
      let errors = support_errors (get_affected_size_in_bytes entry img.machine) in
      if requires_parameter entry
      then load_param last_rva entry errors st
      else ok (
        true,
        record st {
          entries = st.entries ++ (record { entry = entry; entry_errors = errors } ∷ []);
        },
      )

  pub load_element : ℕ → ElementState → Result (Bool × ElementState)
  load_element last_rva st = do
    past ←
        (if not (is_sum_safe 32 last_rva entry_size)
          then ok true
          else (plus 32 st.current_rva entry_size >>= λ after. ok (ltb last_rva after)))
    if past then stop_at st (failed_entry 0) else (elim (read_struct st.current_rva entry_size) [
      | err e ↦ stop_at st (failed_entry 0)
      | ok bytes ↦ elim (plus 32 st.current_rva entry_size) [
        | err e ↦ stop_at st (failed_entry (deserialize bytes))
        | ok next ↦
            load_described last_rva (deserialize bytes)
              (record st { elem_count = st.elem_count - 1; current_rva = next })
      ]
    ])

  -- One test of the loop's condition, and the round behind it.
  pub elements_round :
      ℕ
      → (ElementState → Result (Run (Bool × ElementState)))
      → ElementState
      → Result (Run (Bool × ElementState))
  elements_round last_rva rest st = if st.elem_count == 0 then ok (done (true, st)) else (do
    loaded ← load_element last_rva st
    if loaded.0 then rest loaded.1 else ok (done (false, loaded.1)))

  pub load_elements : ℕ → ℕ → ElementState → Result (Run (Bool × ElementState))
  load_elements zero last_rva st = ok out_of_fuel
  load_elements (suc fuel) last_rva st = elements_round last_rva (load_elements fuel last_rva) st
