-- ===== src/Relocations/Builder.antt =====
-- src/relocations/relocation_directory_builder.cpp: the size of a directory and its bytes. A
-- buffer is the list of the bytes written to it, and the write position is their count. The
-- directory is returned with the block sizes that the build stores.
pub mod Laws
pub mod Bytes
use pe_bliss.Base.{
  ℕ, zero, suc, ◌+◌, ◌*◌, ◌/◌, ◌%◌, Bool, ◌&&◌, Option, none, some, List, [], ◌∷◌, ◌++◌, length,
  ◌!=◌, if◌then◌else◌,
}
use pe_bliss.Base.Words.{cast}
use pe_bliss.Packed.Struct.{serialize}
use pe_bliss.Errors.{Result, ok, ◌>>=◌}
use pe_bliss.Utilities.SafeUint.{plus}
use pe_bliss.Relocations.Entry.{RelocationEntry}

pub record BaseRelocation : Type 0 where
  pub virtual_address : ℕ
  pub size_of_block : ℕ
  pub relocations : List RelocationEntry

-- The packed sizes of `image_base_relocation` and of `type_or_offset_entry`.
abbrev pub block_header_size : ℕ
block_header_size = 8

abbrev pub entry_size : ℕ
entry_size = 2

abbrev pub param_count : Option ℕ → ℕ
param_count none = 0
param_count (some p) = 1

unfoldable pub params_from : ℕ → List RelocationEntry → ℕ
params_from elem_count [] = elem_count
params_from elem_count (entry ∷ entries) =
    params_from (elem_count + param_count entry.param) entries

unfoldable pub get_element_count : BaseRelocation → ℕ
get_element_count basereloc = params_from (length basereloc.relocations) basereloc.relocations

-- The loop of `get_built_size_impl`.
unfoldable pub total_elements : Bool → ℕ → List BaseRelocation → ℕ
total_elements align total_elem_count [] = total_elem_count
total_elements align total_elem_count (basereloc ∷ relocs) =
    let elem_count = get_element_count basereloc in
    total_elements align
      (total_elem_count + (if align && elem_count % 2 != 0 then suc elem_count else elem_count))
      relocs

unfoldable pub get_built_size : Bool → List BaseRelocation → Result ℕ
get_built_size align relocs = do
  headers ← plus 32 0 (cast 64 (length relocs * block_header_size))
  plus 32 headers (cast 64 (total_elements align 0 relocs * entry_size))

unfoldable pub serialize_entries : List RelocationEntry → List ℕ
serialize_entries [] = []
serialize_entries (entry ∷ entries) =
    serialize 2 entry.descriptor
    ++ (elim entry.param [ none ↦ [] | some param ↦ serialize 2 param ])
    ++ serialize_entries entries

-- The size of a block, as `build_new_impl` computes it.
pub block_size : Bool → ℕ → Result ℕ
block_size requires_alignment elem_count = do
  header ← plus 32 0 block_header_size
  entries ← plus 32 header (cast 64 (elem_count * entry_size))
  plus 32 entries (if requires_alignment then entry_size else 0)

pub build_block : Bool → BaseRelocation → Result (List ℕ × BaseRelocation)
build_block align basereloc =
    let elem_count = get_element_count basereloc in
    let requires_alignment = align && elem_count % 2 != 0 in
    do
      size ← block_size requires_alignment elem_count
      ok (
        serialize 4 basereloc.virtual_address
            ++ serialize 4 size
            ++ serialize_entries basereloc.relocations
            ++ (if requires_alignment then serialize 2 0 else []),
        record basereloc { size_of_block = size },
      )

pub build_blocks : Bool → List BaseRelocation → Result (List ℕ × List BaseRelocation)
build_blocks align [] = ok ([], [])
build_blocks align (basereloc ∷ relocs) = do
  block ← build_block align basereloc
  rest ← build_blocks align relocs
  ok (block.0 ++ rest.0, block.1 ∷ rest.1)

-- The bytes written, the directory after the call, and the count that it returns.
pub build_new : Bool → List BaseRelocation → Result ((List ℕ × List BaseRelocation) × ℕ)
build_new align relocs = do built ← build_blocks align relocs; ok (built, cast 32 (length built.0))
