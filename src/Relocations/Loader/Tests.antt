-- ===== src/Relocations/Loader/Tests.antt =====
-- A directory of one block in the headers of an image: built, and loaded.
use pe_bliss.Base.{
  ℕ, ◌+◌, ◌≤◌, ◌≡◌, ◌⊎◌, inl, refl, true, false, Option, none, some, List, [], ◌∷◌, map, arith,
}
use pe_bliss.Base.Loops.{done}
use pe_bliss.Packed.Struct.{serialize}
use pe_bliss.Errors.{ok, err, generic, integer_overflow}
use pe_bliss.Utilities.Math.{add_if_safe, is_sum_safe}
use pe_bliss.Utilities.SafeUint.{plus}
use pe_bliss.Section.Samples.{two_sections-IsValid}
use pe_bliss.Core.DataDirectories.{DataDirectory, basereloc, get_directory}
use pe_bliss.Buffers.Input.{Buffer, container, absolute_offset, relative_offset}
use pe_bliss.Buffers.Input.Contents.{contents, physical}
use pe_bliss.Image.Samples.{program}
use pe_bliss.Image.Layout.{Image}
use pe_bliss.Image.SectionData.Laws.{IsLoaded}
use pe_bliss.Relocations.Entry.{
  get_type, requires_parameter, affected_size, get_affected_size_in_bytes,
}
use pe_bliss.Relocations.Builder.{
  BaseRelocation, serialize_entries, params_from, get_element_count, total_elements, get_built_size,
}
use pe_bliss.Relocations.Builder.Laws.{IsInMemory}
use pe_bliss.Relocations.Builder.Bytes.{directory_bytes, sized, build_new-written}
use pe_bliss.Relocations.Loader.{LoaderOptions, LoadedDirectory}
use pe_bliss.Relocations.Loader.Stored.{IsStored, bytes-IsStored}
use pe_bliss.Relocations.Loader.Directory.{load}
use pe_bliss.Relocations.Loader.Directory.Termination.{total_size, load_lem}
use pe_bliss.Relocations.Loader.Directory.RoundTrip.{reloaded, IsBlock, load-build_new}

abbrev info : DataDirectory
info = record { virtual_address = 4; size = 12 }

abbrev nothing : DataDirectory
nothing = record { virtual_address = 0; size = 0 }

-- A block at 0x1000 with a `highlow` entry, which is filled up.
abbrev blocks : List BaseRelocation
blocks =
    record {
      virtual_address = 0x1000;
      size_of_block = 0;
      relocations = record { descriptor = 0x3123; param = none } ∷ [];
    }
    ∷ []

abbrev stored_bytes : List ℕ
stored_bytes = 0 ∷ 16 ∷ 0 ∷ 0 ∷ 12 ∷ 0 ∷ 0 ∷ 0 ∷ 35 ∷ 49 ∷ 0 ∷ 0 ∷ []

abbrev headers : Buffer
headers = container (7 ∷ 7 ∷ 7 ∷ 7 ∷ stored_bytes) 0 0

abbrev relocatable : Image
relocatable = record program {
  data_directories = nothing ∷ nothing ∷ nothing ∷ nothing ∷ nothing ∷ info ∷ [];
  full_headers_buffer = headers;
}

abbrev options : LoaderOptions
options = record { include_headers = true; allow_virtual_data = false }

in_memory : IsInMemory true blocks
unfolding total_elements get_element_count params_from
in_memory = (omega arith, omega arith)

blocks_size : get_built_size true blocks ≡ ok 12
unfolding get_built_size total_elements get_element_count params_from plus add_if_safe is_sum_safe
blocks_size = refl

directory_run : directory_bytes true blocks ≡ stored_bytes
unfolding serialize serialize_entries get_element_count params_from
directory_run = refl

relocatable-IsLoaded : IsLoaded relocatable
unfolding contents absolute_offset relative_offset
relocatable-IsLoaded = record {
  sections = two_sections-IsValid;
  alignment_fits = omega arith;
  headers = omega arith;
  headers_offsets = λ offset lt. (omega arith, omega arith, omega arith, omega arith);
  section_data = (
    (omega arith, λ offset lt. (omega arith, omega arith, omega arith, omega arith)),
    ((omega arith, λ offset lt. (omega arith, omega arith, omega arith, omega arith)), tt),
  );
}

directory_found : get_directory relocatable.data_directories basereloc ≡ some info
unfolding get_directory
directory_found = refl

directory-IsStored : IsStored relocatable options 4 (directory_bytes true blocks)
unfolding contents physical
directory-IsStored = rw directory_run (
    bytes-IsStored relocatable relocatable-IsLoaded options 4 headers (7 ∷ 7 ∷ 7 ∷ 7 ∷ [])
      stored_bytes [] refl (omega arith) (omega arith)
      (λ i lt. inl (refl, refl, refl, omega arith)))

blocks-IsBlock : IsBlock relocatable.machine (record {
  virtual_address = 0x1000;
  size_of_block = 0;
  relocations = record { descriptor = 0x3123; param = none } ∷ [];
})
unfolding get_affected_size_in_bytes affected_size requires_parameter get_type
blocks-IsBlock = (omega arith, ((omega arith, refl, tt), tt))

load-build_new_example :
    load relocatable options
    ≡ ok (
        done (
          some (record { blocks = map reloaded (map (sized true) blocks); directory_errors = [] })))
load-build_new_example =
    load-build_new relocatable options info blocks (map (sized true) blocks)
      (directory_bytes true blocks) in_memory blocks_size
      (build_new-written true blocks 12 in_memory blocks_size).0 directory_found directory-IsStored
      (omega arith) (omega arith) (omega arith) (blocks-IsBlock, tt)

load_lem_example :
    (load relocatable options ≡ err (generic integer_overflow))
    ⊎ ((r : Option LoadedDirectory) × (load relocatable options ≡ ok (done r))
        × (total_size r ≤ 12 + 10))
load_lem_example = load_lem relocatable options info directory_found (omega arith)
