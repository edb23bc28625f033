-- ===== src/Relocations/Tests.antt =====
-- Entries and blocks of a relocation directory: runs, and the theorems at them.
use pe_bliss.Base.{◌+◌, ℕ, ◌≡◌, refl, true, none, List, [], ◌∷◌, arith, length}
use pe_bliss.Base.Words.{sub_wrap}
use pe_bliss.Errors.{ok, ◌>>=◌}
use pe_bliss.Utilities.Math.{add_if_safe, is_sum_safe}
use pe_bliss.Utilities.SafeUint.{plus}
use pe_bliss.Relocations.Entry.{
  affected_size, RelocationEntry, get_type, apply_to, get_affected_size_in_bytes,
}
use pe_bliss.Relocations.Entry.Apply.{stored, apply_to_back}
use pe_bliss.Relocations.Builder.{
  BaseRelocation, params_from, get_element_count, total_elements, get_built_size, build_new,
}
use pe_bliss.Relocations.Builder.Laws.{IsInMemory, block_sizes, get_built_size-build_new}

-- A `highlow` entry at 0x123.
abbrev entry : RelocationEntry
entry = record { descriptor = 0x3123; param = none }

entry_type : get_type entry ≡ 3
unfolding get_type
entry_type = refl

entry_size_run : get_affected_size_in_bytes entry 0x14c ≡ ok 4
unfolding get_affected_size_in_bytes affected_size get_type
entry_size_run = refl

apply_to_back_example :
    ((address : ℕ)
      → stored (get_type entry) 4 address ≡ 0x401010
      → apply_to entry 0x401010 0x10000 0x14c ≡ ok (stored (get_type entry) 4 (address + 0x10000)))
    × ((apply_to entry 0x401010 0x10000 0x14c >>= λ moved.
          apply_to entry moved (sub_wrap 64 0 0x10000) 0x14c)
        ≡ ok 0x401010)
apply_to_back_example =
    apply_to_back entry 0x401010 0x10000 0x14c 4
      (rw entry_type (omega arith), rw entry_type (omega arith)) entry_size_run (omega arith)
      (omega arith) (omega arith)

abbrev directory : List BaseRelocation
directory = record { virtual_address = 0x1000; size_of_block = 0; relocations = entry ∷ [] } ∷ []

in_memory : IsInMemory true directory
unfolding total_elements get_element_count params_from
in_memory = (omega arith, omega arith)

directory_size : get_built_size true directory ≡ ok 12
unfolding get_built_size total_elements get_element_count params_from plus add_if_safe is_sum_safe
directory_size = refl

get_built_size-build_new_example :
    (bytes : List ℕ) × (built : List BaseRelocation) × (build_new true directory
      ≡ ok ((bytes, built), 12))
    × (length bytes ≡ 12)
    × (block_sizes built ≡ 12)
get_built_size-build_new_example =
    get_built_size-build_new true directory 12 in_memory directory_size
