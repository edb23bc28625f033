-- ===== src/Section/Search/Laws.antt =====
-- About the finders, as ranges of addresses.
use native.Mathlib.Nat.{mod-eq_of_lt}
use pe_bliss.Base.{ℕ, ◌+◌, ◌-◌, ◌^◌, ◌≤◌, ◌<◌, ◌≡◌, ◌↔◌, true, arith, ltb, if◌then◌else◌}
use pe_bliss.Errors.{generic, integer_overflow, ok, err}
use pe_bliss.Utilities.Math.Laws.{is_sum_safe_iff, add_if_safe_lem}
use pe_bliss.Section.Header.{
  SectionHeader, get_rva, get_virtual_size, get_raw_size, get_pointer_to_raw_data,
}
use pe_bliss.Section.Search.{Finder, make_finder, range_end, in_range, by_rva, by_raw_offset}

-- The addresses `address … address + data_size` lie in `start … start + size`, below 2 ^ 32 - 1.
abbrev pub Covers : ℕ → ℕ → ℕ → ℕ → Type 0
Covers start size address data_size =
    (start ≤ address) × (address + data_size ≤ start + size) × (address + data_size ≤ 2 ^ 32 - 1)

abbrev pub finder_at : ℕ → ℕ → ℕ → Finder
finder_at address align size = record {
  address = address;
  section_alignment = align;
  data_size = size;
}

-- A finder is made exactly for a range that ends at a 32-bit address.
pub make_finder_lem :
    (address align size : ℕ)
    → size < 2 ^ 32
    → make_finder address align size ≡ (
        if ltb (address + size) (2 ^ 32)
        then ok (finder_at address align size)
        else err (generic integer_overflow))
unfolding make_finder
make_finder_lem address align size h = ground (arith, is_sum_safe_iff 32 address size)

in_range_iff :
    (f : Finder) (start size : ℕ)
    → size < 2 ^ 32
    → start < 2 ^ 32
    → f.address + f.data_size < 2 ^ 32
    → (in_range f start size ≡ true) ↔ Covers start size f.address f.data_size
unfolding in_range range_end
in_range_iff f start size h k sum =
    rw (add_if_safe_lem 32 start size h, mod-eq_of_lt sum) (ground arith)

-- `by_rva` accepts a section exactly if the range lies in its loaded part.
pub by_rva_iff :
    (h : SectionHeader) (rva align size : ℕ)
    → get_rva h < 2 ^ 32
    → get_virtual_size h align < 2 ^ 32
    → rva + size < 2 ^ 32
    → (by_rva (finder_at rva align size) h ≡ true)
      ↔ Covers (get_rva h) (get_virtual_size h align) rva size
unfolding by_rva
by_rva_iff h rva align size start loaded sum =
    in_range_iff (finder_at rva align size) (get_rva h) (get_virtual_size h align) loaded start sum

-- `by_raw_offset` accepts a section exactly if the range lies in its part of the file.
pub by_raw_offset_iff :
    (h : SectionHeader) (offset align size : ℕ)
    → get_pointer_to_raw_data h < 2 ^ 32
    → get_raw_size h align < 2 ^ 32
    → offset + size < 2 ^ 32
    → (by_raw_offset (finder_at offset align size) h ≡ true)
      ↔ Covers (get_pointer_to_raw_data h) (get_raw_size h align) offset size
unfolding by_raw_offset
by_raw_offset_iff h offset align size start stored sum =
    in_range_iff (finder_at offset align size) (get_pointer_to_raw_data h) (get_raw_size h align)
      stored start sum
