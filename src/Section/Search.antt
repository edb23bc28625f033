-- ===== src/Section/Search.antt =====
-- The finders by_rva and by_raw_offset (include/pe_bliss2/section/section_search.h,
-- src/section/section_search.cpp). Their constructors check a sum and may throw. `by_pointer`
-- compares addresses: here a section is referred to by its index, and no finder is needed.
pub mod Laws
use pe_bliss.Base.{ℕ, ◌+◌, ◌-◌, ◌^◌, Bool, ◌&&◌, not, Option, leb, if◌then◌else◌}
use mathlib.Core.Option.{get_or}
use pe_bliss.Base.Words.{add_wrap}
use pe_bliss.Errors.{generic, integer_overflow, Result, ok, ◌>>=◌, ◌>>◌, throw_if}
use pe_bliss.Utilities.Math.{is_sum_safe, add_if_safe}
use pe_bliss.Section.Header.{
  SectionHeader, get_rva, get_virtual_size, get_raw_size, get_pointer_to_raw_data,
}

pub record Finder : Type 0 where
  pub address : ℕ
  pub section_alignment : ℕ
  pub data_size : ℕ

unfoldable pub make_finder : ℕ → ℕ → ℕ → Result Finder
make_finder address section_alignment data_size = do
  throw_if (not (is_sum_safe 32 address data_size)) (generic integer_overflow)
  ok (record { address = address; section_alignment = section_alignment; data_size = data_size })

-- The end of a range of 32-bit addresses, the largest address where it would wrap.
unfoldable pub range_end : ℕ → ℕ → ℕ
range_end start size = get_or (add_if_safe 32 start size) (2 ^ 32 - 1)

unfoldable pub in_range : Finder → ℕ → ℕ → Bool
in_range f start size =
    leb start f.address && leb (add_wrap 32 f.address f.data_size) (range_end start size)

-- `by_rva::operator()`
unfoldable pub by_rva : Finder → SectionHeader → Bool
by_rva f header = in_range f (get_rva header) (get_virtual_size header f.section_alignment)

-- `by_raw_offset::operator()`
pub by_raw_offset : Finder → SectionHeader → Bool
by_raw_offset f header =
    in_range f (get_pointer_to_raw_data header) (get_raw_size header f.section_alignment)
