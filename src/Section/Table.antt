-- ===== src/Section/Table.antt =====
-- class section_table (include/pe_bliss2/section/section_table.h, src/section/section_table.cpp),
-- over the list of its headers. An iterator is an index with the header there, and `none` the end.
pub mod Laws
pub mod EndOffset
pub mod Bytes
use pe_bliss.Base.{
  ℕ, suc, ◌+◌, Bool, true, false, Option, none, some, List, [], ◌∷◌, max, ◌==◌, if◌then◌else◌,
}
use pe_bliss.Errors.{Result, ok, ◌>>=◌}
use pe_bliss.Section.Header.{SectionHeader, get_raw_size, get_pointer_to_raw_data}
use pe_bliss.Section.Search
use pe_bliss.Section.Search.{make_finder}

abbrev pub SectionTable : Type 0
SectionTable = List SectionHeader

-- `std::find_if`, from index `i` on.
unfoldable pub find_from : ℕ → (SectionHeader → Bool) → SectionTable → Option (ℕ × SectionHeader)
find_from i finder [] = none
find_from i finder (h ∷ hs) =
    let rest = find_from (suc i) finder hs in if finder h then some (i, h) else rest

unfoldable pub find_section : SectionTable → (SectionHeader → Bool) → Option (ℕ × SectionHeader)
find_section headers finder = find_from 0 finder headers

unfoldable pub by_rva : SectionTable → ℕ → ℕ → ℕ → Result (Option (ℕ × SectionHeader))
by_rva headers rva section_alignment data_size = do
  finder ← make_finder rva section_alignment data_size
  ok (find_section headers (Search.by_rva finder))

pub by_raw_offset : SectionTable → ℕ → ℕ → ℕ → Result (Option (ℕ × SectionHeader))
by_raw_offset headers raw_offset section_alignment data_size = do
  finder ← make_finder raw_offset section_alignment data_size
  ok (find_section headers (Search.by_raw_offset finder))

-- The loop of `get_raw_data_end_offset`, whose sums are 64-bit and do not wrap.
unfoldable pub end_offset_from : ℕ → SectionTable → ℕ → ℕ
end_offset_from result [] section_alignment = result
end_offset_from result (h ∷ hs) section_alignment =
    end_offset_from
      (if h.pointer_to_raw_data == 0
        then result
        else max result (get_pointer_to_raw_data h + get_raw_size h section_alignment))
      hs section_alignment

unfoldable pub get_raw_data_end_offset : SectionTable → ℕ → ℕ
get_raw_data_end_offset headers section_alignment = end_offset_from 0 headers section_alignment
