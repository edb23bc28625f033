-- ===== src/Image/Samples.antt =====
-- An executable with two sections, for the tests.
use mathlib.Core.Option.{some-injective}
use pe_bliss.Base.{
  ℕ, zero, suc, ◌≤◌, ◌<◌, ◌≡◌, ◌⊎◌, inl, some, [], ◌∷◌, arith, get_elem?, subst, replicate,
}
use pe_bliss.Base.Words.{has_single_bit, popcount}
use pe_bliss.Utilities.Math.{align_up_if_safe, align_down, add_if_safe, is_sum_safe}
use pe_bliss.Core.Samples.{sample_header, sample_directories}
use pe_bliss.Section.Samples.{text, rodata, two_sections, two_sections-IsValid}
use pe_bliss.Section.Header.{
  SectionHeader, get_rva, get_virtual_size, get_raw_size, get_pointer_to_raw_data,
}
use pe_bliss.Buffers.Input.{Buffer, container}
use pe_bliss.Image.Layout.{Image, IsLaidOut, virtual_end, raw_end}

abbrev pub no_bytes : Buffer
no_bytes = container [] 0 0

abbrev pub two_words : Buffer
two_words = container (1 ∷ 2 ∷ 3 ∷ 4 ∷ 5 ∷ 6 ∷ 7 ∷ 8 ∷ []) 0 0

-- Headers of 96 bytes, in which the checksum has offset 88.
abbrev pub headers : Buffer
headers = container (replicate 96 7) 0 0

abbrev pub program : Image
program = record {
  e_lfanew = 0;
  optional_header = sample_header;
  machine = 0x14c;
  data_directories = sample_directories;
  section_table = two_sections;
  section_data_list = two_words ∷ no_bytes ∷ [];
  overlay = no_bytes;
  full_headers_buffer = headers;
  full_sections_buffer = no_bytes;
}

-- Of two sections of the table in order, one is the first and the other the second.
only_pair :
    (P : SectionHeader → SectionHeader → Type 0) (l m : ℕ) (g h : SectionHeader)
    → P text rodata
    → l < m
    → get_elem? two_sections l ≡ some g
    → get_elem? two_sections m ≡ some h
    → P g h
only_pair P zero zero g h p lt e f = absurd (omega arith)
only_pair P zero (suc zero) g h p lt e f =
    subst (P g) (some-injective _ _ f) (subst (λ x. P x rodata) (some-injective _ _ e) p)
only_pair P zero (suc (suc m)) g h p lt e f = cc
only_pair P (suc l) zero g h p lt e f = absurd (omega arith)
only_pair P (suc l) (suc zero) g h p lt e f = absurd (omega arith)
only_pair P (suc l) (suc (suc m)) g h p lt e f = cc

pub program-IsLaidOut : IsLaidOut program
unfolding get_rva get_virtual_size get_raw_size get_pointer_to_raw_data has_single_bit popcount
    align_up_if_safe align_down add_if_safe is_sum_safe
program-IsLaidOut = record {
  alignment_fits = omega arith;
  headers = two_sections-IsValid;
  bounds = ((omega arith, omega arith), ((omega arith, omega arith), tt));
  virtual_disjoint = λ l m g h lt e f.
      only_pair (λ x y. (virtual_end program x ≤ get_rva y) ⊎ (virtual_end program y ≤ get_rva x)) l
        m g h (inl (omega arith)) lt e f;
  raw_disjoint = λ l m g h lt e f.
      only_pair
        (λ x y.
          (raw_end program x ≤ get_pointer_to_raw_data y)
          ⊎ (raw_end program y ≤ get_pointer_to_raw_data x))
        l m g h (inl (omega arith)) lt e f;
}
