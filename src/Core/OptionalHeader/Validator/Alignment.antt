-- ===== src/Core/OptionalHeader/Validator/Alignment.antt =====
-- About `validate_file_alignment` and `validate_section_alignment`.
use pe_bliss.Base.{ℕ, ◌^◌, ◌≤◌, ◌<◌, ◌≡◌, ◌↔◌, ◌⊎◌, true, none, arith}
use pe_bliss.Base.Words.{has_single_bit, power_of_has_single_bit, has_single_bit-two_pow}
use pe_bliss.Core.OptionalHeader.{OptionalHeader, IsValid, is_low_alignment}
use pe_bliss.Core.OptionalHeader.Validator.{validate_file_alignment, validate_section_alignment}

-- Equal alignments up to 2K, or alignments in order and above their minima.
abbrev pub AreOrdered : ℕ → ℕ → Type 0
AreOrdered file section =
    ((file ≡ section) × (1 ≤ file) × (file ≤ 0x800))
    ⊎ ((0x200 ≤ file) × (0x1000 ≤ section) × (file ≤ section))

ordered_iff :
    (oh : OptionalHeader)
    → ((validate_file_alignment oh ≡ none) × (validate_section_alignment oh ≡ none)) ↔ (
        (has_single_bit 32 oh.file_alignment ≡ true)
        × (has_single_bit 32 oh.section_alignment ≡ true)
        × AreOrdered oh.file_alignment oh.section_alignment)
unfolding validate_file_alignment validate_section_alignment is_low_alignment
ordered_iff oh = ground arith

-- The two alignments are powers of two, and in order.
abbrev pub AreAlignments : ℕ → ℕ → Type 0
AreAlignments file section =
    ((j : ℕ) × (j < 32) × (file ≡ 2 ^ j))
    × ((k : ℕ) × (k < 32) × (section ≡ 2 ^ k))
    × AreOrdered file section

-- For a valid header, both checks pass exactly when both alignments are powers of two that are
-- either equal and at most 2K, or at least 512 and 4096 with the file's not above the section's.
pub validate_alignments_iff :
    (oh : OptionalHeader)
    → IsValid oh
    → ((validate_file_alignment oh ≡ none) × (validate_section_alignment oh ≡ none))
      ↔ AreAlignments oh.file_alignment oh.section_alignment
validate_alignments_iff oh v = (
  λ h.
      let (file, section, order) = (ordered_iff oh).0 h in
      (
        power_of_has_single_bit 32 _ v.file_alignment_fits file,
        power_of_has_single_bit 32 _ v.section_alignment_fits section,
        order,
      ),
  λ a. (ordered_iff oh).1 (
    rw (a.0.2) (has_single_bit-two_pow 32 a.0.0 a.0.1),
    rw (a.1.2) (has_single_bit-two_pow 32 a.1.0 a.1.1),
    a.2,
  ),
)
