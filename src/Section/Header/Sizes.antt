-- ===== src/Section/Header/Sizes.antt =====
-- The sizes that the loader uses: `get_virtual_size`, `get_raw_size` and the rounded pointer.
use native.Mathlib.Nat.{mod-eq_of_lt}
use mathlib.Core.Option.{get_or}
use pe_bliss.Base.{
  ℕ, ◌+◌, ◌%◌, ◌^◌, ◌≤◌, ◌<◌, ◌≡◌, ◌⊎◌, inl, inr, refl, true, false, Option, none, some, arith, ltb,
  ◌==◌, if◌then◌else◌, Bool-cases, subst, sym, ◌*◌,
}
use pe_bliss.Base.Words.{has_single_bit, power_of_has_single_bit}
use pe_bliss.Errors.{ok, section, invalid_section_offset, err}
use pe_bliss.Utilities.Math.{align_up_if_safe}
use pe_bliss.Utilities.Math.Align.{IsAlignedUp, align_up_if_safe-IsAlignedUp}
use pe_bliss.Section.Header.{
  SectionHeader, IsValid, get_virtual_size, get_raw_size, get_rva, rva_from_section_offset,
}

-- The size before alignment.
abbrev pub base_size : SectionHeader → ℕ
base_size h = if h.virtual_size == 0 then h.size_of_raw_data else h.virtual_size

base_size-lt : (h : SectionHeader) → IsValid h → base_size h < 2 ^ 32
base_size-lt h v = ground arith

-- What `get_virtual_size` promises: at least the size in the header; under a power of two the
-- least multiple of it from there on, or, if no such multiple fits 32 bits, that size itself.
abbrev pub IsLoadedSize : ℕ → ℕ → ℕ → Type 0
IsLoadedSize align base size =
    (base ≤ size)
    × (size < 2 ^ 32)
    × (has_single_bit 32 align ≡ false → size ≡ base)
    × (has_single_bit 32 align ≡ true
        → ((size % align ≡ 0) × (size < base + align))
          ⊎ ((size ≡ base) × ((m : ℕ) → base ≤ m * align → 2 ^ 32 ≤ m * align)))

aligned_size :
    (k base : ℕ) (r : Option ℕ) (lt : k < 32)
    → base < 2 ^ 32
    → has_single_bit 32 (2 ^ k) ≡ true
    → IsAlignedUp 32 k lt lt base r
    → IsLoadedSize (2 ^ k) base (get_or r base)
aligned_size k base (some r) lt fits one h =
    (omega arith, omega arith, λ p. cc, λ p. inl (h.2, omega arith))
aligned_size k base none lt fits one h = (omega arith, fits, λ p. refl, λ p. inr (refl, h))

get_virtual_size_aligned :
    (h : SectionHeader) (align : ℕ)
    → has_single_bit 32 align ≡ true
    → get_virtual_size h align ≡ get_or (align_up_if_safe 32 (base_size h) align) (base_size h)
unfolding get_virtual_size
get_virtual_size_aligned h align one = rw one

get_virtual_size_plain :
    (h : SectionHeader) (align : ℕ)
    → has_single_bit 32 align ≡ false
    → get_virtual_size h align ≡ base_size h
unfolding get_virtual_size
get_virtual_size_plain h align other = rw other

-- The loader's size of a valid section, for any 32-bit alignment word, is at least the size in the
-- header and below 2 ^ 32; under a power of two it is the least multiple from that size on, or, if
-- no such multiple fits 32 bits, that size itself, as it is for any other alignment.
pub get_virtual_size-IsLoadedSize :
    (h : SectionHeader) (align : ℕ)
    → IsValid h
    → align < 2 ^ 32
    → IsLoadedSize align (base_size h) (get_virtual_size h align)
get_virtual_size-IsLoadedSize h align v fits = elim (Bool-cases (has_single_bit 32 align)) [
  | inl one ↦
      let (k, lt, e) = power_of_has_single_bit 32 align fits one in
      let base = base_size h in
      let aligned =
        aligned_size k base _ lt (base_size-lt h v) (rw e at one)
          (align_up_if_safe-IsAlignedUp 32 k lt lt base (base_size-lt h v)) in
      rw (get_virtual_size_aligned h align one) (
        subst (λ a. IsLoadedSize a base (get_or (align_up_if_safe 32 base a) base)) (sym e) aligned)
  | inr other ↦
      rw (get_virtual_size_plain h align other) (omega arith, base_size-lt h v, λ p. refl, λ p. cc)
]

-- The size in the file is the header's, cut at the loaded size.
pub get_raw_size-le :
    (h : SectionHeader) (align : ℕ)
    → (get_raw_size h align ≤ h.size_of_raw_data)
      × (get_raw_size h align ≤ get_virtual_size h align)
unfolding get_raw_size
get_raw_size-le h align = ground arith

-- An offset inside the loaded section gives an address inside it, exactly; any other offset fails.
pub rva_from_section_offset_lem :
    (h : SectionHeader) (offset align : ℕ)
    → get_rva h + get_virtual_size h align ≤ 2 ^ 32
    → rva_from_section_offset h offset align ≡ (
        if ltb offset (get_virtual_size h align)
        then ok (get_rva h + offset)
        else err (section invalid_section_offset))
unfolding rva_from_section_offset
rva_from_section_offset_lem h offset align fits =
    ground (arith, mod-eq_of_lt {n = get_rva h + offset} {m = 2 ^ 32})
