-- ===== src/Image/Loader/Laws/HeadersSize.antt =====
-- About `headers_size`: where the buffer of all headers of a loaded image ends.
use native.Mathlib.Nat.{mul-le-mul_right, div-add-mod'}
use pe_bliss.Base.{
  ℕ, zero, suc, ◌+◌, ◌-◌, ◌*◌, ◌/◌, ◌^◌, ◌≤◌, ◌<◌, ◌≡◌, ◌≢◌, ◌⊎◌, inl, inr, refl, subst, ◌&&◌, true,
  false, Bool-cases, Option, none, some, [], ◌∷◌, arith, min, max, get_elem?, ◌==◌, ◌!=◌,
  if◌then◌else◌, dec_lt,
}
use mathlib.Core.Option.{get_or}
use pe_bliss.Base.Words.{has_single_bit, power_of_has_single_bit}
use pe_bliss.Utilities.Math.{align_up_if_safe, add_if_safe}
use pe_bliss.Utilities.Math.Align.{IsAlignedUp, align_up_if_safe-IsAlignedUp}
use pe_bliss.Section.Header.{SectionHeader, get_raw_size, get_pointer_to_raw_data}
use pe_bliss.Section.Table.{SectionTable}
use pe_bliss.Image.Loader.State.{LoadState, LoadedImage}
use pe_bliss.Image.Loader.Sections.{data_offsets, all_data_offsets, headers_size}

-- A section with data in the file.
abbrev pub HasFileData : SectionTable → ℕ → SectionHeader → Type 0
HasFileData table l h = (get_elem? table l ≡ some h) × (get_pointer_to_raw_data h ≢ 0)

-- An offset in the size of the headers, which is rounded up to the next multiple of the section
-- alignment, a power of two, if a section has data in the file.
abbrev pub IsInSize : LoadedImage → ℕ → Type 0
IsInSize i n =
    (n ≤ i.optional_header.size_of_headers)
    ⊎ ((l : ℕ) × (h : SectionHeader) × HasFileData i.section_table l h
        × (k : ℕ) × (i.optional_header.section_alignment ≡ 2 ^ k)
        × ((m : ℕ) → i.optional_header.size_of_headers ≤ m * 2 ^ k → n ≤ m * 2 ^ k))

-- An offset up to which an image has headers: it is in their size, and not past the data of any
-- section.
abbrev pub IsInHeaders : LoadedImage → ℕ → Type 0
IsInHeaders i n =
    IsInSize i n
    × ((l : ℕ) (h : SectionHeader)
        → HasFileData i.section_table l h
        → n ≤ get_pointer_to_raw_data h)

pub IsInHeaders-le : (i : LoadedImage) (m n : ℕ) → m ≤ n → IsInHeaders i n → IsInHeaders i m
IsInHeaders-le i m n le (within, before) = (shorter within, λ l h at. ground (arith, before l h at))
  where
    shorter : IsInSize i n → IsInSize i m
    shorter (inl short) = inl (omega arith)
    shorter (inr (l, h, at, k, power, multiples)) =
        inr (l, h, at, k, power, λ c fits. omega (arith, multiples c fits))

abbrev next_first : ℕ → SectionHeader → ℕ
next_first first h =
    if get_pointer_to_raw_data h == 0 then first else min first (get_pointer_to_raw_data h)

abbrev next_last : ℕ → SectionHeader → ℕ → ℕ
next_last last h align =
    if get_pointer_to_raw_data h == 0
    then last
    else max last (get_pointer_to_raw_data h + get_raw_size h align)

data_offsets-le :
    (align : ℕ) (table : SectionTable) (first last : ℕ)
    → ((data_offsets align table first last).0 ≤ first)
      × (last ≤ (data_offsets align table first last).1)
unfolding data_offsets
data_offsets-le align [] first last = (omega arith, omega arith)
data_offsets-le align (h ∷ hs) first last =
    ground (arith, data_offsets-le align hs (next_first first h) (next_last last h align))

-- The data of a section starts at the first offset or behind it, and makes the last one positive.
data_offsets_bound :
    (align : ℕ) (table : SectionTable) (first last l : ℕ) (h : SectionHeader)
    → HasFileData table l h
    → ((data_offsets align table first last).0 ≤ get_pointer_to_raw_data h)
      × ((data_offsets align table first last).1 ≢ 0)
unfolding data_offsets
data_offsets_bound align [] first last l h (at, data_in) = cc
data_offsets_bound align (g ∷ hs) first last zero h (at, data_in) =
    ground (arith, data_offsets-le align hs (next_first first g) (next_last last g align))
data_offsets_bound align (g ∷ hs) first last (suc l) h at =
    data_offsets_bound align hs (next_first first g) (next_last last g align) l h at

-- A positive last offset is that of a section.
data_offsets_section :
    (align : ℕ) (table : SectionTable) (first last : ℕ)
    → (data_offsets align table first last).1 ≢ 0
    → (last ≢ 0) ⊎ ((l : ℕ) × (h : SectionHeader) × HasFileData table l h)
unfolding data_offsets
data_offsets_section align [] first last positive = inl positive
data_offsets_section align (g ∷ hs) first last positive =
    elim (Bool-cases (get_pointer_to_raw_data g == 0)) [
      | inr taken ↦ inr (0, g, (refl, ground arith))
      | inl skip ↦
          elim (data_offsets_section align hs (next_first first g) (next_last last g align)
            positive) [ inl before ↦ inl (rw skip at before) | inr (l, h, at) ↦ inr (suc l, h, at) ]
    ]

-- The sum of an aligned value is a word.
aligned_up-lt : (sz align r : ℕ) → align_up_if_safe 64 sz align ≡ some r → (r ≡ sz) ⊎ (r < 2 ^ 64)
unfolding align_up_if_safe add_if_safe
aligned_up-lt sz align r e = ground arith

-- What is aligned up is not past a multiple of the alignment that the size is not past.
aligned_up-le :
    (sz k r m : ℕ)
    → k < 32
    → align_up_if_safe 64 sz (2 ^ k) ≡ some r
    → sz ≤ m * 2 ^ k
    → r ≤ m * 2 ^ k
aligned_up-le sz k r m short e fits = elim (dec_lt sz (2 ^ 64)) [
  | no over ↦ elim (aligned_up-lt sz (2 ^ k) r e) [
    | inl same ↦ omega arith
    | inr word ↦ omega arith
  ]
  | yes word ↦
      let (_, below, multiple, _) : IsAlignedUp 64 k (omega arith) short sz (some r) =
        subst (IsAlignedUp 64 k (omega arith) short sz) e
          (align_up_if_safe-IsAlignedUp 64 k (omega arith) short sz word) in
      let whole = div-add-mod' r (2 ^ k) in
      elim (dec_lt m (r / 2 ^ k)) [
        | yes above ↦ absurd (omega (arith, mul-le-mul_right (2 ^ k) above))
        | no under ↦ omega (arith, mul-le-mul_right {m = r / 2 ^ k} {n = m} (2 ^ k) (omega arith))
      ]
]

got-le :
    (sz align k m : ℕ) (r : Option ℕ)
    → k < 32
    → align ≡ 2 ^ k
    → align_up_if_safe 64 sz align ≡ r
    → sz ≤ m * 2 ^ k
    → get_or r sz ≤ m * 2 ^ k
got-le sz align k m none short is e fits = fits
got-le sz align k m (some r) short is e fits =
    aligned_up-le sz k r m short (subst (λ a. align_up_if_safe 64 sz a ≡ some r) is e) fits

-- The size of the headers, aligned up if the alignment is a power of two.
abbrev aligned : ℕ → ℕ → ℕ
aligned sz align =
    if align != 0 && has_single_bit 32 align then get_or (align_up_if_safe 64 sz align) sz else sz

aligned_bound :
    (sz align : ℕ)
    → align < 2 ^ 32
    → (aligned sz align ≤ sz)
      ⊎ ((k : ℕ) × (align ≡ 2 ^ k) × ((m : ℕ) → sz ≤ m * 2 ^ k → aligned sz align ≤ m * 2 ^ k))
aligned_bound sz align word = elim (Bool-cases (align != 0 && has_single_bit 32 align)) [
  | inr left ↦ rw left (inl (omega arith))
  | inl power ↦
      let (k, short, is) = power_of_has_single_bit 32 align word (ground arith) in
      rw power (
        inr
          (k, is, λ m fits. got-le sz align k m (align_up_if_safe 64 sz align) short is refl fits))
]

-- The size of the headers, from the first and the last offset.
size_IsInHeaders :
    (i : LoadedImage) (first last n : ℕ)
    → i.optional_header.section_alignment < 2 ^ 32
    → ((l : ℕ) (h : SectionHeader)
        → HasFileData i.section_table l h
        → (first ≤ get_pointer_to_raw_data h) × (last ≢ 0))
    → (last ≢ 0 → (l : ℕ) × (h : SectionHeader) × HasFileData i.section_table l h)
    → n ≤ (
        if last != 0
        then min
            (aligned i.optional_header.size_of_headers i.optional_header.section_alignment)
            first
        else i.optional_header.size_of_headers)
    → IsInHeaders i n
size_IsInHeaders i first last n word bound section le =
    (within (Bool-cases (last != 0)), λ l h at. ground (arith, bound l h at))
  where
    within : ((last != 0) ≡ true) ⊎ ((last != 0) ≡ false) → IsInSize i n
    within (inr nothing) = inl (rw nothing at le)
    within (inl some_data) =
        let short : n
            ≤ min (aligned i.optional_header.size_of_headers i.optional_header.section_alignment)
                first =
          rw some_data at le in
        let (l, h, at) = section (ground arith) in
        elim (aligned_bound i.optional_header.size_of_headers i.optional_header.section_alignment
          word) [
            | inl plain ↦ inl (omega arith)
            | inr (k, power, multiples) ↦
                inr (l, h, at, k, power, λ m fits. omega (arith, multiples m fits))
          ]

pub headers_size-IsInHeaders :
    (st : LoadState)
    → st.image.optional_header.section_alignment < 2 ^ 32
    → IsInHeaders st.image (headers_size st)
unfolding headers_size
headers_size-IsInHeaders st word =
    let (first, last) = all_data_offsets st in
    let align = st.image.optional_header.section_alignment in
    let table = st.image.section_table in
    size_IsInHeaders st.image first last (headers_size st) word
      (λ l h at. data_offsets_bound align table (2 ^ 64 - 1) 0 l h at)
      (λ positive. elim (data_offsets_section align table (2 ^ 64 - 1) 0 positive) [
        | inl none_before ↦ absurd (none_before refl)
        | inr found ↦ found
      ])
      (omega arith)
