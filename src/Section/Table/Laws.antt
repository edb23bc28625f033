-- ===== src/Section/Table/Laws.antt =====
-- About the searches of the table.
use pe_bliss.Base.{
  ℕ, zero, suc, ◌+◌, ◌^◌, ◌≤◌, ◌<◌, ◌≡◌, ◌↔◌, inl, inr, refl, Bool, true, false, Option, none, some,
  [], ◌∷◌, arith, get_elem?, Bool-cases, lt→ltb, le→ltb, subst, All, All-get_elem?,
}
use pe_bliss.Errors.{ok, err, generic, integer_overflow}
use pe_bliss.Section.Header.{
  SectionHeader, IsValid, get_rva, get_virtual_size, get_raw_size, get_pointer_to_raw_data,
}
use pe_bliss.Section.Search
use pe_bliss.Section.Search.{make_finder}
use pe_bliss.Section.Search.Laws.{finder_at, make_finder_lem, Covers, by_rva_iff, by_raw_offset_iff}
use pe_bliss.Section.Header.Sizes.{get_virtual_size-IsLoadedSize, get_raw_size-le}
use pe_bliss.Section.Table.{SectionTable, find_from, find_section, by_rva, by_raw_offset}

-- `k` is the index, counted from `i`, of the first header that the finder accepts.
abbrev FoundFrom : ℕ → (SectionHeader → Bool) → SectionTable → Option (ℕ × SectionHeader) → Type 0
FoundFrom i p hs (some (k, h)) =
    (j : ℕ) × (k ≡ i + j)
    × (get_elem? hs j ≡ some h)
    × (p h ≡ true)
    × ((l : ℕ) (g : SectionHeader) → l < j → get_elem? hs l ≡ some g → p g ≡ false)
FoundFrom i p hs none = (l : ℕ) (g : SectionHeader) → get_elem? hs l ≡ some g → p g ≡ false

FoundFrom-cons :
    (i : ℕ) (p : SectionHeader → Bool) (h : SectionHeader) (hs : SectionTable)
    (r : Option (ℕ × SectionHeader))
    → p h ≡ false
    → FoundFrom (suc i) p hs r
    → FoundFrom i p (h ∷ hs) r
FoundFrom-cons i p h hs none miss f = later
  where
    later : (l : ℕ) (g : SectionHeader) → get_elem? (h ∷ hs) l ≡ some g → p g ≡ false
    later zero g e = cc
    later (suc l) g e = f l g e
FoundFrom-cons i p h hs (some (k, g)) miss (j, at, here, hit, before) =
    (suc j, omega arith, here, hit, earlier)
  where
    earlier : (l : ℕ) (g : SectionHeader) → l < suc j → get_elem? (h ∷ hs) l ≡ some g → p g ≡ false
    earlier zero g lt e = cc
    earlier (suc l) g lt e = before l g (omega arith) e

find_from-FoundFrom :
    (i : ℕ) (p : SectionHeader → Bool) (hs : SectionTable) → FoundFrom i p hs (find_from i p hs)
unfolding find_from
find_from-FoundFrom i p [] = λ l g e. cc
find_from-FoundFrom i p (h ∷ hs) = elim (Bool-cases (p h)) [
  | inl hit ↦ rw hit (0, omega arith, refl, hit, λ l g lt e. elim lt [ ])
  | inr miss ↦
      rw miss
        (FoundFrom-cons i p h hs (find_from (suc i) p hs) miss (find_from-FoundFrom (suc i) p hs))
]

-- The result of a search: the first header with the property, or none has it.
abbrev pub IsFirst : (SectionHeader → Type 0) → SectionTable → Option (ℕ × SectionHeader) → Type 0
IsFirst P hs (some (k, h)) =
    (get_elem? hs k ≡ some h)
    × P h
    × ((l : ℕ) (g : SectionHeader) → l < k → get_elem? hs l ≡ some g → ¬ P g)
IsFirst P hs none = (l : ℕ) (g : SectionHeader) → get_elem? hs l ≡ some g → ¬ P g

find_section-IsFirst :
    (P : SectionHeader → Type 0) (p : SectionHeader → Bool) (hs : SectionTable)
    → ((l : ℕ) (g : SectionHeader) → get_elem? hs l ≡ some g → (p g ≡ true) ↔ P g)
    → IsFirst P hs (find_section hs p)
unfolding find_section
find_section-IsFirst P p hs decides = first (find_from 0 p hs) (find_from-FoundFrom 0 p hs)
  where
    refused : (l : ℕ) (g : SectionHeader) → get_elem? hs l ≡ some g → p g ≡ false → ¬ P g
    refused l g e miss q = let hit = (decides l g e).1 q in cc

    first : (r : Option (ℕ × SectionHeader)) → FoundFrom 0 p hs r → IsFirst P hs r
    first none f = λ l g e. refused l g e (f l g e)
    first (some (k, h)) (j, at, here, hit, before) =
        let same : j ≡ k = omega arith in
        let there = subst (λ n. get_elem? hs n ≡ some h) same here in
        (there, (decides k h there).0 hit, λ l g lt e. refused l g e (before l g (omega arith) e))

virtual_size-lt :
    (h : SectionHeader) (align : ℕ) → IsValid h → align < 2 ^ 32 → get_virtual_size h align < 2 ^ 32
virtual_size-lt h align v fits = (get_virtual_size-IsLoadedSize h align v fits).1

pointer-lt : (h : SectionHeader) → IsValid h → get_pointer_to_raw_data h < 2 ^ 32
unfolding get_pointer_to_raw_data
pointer-lt h v = ground arith

module _ (hs : SectionTable) (align size : ℕ) (valid : All IsValid hs) (align_fits : align < 2 ^ 32)
    (size_fits : size < 2 ^ 32) where
  -- In a table of valid headers, with a 32-bit alignment and size, the section of an address is
  -- the first whose loaded part holds the whole range, or none; a range that ends past the 32-bit
  -- addresses is an overflow.
  pub by_rva_lem :
      (rva : ℕ)
      → (2 ^ 32 ≤ rva + size → by_rva hs rva align size ≡ err (generic integer_overflow))
        × (rva + size < 2 ^ 32
            → (r : Option (ℕ × SectionHeader)) × (by_rva hs rva align size ≡ ok r)
              × IsFirst (λ h. Covers (get_rva h) (get_virtual_size h align) rva size) hs r)
  unfolding by_rva get_rva
  by_rva_lem rva = (
    λ over. rw (make_finder_lem rva align size size_fits, le→ltb (rva + size) (2 ^ 32) over),
    λ fits. (
      find_section hs (Search.by_rva (finder_at rva align size)),
      rw (make_finder_lem rva align size size_fits, lt→ltb (rva + size) (2 ^ 32) fits),
      find_section-IsFirst _ _ hs λ l g e.
          let v = All-get_elem? IsValid hs l valid e in
          by_rva_iff g rva align size v.virtual_address_fits (virtual_size-lt g align v align_fits)
            fits,
    ),
  )

  -- The section of a file offset: the first whose part of the file holds the whole range.
  pub by_raw_offset_lem :
      (offset : ℕ)
      → (2 ^ 32 ≤ offset + size
          → by_raw_offset hs offset align size ≡ err (generic integer_overflow))
        × (offset + size < 2 ^ 32
            → (r : Option (ℕ × SectionHeader)) × (by_raw_offset hs offset align size ≡ ok r)
              × IsFirst
                  (λ h. Covers (get_pointer_to_raw_data h) (get_raw_size h align) offset size)
                  hs
                  r)
  unfolding by_raw_offset
  by_raw_offset_lem offset = (
    λ over. rw (make_finder_lem offset align size size_fits, le→ltb (offset + size) (2 ^ 32) over),
    λ fits. (
      find_section hs (Search.by_raw_offset (finder_at offset align size)),
      rw (make_finder_lem offset align size size_fits, lt→ltb (offset + size) (2 ^ 32) fits),
      find_section-IsFirst _ _ hs λ l g e.
          let v = All-get_elem? IsValid hs l valid e in
          by_raw_offset_iff g offset align size (pointer-lt g v)
            (omega (arith, get_raw_size-le g align, v.size_of_raw_data_fits)) fits,
    ),
  )
