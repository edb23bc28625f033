-- ===== src/Image/OffsetConverter/Laws.antt =====
-- About the conversions between addresses and file offsets.
use mathlib.Core.Option.{some-injective}
use pe_bliss.Base.{
  ℕ, ◌+◌, ◌-◌, ◌^◌, ◌≤◌, ◌<◌, ◌≡◌, ◌↔◌, Option, none, some, arith, dec_lt, All-get_elem?, get_elem?,
  le→ltb, subst, sym, ◌∙◌,
}
use pe_bliss.Base.Words.{sub_wrap}
use pe_bliss.Errors.{ok}
use pe_bliss.Utilities.Math.Laws.{add_if_safe_lem}
use pe_bliss.Section.Header.{
  SectionHeader, get_rva, get_virtual_size, get_raw_size, get_pointer_to_raw_data,
}
use pe_bliss.Section.Header.Sizes.{get_raw_size-le}
use pe_bliss.Section.Search.Laws.{Covers}
use pe_bliss.Section.Table.{SectionTable}
use pe_bliss.Section.Table.Laws.{IsFirst}
use pe_bliss.Image.Layout.{Image, alignment, IsBounded, IsLaidOut}
use pe_bliss.Image.SectionSearch.{Found, section_from_rva, section_from_file_offset}
use pe_bliss.Image.SectionSearch.Laws.{section_from_rva_lem, section_from_file_offset_lem}
use pe_bliss.Image.OffsetConverter.{
  move, rva_in_section, offset_in_section, file_offset_to_rva, rva_to_file_offset,
}

-- `offset` in the file holds the byte at `rva` in memory, in one of the sections.
abbrev pub IsMapped : Image → ℕ → ℕ → Type 0
IsMapped img rva offset =
    (l : ℕ) × (h : SectionHeader) × (get_elem? img.section_table l ≡ some h)
    × (distance : ℕ) × (distance < get_raw_size h (alignment img))
    × (rva ≡ get_rva h + distance)
    × (offset ≡ get_pointer_to_raw_data h + distance)

move_iff :
    (address start size target r : ℕ)
    → start ≤ address
    → address < 2 ^ 32
    → target + size < 2 ^ 32
    → (move address start size target ≡ ok r)
      ↔ ((address - start < size) × (r ≡ target + (address - start)))
move_iff address start size target r above fits room =
    rw same (rw (add_if_safe_lem 32 (address - start) target (omega arith)) (ground arith))
  where
    same : sub_wrap 32 address start ≡ address - start
    same = omega arith

-- A search for a property that no two sections share finds the section that has it.
first_unique :
    (P : SectionHeader → Type 0) (hs : SectionTable) (r : Option (ℕ × SectionHeader))
    → IsFirst P hs r
    → ((l m : ℕ) (g h : SectionHeader)
        → l < m
        → get_elem? hs l ≡ some g
        → get_elem? hs m ≡ some h
        → P g
        → P h
        → ⊥)
    → (l : ℕ) (h : SectionHeader) → get_elem? hs l ≡ some h
    → P h
    → r ≡ some (l, h)
first_unique P hs none first apart l h at p = absurd (first l h at p)
first_unique P hs (some (k, g)) (there, q, before) apart l h at p = elim (dec_lt k l) [
  | yes below ↦ absurd (apart k l g h below there at q p)
  | no not_below ↦ elim (dec_lt l k) [
    | yes above ↦ absurd (before l h above at p)
    | no not_above ↦
        let same : k ≡ l = omega arith in
        let equal : g ≡ h =
          some-injective _ _
            (let moved = subst (λ n. get_elem? hs n ≡ some g) same there in sym moved ∙ at) in
        cc
  ]
]

module _ (img : Image) (laid : IsLaidOut img) where
  Loaded : ℕ → SectionHeader → Type 0
  Loaded rva h = Covers (get_rva h) (get_virtual_size h (alignment img)) rva 1

  Stored : ℕ → SectionHeader → Type 0
  Stored offset h = Covers (get_pointer_to_raw_data h) (get_raw_size h (alignment img)) offset 1

  section_of_rva :
      (rva l : ℕ) (h : SectionHeader)
      → get_elem? img.section_table l ≡ some h
      → Loaded rva h
      → section_from_rva img rva 1 ≡ some (l, h)
  unfolding Loaded
  section_of_rva rva l h at p =
      first_unique (Loaded rva) img.section_table _
        (section_from_rva_lem img 1 laid.headers laid.alignment_fits (omega arith) rva)
        (λ k m g f lt g_at f_at a b. omega (arith, laid.virtual_disjoint k m g f lt g_at f_at)) l h
        at p

  section_of_offset :
      (offset l : ℕ) (h : SectionHeader)
      → get_elem? img.section_table l ≡ some h
      → Stored offset h
      → section_from_file_offset img offset 1 ≡ some (l, h)
  unfolding Stored
  section_of_offset offset l h at p =
      first_unique (Stored offset) img.section_table _
        (section_from_file_offset_lem img 1 laid.headers laid.alignment_fits (omega arith) offset)
        (λ k m g f lt g_at f_at a b. omega (arith, laid.raw_disjoint k m g f lt g_at f_at)) l h at p

  offset_in_section-IsMapped :
      (rva offset : ℕ) (r : Found)
      → IsFirst (Loaded rva) img.section_table r
      → offset_in_section img rva r ≡ ok offset
      → IsMapped img rva offset
  unfolding Loaded
  offset_in_section-IsMapped rva offset none first e = cc
  offset_in_section-IsMapped rva offset (some (k, h)) (at, p, before) e =
      let b = All-get_elem? (IsBounded img) img.section_table k laid.bounds at in
      let (small, sum) =
        (move_iff rva (get_rva h) (get_raw_size h (alignment img)) (get_pointer_to_raw_data h)
            offset p.0 (omega arith) b.1).0
          e in
      (k, h, at, rva - get_rva h, small, omega arith, sum)

  -- In an image whose sections share no byte of memory or of the file, an address past the headers
  -- has a file offset exactly if a section of the image holds that byte both in memory and in the
  -- file.
  pub rva_to_file_offset_iff :
      (rva offset : ℕ)
      → img.optional_header.size_of_headers ≤ rva
      → (rva_to_file_offset img rva ≡ ok offset) ↔ IsMapped img rva offset
  unfolding rva_to_file_offset Loaded
  rva_to_file_offset_iff rva offset past =
      rw (le→ltb rva img.optional_header.size_of_headers past) (
        offset_in_section-IsMapped rva offset _
            (section_from_rva_lem img 1 laid.headers laid.alignment_fits (omega arith) rva),
        back,
      )
    where
      back :
          IsMapped img rva offset
          → offset_in_section img rva (section_from_rva img rva 1) ≡ ok offset
      back (l, h, at, d, small, to_rva, to_offset) =
          let b = All-get_elem? (IsBounded img) img.section_table l laid.bounds at in
          let less = get_raw_size-le h (alignment img) in
          rw (section_of_rva rva l h at (omega arith, omega arith, omega arith)) (
            (move_iff rva (get_rva h) (get_raw_size h (alignment img)) (get_pointer_to_raw_data h)
                offset (omega arith) (omega arith) b.1).1
              (omega arith, omega arith))

  rva_in_section-IsMapped :
      (rva offset : ℕ) (r : Found)
      → IsFirst (Stored offset) img.section_table r
      → rva_in_section img offset r ≡ ok rva
      → IsMapped img rva offset
  unfolding Stored
  rva_in_section-IsMapped rva offset none first e = cc
  rva_in_section-IsMapped rva offset (some (k, h)) (at, p, before) e =
      let b = All-get_elem? (IsBounded img) img.section_table k laid.bounds at in
      let (small, sum) =
        (move_iff offset (get_pointer_to_raw_data h) (get_virtual_size h (alignment img))
            (get_rva h) rva p.0 (omega arith) b.0).0
          e in
      (k, h, at, offset - get_pointer_to_raw_data h, omega arith, sum, omega arith)

  -- In an image whose sections share no byte of memory or of the file, a file offset past the
  -- headers has an address exactly if a section of the image holds that byte both in memory and in
  -- the file.
  pub file_offset_to_rva_iff :
      (rva offset : ℕ)
      → img.optional_header.size_of_headers ≤ offset
      → (file_offset_to_rva img offset ≡ ok rva) ↔ IsMapped img rva offset
  unfolding file_offset_to_rva Stored
  file_offset_to_rva_iff rva offset past =
      rw (le→ltb offset img.optional_header.size_of_headers past) (
        rva_in_section-IsMapped rva offset _ (
            section_from_file_offset_lem img 1 laid.headers laid.alignment_fits (omega arith)
              offset),
        back,
      )
    where
      back :
          IsMapped img rva offset
          → rva_in_section img offset (section_from_file_offset img offset 1) ≡ ok rva
      back (l, h, at, d, small, to_rva, to_offset) =
          let b = All-get_elem? (IsBounded img) img.section_table l laid.bounds at in
          let less = get_raw_size-le h (alignment img) in
          rw (section_of_offset offset l h at (omega arith, omega arith, omega arith)) (
            (move_iff offset (get_pointer_to_raw_data h) (get_virtual_size h (alignment img))
                (get_rva h) rva (omega arith) (omega arith) b.0).1
              (omega arith, omega arith))

  -- In an image whose sections share no byte of memory or of the file, an address past the headers
  -- and an offset past the headers are converted into each other, or neither is into the other.
  pub rva_to_file_offset-file_offset_to_rva_iff :
      (rva offset : ℕ)
      → img.optional_header.size_of_headers ≤ rva
      → img.optional_header.size_of_headers ≤ offset
      → (rva_to_file_offset img rva ≡ ok offset) ↔ (file_offset_to_rva img offset ≡ ok rva)
  rva_to_file_offset-file_offset_to_rva_iff rva offset past_rva past_offset =
      let (there, back) = rva_to_file_offset_iff rva offset past_rva in
      let (up, down) = file_offset_to_rva_iff rva offset past_offset in
      (λ e. down (there e), λ e. back (up e))
