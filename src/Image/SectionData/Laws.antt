-- ===== src/Image/SectionData/Laws.antt =====
-- About the data behind an address, as bytes of the headers or of a section.
use native.Mathlib.Nat.{mod-eq_of_lt}
use pe_bliss.Base.{
  ℕ, ◌+◌, ◌-◌, ◌%◌, ◌^◌, ◌≤◌, ◌<◌, ◌≡◌, ◌⊎◌, inl, inr, refl, subst, Bool, true, false, not, ◌&&◌,
  ◌||◌, Option, none, some, arith, ltb, get_elem?, length, take, drop, All, All-get_elem?, dec_lt,
  lt→ltb, le→ltb,
}
use pe_bliss.Base.Words.{add_wrap, sub_wrap}
use pe_bliss.Errors.{
  Error, Result, ok, ◌>>=◌, ◌>>◌, throw_if, or_throw, image, section_data_does_not_exist,
}
use pe_bliss.Utilities.Math.{is_sum_safe}
use pe_bliss.Utilities.Math.Laws.{is_sum_safe_iff}
use pe_bliss.Section.Header.{SectionHeader, get_rva, get_virtual_size}
use pe_bliss.Section.Header
use pe_bliss.Section.Search.Laws.{Covers}
use pe_bliss.Section.Table.Laws.{IsFirst}
use pe_bliss.Buffers.Input.{Buffer, size}
use pe_bliss.Buffers.Input.Contents.{contents, physical, IsValid, physical_size_lem, size-length}
use pe_bliss.Buffers.Views.{reduce}
use pe_bliss.Buffers.Views.Laws.{OffsetsFit, reduce_lem}
use pe_bliss.Image.Layout.{Image, alignment}
use pe_bliss.Image.SectionSearch.{Found, section_from_rva}
use pe_bliss.Image.SectionSearch.Laws.{section_from_rva_lem}
use pe_bliss.Image.SectionData.{
  DataResult, to_data_result, in_section, section_data_from_rva_impl, serve, section_data_from_rva,
}

-- The bytes `offset … offset + count` of a buffer, of which `count` are in the file if virtual
-- ones are not allowed, shown by a view.
abbrev pub Shows : Buffer → ℕ → ℕ → Bool → Buffer → Type 0
Shows b offset count allow s =
    (offset + count ≤ length (contents b))
    × (allow ≡ false → count ≤ physical b - offset)
    × IsValid s
    × (contents s ≡ take count (drop offset (contents b)))

passes :
    (first second : Bool) (e : Error) (m : Result Buffer) (s : Buffer)
    → (throw_if first e >> (throw_if second e >> m)) ≡ ok s
    → (first ≡ false) × (second ≡ false) × (m ≡ ok s)
passes true second e m s h = cc
passes false true e m s h = cc
passes false false e m s h = (refl, refl, h)

passed :
    (first second : Bool) (r : DataResult) (next : DataResult → Result Buffer) (s : Buffer)
    → ((throw_if first (image section_data_does_not_exist)
          >> (throw_if second (image section_data_does_not_exist) >> ok r))
        >>= next)
      ≡ ok s
    → (first ≡ false) × (second ≡ false) × (next r ≡ ok s)
passed true second r next s h = cc
passed false true r next s h = cc
passed false false r next s h = (refl, refl, h)

reduce-Shows :
    (b : Buffer) (offset count : ℕ) (s : Buffer)
    → IsValid b
    → count < 2 ^ 64
    → OffsetsFit b offset
    → reduce b offset count ≡ ok s
    → (offset + count ≤ length (contents b))
      × IsValid s
      × (contents s ≡ take count (drop offset (contents b)))
reduce-Shows b offset count s v word o made =
    let (inside, outside) = reduce_lem b offset count v word o in
    elim (dec_lt (length (contents b)) (offset + count)) [
      | yes over ↦ let (e, refused) = outside over in cc
      | no within ↦
          let (s', made', valid, shown, _) = inside (omega arith) in
          let same : s' ≡ s = cc in
          (
            omega arith,
            subst IsValid same valid,
            subst (λ x. contents x ≡ take count (drop offset (contents b))) same shown,
          )
    ]

serve-Shows :
    (b : Buffer) (rva start count : ℕ) (allow : Bool) (s : Buffer)
    → IsValid b
    → start ≤ rva
    → rva < 2 ^ 32
    → count < 2 ^ 32
    → OffsetsFit b (rva - start)
    → serve count allow (to_data_result rva start b) ≡ ok s
    → Shows b (rva - start) count allow s
unfolding serve to_data_result
serve-Shows b rva start count allow s v above fits word o e =
    let same : sub_wrap 32 rva start ≡ rva - start = omega arith in
    let r = to_data_result rva start b in
    let (no_virtual, enough, made) =
      passes (not allow && ltb r.data_size count)
        (ltb (add_wrap 64 r.data_size r.additional_virtual_size) count)
        (image section_data_does_not_exist) (reduce r.buffer r.data_offset count) s e in
    let (inside, valid, shown) =
      reduce-Shows b (rva - start) count s v (omega arith) o (rw same at made) in
    let in_file = rw (same, physical_size_lem b v) at no_virtual in
    (inside, λ a. ground arith, valid, shown)

-- The data list has a buffer for every section, all buffers are valid, and the offsets in views of
-- them are words.
pub record IsLoaded (img : Image) : Type 0 where
  pub sections : All Header.IsValid img.section_table
  pub alignment_fits : alignment img < 2 ^ 32
  pub headers : IsValid img.full_headers_buffer
  pub headers_offsets : (offset : ℕ) → offset < 2 ^ 32 → OffsetsFit img.full_headers_buffer offset
  pub section_data :
      All
        (λ b. IsValid b × ((offset : ℕ) → offset < 2 ^ 32 → OffsetsFit b offset))
        img.section_data_list

-- The place of an address: in the headers, or in the data of the first section that holds it.
abbrev pub IsPlace : Image → ℕ → ℕ → Buffer → ℕ → Type 0
IsPlace img rva count b offset =
    ((b ≡ img.full_headers_buffer) × (offset ≡ rva) × (rva + count ≤ length (contents b)))
    ⊎ ((l : ℕ) × (h : SectionHeader) × IsFirst
          (λ x. Covers (get_rva x) (get_virtual_size x (alignment img)) rva count) img.section_table
          (some (l, h))
        × (get_elem? img.section_data_list l ≡ some b)
        × (rva ≡ get_rva h + offset))

module _ (img : Image) (loaded : IsLoaded img) (rva count : ℕ) (fits : rva < 2 ^ 32)
    (word : count < 2 ^ 32) where
  section-Shows :
      (allow : Bool) (s : Buffer) (r : Found)
      → IsFirst
          (λ x. Covers (get_rva x) (get_virtual_size x (alignment img)) rva count)
          img.section_table
          r
      → (in_section img rva r >>= serve count allow) ≡ ok s
      → (b : Buffer) × (offset : ℕ) × IsPlace img rva count b offset × Shows b offset count allow s
  unfolding in_section
  section-Shows allow s none first e = cc
  section-Shows allow s (some (l, h)) first e = go (get_elem? img.section_data_list l) refl e
    where
      go :
          (at : Option Buffer)
          → get_elem? img.section_data_list l ≡ at
          → ((or_throw at (image section_data_does_not_exist) >>= λ data_it.
                ok (to_data_result rva (get_rva h) data_it))
              >>= serve count allow)
            ≡ ok s
          → (b : Buffer) × (offset : ℕ) × IsPlace img rva count b offset
            × Shows b offset count allow s
      go none here e = cc
      go (some b) here e =
          let (valid, offsets) = All-get_elem? _ img.section_data_list l loaded.section_data here in
          let above = first.1.0 in
          (
            b,
            rva - get_rva h,
            inr (l, h, first, here, omega arith),
            serve-Shows b rva (get_rva h) count allow s valid above fits word
                (offsets (rva - get_rva h) (omega arith)) e,
          )

  headers-Shows :
      (include allow : Bool) (s : Buffer)
      → rva < length (contents img.full_headers_buffer)
      → (section_data_from_rva_impl img rva count include >>= serve count allow) ≡ ok s
      → (include ≡ true)
        × ((b : Buffer) × (offset : ℕ) × IsPlace img rva count b offset
            × Shows b offset count allow s)
  unfolding section_data_from_rva_impl
  headers-Shows include allow s inside e =
      let h = img.full_headers_buffer in
      let in_headers : ltb rva (size h) ≡ true =
        rw (size-length h loaded.headers) (lt→ltb _ _ inside) in
      let e' = rw in_headers at e in
      let (safe, included, served) =
        passed (not (is_sum_safe 32 rva count))
          (not include || ltb (size h) (add_wrap 32 rva count)) (to_data_result rva 0 h)
          (serve count allow) s e' in
      let sum = is_sum_safe_iff 32 rva count word in
      let total : rva + count < 2 ^ 32 = ground arith in
      let word_sum : (rva + count) % 2 ^ 32 ≡ rva + count = mod-eq_of_lt total in
      let included' = rw (size-length h loaded.headers, word_sum) at included in
      let zero_less : rva - 0 ≡ rva = omega arith in
      (
        ground arith,
        (
          h,
          rva - 0,
          inl (refl, zero_less, ground arith),
          serve-Shows h rva 0 count allow s loaded.headers (omega arith) fits word
              (loaded.headers_offsets (rva - 0) (omega arith)) served,
        ),
      )

  -- For a loaded image, a 32-bit address and a 32-bit size: the buffer that is returned is a valid
  -- view of exactly that many bytes, from the place of the address in the headers or in the first
  -- section that holds the range, with only bytes of the file if virtual ones are not allowed, and
  -- never from the headers if they are not included.
  pub section_data_from_rva-Shows :
      (include allow : Bool) (s : Buffer)
      → section_data_from_rva img rva count include allow ≡ ok s
      → (rva < length (contents img.full_headers_buffer) → include ≡ true)
        × ((b : Buffer) × (offset : ℕ) × IsPlace img rva count b offset
            × Shows b offset count allow s)
  unfolding section_data_from_rva section_data_from_rva_impl
  section_data_from_rva-Shows include allow s e =
      let h = img.full_headers_buffer in
      elim (dec_lt rva (length (contents h))) [
        | yes inside ↦
            let (included, shown) = headers-Shows include allow s inside e in
            (λ lt. included, shown)
        | no outside ↦
            let not_in_headers : ltb rva (size h) ≡ false =
              rw (size-length h loaded.headers) (le→ltb _ _ (omega arith)) in
            (
              λ lt. absurd (outside lt),
              section-Shows allow s (section_from_rva img rva count)
                  (section_from_rva_lem img count loaded.sections loaded.alignment_fits word rva)
                  (rw not_in_headers at e),
            )
      ]
