-- ===== src/Image/Structures/Laws.antt =====
-- About structures at an address, as bytes of the headers or of a section.
use pe_bliss.Base.{
  ℕ, ◌+◌, ◌-◌, ◌^◌, ◌≤◌, ◌<◌, ◌≡◌, refl, sym, subst, Bool, true, false, some, arith, All-get_elem?,
  ◌⊎◌, inl, inr, ltb, ◌!=◌, get_elem?, length, take, drop, min, if◌then◌else◌, lt→ltb, le→ltb,
  length-take, length-drop,
}
use pe_bliss.Base.Slices.{take-take}
use pe_bliss.Base.Words.{add_wrap, sub_wrap}
use pe_bliss.Errors.{ok, ◌>>=◌}
use pe_bliss.Section.Header.{SectionHeader, get_rva}
use pe_bliss.Buffers.Input.{Buffer, size}
use pe_bliss.Buffers.Input.Contents.{
  contents, physical, IsValid, physical_size_lem, size-length, physical-le, length-contents-lt,
}
use pe_bliss.Buffers.Input.Slice.{slice_in}
use pe_bliss.Buffers.Input.Read.{read-slice}
use pe_bliss.Buffers.Views.Laws.{OffsetsFit, section_of, reduce-section_of}
use pe_bliss.Buffers.Reader.{read}
use pe_bliss.Image.Layout.{Image}
use pe_bliss.Image.SectionSearch.{section_from_rva}
use pe_bliss.Image.SectionData.{to_data_result}
use pe_bliss.Image.SectionData.Whole.{
  all_section_data_from_rva_impl, all_section_data_from_rva, serve_all, data_of,
}
use pe_bliss.Image.SectionData.Laws.{IsLoaded}
use pe_bliss.Packed.Struct.{deserialize_struct}
use pe_bliss.Image.Structures.{struct_from_rva}

-- The data from an address on, in a buffer that starts at `start`, where it has bytes of the file.
pub to_data_result_lem :
    (b : Buffer) (rva start : ℕ)
    → IsValid b
    → start ≤ rva
    → rva < 2 ^ 32
    → rva - start ≤ physical b
    → to_data_result rva start b ≡ record {
      buffer = b;
      data_offset = rva - start;
      data_size = physical b - (rva - start);
      additional_virtual_size = length (contents b) - physical b;
    }
unfolding to_data_result
to_data_result_lem b rva start v above fits inside =
    let same : sub_wrap 32 rva start ≡ rva - start = omega arith in
    let offset = rva - start in
    let le = physical-le b in
    let short = length-contents-lt b v in
    let rest : sub_wrap 64 (length (contents b) - offset) (physical b - offset)
        ≡ length (contents b) - physical b =
      omega arith in
    rw (
      same,
      physical_size_lem b v,
      size-length b v,
      le→ltb (physical b) offset inside,
      le→ltb (length (contents b)) offset (omega arith),
      rest,
    )

-- How many bytes are left behind an offset.
abbrev pub left_behind : Buffer → ℕ → Bool → ℕ
left_behind b offset allow = (if allow then length (contents b) else physical b) - offset

pub served :
    (b : Buffer) (rva start : ℕ) (allow : Bool)
    → IsValid b
    → start ≤ rva
    → rva < 2 ^ 32
    → rva - start ≤ physical b
    → OffsetsFit b (rva - start)
    → (n : ℕ) × (serve_all allow (to_data_result rva start b) ≡ ok (section_of b (rva - start) n))
      × (rva - start + n ≤ length (contents b))
      × (physical b ≤ rva - start + n)
      × (n ≡ left_behind b (rva - start) allow)
served b rva start true v above fits inside o =
    let le = physical-le b in
    let short = length-contents-lt b v in
    let n = length (contents b) - (rva - start) in
    let total : add_wrap 64 (physical b - (rva - start)) (length (contents b) - physical b) ≡ n =
      omega arith in
    (
      n,
      rw (to_data_result_lem b rva start v above fits inside, total)
          (reduce-section_of b (rva - start) n v (omega arith) o (omega arith)),
      omega arith,
      omega arith,
      refl,
    )
served b rva start false v above fits inside o =
    let le = physical-le b in
    let short = length-contents-lt b v in
    let n = physical b - (rva - start) in
    (
      n,
      rw (to_data_result_lem b rva start v above fits inside)
          (reduce-section_of b (rva - start) n v (omega arith) o (omega arith)),
      omega arith,
      omega arith,
      refl,
    )

-- The structure that a view of a buffer starts with.
deserialize_struct-section_of :
    (b : Buffer) (offset n packed_size : ℕ) (allow : Bool)
    → IsValid b
    → offset + n ≤ length (contents b)
    → 0 < packed_size
    → packed_size ≤ n
    → offset + packed_size ≤ physical b
    → (deserialize_struct
          (record { buffer = section_of b offset n; position = 0 })
          packed_size
          allow
        >>= λ got. ok got.0)
      ≡ ok (packed_size, take packed_size (drop offset (contents b)))
unfolding deserialize_struct read contents physical
deserialize_struct-section_of b offset n packed_size allow v within long fits in_file =
    let short = length-contents-lt b v in
    let shown : length (take n (drop offset (contents b))) ≡ n =
      omega (arith, length-take n (drop offset (contents b)), length-drop offset (contents b)) in
    let real : min packed_size (min n (physical b - offset) - 0) ≡ packed_size = omega arith in
    let same : (packed_size != packed_size) ≡ false = ground arith in
    let valid : IsValid (section_of b offset n) = (v, within, refl) in
    rw
      (
        read-slice (section_of b offset n) 0 packed_size valid (omega arith),
        slice_in 0 packed_size long (take n (drop offset (contents b)))
            (min n (physical b - offset)) (omega arith),
        real,
        same,
        take-take packed_size n (drop offset (contents b)) fits,
      )
      (ground arith)

-- The buffer whose byte at `offset` has an address: the headers, where they are included, or the
-- data of the section that a search for this byte finds.
abbrev pub IsByteOf : Image → Bool → ℕ → Buffer → ℕ → Type 0
IsByteOf img include rva b offset =
    ((include ≡ true)
      × (b ≡ img.full_headers_buffer)
      × (offset ≡ rva)
      × (rva < length (contents img.full_headers_buffer)))
    ⊎ ((length (contents img.full_headers_buffer) ≤ rva)
        × ((l : ℕ) × (h : SectionHeader) × (section_from_rva img rva 1 ≡ some (l, h))
            × (get_elem? img.section_data_list l ≡ some b)
            × (rva ≡ get_rva h + offset)))

pub data_of-some :
    (img : Image) (l : ℕ) (h : SectionHeader) (b : Buffer)
    → get_elem? img.section_data_list l ≡ some b
    → data_of img (some (l, h)) ≡ some (h, b)
data_of-some img l h b here = rw (data_of, here)

module _ (img : Image) (loaded : IsLoaded img) (rva : ℕ) (fits : rva < 2 ^ 32) where
  -- The data of a byte, in a buffer that starts at `rva - offset`.
  pub byte_result :
      (b : Buffer) (offset : ℕ) (include : Bool)
      → IsByteOf img include rva b offset
      → (all_section_data_from_rva_impl img rva include ≡ ok (to_data_result rva (rva - offset) b))
        × (offset ≤ rva)
        × IsValid b
        × ((k : ℕ) → k < 2 ^ 32 → OffsetsFit b k)
  unfolding all_section_data_from_rva_impl
  byte_result b offset include (inl (included, is, at, inside)) =
      let start_zero : rva - offset ≡ 0 = omega arith in
      let in_headers : ltb rva (size img.full_headers_buffer) ≡ true =
        rw (size-length img.full_headers_buffer loaded.headers) (lt→ltb _ _ inside) in
      (
        rw (start_zero, in_headers, included, is),
        omega arith,
        subst IsValid (sym is) loaded.headers,
        subst (λ x. (k : ℕ) → k < 2 ^ 32 → OffsetsFit x k) (sym is) loaded.headers_offsets,
      )
  byte_result b offset include (inr (outside, (l, h, found, here, at))) =
      let (valid, offsets) = All-get_elem? _ img.section_data_list l loaded.section_data here in
      let start : rva - offset ≡ get_rva h = omega arith in
      let not_in_headers : ltb rva (size img.full_headers_buffer) ≡ false =
        rw (size-length img.full_headers_buffer loaded.headers) (le→ltb _ _ outside) in
      (rw (start, not_in_headers, found, data_of-some img l h b here), omega arith, valid, offsets)

  -- The structure in the data that was found.
  struct_of_result :
      (b : Buffer) (start packed_size : ℕ) (include allow : Bool)
      → IsValid b
      → OffsetsFit b (rva - start)
      → start ≤ rva
      → 0 < packed_size
      → rva - start + packed_size ≤ physical b
      → all_section_data_from_rva_impl img rva include ≡ ok (to_data_result rva start b)
      → struct_from_rva img rva packed_size include allow
        ≡ ok (packed_size, take packed_size (drop (rva - start) (contents b)))
  unfolding struct_from_rva all_section_data_from_rva
  struct_of_result b start packed_size include allow v o above long in_file found =
      let (n, made, within, enough, exact) =
        served b rva start allow v above fits (omega arith) o in
      rw (found, made)
        (deserialize_struct-section_of b (rva - start) n packed_size allow v within long
          (omega arith) in_file)

  -- For a loaded image and a 32-bit address of a byte of the headers, where they are included, or
  -- of a section's data: a structure of a size that is not zero, whose bytes are all in the file
  -- there, is read as exactly these bytes, whether virtual data is allowed or not.
  pub struct_from_rva_lem :
      (b : Buffer) (offset packed_size : ℕ) (include allow : Bool)
      → IsByteOf img include rva b offset
      → 0 < packed_size
      → offset + packed_size ≤ physical b
      → struct_from_rva img rva packed_size include allow
        ≡ ok (packed_size, take packed_size (drop offset (contents b)))
  struct_from_rva_lem b offset packed_size include allow byte long in_file =
      let (found, within, v, offsets) = byte_result b offset include byte in
      let same : rva - (rva - offset) ≡ offset = omega arith in
      subst
        (λ k.
          struct_from_rva img rva packed_size include allow
          ≡ ok (packed_size, take packed_size (drop k (contents b))))
        same
        (struct_of_result b (rva - offset) packed_size include allow v
          (offsets (rva - (rva - offset)) (omega arith)) (omega arith) long (omega arith) found)
