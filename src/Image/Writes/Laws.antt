-- ===== src/Image/Writes/Laws.antt =====
-- About a structure that is written to an address.
use pe_bliss.Base.{
  ℕ, zero, suc, ◌+◌, ◌-◌, ◌^◌, ◌≤◌, ◌<◌, ◌≡◌, inl, inr, refl, ap, sym, ◌∙◌, subst, Bool, true,
  false, some, List, [], ◌∷◌, arith, All, ltb, ◌==◌, if◌then◌else◌, get_elem?, length, take, drop,
  min, replicate, length-take, lt→ltb, le→ltb,
}
use pe_bliss.Base.Slices.{take-length}
use pe_bliss.Errors.{ok}
use pe_bliss.Utilities.SafeUint.{plus_lem}
use pe_bliss.Buffers.Input.{Buffer, size, absolute_offset, relative_offset}
use pe_bliss.Buffers.Input.Contents.{
  contents, physical, IsValid, size-length, physical-le, length-contents-lt,
}
use pe_bliss.Buffers.Views.Laws.{OffsetsFit}
use pe_bliss.Buffers.Output.{overwrite}
use pe_bliss.Buffers.Output.Laws.{overwrite-append, length-overwrite_within, take-drop-overwrite}
use pe_bliss.Buffers.RefBuffer.{copied, contents_of}
use pe_bliss.Buffers.RefBuffer.Laws.{IsView, copied-IsView, read_buffer-copy_of, contents-parts}
use pe_bliss.Image.Layout.{Image}
use pe_bliss.Image.SectionSearch.{section_from_rva}
use pe_bliss.Image.SectionData.Laws.{IsLoaded}
use pe_bliss.Image.Structures.{struct_from_rva}
use pe_bliss.Image.Structures.Laws.{IsByteOf, byte_result, to_data_result_lem, struct_from_rva_lem}
use pe_bliss.Image.Writes.{
  headers, section_data, place_of, set_at, set_buffer, write_copied, span_from_rva, write_span,
  struct_to_rva,
}

-- The buffer behind a write of bytes of the file.
abbrev pub overwritten : Buffer → ℕ → List ℕ → Buffer
overwritten b offset xs = contents_of (
    copied (overwrite offset xs (take (physical b) (contents b))) (absolute_offset b)
      (relative_offset b) (length (contents b) - physical b))

pub overwritten-IsView :
    (b : Buffer) (offset : ℕ) (xs : List ℕ)
    → IsValid b
    → offset + length xs ≤ physical b
    → IsView
        (overwritten b offset xs)
        (overwrite offset xs (contents b))
        (physical b)
        (absolute_offset b)
        (relative_offset b)
overwritten-IsView b offset xs v h =
    let le = physical-le b in
    let short = length-contents-lt b v in
    let bytes = take (physical b) (contents b) in
    let long : length bytes ≡ physical b = omega (arith, length-take (physical b) (contents b)) in
    let same : length (overwrite offset xs bytes) ≡ physical b =
      omega (arith, length-overwrite_within offset xs bytes (omega arith)) in
    let (valid, shown, in_file, absolute, relative) =
      copied-IsView (overwrite offset xs bytes) (absolute_offset b) (relative_offset b)
        (length (contents b) - physical b) (omega arith) in
    (
      valid,
      shown
          ∙ sym (
              overwrite-append offset xs bytes (replicate (length (contents b) - physical b) 0)
                (omega arith))
          ∙ ap (overwrite offset xs) (contents-parts b v),
      in_file ∙ same,
      absolute,
      relative,
    )

OffsetsFit-same :
    (b c : Buffer) (k : ℕ)
    → absolute_offset c ≡ absolute_offset b
    → relative_offset c ≡ relative_offset b
    → OffsetsFit b k
    → OffsetsFit c k
OffsetsFit-same b c k a r (x, y, z, w) = (omega arith, omega arith, omega arith, omega arith)

All-set_at {κ} :
    (P : Buffer → Type κ) (xs : List Buffer) (i : ℕ) (b : Buffer)
    → All P xs
    → P b
    → All P (set_at xs i b)
All-set_at P [] i b all p = all
All-set_at P (x ∷ xs) zero b (first, all) p = (p, all)
All-set_at P (x ∷ xs) (suc i) b (first, all) p = (first, All-set_at P xs i b all p)

get_elem?-set_at :
    (xs : List Buffer) (i : ℕ) (a b : Buffer)
    → get_elem? xs i ≡ some a
    → get_elem? (set_at xs i b) i ≡ some b
get_elem?-set_at [] i a b h = cc
get_elem?-set_at (x ∷ xs) zero a b h = refl
get_elem?-set_at (x ∷ xs) (suc i) a b h = get_elem?-set_at xs i a b h

get_elem?-within : (xs : List Buffer) (i : ℕ) (a : Buffer) → get_elem? xs i ≡ some a → i < length xs
get_elem?-within [] i a h = cc
get_elem?-within (x ∷ xs) zero a h = omega arith
get_elem?-within (x ∷ xs) (suc i) a h = omega (arith, get_elem?-within xs i a h)

-- A buffer that stands for another in an image: valid, of the same length and offsets.
abbrev pub Replaces : Buffer → Buffer → Type 0
Replaces b c =
    IsValid c
    × (length (contents c) ≡ length (contents b))
    × (absolute_offset c ≡ absolute_offset b)
    × (relative_offset c ≡ relative_offset b)

module _ (img : Image) (loaded : IsLoaded img) (rva : ℕ) (fits : rva < 2 ^ 32) where
  -- The place of a byte, and the image with another buffer there.
  pub byte_place :
      (b c : Buffer) (offset : ℕ) (include : Bool)
      → IsByteOf img include rva b offset
      → IsValid b
      → ((k : ℕ) → k < 2 ^ 32 → OffsetsFit b k)
      → Replaces b c
      → IsLoaded (set_buffer img (place_of img rva) c)
        × IsByteOf (set_buffer img (place_of img rva) c) include rva c offset
  unfolding place_of set_buffer section_from_rva
  byte_place b c offset include (inl (included, is, at, inside)) v offsets (valid, long, a, r) =
      let in_headers : ltb rva (size img.full_headers_buffer) ≡ true =
        rw (size-length img.full_headers_buffer loaded.headers) (lt→ltb _ _ inside) in
      let place : place_of img rva ≡ headers = rw in_headers in
      let length_same : length (contents c) ≡ length (contents img.full_headers_buffer) =
        long ∙ ap (λ x. length (contents x)) is in
      subst
        (λ p. IsLoaded (set_buffer img p c) × IsByteOf (set_buffer img p c) include rva c offset)
        (sym place)
        (
          record {
            sections = loaded.sections;
            alignment_fits = loaded.alignment_fits;
            headers = valid;
            headers_offsets = λ k lt. OffsetsFit-same b c k a r (offsets k lt);
            section_data = loaded.section_data;
          },
          inl (included, refl, at, omega arith),
        )
  byte_place b c offset include (inr (outside, (l, h, found, here, at))) v offsets
        (valid, long, a, r) =
      let not_in_headers : ltb rva (size img.full_headers_buffer) ≡ false =
        rw (size-length img.full_headers_buffer loaded.headers) (le→ltb _ _ outside) in
      let within = get_elem?-within img.section_data_list l b here in
      let place : place_of img rva ≡ section_data l =
        rw (not_in_headers, found, lt→ltb l (length img.section_data_list) within) in
      subst
        (λ p. IsLoaded (set_buffer img p c) × IsByteOf (set_buffer img p c) include rva c offset)
        (sym place)
        (
          record {
            sections = loaded.sections;
            alignment_fits = loaded.alignment_fits;
            headers = loaded.headers;
            headers_offsets = loaded.headers_offsets;
            section_data =
                All-set_at _ img.section_data_list l c loaded.section_data
                  (valid, λ k lt. OffsetsFit-same b c k a r (offsets k lt));
          },
          inr (outside, (l, h, found, get_elem?-set_at img.section_data_list l b c here, at)),
        )

  -- A write of bytes of the file.
  struct_to_rva-written :
      (b : Buffer) (offset : ℕ) (value : List ℕ) (include all cut : Bool)
      → IsByteOf img include rva b offset
      → 0 < length value
      → offset + length value ≤ physical b
      → rva + length value < 2 ^ 32
      → struct_to_rva img rva value (length value) include all cut
        ≡ (set_buffer img (place_of img rva) (overwritten b offset value), ok (rva + length value))
  unfolding struct_to_rva span_from_rva write_span write_copied
  struct_to_rva-written b offset value include all cut byte long in_file word =
      let (found, within, v, offsets) = byte_result img loaded rva fits b offset include byte in
      let n = length value in
      let same : rva - (rva - offset) ≡ offset = omega arith in
      let result = to_data_result_lem b rva (rva - offset) v (omega arith) fits (omega arith) in
      let not_zero : (n == 0) ≡ false = ground arith in
      let size_of : (if all then n else n) ≡ n = ground arith in
      let cut_size : (if cut then min (physical b - offset) n else n) ≡ n = ground arith in
      rw (not_zero, found, result, read_buffer-copy_of b v)
        (rw (
          size_of,
          same,
          cut_size,
          le→ltb (physical b - offset) n (omega arith),
          take-length n value (omega arith),
          plus_lem 32 rva n,
          lt→ltb (rva + n) (2 ^ 32) word,
        ))

  -- For a loaded image, an address of a byte of the headers, where they are included, or of a
  -- section's data, and bytes that lie in the file there and end at a 32-bit address: the write
  -- returns the address behind them; a structure of that size is then read at the address as the
  -- bytes that were written; all other bytes of the buffer there, and the other buffers, stay.
  pub struct_from_rva-struct_to_rva :
      (b : Buffer) (offset : ℕ) (value : List ℕ) (include all cut allow : Bool)
      → IsByteOf img include rva b offset
      → 0 < length value
      → offset + length value ≤ physical b
      → rva + length value < 2 ^ 32
      → (after : Image) × (c : Buffer) × (struct_to_rva img rva value (length value) include all cut
          ≡ (after, ok (rva + length value)))
        × (struct_from_rva after rva (length value) include allow ≡ ok (length value, value))
        × (after ≡ set_buffer img (place_of img rva) c)
        × (contents c ≡ overwrite offset value (contents b))
        × IsLoaded after
  struct_from_rva-struct_to_rva b offset value include all cut allow byte long in_file word =
      let (found, within, v, offsets) = byte_result img loaded rva fits b offset include byte in
      let le = physical-le b in
      let c = overwritten b offset value in
      let (valid, shown, physical_c, absolute, relative) =
        overwritten-IsView b offset value v in_file in
      let same_length : length (contents c) ≡ length (contents b) =
        ap length shown ∙ length-overwrite_within offset value (contents b) (omega arith) in
      let (loaded', byte') =
        byte_place b c offset include byte v offsets (valid, same_length, absolute, relative) in
      let read =
        struct_from_rva_lem (set_buffer img (place_of img rva) c) loaded' rva fits c offset
          (length value) include allow byte' long (omega arith) in
      (
        set_buffer img (place_of img rva) c,
        c,
        struct_to_rva-written b offset value include all cut byte long in_file word,
        read
            ∙ ap (λ x. ok (length value, take (length value) (drop offset x))) shown
            ∙ ap (λ x. ok (length value, x))
                (take-drop-overwrite offset value (contents b) (omega arith)),
        refl,
        shown,
        loaded',
      )
