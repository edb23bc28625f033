-- ===== src/Image/Strings/Laws.antt =====
-- About strings at an address: what is read there, and what is read behind a write.
use native.Mathlib.Nat.{mod-eq_of_lt, suc-mul}
use mathlib.Core.List.{append_assoc, append-nil}
use pe_bliss.Base.{
  ℕ, suc, ◌+◌, ◌-◌, ◌*◌, ◌^◌, ◌≤◌, ◌<◌, ◌≡◌, refl, ap, sym, ◌∙◌, subst, Bool, true, false, not,
  ◌||◌, List, [], ◌∷◌, ◌++◌, arith, All, length, take, drop, length-append, length-take, le→ltb,
}
use pe_bliss.Base.Slices.{take-append_past, drop-length_append}
use pe_bliss.Base.Loops.{done}
use pe_bliss.Packed.Struct.{serialize}
use pe_bliss.Packed.Struct.Numbers.{length-serialize}
use pe_bliss.Errors.{ok, ◌>>=◌}
use pe_bliss.Buffers.Input.{Buffer}
use pe_bliss.Buffers.Input.Contents.{contents, physical, IsValid, physical-le, length-contents-lt}
use pe_bliss.Buffers.Views.Laws.{section_of}
use pe_bliss.Buffers.Reader.{Reader}
use pe_bliss.Buffers.Output.{overwrite}
use pe_bliss.Buffers.Output.Laws.{length-overwrite_within}
use pe_bliss.Buffers.RefBuffer.Laws.{read_buffer-copy_of}
use pe_bliss.Packed.CString.{deserialize_string, serialize_chars, serialize_to_memory}
use pe_bliss.Packed.CString.Laws.{IsChar, ahead, moved, deserialize_string_lem}
use pe_bliss.Image.Layout.{Image}
use pe_bliss.Image.SectionData.Laws.{IsLoaded}
use pe_bliss.Image.SectionData.Whole.{all_section_data_from_rva}
use pe_bliss.Image.Structures.Laws.{IsByteOf, byte_result, to_data_result_lem, served}
use pe_bliss.Image.Writes.{place_of, set_buffer, write_copied, span_from_rva}
use pe_bliss.Image.Writes.Laws.{overwritten, overwritten-IsView, byte_place}
use pe_bliss.Image.Strings.{string_from_rva, string_of, is_nothing, string_to_rva, write_string}

length-serialize_chars :
    (width : ℕ) (chars : List ℕ) → length (serialize_chars width chars) ≡ length chars * width
unfolding serialize_chars
length-serialize_chars width [] = omega arith
length-serialize_chars width (ch ∷ chars) = omega (
  arith,
  length-append (serialize width ch) (serialize_chars width chars),
  length-serialize width ch,
  length-serialize_chars width chars,
  suc-mul (length chars) width,
)

length-written :
    (width : ℕ) (chars : List ℕ)
    → length (serialize_chars width (chars ++ (0 ∷ []))) ≡ suc (length chars) * width
length-written width chars =
    length-serialize_chars width (chars ++ (0 ∷ []))
    ∙ ap (λ n. n * width) (length-append chars (0 ∷ []) ∙ (omega arith))

-- The bytes of a string and its zero.
pub serialize_chars-snoc :
    (width : ℕ) (chars : List ℕ)
    → serialize_chars width (chars ++ (0 ∷ [])) ≡ serialize_chars width chars ++ serialize width 0
unfolding serialize_chars
serialize_chars-snoc width [] = append-nil (serialize width 0)
serialize_chars-snoc width (ch ∷ chars) =
    ap (λ xs. serialize width ch ++ xs) (serialize_chars-snoc width chars)
    ∙ sym (append_assoc (serialize width ch) (serialize_chars width chars) (serialize width 0))

drop-overwrite :
    (offset : ℕ) (xs bytes : List ℕ)
    → offset ≤ length bytes
    → drop offset (overwrite offset xs bytes) ≡ xs ++ drop (offset + length xs) bytes
drop-overwrite offset xs bytes h =
    let rest = xs ++ drop (offset + length xs) bytes in
    let front : length (take offset bytes) ≡ offset = omega (arith, length-take offset bytes) in
    subst (λ k. drop k (take offset bytes ++ rest) ≡ rest) front
      (drop-length_append (take offset bytes) rest)

-- The bytes of a string whose zero is written.
serialize_to_memory-written :
    (width max_size : ℕ) (chars : List ℕ) (virt all : Bool)
    → (not virt || all) ≡ true
    → suc (length chars) * width ≤ max_size
    → serialize_to_memory width (record { value = chars; virtual_nullbyte = virt }) max_size all
      ≡ ok (suc (length chars) * width, serialize_chars width (chars ++ (0 ∷ [])))
unfolding serialize_to_memory
serialize_to_memory-written width max_size chars virt all ends fits =
    let total = suc-mul (length chars) width in
    let sum : length chars * width + width ≡ suc (length chars) * width = omega arith in
    rw (ends, sum, le→ltb max_size (suc (length chars) * width) fits)

-- A string whose zero is written is written.
something-written :
    (chars : List ℕ) (virt all : Bool)
    → (not virt || all) ≡ true
    → is_nothing (record { value = chars; virtual_nullbyte = virt }) all ≡ false
something-written chars true true ends = ground arith
something-written chars true false ends = cc
something-written chars false all ends = ground arith

module _ (width : ℕ) (some_bytes : 0 < width) (word : width < 2 ^ 31) where
  -- A string with a zero in the file, in a view of a buffer.
  string_of_view :
      (b : Buffer) (offset n : ℕ) (chars more : List ℕ) (allow : Bool)
      → IsValid b
      → offset + n ≤ length (contents b)
      → physical b ≤ offset + n
      → All (IsChar width) chars
      → drop offset (contents b) ≡ serialize_chars width chars ++ (serialize width 0 ++ more)
      → offset + suc (length chars) * width ≤ physical b
      → deserialize_string width
          (record { buffer = section_of b offset n; position = 0 })
          allow
          (2 ^ 64 - 1)
        ≡ ok (
            done (
              record { value = chars; virtual_nullbyte = false },
              moved
                  (record { buffer = section_of b offset n; position = 0 })
                  (suc (length chars) * width),
            ))
  unfolding contents physical
  string_of_view b offset n chars more allow v within whole all e in_file =
      let short = length-contents-lt b v in
      let le = physical-le b in
      let total = suc-mul (length chars) width in
      let r : Reader = record { buffer = section_of b offset n; position = 0 } in
      let xs = serialize_chars width chars in
      let end = serialize width 0 in
      let long = length-serialize_chars width chars in
      let end_long = length-serialize width 0 in
      let shown : ahead r ≡ xs ++ (end ++ take (n - length xs - length end) more) =
        ap (take n) e
        ∙ take-append_past n xs (end ++ more) (omega arith)
        ∙ ap (λ ys. xs ++ ys) (take-append_past (n - length xs) end more (omega arith)) in
      let (by_zero, by_virtual, by_end) =
        deserialize_string_lem width some_bytes r chars
          (end ++ take (n - length xs - length end) more) allow (2 ^ 64 - 1) word
          (record { valid = (v, within, refl); within = omega arith }) all shown (omega arith)
          (omega arith) in
      by_zero (take (n - length xs - length end) more) refl (omega arith)

  module _ (img : Image) (loaded : IsLoaded img) (rva : ℕ) (fits : rva < 2 ^ 32) where
    -- Characters of the file at an address, and their zero, are read as a string.
    pub string_from_rva_lem :
        (b : Buffer) (offset : ℕ) (include allow : Bool) (chars more : List ℕ)
        → IsByteOf img include rva b offset
        → All (IsChar width) chars
        → drop offset (contents b) ≡ serialize_chars width chars ++ (serialize width 0 ++ more)
        → offset + suc (length chars) * width ≤ physical b
        → string_from_rva width img rva include allow
          ≡ ok (done (record { value = chars; virtual_nullbyte = false }))
    unfolding string_from_rva all_section_data_from_rva
    string_from_rva_lem b offset include allow chars more byte all e in_file =
        let (found, within, v, offsets) = byte_result img loaded rva fits b offset include byte in
        let same : rva - (rva - offset) ≡ offset = omega arith in
        let (n, made, fits_in, enough, exact) =
          served b rva (rva - offset) allow v (omega arith) fits (omega arith)
            (offsets (rva - (rva - offset)) (omega arith)) in
        rw (found, made)
          (ap (λ got. got >>= λ s. ok (string_of s))
            (string_of_view b (rva - (rva - offset)) n chars more allow v fits_in enough all
              (ap (λ k. drop k (contents b)) same ∙ e) (omega arith)))

  module _ (img : Image) (loaded : IsLoaded img) (rva : ℕ) (fits : rva < 2 ^ 32) where
    -- A write of a string and its zero to bytes of the file.
    string_to_rva-written :
        (b : Buffer) (offset : ℕ) (include virt all : Bool) (chars : List ℕ)
        → IsByteOf img include rva b offset
        → (not virt || all) ≡ true
        → offset + suc (length chars) * width ≤ physical b
        → rva + suc (length chars) * width < 2 ^ 32
        → string_to_rva width img rva
            (record { value = chars; virtual_nullbyte = virt })
            include
            all
          ≡ (
            set_buffer img
                (place_of img rva)
                (overwritten b offset (serialize_chars width (chars ++ (0 ∷ [])))),
            ok (rva + suc (length chars) * width),
          )
    unfolding string_to_rva span_from_rva write_string write_copied
    string_to_rva-written b offset include virt all chars byte ends in_file fits_end =
        let (found, within, v, offsets) = byte_result img loaded rva fits b offset include byte in
        let total = suc-mul (length chars) width in
        let same : rva - (rva - offset) ≡ offset = omega arith in
        let result = to_data_result_lem b rva (rva - offset) v (omega arith) fits (omega arith) in
        let size_word : suc (length chars) * width < 2 ^ 32 = omega arith in
        let something : is_nothing (record { value = chars; virtual_nullbyte = virt }) all ≡ false =
          something-written chars virt all ends in
        rw (something, found, result, read_buffer-copy_of b v)
          (rw (
            write_string,
            serialize_to_memory-written width (physical b - (rva - (rva - offset))) chars virt all
                ends (omega arith),
            same,
            mod-eq_of_lt (size_word),
            mod-eq_of_lt fits_end,
          ))

    -- For a loaded image, an address of a byte of the headers, where they are included, or of a
    -- section's data, and a string of characters that are not zero, whose zero is real or is to be
    -- written, so that its bytes lie in the file there and end at a 32-bit address: the write
    -- returns the address behind the zero and changes only these bytes of the buffer there; the
    -- string is then read at the address, with a zero of the file, and the read ends.
    pub string_from_rva-string_to_rva :
        (b : Buffer) (offset : ℕ) (include virt all allow : Bool) (chars : List ℕ)
        → IsByteOf img include rva b offset
        → All (IsChar width) chars
        → (not virt || all) ≡ true
        → offset + suc (length chars) * width ≤ physical b
        → rva + suc (length chars) * width < 2 ^ 32
        → (after : Image) × (c : Buffer) × (string_to_rva width img rva
              (record { value = chars; virtual_nullbyte = virt })
              include
              all
            ≡ (after, ok (rva + suc (length chars) * width)))
          × (string_from_rva width after rva include allow
              ≡ ok (done (record { value = chars; virtual_nullbyte = false })))
          × (after ≡ set_buffer img (place_of img rva) c)
          × (contents c ≡ overwrite offset (serialize_chars width (chars ++ (0 ∷ []))) (contents b))
    string_from_rva-string_to_rva b offset include virt all allow chars byte each ends in_file
          fits_end =
        let (found, within, v, offsets) = byte_result img loaded rva fits b offset include byte in
        let le = physical-le b in
        let total = suc-mul (length chars) width in
        let value = serialize_chars width (chars ++ (0 ∷ [])) in
        let long = length-written width chars in
        let c = overwritten b offset value in
        let (valid, shown, physical_c, absolute, relative) =
          overwritten-IsView b offset value v (omega arith) in
        let same_length : length (contents c) ≡ length (contents b) =
          ap length shown ∙ length-overwrite_within offset value (contents b) (omega arith) in
        let (loaded', byte') =
          byte_place img loaded rva fits b c offset include byte v offsets
            (valid, same_length, absolute, relative) in
        let behind : drop offset (contents c)
            ≡ serialize_chars width chars
              ++ (serialize width 0 ++ drop (offset + length value) (contents b)) =
          ap (drop offset) shown
          ∙ drop-overwrite offset value (contents b) (omega arith)
          ∙ ap (λ xs. xs ++ drop (offset + length value) (contents b))
              (serialize_chars-snoc width chars)
          ∙ append_assoc (serialize_chars width chars) (serialize width 0)
              (drop (offset + length value) (contents b)) in
        (
          set_buffer img (place_of img rva) c,
          c,
          string_to_rva-written b offset include virt all chars byte ends in_file fits_end,
          string_from_rva_lem (set_buffer img (place_of img rva) c) loaded' rva fits c offset
              include allow chars (drop (offset + length value) (contents b)) byte' each behind
              (omega arith),
          refl,
          shown,
        )
