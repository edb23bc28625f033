-- ===== src/Core/OptionalHeader/Bytes/Laws.antt =====
-- About the bytes of an optional header: the fields are read back as they were written.
use pe_bliss.Base.{
  ℕ, ◌+◌, ◌-◌, ◌≤◌, ◌<◌, ◌≡◌, refl, sym, ap, ◌∙◌, Bool, false, List, ◌++◌, arith, take, drop,
}
use pe_bliss.Base.Slices.{take-take, drop-take, drop-drop}
use pe_bliss.Errors.{ok, rethrow, optional_header, unable_to_read_optional_header}
use pe_bliss.Buffers.Input.Contents.{contents, physical, IsValid}
use pe_bliss.Buffers.Reader.{Reader}
use pe_bliss.Buffers.Copy.Laws.{part_of}
use pe_bliss.Packed.Struct.{deserialize, serialize, deserialize_struct}
use pe_bliss.Packed.Struct.Fields.{deserialize_struct-inside}
use pe_bliss.Core.OptionalHeader.{Magic, pe32, pe64, OptionalHeader, packed_size}
use pe_bliss.Core.OptionalHeader.Bytes.{
  magic_value, header_of, structure_bytes, optional_header_bytes, deserialize_optional_header,
  known_then, magic_then, structure_then,
}
use pe_bliss.Core.OptionalHeader.Bytes.Stored.{IsStored, header_32, header_64}

header_of-structure_bytes :
    (m : Magic) (oh : OptionalHeader)
    → oh.magic ≡ m
    → IsStored m oh
    → header_of m (structure_bytes m oh) ≡ oh
unfolding header_of structure_bytes
header_of-structure_bytes pe32 oh is fits = header_32 oh is fits
header_of-structure_bytes pe64 oh is fits = header_64 oh is fits

-- The parts of the bytes at a position.
first-part :
    (xs ys : List ℕ) (n : ℕ) (m : Magic)
    → take (2 + n) xs ≡ serialize 2 (magic_value m) ++ ys
    → take 2 xs ≡ serialize 2 (magic_value m)
unfolding serialize
first-part xs ys n m e = sym (take-take 2 (2 + n) xs (omega arith)) ∙ ap (take 2) e

second-part :
    (xs ys : List ℕ) (n : ℕ) (m : Magic)
    → take (2 + n) xs ≡ serialize 2 (magic_value m) ++ ys
    → take n (drop 2 xs) ≡ ys
unfolding serialize
second-part xs ys n m e =
    let rest : 2 + n - 2 ≡ n = omega arith in
    sym (rw (drop-take 2 (2 + n) xs, rest) refl) ∙ ap (drop 2) e

-- The magic is told by its bytes.
magic_then-serialize :
    (m : Magic) (old : OptionalHeader) (allow : Bool) (k : ℕ) (after : Reader)
    → magic_then old allow (ok ((k, serialize 2 (magic_value m)), after))
      ≡ structure_then m (
          rethrow
            (deserialize_struct after (packed_size m) allow)
            (optional_header unable_to_read_optional_header))
unfolding magic_then known_then serialize deserialize
magic_then-serialize pe32 old allow k after = refl
magic_then-serialize pe64 old allow k after = refl

structure_size : (m : Magic) → 0 < packed_size m
structure_size pe32 = omega arith
structure_size pe64 = omega arith

header-of_bytes :
    (m : Magic) (oh old : OptionalHeader) (r : Reader) (allow : Bool)
    → oh.magic ≡ m
    → IsStored m oh
    → IsValid r.buffer
    → r.position + (2 + packed_size m) ≤ physical r.buffer
    → take (2 + packed_size m) (drop r.position (contents r.buffer))
      ≡ serialize 2 (magic_value m) ++ structure_bytes m oh
    → deserialize_optional_header old r allow
      ≡ (oh, ok (record r { position = r.position + 2 + packed_size m }))
unfolding deserialize_optional_header structure_then
header-of_bytes m oh old r allow is fits v inside stored =
    let n = packed_size m in
    let bytes = drop r.position (contents r.buffer) in
    let after = record r { position = r.position + 2 } in
    let place : 2 + r.position ≡ r.position + 2 = omega arith in
    let magic_read : part_of r 2 ≡ serialize 2 (magic_value m) =
      first-part bytes (structure_bytes m oh) n m stored in
    let structure_read : part_of after n ≡ structure_bytes m oh =
      ap (take n) (
        ap (λ k. drop k (contents r.buffer)) (sym place)
        ∙ sym (drop-drop 2 r.position (contents r.buffer)))
      ∙ second-part bytes (structure_bytes m oh) n m stored in
    rw (
      deserialize_struct-inside r 2 false v (omega arith) (omega arith),
      magic_read,
      magic_then-serialize m old allow 2 after,
      deserialize_struct-inside after n allow v (structure_size m) (omega arith),
      structure_read,
      header_of-structure_bytes m oh is fits,
    )

-- For a reader that stands in its valid buffer before the bytes of an optional header, all in the
-- file, whose fields are words of the widths of its kind: the call gives back the header, whatever
-- stood there before, and the reader stands behind the bytes.
pub deserialize_optional_header-optional_header_bytes :
    (oh old : OptionalHeader) (r : Reader) (allow : Bool)
    → IsStored oh.magic oh
    → IsValid r.buffer
    → r.position + (2 + packed_size oh.magic) ≤ physical r.buffer
    → take (2 + packed_size oh.magic) (drop r.position (contents r.buffer))
      ≡ optional_header_bytes oh
    → deserialize_optional_header old r allow
      ≡ (oh, ok (record r { position = r.position + 2 + packed_size oh.magic }))
unfolding optional_header_bytes
deserialize_optional_header-optional_header_bytes oh old r allow fits v inside stored =
    header-of_bytes oh.magic oh old r allow refl fits v inside stored
