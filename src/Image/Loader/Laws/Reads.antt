-- ===== src/Image/Loader/Laws/Reads.antt =====
-- Reads of headers that lie in the file: none throws, and each moves the reader by their size.
use pe_bliss.Base.{
  ℕ, zero, suc, ◌+◌, ◌-◌, ◌*◌, ◌%◌, ◌^◌, ◌≤◌, ◌<◌, ◌≡◌, refl, sym, ap, ◌∙◌, Bool, false, Option,
  some, List, arith, length, take, drop, ltb, leb, if◌then◌else◌, le→ltb,
}
use native.Mathlib.Nat.{mod-eq_of_lt}
use pe_bliss.Errors.{ok}
use pe_bliss.Buffers.Input.{Buffer}
use pe_bliss.Buffers.Input.Contents.{
  contents, physical, physical-le, size-length, length-contents-lt,
}
use pe_bliss.Buffers.Views.{without_relative_offset}
use pe_bliss.Buffers.Views.Laws.{section_of, make_section_inside}
use pe_bliss.Buffers.RefBuffer
use pe_bliss.Buffers.RefBuffer.Laws.{deserialize-IsView}
use pe_bliss.Buffers.Reader.{Reader, set_rpos, size}
use pe_bliss.Packed.Struct.Fields.{field, deserialize_struct-inside}
use pe_bliss.Section.Data.Laws.{HasRoom}
use pe_bliss.Dos.{dos_header_of, deserialize_dos_header, deserialize_dos_stub}
use pe_bliss.Core.FileHeader.{file_header_of, deserialize_file_header}
use pe_bliss.Core.ImageSignature.{deserialize_signature}
use pe_bliss.Core.OptionalHeader.{Magic, pe32, pe64, OptionalHeader, packed_size}
use pe_bliss.Core.OptionalHeader.Bytes.{
  magic_of, header_of, magic_then, known_then, structure_then, deserialize_optional_header,
}
use pe_bliss.Core.DataDirectories.Bytes.{
  deserialize_directory, directory_then, deserialize_directories,
}
use pe_bliss.Section.Header.Bytes.{deserialize_section_header}
use pe_bliss.Section.Table.Bytes.{header_then, deserialize_table}

-- A reader of a buffer at a position.
abbrev pub reader_at : Buffer → ℕ → Reader
reader_at b pos = record { buffer = b; position = pos }

-- `count` bytes at a position.
abbrev pub bytes_at : Buffer → ℕ → ℕ → List ℕ
bytes_at b pos count = take count (drop pos (contents b))

structure_size : (m : Magic) → 0 < packed_size m
structure_size pe32 = omega arith
structure_size pe64 = omega arith

module _ (b : Buffer) (room : HasRoom b) where
  pub dos_header-read :
      (pos : ℕ) (allow : Bool)
      → pos + 64 ≤ physical b
      → deserialize_dos_header (reader_at b pos) allow
        ≡ ok (dos_header_of (bytes_at b pos 64), reader_at b (pos + 64))
  unfolding deserialize_dos_header
  dos_header-read pos allow in_file =
      rw (deserialize_struct-inside (reader_at b pos) 64 allow room.0 (omega arith) in_file)

  pub signature-read :
      (pos : ℕ) (allow : Bool)
      → pos + 4 ≤ physical b
      → deserialize_signature (reader_at b pos) allow
        ≡ ok (field (bytes_at b pos 4) 0 4, reader_at b (pos + 4))
  unfolding deserialize_signature
  signature-read pos allow in_file =
      rw (deserialize_struct-inside (reader_at b pos) 4 allow room.0 (omega arith) in_file)

  pub file_header-read :
      (pos : ℕ) (allow : Bool)
      → pos + 20 ≤ physical b
      → deserialize_file_header (reader_at b pos) allow
        ≡ ok (file_header_of (bytes_at b pos 20) pos, reader_at b (pos + 20))
  unfolding deserialize_file_header
  file_header-read pos allow in_file =
      rw (deserialize_struct-inside (reader_at b pos) 20 allow room.0 (omega arith) in_file)

  pub set_rpos-inside :
      (r : Reader) (pos : ℕ)
      → r.buffer ≡ b
      → pos ≤ physical b
      → set_rpos r pos ≡ ok (reader_at b pos)
  unfolding set_rpos size
  set_rpos-inside r pos is in_file =
      let short : ltb (length (contents b)) pos ≡ false =
        le→ltb (length (contents b)) pos (omega (arith, physical-le b)) in
      rw (is, size-length b room.0, short)

  dos_stub-kept :
      (pos e_lfanew : ℕ) (copies : Bool) (stub : RefBuffer.RefBuffer)
      → pos ≤ e_lfanew
      → e_lfanew ≤ physical b
      → RefBuffer.deserialize (without_relative_offset (section_of b pos (e_lfanew - pos))) copies
        ≡ ok stub
      → deserialize_dos_stub (reader_at b pos) copies e_lfanew ≡ ok (stub, reader_at b e_lfanew)
  unfolding deserialize_dos_stub
  dos_stub-kept pos e_lfanew copies stub behind in_file kept =
      let sz : (if leb e_lfanew pos then 0 else e_lfanew - pos) ≡ e_lfanew - pos = ground arith in
      let short = length-contents-lt b room.0 in
      let fits = physical-le b in
      let moved : (pos + (e_lfanew - pos)) % 2 ^ 64 ≡ e_lfanew =
        mod-eq_of_lt (omega arith) ∙ omega arith in
      rw (
        sz,
        make_section_inside b pos (e_lfanew - pos) room.0 (omega arith) (omega arith)
            (omega (arith, fits)),
        kept,
        moved,
        set_rpos-inside (reader_at b pos) e_lfanew refl in_file,
      )

  pub dos_stub-read :
      (pos e_lfanew : ℕ) (copies : Bool)
      → pos ≤ e_lfanew
      → e_lfanew ≤ physical b
      → (stub : RefBuffer.RefBuffer) × (deserialize_dos_stub (reader_at b pos) copies e_lfanew
          ≡ ok (stub, reader_at b e_lfanew))
  unfolding contents without_relative_offset
  dos_stub-read pos e_lfanew copies behind in_file =
      let view = without_relative_offset (section_of b pos (e_lfanew - pos)) in
      let (stub, kept, _) =
        deserialize-IsView view copies (room.0, omega (arith, physical-le b), refl) in
      (stub, dos_stub-kept pos e_lfanew copies stub behind in_file kept)

  known_then-read :
      (m : Magic) (old : OptionalHeader) (pos : ℕ) (allow : Bool) (magic : Option Magic)
      → magic ≡ some m
      → pos + packed_size m ≤ physical b
      → known_then old allow (reader_at b pos) magic
        ≡ (header_of m (bytes_at b pos (packed_size m)), ok (reader_at b (pos + packed_size m)))
  unfolding known_then structure_then
  known_then-read m old pos allow magic is in_file = rw (
    is,
    deserialize_struct-inside (reader_at b pos) (packed_size m) allow room.0 (structure_size m)
        in_file,
  )

  pub optional_header-read :
      (m : Magic) (old : OptionalHeader) (pos : ℕ) (allow : Bool)
      → magic_of (field (bytes_at b pos 2) 0 2) ≡ some m
      → pos + 2 + packed_size m ≤ physical b
      → deserialize_optional_header old (reader_at b pos) allow ≡ (
        header_of m (bytes_at b (pos + 2) (packed_size m)),
        ok (reader_at b (pos + 2 + packed_size m)),
      )
  unfolding deserialize_optional_header magic_then
  optional_header-read m old pos allow is in_file =
      rw (deserialize_struct-inside (reader_at b pos) 2 false room.0 (omega arith) (omega arith))
        (known_then-read m old (pos + 2) allow _ is in_file)

  pub directories-read :
      (left pos : ℕ) (allow : Bool)
      → pos + left * 8 ≤ physical b
      → (deserialize_directories left (reader_at b pos) allow).1 ≡ ok (reader_at b (pos + left * 8))
  unfolding deserialize_directories deserialize_directory directory_then
  directories-read zero pos allow in_file =
      let none_left : pos + zero * 8 ≡ pos = omega arith in rw none_left
  directories-read (suc left) pos allow in_file =
      let next : pos + 8 + left * 8 ≡ pos + suc left * 8 = omega arith in
      rw
        (
          deserialize_struct-inside (reader_at b pos) 8 allow room.0 (omega arith) (omega arith),
          sym next,
        )
        (directories-read left (pos + 8) allow (omega arith))

  pub table-read :
      (left pos : ℕ) (allow : Bool)
      → pos + left * 40 ≤ physical b
      → ((deserialize_table left (reader_at b pos) allow).1 ≡ ok (reader_at b (pos + left * 40)))
        × (length (deserialize_table left (reader_at b pos) allow).0 ≡ left)
  unfolding deserialize_table deserialize_section_header header_then
  table-read zero pos allow in_file =
      let none_left : pos + zero * 40 ≡ pos = omega arith in rw none_left (refl, refl)
  table-read (suc left) pos allow in_file =
      let next : pos + 40 + left * 40 ≡ pos + suc left * 40 = omega arith in
      let (read_ok, long) = table-read left (pos + 40) allow (omega arith) in
      rw
        (
          deserialize_struct-inside (reader_at b pos) 40 allow room.0 (omega arith) (omega arith),
          sym next,
        )
        (read_ok, ap suc long)
