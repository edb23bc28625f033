-- ===== src/Image/Loader/Samples.antt =====
-- A small executable: the headers, one section with eight bytes in the file, and an overlay.
use pe_bliss.Base.{
  ℕ, ◌≡◌, refl, true, false, Bool, List, [], ◌∷◌, ◌++◌, arith, All, ltb, replicate, ◌&&◌, dec_lt,
  lt→ltb, le→ltb,
}
use pe_bliss.Buffers.Input.{Buffer, container, absolute_offset, relative_offset}
use pe_bliss.Buffers.Input.Contents.{contents}
use pe_bliss.Packed.Struct.Fields.{IsByte}
use pe_bliss.Section.Data.Laws.{HasRoom}
use pe_bliss.Image.Loader.Headers.{ImageLoadOptions}

abbrev headers_of_file : List ℕ
headers_of_file =
    -- The DOS header, with the PE header at 64.
    0x4d ∷ 0x5a ∷ replicate 58 0
    ++ (64
          ∷ 0
          ∷ 0
          ∷ 0
          -- The signature and the file header: one section, an optional header of 96 bytes.
          ∷ 0x50
          ∷ 0x45
          ∷ 0
          ∷ 0
          ∷ 0x4c
          ∷ 1
          ∷ 1
          ∷ 0
          ∷ replicate 12 0
        ++ (96
              ∷ 0
              ∷ 2
              ∷ 1
              -- The optional header: a base of 0x400000 and sections of whole 0x1000 bytes.
              ∷ 0x0b
              ∷ 1
              ∷ replicate 26 0
            ++ (0
                  ∷ 0
                  ∷ 0x40
                  ∷ 0
                  ∷ 0
                  ∷ 0x10
                  ∷ 0
                  ∷ 0
                  ∷ 0
                  ∷ 2
                  ∷ 0
                  ∷ 0
                  ∷ 4
                  ∷ 0
                  ∷ 0
                  ∷ 0
                  ∷ 0
                  ∷ 0
                  ∷ 0
                  ∷ 0
                  ∷ 4
                  ∷ 0
                  ∷ 0
                  ∷ 0
                  ∷ 0
                  ∷ 0
                  ∷ 0
                  ∷ 0
                  ∷ 0
                  ∷ 0x20
                  ∷ 0
                  ∷ 0
                  ∷ 0
                  ∷ 2
                  ∷ 0
                  ∷ 0
                  ∷ replicate 32 0
                -- The section header: 16 bytes at 0x1000, 8 of them at 0x200 of the file.
                ++ (replicate 8 0
                    ++ (16
                        ∷ 0
                        ∷ 0
                        ∷ 0
                        ∷ 0
                        ∷ 0x10
                        ∷ 0
                        ∷ 0
                        ∷ 8
                        ∷ 0
                        ∷ 0
                        ∷ 0
                        ∷ 0
                        ∷ 2
                        ∷ 0
                        ∷ 0
                        ∷ replicate 16 0)))))

abbrev pub tiny_bytes : List ℕ
tiny_bytes = headers_of_file ++ (replicate 288 0 ++ (1 ∷ 2 ∷ 3 ∷ 4 ∷ 5 ∷ 6 ∷ 7 ∷ 8 ∷ 9 ∷ []))

abbrev pub tiny : Buffer
tiny = container tiny_bytes 0 0

abbrev pub all_options : Bool → ImageLoadOptions
all_options copies = record {
  allow_virtual_headers = false;
  validate_section_headers = true;
  load_sections = true;
  validate_size_of_image = true;
  image_loaded_to_memory = false;
  eager_section_data_copy = copies;
  eager_dos_stub_data_copy = copies;
  check_image_base = true;
  check_size_of_optional_header = true;
  load_overlay_data = true;
  eager_overlay_data_copy = copies;
  load_full_headers = true;
  eager_full_headers_buffer_copy = copies;
  validate_image_signature = true;
  load_full_sections = true;
  eager_full_sections_buffer_copy = copies;
  dos_header_validation = record { check_magic = true; check_e_lfanew = true };
  optional_header_validation = record {
    check_address_of_entry_point = true;
    check_alignments = true;
    check_subsystem_version = true;
    check_size_of_heap = true;
    check_size_of_stack = true;
    check_size_of_headers = true;
  };
}

pub tiny-HasRoom : HasRoom tiny
unfolding absolute_offset relative_offset contents
tiny-HasRoom = (omega arith, omega arith, omega arith, omega arith)

-- A list of bytes, decided.
abbrev are_bytes : List ℕ → Bool
are_bytes [] = true
are_bytes (x ∷ xs) = ltb x 256 && are_bytes xs

are_bytes-IsByte : (xs : List ℕ) → are_bytes xs ≡ true → All IsByte xs
are_bytes-IsByte [] h = tt
are_bytes-IsByte (x ∷ xs) h = elim (dec_lt x 256) [
  | yes byte ↦ (byte, are_bytes-IsByte xs (rw (lt→ltb x 256 byte) at h))
  | no over ↦ let refused : ltb x 256 ≡ false = le→ltb x 256 (omega arith) in cc
]

pub tiny-IsByte : All IsByte (contents tiny)
unfolding contents
tiny-IsByte = are_bytes-IsByte tiny_bytes refl
