-- ===== src/Image/Loader/Laws/Parts.antt =====
-- What the addresses of an image ask of its parts, and that what is read gives it.
use pe_bliss.Base.{ℕ, zero, suc, ◌^◌, ◌<◌, List, [], ◌∷◌, ◌++◌, map, arith, All, replicate}
use pe_bliss.Buffers.Input.{absolute_offset, relative_offset}
use pe_bliss.Buffers.Input.Contents.{IsValid}
use pe_bliss.Buffers.Views.Laws.{OffsetsFit}
use pe_bliss.Buffers.RefBuffer.{RefBuffer, contents_of, new}
use pe_bliss.Buffers.RefBuffer.Laws.{IsView}
use pe_bliss.Packed.Struct.Fields.{IsByte, field-lt}
use pe_bliss.Core.OptionalHeader.{OptionalHeader}
use pe_bliss.Section.Header.{SectionHeader}
use pe_bliss.Section.Header
use pe_bliss.Section.Header.Bytes.{section_header_of}
use pe_bliss.Section.Table.{SectionTable}
use pe_bliss.Section.Table.Bytes.{no_header}
use pe_bliss.Image.SectionData.Laws.{IsLoaded}
use pe_bliss.Image.Loader.State.{LoadedImage, image_of}

-- A buffer of 64-bit sizes that 32-bit offsets can be added to.
abbrev pub IsUsable : RefBuffer → Type 0
IsUsable c =
    IsValid (contents_of c) × ((offset : ℕ) → offset < 2 ^ 32 → OffsetsFit (contents_of c) offset)

-- What the addresses of an image stand on.
abbrev pub AreParts : OptionalHeader → SectionTable → List RefBuffer → RefBuffer → Type 0
AreParts oh table list headers =
    All Header.IsValid table
    × (oh.section_alignment < 2 ^ 32)
    × IsUsable headers
    × All IsUsable list

All-map-contents_of :
    (list : List RefBuffer)
    → All IsUsable list
    → All
        (λ b. IsValid b × ((offset : ℕ) → offset < 2 ^ 32 → OffsetsFit b offset))
        (map contents_of list)
All-map-contents_of [] all = tt
All-map-contents_of (c ∷ list) (usable, all) = (usable, All-map-contents_of list all)

pub parts-IsLoaded :
    (i : LoadedImage)
    → AreParts i.optional_header i.section_table i.section_list i.full_headers_buffer
    → IsLoaded (image_of i)
unfolding image_of
parts-IsLoaded i (table, alignment, (headers, headers_offsets), list) = record {
  sections = table;
  alignment_fits = alignment;
  headers = headers;
  headers_offsets = headers_offsets;
  section_data = All-map-contents_of i.section_list list;
}

pub section_header_of-IsValid :
    (bytes : List ℕ) → All IsByte bytes → Header.IsValid (section_header_of bytes)
unfolding section_header_of
section_header_of-IsValid bytes all = record {
  virtual_size_fits = field-lt bytes 8 4 all;
  virtual_address_fits = field-lt bytes 12 4 all;
  size_of_raw_data_fits = field-lt bytes 16 4 all;
  pointer_to_raw_data_fits = field-lt bytes 20 4 all;
  characteristics_fits = field-lt bytes 36 4 all;
}

pub no_header-IsValid : Header.IsValid no_header
no_header-IsValid = record {
  virtual_size_fits = omega arith;
  virtual_address_fits = omega arith;
  size_of_raw_data_fits = omega arith;
  pointer_to_raw_data_fits = omega arith;
  characteristics_fits = omega arith;
}

pub All-replicate {ℓ κ} :
    {A : Type ℓ} (P : A → Type κ) (n : ℕ) (a : A) → P a → All P (replicate n a)
All-replicate P zero a p = tt
All-replicate P (suc n) a p = (p, All-replicate P n a p)

pub All-snoc {ℓ κ} :
    {A : Type ℓ} (P : A → Type κ) (xs : List A) (a : A) → All P xs → P a → All P (xs ++ (a ∷ []))
All-snoc P [] a all p = (p, tt)
All-snoc P (x ∷ xs) a (q, all) p = (q, All-snoc P xs a all p)

pub new-IsUsable : IsUsable new
unfolding contents_of new absolute_offset relative_offset
new-IsUsable = (omega arith, λ offset lt. (omega arith, omega arith, omega arith, omega arith))

pub IsView-IsUsable :
    (c : RefBuffer) (bytes : List ℕ) (n absolute relative : ℕ)
    → IsView (contents_of c) bytes n absolute relative
    → absolute < 2 ^ 63
    → relative < 2 ^ 63
    → IsUsable c
IsView-IsUsable c bytes n absolute relative (v, shown, in_file, a, r) a_word r_word =
    (v, λ offset lt. (omega arith, omega arith, omega arith, omega arith))
