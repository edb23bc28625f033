-- ===== src/Image/Loader/Laws/Addresses.antt =====
-- From the file to the data behind an address of the image that is loaded of it.
use pe_bliss.Base.{ℕ, ◌+◌, ◌-◌, ◌≤◌, ◌≡◌, ◌⊎◌, Bool, false, some, length, take, drop}
use pe_bliss.Buffers.Input.{Buffer}
use pe_bliss.Buffers.Input.Contents.{contents}
use pe_bliss.Section.Header
use pe_bliss.Section.Header.{SectionHeader, get_rva, get_virtual_size}
use pe_bliss.Section.Search.Laws.{Covers}
use pe_bliss.Section.Table.Laws.{IsFirst}
use pe_bliss.Section.Data.{SectionDataLoadOptions}
use pe_bliss.Section.Data.Laws.{section_bytes}
use pe_bliss.Image.Loader
use pe_bliss.Image.Loader.State.{LoadedImage}
use pe_bliss.Image.Loader.Headers.{ImageLoadOptions}
use pe_bliss.Image.Loader.Laws.HeadersSize.{IsInHeaders}
use pe_bliss.Image.Loader.Laws.Bytes.{place}

-- The options of the section data of an image that is loaded.
abbrev pub data_options : LoadedImage → ImageLoadOptions → SectionDataLoadOptions
data_options i options = record {
  section_alignment = i.optional_header.section_alignment;
  copy_memory = options.eager_section_data_copy;
  image_loaded_to_memory = options.image_loaded_to_memory;
  image_start_buffer_pos = 0;
}

-- The bytes that a buffer shows of a file, for an address of its image: those at this place in the
-- file, for a range in the headers of the image and in the file; for the first section that holds the range, those of the section, which
-- are in the file unless virtual ones are allowed.
abbrev pub IsOfFile : Buffer → LoadedImage → SectionDataLoadOptions → ℕ → ℕ → Bool → Buffer → Type 0
IsOfFile b i options rva count allow s =
    (IsInHeaders i (rva + count)
      × (rva + count ≤ length (contents b))
      × (contents s ≡ take count (drop rva (contents b))))
    ⊎ ((l : ℕ) × (h : SectionHeader) × IsFirst
          (λ x. Covers (get_rva x) (get_virtual_size x options.section_alignment) rva count)
          i.section_table (some (l, h))
        × (contents s ≡ take count (drop (rva - get_rva h) (section_bytes h b options)))
        × (allow ≡ false
            → contents s ≡ take count (drop (place h options (rva - get_rva h)) (contents b))))
