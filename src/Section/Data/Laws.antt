-- ===== src/Section/Data/Laws.antt =====
-- About the data of a section: which bytes of the file it shows.
use mathlib.Core.List.{append-nil}
use pe_bliss.Base.{
  ℕ, ◌+◌, ◌-◌, ◌^◌, ◌≤◌, ◌<◌, ◌≡◌, refl, sym, ap, ◌∙◌, List, ◌++◌, arith, ltb, if◌then◌else◌,
  length, take, drop, min, replicate, length-take, length-drop, dec_lt, lt→ltb, le→ltb,
}
use pe_bliss.Errors.{ok, err, rethrow, section, unable_to_read_section_data}
use pe_bliss.Utilities.SafeUint.{plus, plus_lem}
use pe_bliss.Buffers.Input.{Buffer, absolute_offset, relative_offset}
use pe_bliss.Buffers.Input.Contents.{contents, physical, IsValid}
use pe_bliss.Buffers.Views.{make_virtual, without_relative_offset}
use pe_bliss.Buffers.Views.Laws.{section_of, make_section_inside, make_section_outside}
use pe_bliss.Buffers.RefBuffer.{RefBuffer, contents_of}
use pe_bliss.Buffers.RefBuffer.Laws.{IsView, deserialize-IsView}
use pe_bliss.Section.Header.{SectionHeader, get_raw_size, get_virtual_size, get_pointer_to_raw_data}
use pe_bliss.Section.Header
use pe_bliss.Section.Header.Sizes.{get_virtual_size-IsLoadedSize}
use pe_bliss.Section.Data.{SectionDataLoadOptions, data_start, deserialize_section_data}

-- A buffer whose size and offsets leave room for those of a view.
abbrev pub HasRoom : Buffer → Type 0
HasRoom b =
    IsValid b
    × (length (contents b) < 2 ^ 62)
    × (absolute_offset b < 2 ^ 62)
    × (relative_offset b < 2 ^ 62)

-- The sizes of a valid section are 32-bit words.
size_bounds :
    (h : SectionHeader) (align : ℕ)
    → Header.IsValid h
    → align < 2 ^ 32
    → (get_virtual_size h align < 2 ^ 32) × (get_raw_size h align < 2 ^ 32)
unfolding get_raw_size
size_bounds h align v fits =
    let (above, word, whole, plain) = get_virtual_size-IsLoadedSize h align v fits in
    (word, ground (arith, v.size_of_raw_data_fits))

data_start-lt :
    (h : SectionHeader) (options : SectionDataLoadOptions)
    → Header.IsValid h
    → data_start h options < 2 ^ 32
unfolding data_start get_pointer_to_raw_data
data_start-lt h options v = ground (arith, v.pointer_to_raw_data_fits, v.virtual_address_fits)

-- The view of a section without its relative offset, and with virtual bytes behind it.
abbrev section_view : Buffer → ℕ → ℕ → ℕ → Buffer
section_view b start raw virt =
    if ltb raw virt
    then make_virtual (without_relative_offset (section_of b start raw)) (virt - raw)
    else without_relative_offset (section_of b start raw)

section_view-IsView :
    (b : Buffer) (start raw virt : ℕ)
    → HasRoom b
    → start < 2 ^ 33
    → raw < 2 ^ 32
    → virt < 2 ^ 32
    → start + raw ≤ length (contents b)
    → IsView
        (section_view b start raw virt)
        (take raw (drop start (contents b)) ++ replicate (virt - raw) 0)
        (min raw (physical b - start))
        (start + absolute_offset b)
        0
unfolding contents physical absolute_offset relative_offset without_relative_offset make_virtual
section_view-IsView b start raw virt (v, small, absolute, relative) near raw_word virt_word inside =
    let long : length (take raw (drop start (contents b))) ≡ raw =
      omega (arith, length-take raw (drop start (contents b)), length-drop start (contents b)) in
    elim (dec_lt raw virt) [
      | yes more ↦
          rw (lt→ltb raw virt more) (((v, inside, refl), omega arith), refl, refl, refl, refl)
      | no fits ↦
          let nothing : virt - raw ≡ 0 = omega arith in
          rw (le→ltb raw virt (omega arith), nothing)
            (
              (v, inside, refl),
              sym (append-nil (take raw (drop start (contents b)))),
              refl,
              refl,
              refl,
            )
    ]

-- Where the bytes of a section begin in the buffer, how many there are, and how many in memory.
abbrev pub first_byte : SectionHeader → SectionDataLoadOptions → ℕ
first_byte h options = data_start h options + options.image_start_buffer_pos

abbrev pub raw_size : SectionHeader → SectionDataLoadOptions → ℕ
raw_size h options = get_raw_size h options.section_alignment

abbrev pub loaded_size : SectionHeader → SectionDataLoadOptions → ℕ
loaded_size h options = get_virtual_size h options.section_alignment

-- The bytes of a section in memory.
abbrev pub section_bytes : SectionHeader → Buffer → SectionDataLoadOptions → List ℕ
section_bytes h b options =
    take (raw_size h options) (drop (first_byte h options) (contents b))
    ++ replicate (loaded_size h options - raw_size h options) 0

-- For a valid header, a 32-bit alignment and start of the image, and a buffer of less than 2 ^ 62
-- bytes at such offsets: where the section's raw bytes lie in the buffer, its data is a valid
-- buffer that shows them and zeros up to its size in memory, and has the offset of the first one
-- in the file; where they do not, the data is refused.
pub deserialize_section_data_lem :
    (h : SectionHeader) (b : Buffer) (options : SectionDataLoadOptions)
    → Header.IsValid h
    → HasRoom b
    → options.section_alignment < 2 ^ 32
    → options.image_start_buffer_pos < 2 ^ 32
    → (first_byte h options + raw_size h options ≤ length (contents b)
        → (c : RefBuffer) × (deserialize_section_data h b options ≡ ok c)
          × IsView
              (contents_of c)
              (section_bytes h b options)
              (min (raw_size h options) (physical b - first_byte h options))
              (first_byte h options + absolute_offset b)
              0)
      × (length (contents b) < first_byte h options + raw_size h options
          → deserialize_section_data h b options ≡ err (section unable_to_read_section_data))
unfolding deserialize_section_data
deserialize_section_data_lem h b options valid room align_word start_word =
    let raw = raw_size h options in
    let virt = loaded_size h options in
    let start = first_byte h options in
    let (virt_word, raw_word) = size_bounds h options.section_alignment valid align_word in
    let begin = data_start-lt h options valid in
    let sum : plus 64 (data_start h options) options.image_start_buffer_pos ≡ ok start = rw (
      plus_lem 64 (data_start h options) options.image_start_buffer_pos,
      lt→ltb start (2 ^ 64) (omega arith),
    ) in
    (
      λ inside.
          let made = make_section_inside b start raw room.0 (omega arith) (omega arith) inside in
          let (valid_view, shown, in_file, absolute, relative) =
            section_view-IsView b start raw virt room (omega arith) raw_word virt_word inside in
          let (c, kept, (v, same, same_file, same_absolute, same_relative)) =
            deserialize-IsView (section_view b start raw virt) options.copy_memory valid_view in
          (
            c,
            rw (sum, made) (ap (λ r. rethrow r (section unable_to_read_section_data)) kept),
            (
              v,
              same ∙ shown,
              same_file ∙ in_file,
              same_absolute ∙ absolute,
              same_relative ∙ relative,
            ),
          ),
      λ outside.
          let (e, refused) = make_section_outside b start raw room.0 (omega arith) outside in
          rw (sum, refused),
    )
