-- ===== src/Section/Header.antt =====
-- class section_header (include/pe_bliss2/section/section_header.h, src/section/section_header.cpp)
-- over its descriptor, detail::image_section_header. A setter returns the new header; the
-- physical size that a packed structure also keeps is not part of the record.
pub mod Sizes
pub mod Flags
pub mod Name
pub mod Bytes
use pe_bliss.Base.{
  ℕ, zero, suc, ◌+◌, ◌-◌, ◌*◌, ◌^◌, ◌<◌, Bool, true, false, not, ◌&&◌, Option, none, some, List, [],
  ◌∷◌, ◌++◌, leb, ltb, ◌==◌, ◌!=◌, if◌then◌else◌, bit_and, bit_xor, length, get_elem?, replicate,
  reverse, take,
}
use mathlib.Core.Option.{get_or}
use pe_bliss.Base.Words.{has_single_bit, add_wrap, sub_wrap}
use pe_bliss.Errors.{
  generic, section, buffer_overrun, invalid_section_offset, invalid_section_virtual_size, Result,
  ok, err, ◌>>=◌, ◌>>◌, throw_if,
}
use pe_bliss.Utilities.Math.{align_up_if_safe}

pub record SectionHeader : Type 0 where
  pub name : List ℕ
  pub virtual_size : ℕ
  pub virtual_address : ℕ
  pub size_of_raw_data : ℕ
  pub pointer_to_raw_data : ℕ
  pub pointer_to_relocations : ℕ
  pub pointer_to_line_numbers : ℕ
  pub number_of_relocations : ℕ
  pub number_of_line_numbers : ℕ
  pub characteristics : ℕ

abbrev pub byte_at : List ℕ → ℕ → ℕ
byte_at bytes i = get_or (get_elem? bytes i) 0

-- The ranges of the fields that the methods read.
pub record IsValid (h : SectionHeader) : Type 0 where
  pub virtual_size_fits : h.virtual_size < 2 ^ 32
  pub virtual_address_fits : h.virtual_address < 2 ^ 32
  pub size_of_raw_data_fits : h.size_of_raw_data < 2 ^ 32
  pub pointer_to_raw_data_fits : h.pointer_to_raw_data < 2 ^ 32
  pub characteristics_fits : h.characteristics < 2 ^ 32

abbrev pub mem_discardable : ℕ
mem_discardable = 0x02000000

abbrev pub mem_not_cached : ℕ
mem_not_cached = 0x04000000

abbrev pub mem_not_paged : ℕ
mem_not_paged = 0x08000000

abbrev pub mem_shared : ℕ
mem_shared = 0x10000000

abbrev pub mem_execute : ℕ
mem_execute = 0x20000000

abbrev pub mem_read : ℕ
mem_read = 0x40000000

abbrev pub mem_write : ℕ
mem_write = 0x80000000

abbrev pub max_raw_address_rounded_to_0 : ℕ
max_raw_address_rounded_to_0 = 0x1ff

abbrev pub two_gb_size : ℕ
two_gb_size = 1024 * 1024 * 1024 * 2

unfoldable pub get_rva : SectionHeader → ℕ
get_rva h = h.virtual_address

pub set_rva : SectionHeader → ℕ → SectionHeader
set_rva h rva = record h { virtual_address = rva }

-- The size of the section in memory: a failed alignment leaves it as it is.
unfoldable pub get_virtual_size : SectionHeader → ℕ → ℕ
get_virtual_size h section_alignment =
    let virtual_size = if h.virtual_size == 0 then h.size_of_raw_data else h.virtual_size in
    if not (has_single_bit 32 section_alignment)
    then virtual_size
    else get_or (align_up_if_safe 32 virtual_size section_alignment) virtual_size

unfoldable pub get_raw_size : SectionHeader → ℕ → ℕ
get_raw_size h section_alignment =
    let raw_size = h.size_of_raw_data in
    let virtual_size = get_virtual_size h section_alignment in
    if ltb virtual_size raw_size then virtual_size else raw_size

unfoldable pub get_pointer_to_raw_data : SectionHeader → ℕ
get_pointer_to_raw_data h =
    if leb h.pointer_to_raw_data max_raw_address_rounded_to_0 then 0 else h.pointer_to_raw_data

pub set_pointer_to_raw_data : SectionHeader → ℕ → SectionHeader
set_pointer_to_raw_data h pointer = record h { pointer_to_raw_data = pointer }

unfoldable pub is_low_alignment : SectionHeader → Bool
is_low_alignment h = h.virtual_address == get_pointer_to_raw_data h

unfoldable pub rva_from_section_offset : SectionHeader → ℕ → ℕ → Result ℕ
rva_from_section_offset h offset section_alignment = do
  throw_if (leb (get_virtual_size h section_alignment) offset) (section invalid_section_offset)
  ok (add_wrap 32 (get_rva h) offset)

pub is_writable : SectionHeader → Bool
is_writable h = bit_and h.characteristics mem_write != 0

pub is_readable : SectionHeader → Bool
is_readable h = bit_and h.characteristics mem_read != 0

pub is_executable : SectionHeader → Bool
is_executable h = bit_and h.characteristics mem_execute != 0

pub is_shared : SectionHeader → Bool
is_shared h = bit_and h.characteristics mem_shared != 0

pub is_discardable : SectionHeader → Bool
is_discardable h = bit_and h.characteristics mem_discardable != 0

pub is_pageable : SectionHeader → Bool
is_pageable h = not (bit_and h.characteristics mem_not_paged != 0)

pub is_cacheable : SectionHeader → Bool
is_cacheable h = not (bit_and h.characteristics mem_not_cached != 0)

-- `characteristics ^= ((0u - toggle) ^ characteristics) & flag`
pub toggle_characteristic : SectionHeader → Bool → ℕ → SectionHeader
toggle_characteristic h toggle flag =
    let value = h.characteristics in
    let ones = sub_wrap 32 0 (if toggle then 1 else 0) in
    record h { characteristics = bit_xor value (bit_and (bit_xor ones value) flag) }

pub set_writable : SectionHeader → Bool → SectionHeader
set_writable h writable = toggle_characteristic h writable mem_write

pub set_readable : SectionHeader → Bool → SectionHeader
set_readable h readable = toggle_characteristic h readable mem_read

pub set_executable : SectionHeader → Bool → SectionHeader
set_executable h executable = toggle_characteristic h executable mem_execute

pub set_shared : SectionHeader → Bool → SectionHeader
set_shared h shared = toggle_characteristic h shared mem_shared

pub set_discardable : SectionHeader → Bool → SectionHeader
set_discardable h discardable = toggle_characteristic h discardable mem_discardable

pub set_non_pageable : SectionHeader → Bool → SectionHeader
set_non_pageable h non_pageable = toggle_characteristic h non_pageable mem_not_paged

pub set_non_cacheable : SectionHeader → Bool → SectionHeader
set_non_cacheable h non_cacheable = toggle_characteristic h non_cacheable mem_not_cached

unfoldable pub empty : SectionHeader → Bool
empty h = h.size_of_raw_data == 0

pub set_virtual_size : SectionHeader → ℕ → Result SectionHeader
set_virtual_size h virtual_size =
    if virtual_size == 0
    then (if empty h
        then err (section invalid_section_virtual_size)
        else ok (record h { virtual_size = h.size_of_raw_data }))
    else ok (record h { virtual_size = virtual_size })

pub set_raw_size : SectionHeader → ℕ → SectionHeader
set_raw_size h raw_size = record h { size_of_raw_data = raw_size }

-- The loop of `get_name`: `n` is `end - begin + 1`.
pub name_end : List ℕ → ℕ → ℕ
name_end name zero = 0
name_end name (suc n) = if byte_at name n == 0 then name_end name n else suc n

pub get_name : SectionHeader → List ℕ
get_name h = take (name_end h.name 8) h.name

pub set_name : SectionHeader → List ℕ → Result SectionHeader
set_name h name =
    if ltb 8 (length name)
    then err (generic buffer_overrun)
    else ok (record h { name = name ++ replicate (8 - length name) 0 })
