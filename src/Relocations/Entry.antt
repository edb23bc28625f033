-- ===== src/Relocations/Entry.antt =====
-- class relocation_entry (include/pe_bliss2/relocations/relocation_entry.h,
-- src/relocations/relocation_entry.cpp). A type is its number, since the cast from four digits of
-- the descriptor gives numbers that the enumeration does not name. Assertions are not modelled:
-- a value is cut to its field where the source cuts it.
pub mod Laws
pub mod Apply
use pe_bliss.Base.{
  ℕ, ◌+◌, ◌-◌, ◌*◌, ◌/◌, ◌%◌, ◌^◌, Bool, ◌||◌, ◌&&◌, Option, none, some, ltb, ◌==◌, if◌then◌else◌,
  bit_and, bit_or,
}
use pe_bliss.Base.Words.{cast, complement, add_wrap}
use pe_bliss.Errors.{
  Result, ok, err, relocation_entry, relocation_param_is_absent, unsupported_relocation_type,
  too_large_relocation_address,
}

pub record RelocationEntry : Type 0 where
  pub descriptor : ℕ
  pub param : Option ℕ

abbrev pub absolute : ℕ
absolute = 0

abbrev pub high : ℕ
high = 1

abbrev pub low : ℕ
low = 2

abbrev pub highlow : ℕ
highlow = 3

abbrev pub highadj : ℕ
highadj = 4

abbrev pub thumb_mov32 : ℕ
thumb_mov32 = 7

abbrev pub dir64 : ℕ
dir64 = 10

-- `machine_type::armnt`
abbrev pub armnt : ℕ
armnt = 0x01c4

unfoldable pub get_type : RelocationEntry → ℕ
get_type entry = bit_and entry.descriptor 0xf000 / 2 ^ 12

-- `~0xf000u` is a 32-bit word, and both assignments cut their result to the descriptor.
pub set_type : RelocationEntry → ℕ → RelocationEntry
set_type entry type =
    let cleared = cast 16 (bit_and entry.descriptor (complement 32 0xf000)) in
    record entry { descriptor = cast 16 (bit_or cleared (cast 8 type * 2 ^ 12)) }

unfoldable pub get_address : RelocationEntry → ℕ
get_address entry = bit_and entry.descriptor 0xfff

pub set_address : RelocationEntry → ℕ → Result RelocationEntry
set_address entry address =
    if ltb 0xfff address
    then err (relocation_entry too_large_relocation_address)
    else (let cleared = cast 16 (bit_and entry.descriptor (complement 32 0xfff)) in
        ok (record entry { descriptor = cast 16 (bit_or cleared address) }))

unfoldable pub requires_parameter : RelocationEntry → Bool
requires_parameter entry = get_type entry == highadj

-- The value that a MOVW or a MOVT instruction loads.
pub thumb_value : ℕ → ℕ
thumb_value inst = cast 16 (
    add_wrap 32
      (add_wrap 32
        (add_wrap 32 (bit_and (cast 32 (inst * 2 ^ 1)) 0x0800)
          (bit_and (cast 32 (inst * 2 ^ 12)) 0xf000))
        (bit_and (inst / 2 ^ 20) 0x0700))
      (bit_and (inst / 2 ^ 16) 0x00ff))

-- The instruction with another value.
pub with_thumb_value : ℕ → ℕ → ℕ
with_thumb_value inst value =
    add_wrap 32
      (add_wrap 32
        (add_wrap 32 (add_wrap 32 (bit_and inst 0x8f00fbf0) (bit_and (value / 2 ^ 1) 0x0400))
          (bit_and (value / 2 ^ 12) 0x000f))
        (bit_and (cast 32 (value * 2 ^ 20)) 0x70000000))
      (bit_and (cast 32 (value * 2 ^ 16)) 0xff0000)

pub apply_thumb_mov32 : ℕ → ℕ → ℕ
apply_thumb_mov32 value image_base_difference =
    let inst₀ = cast 32 (bit_and value 0xffffffff) in
    let inst₁ = cast 32 (bit_and (value / 2 ^ 32) 0xffffffff) in
    let whole = bit_or (thumb_value inst₀) (cast 32 (thumb_value inst₁ * 2 ^ 16)) in
    let adjusted = add_wrap 32 whole (cast 32 image_base_difference) in
    bit_or (with_thumb_value inst₀ (cast 16 (bit_and adjusted 0xffff)))
      (with_thumb_value inst₁ (cast 16 (bit_and (adjusted / 2 ^ 16) 0xffff)) * 2 ^ 32)

pub apply_highadj : ℕ → ℕ → ℕ → ℕ
apply_highadj param value image_base_difference =
    let shifted = cast 32 (cast 32 value * 2 ^ 16) in
    let result = add_wrap 32 (add_wrap 32 shifted param) (cast 32 image_base_difference) in
    cast 16 (add_wrap 32 result 0x8000 / 2 ^ 16)

unfoldable pub unsupported {ℓ} : {A : Type ℓ} → Result A
unsupported = err (relocation_entry unsupported_relocation_type)

-- The switch of `apply_to`, on the type.
unfoldable pub apply_type : ℕ → Option ℕ → ℕ → ℕ → ℕ → Result ℕ
unfolding unsupported
apply_type type param value difference machine =
    if type == absolute
    then ok value
    else (if type == highlow
        then ok (cast 32 (add_wrap 64 value difference))
        else (if type == dir64
            then ok (add_wrap 64 value difference)
            else (if type == high
                then ok (cast 16 (add_wrap 64 value (difference / 2 ^ 16)))
                else (if type == low
                    then ok (cast 16 (add_wrap 64 value difference))
                    else (if type == highadj
                        then (elim param [
                          | none ↦ err (relocation_entry relocation_param_is_absent)
                          | some p ↦ ok (apply_highadj p value difference)
                        ])
                        else (if type == thumb_mov32
                            then (if machine == armnt
                                then ok (apply_thumb_mov32 value difference)
                                else unsupported)
                            else unsupported))))))

unfoldable pub apply_to : RelocationEntry → ℕ → ℕ → ℕ → Result ℕ
apply_to entry value image_base_difference machine =
    apply_type (get_type entry) entry.param value image_base_difference machine

-- The switch of `get_affected_size_in_bytes`, on the type.
unfoldable pub affected_size : ℕ → ℕ → Result ℕ
unfolding unsupported
affected_size type machine =
    if type == absolute
    then ok 0
    else (if type == highlow
        then ok 4
        else (if type == dir64
            then ok 8
            else (if (type == high || type == low) || type == highadj
                then ok 2
                else (if type == thumb_mov32 && machine == armnt then ok 8 else unsupported))))

unfoldable pub get_affected_size_in_bytes : RelocationEntry → ℕ → Result ℕ
get_affected_size_in_bytes entry machine = affected_size (get_type entry) machine
