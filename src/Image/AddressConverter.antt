-- ===== src/Image/AddressConverter.antt =====
-- class address_converter (src/address_converter.cpp): relative addresses and the virtual
-- addresses at an image base, a 64-bit word. `w` is the width of the virtual address type.
pub mod Laws
use pe_bliss.Base.{ℕ, ◌-◌, ◌^◌, ltb, if◌then◌else◌}
use pe_bliss.Errors.{
  address_converter, address_conversion_overflow, Result, ok, err, ◌>>=◌, ◌>>◌, throw_if, rethrow,
}
use pe_bliss.Utilities.SafeUint.{plus}

pub rva_to_va : ℕ → ℕ → ℕ → Result ℕ
rva_to_va w image_base rva =
    rethrow (plus w rva image_base) (address_converter address_conversion_overflow)

-- The comparison and the difference are made on 64-bit words, and the difference does not wrap.
pub va_to_rva : ℕ → ℕ → Result ℕ
va_to_rva image_base va = do
  throw_if (ltb va image_base) (address_converter address_conversion_overflow)
  let rva = va - image_base
  throw_if (ltb (2 ^ 32 - 1) rva) (address_converter address_conversion_overflow)
  ok rva
