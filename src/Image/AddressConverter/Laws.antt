-- ===== src/Image/AddressConverter/Laws.antt =====
-- About the two conversions of address_converter.
use pe_bliss.Base.{ℕ, ◌+◌, ◌^◌, ◌<◌, ◌≡◌, ◌↔◌, arith, ltb, if◌then◌else◌}
use pe_bliss.Errors.{address_converter, address_conversion_overflow, ok, err}
use pe_bliss.Utilities.SafeUint.{plus_lem}
use pe_bliss.Image.AddressConverter.{rva_to_va, va_to_rva}

-- A conversion to a virtual address gives the sum with the base, exactly if that fits the type.
pub rva_to_va_lem :
    (w image_base rva : ℕ)
    → rva_to_va w image_base rva ≡ (
        if ltb (rva + image_base) (2 ^ w)
        then ok (rva + image_base)
        else err (address_converter address_conversion_overflow))
unfolding rva_to_va
rva_to_va_lem w image_base rva = rw (plus_lem w rva image_base) (ground arith)

-- A virtual address comes from a relative one exactly if it is a 32-bit distance above the base.
pub va_to_rva_iff :
    (image_base va rva : ℕ)
    → (va_to_rva image_base va ≡ ok rva) ↔ ((va ≡ rva + image_base) × (rva < 2 ^ 32))
unfolding va_to_rva
va_to_rva_iff image_base va rva = ground arith

-- A 32-bit relative address and a virtual address of the width are converted into each other, or
-- neither is into the other, whatever the width and the image base.
pub rva_to_va-va_to_rva_iff :
    (w image_base va rva : ℕ)
    → rva < 2 ^ 32
    → va < 2 ^ w
    → (rva_to_va w image_base rva ≡ ok va) ↔ (va_to_rva image_base va ≡ ok rva)
rva_to_va-va_to_rva_iff w image_base va rva small fits =
    ground (arith, rva_to_va_lem w image_base rva, va_to_rva_iff image_base va rva)
