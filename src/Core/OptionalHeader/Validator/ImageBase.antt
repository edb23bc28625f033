-- ===== src/Core/OptionalHeader/Validator/ImageBase.antt =====
-- About `validate_image_base`.
use native.Mathlib.Nat.{mod-eq_of_lt, mod-lt}
use pe_bliss.Base.{
  ℕ, ◌+◌, ◌%◌, ◌^◌, ◌≤◌, ◌<◌, ◌≡◌, ◌↔◌, refl, Bool, false, none, arith, ltb, Bool-cases, inl, inr,
  ltb→lt,
}
use pe_bliss.Utilities.Math.Laws.{add_if_safe_lem}
use pe_bliss.Core.OptionalHeader.{OptionalHeader, IsValid, Magic, pe32, pe64, va_width}
use pe_bliss.Core.OptionalHeader.Validator.{
  validate_image_base, validate_image_end, max_nonreloc_image_base,
}

-- The conditions, as the loader of the operating system states them.
abbrev pub IsLoadable : Magic → ℕ → ℕ → Bool → Type 0
IsLoadable magic base size has_relocations =
    (base % 0x10000 ≡ 0)
    × (base + size < 2 ^ va_width magic)
    × (has_relocations ≡ false → base + size < max_nonreloc_image_base magic)

image_end_iff :
    (oh : OptionalHeader) (relocs : Bool) (sum : ℕ) (m : Magic)
    → oh.magic ≡ m
    → sum < 2 ^ 64
    → (validate_image_end oh relocs sum ≡ none)
      ↔ ((sum < 2 ^ va_width m) × (relocs ≡ false → sum < max_nonreloc_image_base m))
unfolding validate_image_end
image_end_iff oh relocs sum pe32 e h =
    rw e (ground (arith, mod-eq_of_lt {n = sum} {m = 2 ^ 32}, mod-lt sum {m = 2 ^ 32}))
image_end_iff oh relocs sum pe64 e h = rw e (ground arith)

va_width-le : (m : Magic) → 2 ^ va_width m ≤ 2 ^ 64
va_width-le pe32 = omega arith
va_width-le pe64 = omega arith

-- The check accepts a valid header exactly when its base is a multiple of 64K, the image ends
-- below the limit of its address width, and, with no relocations, below the limit for fixed
-- images.
pub validate_image_base_iff :
    (oh : OptionalHeader) (relocs : Bool)
    → IsValid oh
    → (validate_image_base oh relocs ≡ none)
      ↔ IsLoadable oh.magic oh.image_base oh.size_of_image relocs
unfolding validate_image_base
validate_image_base_iff oh relocs v =
    let sum = oh.image_base + oh.size_of_image in
    rw (add_if_safe_lem 64 oh.image_base oh.size_of_image (omega arith))
      (elim (Bool-cases (ltb sum (2 ^ 64))) [
        | inl fits ↦
            rw fits
              (ground (arith, image_end_iff oh relocs sum oh.magic refl (ltb→lt sum (2 ^ 64) fits)))
        | inr over ↦ rw over (ground (arith, va_width-le oh.magic))
      ])
