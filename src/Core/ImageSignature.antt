-- ===== src/Core/ImageSignature.antt =====
-- class image_signature and its validator (src/core/image_signature.cpp,
-- src/core/image_signature_validator.cpp).
use pe_bliss.Base.{ℕ, Bool, Option, none, some, ◌!=◌, if◌then◌else◌}
use pe_bliss.Errors.{
  Error, Result, ok, ◌>>=◌, rethrow, image_signature, invalid_pe_signature,
  unable_to_read_pe_signature,
}
use pe_bliss.Buffers.Reader.{Reader}
use pe_bliss.Packed.Struct.{deserialize_struct}
use pe_bliss.Packed.Struct.Fields.{field}

-- 'PE'
abbrev pub pe_signature : ℕ
pe_signature = 0x4550

unfoldable pub deserialize_signature : Reader → Bool → Result (ℕ × Reader)
deserialize_signature buf allow_virtual_data = do
  got ←
      rethrow (deserialize_struct buf 4 allow_virtual_data)
        (image_signature unable_to_read_pe_signature)
  ok (field got.0.1 0 4, got.1)

unfoldable pub validate_signature : ℕ → Option Error
validate_signature signature =
    if signature != pe_signature then some (image_signature invalid_pe_signature) else none
