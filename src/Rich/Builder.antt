-- ===== src/Rich/Builder.antt =====
-- src/rich/rich_header_builder.cpp: the bytes of a rich header, and their count with the padding in
-- front of them.
pub mod Laws
use pe_bliss.Base.{ℕ, ◌-◌, ◌*◌, ◌%◌, ◌^◌, bit_xor, not, List, [], ◌∷◌, ◌++◌, length}
use pe_bliss.Packed.Struct.{serialize}
use pe_bliss.Errors.{
  Result, ok, ◌>>=◌, ◌>>◌, throw_if, or_throw, rethrow, generic, integer_overflow, rich_header,
  invalid_rich_header_offset, rich_header_builder, unable_to_build_rich_header,
}
use pe_bliss.Utilities.Math.{align_up_if_safe, is_sum_safe}
use pe_bliss.Utilities.SafeUint.{plus}
use pe_bliss.Buffers.Output.{Output, set_wpos, write}
use pe_bliss.Rich.{RichCompid, RichHeader}
use pe_bliss.Rich.Utils.{
  compid_alignment, dans_signature, rich_signature, rich_compid_size, xor_compid,
}

-- The packed structure `rich_compid`.
unfoldable pub serialize_compid : RichCompid → List ℕ
serialize_compid compid =
    serialize 2 compid.build_number ++ serialize 2 compid.prod_id ++ serialize 4 compid.use_count

-- The loop over the entries.
unfoldable pub write_compids : ℕ → List RichCompid → Output → Result Output
write_compids checksum [] buffer = ok buffer
write_compids checksum (compid ∷ compids) buffer = do
  after ← write buffer (serialize_compid (xor_compid checksum compid))
  write_compids checksum compids after

pub write_header : RichHeader → Output → Result Output
write_header header buffer = do
  aligned_buffer_offset ←
      or_throw (align_up_if_safe 64 header.dans_relative_offset compid_alignment)
        (generic integer_overflow)
  at ← set_wpos buffer aligned_buffer_offset
  dans ← write at (serialize 4 (bit_xor dans_signature header.checksum))
  first ← write dans (serialize 4 header.checksum)
  second ← write first (serialize 4 header.checksum)
  third ← write second (serialize 4 header.checksum)
  entries ← write_compids header.checksum header.compids third
  signature ← write entries rich_signature
  write signature (serialize 4 header.checksum)

pub build : RichHeader → Output → Result Output
build header buffer =
    rethrow (write_header header buffer) (rich_header_builder unable_to_build_rich_header)

-- The sum in the `try` block.
pub sum_sizes : ℕ → ℕ → Result ℕ
sum_sizes padding compid_count = do
  dans ← plus 64 padding 4
  padded ← plus 64 dans 12
  entries ← plus 64 padded (compid_count * rich_compid_size % 2 ^ 64)
  signature ← plus 64 entries 4
  plus 64 signature 4

pub get_built_size : RichHeader → Result ℕ
get_built_size header = do
  aligned_offset ←
      or_throw (align_up_if_safe 64 header.dans_relative_offset compid_alignment)
        (rich_header invalid_rich_header_offset)
  sz ←
      rethrow (sum_sizes (aligned_offset - header.dans_relative_offset) (length header.compids))
        (rich_header invalid_rich_header_offset)
  throw_if (not (is_sum_safe 64 sz header.dans_relative_offset))
      (rich_header invalid_rich_header_offset)
  ok sz
