-- ===== src/Image/Checksum.antt =====
-- src/image/checksum.cpp: the checksum of the file, a sum of its 32-bit words with the carry added
-- back, made over the buffers that hold the file, without the word of the checksum itself. The
-- data of a ref_buffer is the buffer it holds.
mod Tests
pub mod Fold
pub mod Read
pub mod Laws
use pe_bliss.Base.{
  ℕ, zero, suc, ◌+◌, ◌-◌, ◌*◌, ◌/◌, ◌%◌, ◌^◌, Bool, not, List, [], ◌∷◌, ltb, ◌==◌, ◌!=◌,
  if◌then◌else◌, min, bit_and,
}
use pe_bliss.Base.Words.{add_wrap, cast}
use pe_bliss.Errors.{
  Result, ok, ◌>>=◌, ◌>>◌, throw_if, rethrow, checksum, invalid_checksum_offset, unaligned_checksum,
  unaligned_buffer,
}
use pe_bliss.Utilities.Math.{is_aligned}
use pe_bliss.Utilities.SafeUint.{plus}
use pe_bliss.Buffers.Input
use pe_bliss.Buffers.Input.{physical_size}
use pe_bliss.Buffers.Views.{reduce, reduce_from}
use pe_bliss.Buffers.Reader
use pe_bliss.Buffers.Reader.{Reader}
use pe_bliss.Image.Layout.{Image}

abbrev pub max_value : ℕ
max_value = 0x100000000

abbrev pub temp_buffer_size : ℕ
temp_buffer_size = 4 * 128

-- The body of the inner loop, for the word `dword`.
pub add_dword : ℕ → ℕ → ℕ
add_dword sum dword =
    let sum' = add_wrap 64 (add_wrap 64 (bit_and sum 0xffffffff) dword) (sum / 2 ^ 32) in
    if ltb max_value sum' then add_wrap 64 (bit_and sum' 0xffffffff) (sum' / 2 ^ 32) else sum'

-- The word of four bytes, the lowest first.
abbrev pub dword_of : ℕ → ℕ → ℕ → ℕ → ℕ
dword_of a b c d = a + 2 ^ 8 * b + 2 ^ 16 * c + 2 ^ 24 * d

-- The inner loop, over the bytes of the temporary buffer.
pub add_dwords : ℕ → List ℕ → ℕ
add_dwords sum (a ∷ b ∷ c ∷ d ∷ bytes) = add_dwords (add_dword sum (dword_of a b c d)) bytes
add_dwords sum (a ∷ b ∷ c ∷ []) = sum
add_dwords sum (a ∷ b ∷ []) = sum
add_dwords sum (a ∷ []) = sum
add_dwords sum [] = sum

-- The outer loop. Each round reads at least a byte, so the physical size is enough fuel.
pub checksum_loop : ℕ → ℕ → ℕ → Reader → Result ℕ
checksum_loop zero sum rest ref = ok sum
checksum_loop (suc fuel) sum rest ref =
    let read_bytes = min rest temp_buffer_size in
    let later = Reader.read ref read_bytes >>= λ ((real, bytes), ref').
    checksum_loop fuel (add_dwords sum bytes) (rest - read_bytes) ref' in
    if rest == 0 then ok sum else later

pub calculate_checksum_impl : ℕ → Input.Buffer → Result ℕ
calculate_checksum_impl sum buf =
    let size = physical_size buf in
    do
      throw_if (not (is_aligned 4 size)) (checksum unaligned_buffer)
      checksum_loop size sum size (record { buffer = buf; position = 0 })

-- The packed sizes of the file header, the signature and the magic, and the offset of the checksum
-- behind the magic.
pub get_checksum_offset : Image → Result ℕ
get_checksum_offset img = do
  offset ←
      rethrow (do o₁ ← plus 32 img.e_lfanew 20; o₂ ← plus 32 o₁ 4; o₃ ← plus 32 o₂ 2; plus 32 o₃ 62)
        (checksum invalid_checksum_offset)
  throw_if (not (is_aligned 4 offset)) (checksum unaligned_checksum)
  ok offset

-- The loop over the section data: the checksum and the file size.
pub checksum_sections : ℕ → ℕ → List Input.Buffer → Result (ℕ × ℕ)
checksum_sections sum file_size [] = ok (sum, file_size)
checksum_sections sum file_size (buf ∷ bufs) = do
  sum' ← calculate_checksum_impl sum buf
  checksum_sections sum' (add_wrap 64 file_size (physical_size buf)) bufs

pub finalize : ℕ → ℕ → ℕ
finalize sum file_size =
    let s₁ = add_wrap 64 (bit_and sum 0xffff) (sum / 2 ^ 16) in
    let s₂ = add_wrap 64 s₁ (s₁ / 2 ^ 16) in cast 32 (add_wrap 64 (bit_and s₂ 0xffff) file_size)

pub calculate_checksum : Image → Result ℕ
calculate_checksum img = do
  offset ← get_checksum_offset img
  before ← rethrow (reduce img.full_headers_buffer 0 offset) (checksum invalid_checksum_offset)
  after ←
      rethrow (reduce_from img.full_headers_buffer (offset + 4)) (checksum invalid_checksum_offset)
  sum₁ ← calculate_checksum_impl 0 before
  sum₂ ← calculate_checksum_impl sum₁ after
  let headers_size = physical_size img.full_headers_buffer
  (sum₃, file_size) ←
      if Input.size img.full_sections_buffer != 0
      then checksum_sections sum₂ headers_size (img.full_sections_buffer ∷ [])
      else checksum_sections sum₂ headers_size img.section_data_list
  sum₄ ← calculate_checksum_impl sum₃ img.overlay
  ok (finalize sum₄ (add_wrap 64 file_size (physical_size img.overlay)))
