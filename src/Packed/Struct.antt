-- ===== src/Packed/Struct.antt =====
-- Packed structures (include/pe_bliss2/packed_struct.h): a structure is the list of its bytes, with
-- the count of physical ones; `deserialize` is the value of a number in it
-- (include/pe_bliss2/detail/packed_serialization.h).
pub mod Numbers
pub mod Fields
use pe_bliss.Base.{ℕ, zero, suc, ◌+◌, ◌*◌, ◌/◌, ◌%◌, Bool, not, ◌&&◌, List, [], ◌∷◌, ◌!=◌}
use pe_bliss.Errors.{Result, ok, ◌>>=◌, ◌>>◌, throw_if, generic, buffer_overrun}
use pe_bliss.Buffers.Reader.{Reader, read}

-- A little-endian number.
unfoldable pub deserialize : List ℕ → ℕ
deserialize [] = 0
deserialize (x ∷ xs) = x + 256 * deserialize xs

-- `size` bytes of a number, the lowest first.
unfoldable pub serialize : ℕ → ℕ → List ℕ
serialize zero value = []
serialize (suc size) value = value % 256 ∷ serialize size (value / 256)

-- The method `deserialize` of a structure of `packed_size` bytes.
unfoldable pub deserialize_struct : Reader → ℕ → Bool → Result ((ℕ × List ℕ) × Reader)
deserialize_struct buf packed_size allow_virtual_data = do
  got ← read buf packed_size
  throw_if (not allow_virtual_data && got.0.0 != packed_size) (generic buffer_overrun)
  ok got
