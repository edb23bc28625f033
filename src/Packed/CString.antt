-- ===== src/Packed/CString.antt =====
-- packed_c_string_base (include/pe_bliss2/packed_c_string.h, src/packed_c_string.cpp): a string
-- that a zero ends, of characters of `width` bytes, which is one or two. `std::string::max_size`
-- bounds no string here. Its position in the buffer is not modelled.
pub mod Laws
mod Tests
use pe_bliss.Base.{
  ℕ, zero, suc, ◌+◌, ◌-◌, ◌*◌, Bool, true, false, not, ◌&&◌, ◌||◌, List, [], ◌∷◌, ◌++◌, ltb, ◌==◌,
  ◌!=◌, if◌then◌else◌, length,
}
use pe_bliss.Base.Integer.{pos}
use pe_bliss.Base.Loops.{Run, out_of_fuel, done}
use pe_bliss.Errors.{Result, ok, err, ◌>>=◌, ◌>>◌, throw_if, generic, buffer_overrun}
use pe_bliss.Buffers.Reader.{Reader, read, advance_rpos, size}
use pe_bliss.Buffers.Output.{Output, write}
use pe_bliss.Packed.Struct.{deserialize, serialize}

pub record CString : Type 0 where
  pub value : List ℕ
  pub virtual_nullbyte : Bool

-- The loop ends at a zero, or where a character is not all in the file: there with what is left of
-- the limit, the count of bytes of the file and the character.
pub data Scan : Type 0 where
  terminated : List ℕ → Reader → Scan
  in_virtual : List ℕ → Reader → ℕ → ℕ → ℕ → Scan

-- A character that was read, and the rest of the loop.
pub scan_char :
    (Reader → ℕ → List ℕ → Result (Run Scan))
    → ℕ
    → ℕ
    → List ℕ
    → (ℕ × List ℕ) × Reader
    → Result (Run Scan)
scan_char rest width max_physical_size value ((read_bytes, bytes), after) =
    let ch = deserialize bytes in
    if read_bytes == width
    then (if ltb max_physical_size width
        then err (generic buffer_overrun)
        else (if ch == 0
            then ok (done (terminated value after))
            else rest after (max_physical_size - width) (value ++ (ch ∷ []))))
    else ok (done (in_virtual value after max_physical_size read_bytes ch))

pub scan : ℕ → ℕ → Reader → ℕ → List ℕ → Result (Run Scan)
scan zero width buf max_physical_size value = ok out_of_fuel
scan (suc fuel) width buf max_physical_size value =
    read buf width >>= scan_char (scan fuel width) width max_physical_size value

-- The string of a scan.
pub end_string : ℕ → Bool → Scan → Result (CString × Reader)
end_string width allow_virtual_data (terminated value after) =
    ok (record { value = value; virtual_nullbyte = false }, after)
end_string width allow_virtual_data (in_virtual value after left read_bytes ch) = do
  throw_if (not allow_virtual_data) (generic buffer_overrun)
  throw_if (ltb left width) (generic buffer_overrun)
  (if read_bytes != 0 && ch != 0
      then (do
        moved ← advance_rpos after (pos width)
        throw_if (ltb (left - width) width) (generic buffer_overrun)
        ok (record { value = value ++ (ch ∷ []); virtual_nullbyte = true }, moved))
      else ok (record { value = value; virtual_nullbyte = true }, after))

abbrev pub ended : ℕ → Bool → Run Scan → Result (Run (CString × Reader))
ended width allow_virtual_data out_of_fuel = ok out_of_fuel
ended width allow_virtual_data (done s) = end_string width allow_virtual_data s >>= λ r. ok (done r)

-- The method `deserialize`, with the reader behind it. Each round moves the reader on, or throws.
pub deserialize_string : ℕ → Reader → Bool → ℕ → Result (Run (CString × Reader))
deserialize_string width buf allow_virtual_data max_physical_size =
    scan (suc (size buf)) width buf max_physical_size [] >>= ended width allow_virtual_data

unfoldable pub serialize_chars : ℕ → List ℕ → List ℕ
serialize_chars width [] = []
serialize_chars width (ch ∷ chars) = serialize width ch ++ serialize_chars width chars

-- The method `serialize`, with the count that it returns: the characters, and the zero behind the
-- data of a `std::basic_string`.
pub serialize_string : ℕ → CString → Output → Bool → Result (Output × ℕ)
serialize_string width str buf write_virtual_part =
    let write_nullbyte = not str.virtual_nullbyte || write_virtual_part in
    let bytes =
      serialize_chars width (if write_nullbyte then str.value ++ (0 ∷ []) else str.value) in
    do
      after ← write buf bytes
      ok (after, (if write_nullbyte then length str.value + 1 else length str.value) * width)

-- The method `serialize` to memory of `max_size` bytes: the count and the bytes.
unfoldable pub serialize_to_memory : ℕ → CString → ℕ → Bool → Result (ℕ × List ℕ)
serialize_to_memory width str max_size write_virtual_part =
    let write_nullbyte = not str.virtual_nullbyte || write_virtual_part in
    let sz =
      if write_nullbyte then length str.value * width + width else length str.value * width in
    do
      throw_if (ltb max_size sz) (generic buffer_overrun)
      ok (sz, serialize_chars width (if write_nullbyte then str.value ++ (0 ∷ []) else str.value))

pub physical_size : ℕ → CString → ℕ
physical_size width str =
    (if str.virtual_nullbyte then length str.value else length str.value + 1) * width

pub data_size : ℕ → CString → ℕ
data_size width str = (length str.value + 1) * width
