-- ===== src/Core/DataDirectories/Bytes.antt =====
-- The data directories in a buffer (src/core/data_directories.cpp): the read ends at a directory
-- with virtual bytes, and the others are zeros.
use pe_bliss.Base.{ℕ, zero, suc, Bool, List, [], ◌∷◌, ltb, if◌then◌else◌, replicate}
use pe_bliss.Errors.{
  Result, ok, err, ◌>>=◌, rethrow, data_directories, unable_to_read_data_directory,
}
use pe_bliss.Buffers.Reader.{Reader}
use pe_bliss.Packed.Struct.{deserialize_struct}
use pe_bliss.Packed.Struct.Fields.{field}
use pe_bliss.Core.DataDirectories.{DataDirectory, DataDirectories, no_directory}

abbrev pub packed_size : ℕ
packed_size = 8

unfoldable pub directory_of : List ℕ → DataDirectory
directory_of bytes = record { virtual_address = field bytes 0 4; size = field bytes 4 4 }

unfoldable pub deserialize_directory : Reader → Bool → Result ((ℕ × DataDirectory) × Reader)
deserialize_directory buf allow_virtual_data = do
  got ←
      rethrow (deserialize_struct buf packed_size allow_virtual_data)
        (data_directories unable_to_read_data_directory)
  ok ((got.0.0, directory_of got.0.1), got.1)

-- A directory that was read, or could not be read, and the rest of the loop with `left` others.
unfoldable pub directory_then :
    (Reader → DataDirectories × Result Reader)
    → ℕ
    → Result ((ℕ × DataDirectory) × Reader)
    → DataDirectories × Result Reader
directory_then rest left (err e) = (replicate (suc left) no_directory, err e)
directory_then rest left (ok ((physical, directory), after)) =
    if ltb physical packed_size
    then (directory ∷ replicate left no_directory, ok after)
    else (let (directories, r) = rest after in (directory ∷ directories, r))

-- The directories that the call leaves, also where it throws.
unfoldable pub deserialize_directories : ℕ → Reader → Bool → DataDirectories × Result Reader
deserialize_directories zero buf allow_virtual_data = ([], ok buf)
deserialize_directories (suc left) buf allow_virtual_data =
    directory_then (λ after. deserialize_directories left after allow_virtual_data) left
      (deserialize_directory buf allow_virtual_data)
