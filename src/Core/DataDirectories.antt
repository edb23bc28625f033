-- ===== src/Core/DataDirectories.antt =====
-- class data_directories (include/pe_bliss2/core/data_directories.h,
-- src/core/data_directories.cpp), over the list of its directories. A directory type is its index.
pub mod Strip
pub mod Bytes
use pe_bliss.Base.{
  ℕ, zero, suc, ◌-◌, Bool, false, ◌||◌, Option, none, some, List, [], ◌∷◌, ltb, leb, ◌!=◌,
  if◌then◌else◌, length, get_elem?, take, reverse, replicate, ◌++◌,
}

pub record DataDirectory : Type 0 where
  pub virtual_address : ℕ
  pub size : ℕ

abbrev pub DataDirectories : Type 0
DataDirectories = List DataDirectory

abbrev pub basereloc : ℕ
basereloc = 5

unfoldable pub has_directory : DataDirectories → ℕ → Bool
has_directory ds type = ltb type (length ds)

-- `none` is the exception of `at`, for an index past the end.
unfoldable pub get_directory : DataDirectories → ℕ → Option DataDirectory
get_directory ds type = get_elem? ds type

unfoldable pub has_nonempty_directory : DataDirectories → ℕ → Bool
has_nonempty_directory ds type = elim (get_elem? ds type) [
  | none ↦ false
  | some d ↦ d.virtual_address != 0
]

abbrev pub no_directory : DataDirectory
no_directory = record { virtual_address = 0; size = 0 }

-- `resize`, which fills with zeros.
pub set_size : DataDirectories → ℕ → DataDirectories
set_size ds size = take size ds ++ replicate (size - length ds) no_directory

reset_at : DataDirectories → ℕ → DataDirectories
reset_at [] i = []
reset_at (d ∷ ds) zero = no_directory ∷ ds
reset_at (d ∷ ds) (suc i) = d ∷ reset_at ds i

pub remove_directory : DataDirectories → ℕ → DataDirectories
remove_directory ds type = if has_nonempty_directory ds type then reset_at ds type else ds

-- The search of `strip_data_directories` from the back: how many directories it passes.
unfoldable pub strip_count : ℕ → ℕ → DataDirectories → ℕ
strip_count current_count min_count [] = 0
strip_count current_count min_count (d ∷ ds) =
    if d.virtual_address != 0 || leb current_count min_count
    then 0
    else suc (strip_count (current_count - 1) min_count ds)

unfoldable pub strip_data_directories : DataDirectories → ℕ → DataDirectories × ℕ
strip_data_directories ds min_count =
    let current_count = length ds in
    if leb current_count min_count
    then (ds, current_count)
    else (let kept = take (current_count - strip_count current_count min_count (reverse ds)) ds in
        (kept, length kept))
