-- ===== src/Relocations/Rebase.antt =====
-- src/relocations/image_rebase.cpp: the image moves to another base. A call gives the image behind
-- it and how it ends: `none`, or the code that it throws.
pub mod Laws
mod Tests
use pe_bliss.Base.{
  ℕ, ◌*◌, Bool, true, false, not, Option, none, some, List, [], ◌∷◌, ◌==◌, if◌then◌else◌,
}
use pe_bliss.Base.Words.{cast, sub_wrap}
use pe_bliss.Errors.{
  Error, Result, ok, err, ◌>>=◌, or_throw, rethrow, rebase, invalid_relocation_address,
  unable_to_rebase_inexistent_data,
}
use pe_bliss.Utilities.Math.{add_if_safe}
use pe_bliss.Core.OptionalHeader.{set_raw_image_base}
use pe_bliss.Image.Layout.{Image}
use pe_bliss.Packed.Struct.{deserialize, serialize}
use pe_bliss.Image.Structures.{struct_from_rva}
use pe_bliss.Image.Writes.{struct_to_rva}
use pe_bliss.Relocations.Entry.{RelocationEntry, get_address, apply_to, get_affected_size_in_bytes}
use pe_bliss.Relocations.Builder.{BaseRelocation}

pub record RebaseOptions : Type 0 where
  pub new_base : ℕ
  pub ignore_virtual_data : Bool

abbrev pub Step : Type 0
Step = Image × Option Error

abbrev pub thrown_by {ℓ} : {A : Type ℓ} → Result A → Option Error
thrown_by (ok a) = none
thrown_by (err e) = some e

-- The relocated bytes with the count of the physical ones, and their address, for a value of
-- `sz` bytes.
unfoldable pub relocated_value :
    Image → ℕ → ℕ → ℕ → RelocationEntry → Bool → Result (ℕ × (ℕ × List ℕ))
relocated_value img sz base_rva base_diff entry ignore_virtual_data = do
  rva ← or_throw (add_if_safe 32 base_rva (get_address entry)) (rebase invalid_relocation_address)
  got ←
      rethrow (struct_from_rva img rva sz true ignore_virtual_data)
        (rebase unable_to_rebase_inexistent_data)
  value ← apply_to entry (deserialize got.1) base_diff img.machine
  ok (rva, (got.0, serialize sz (cast (8 * sz) value)))

unfoldable pub process_relocation : Image → ℕ → ℕ → ℕ → RelocationEntry → Bool → Step
process_relocation img sz base_rva base_diff entry ignore_virtual_data =
    elim (relocated_value img sz base_rva base_diff entry ignore_virtual_data) [
      | err e ↦ (img, some e)
      | ok (rva, (physical, value)) ↦
          let written = struct_to_rva img rva value physical true (not ignore_virtual_data) false in
          (written.0, thrown_by written.1)
    ]

-- The switch over the size that an entry affects.
unfoldable pub relocate_entry : Image → ℕ → ℕ → RelocationEntry → Bool → Step
relocate_entry img base_rva base_diff entry ignore_virtual_data =
    elim (get_affected_size_in_bytes entry img.machine) [
      | err e ↦ (img, some e)
      | ok sz ↦
          if sz == 2
          then process_relocation img 2 base_rva base_diff entry ignore_virtual_data
          else (if sz == 4
              then process_relocation img 4 base_rva base_diff entry ignore_virtual_data
              else (if sz == 8
                  then process_relocation img 8 base_rva base_diff entry ignore_virtual_data
                  else (img, none)))
    ]

abbrev pub then_step : Step → (Image → Step) → Step
then_step (img, some e) rest = (img, some e)
then_step (img, none) rest = rest img

unfoldable pub relocate_entries : ℕ → ℕ → Bool → List RelocationEntry → Image → Step
relocate_entries base_rva base_diff ignore [] img = (img, none)
relocate_entries base_rva base_diff ignore (entry ∷ entries) img =
    then_step (relocate_entry img base_rva base_diff entry ignore)
      (relocate_entries base_rva base_diff ignore entries)

unfoldable pub relocate_blocks : ℕ → Bool → List BaseRelocation → Image → Step
relocate_blocks base_diff ignore [] img = (img, none)
relocate_blocks base_diff ignore (basereloc ∷ relocs) img =
    then_step
      (relocate_entries basereloc.virtual_address base_diff ignore basereloc.relocations img)
      (relocate_blocks base_diff ignore relocs)

-- The loops that make sure that all entries are supported: the first code that they throw.
unfoldable pub check_entries : ℕ → List RelocationEntry → Option Error
check_entries machine [] = none
check_entries machine (entry ∷ entries) = elim (get_affected_size_in_bytes entry machine) [
  | err e ↦ some e
  | ok sz ↦ check_entries machine entries
]

unfoldable pub check_blocks : ℕ → List BaseRelocation → Option Error
check_blocks machine [] = none
check_blocks machine (basereloc ∷ relocs) = elim (check_entries machine basereloc.relocations) [
  | some e ↦ some e
  | none ↦ check_blocks machine relocs
]

unfoldable pub with_base : ℕ → Image → Step
with_base new_base img =
    (record img { optional_header = set_raw_image_base img.optional_header new_base }, none)

-- `rebase_impl`
pub rebase_image : Image → List BaseRelocation → RebaseOptions → Step
rebase_image img relocs options =
    let base_diff = sub_wrap 64 options.new_base img.optional_header.image_base in
    if base_diff == 0 then (img, none) else (elim (check_blocks img.machine relocs) [
      | some e ↦ (img, some e)
      | none ↦
          then_step (relocate_blocks base_diff options.ignore_virtual_data relocs img)
            (with_base options.new_base)
    ])
