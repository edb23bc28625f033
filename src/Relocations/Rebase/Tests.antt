-- ===== src/Relocations/Rebase/Tests.antt =====
-- A rebase of an executable by 0x10000, and one of its relocations.
use pe_bliss.Base.{◌+◌, ◌*◌, ◌≡◌, ◌≢◌, refl, inl, none, some, [], true, arith, take, drop}
use pe_bliss.Base.Words.{cast}
use pe_bliss.Errors.{Error, ok}
use pe_bliss.Buffers.Input.{Buffer}
use pe_bliss.Buffers.Input.Contents.{contents, physical}
use pe_bliss.Buffers.Output.{overwrite}
use pe_bliss.Image.Samples.{program, headers}
use pe_bliss.Image.Layout.{Image}
use pe_bliss.Image.SectionData.Laws.{IsLoaded}
use pe_bliss.Image.SectionData.Samples.{program-IsLoaded}
use pe_bliss.Packed.Struct.{deserialize, serialize}
use pe_bliss.Image.Structures.{struct_from_rva}
use pe_bliss.Image.Writes.{set_buffer, place_of}
use pe_bliss.Relocations.Entry.{RelocationEntry, get_address, get_type, apply_type, apply_to}
use pe_bliss.Relocations.Rebase.{RebaseOptions, process_relocation, rebase_image}
use pe_bliss.Relocations.Rebase.Laws.{
  AllSupported, HeaderAfter, rebase_image_lem, process_relocation_lem,
}

-- A `highlow` entry at 4.
abbrev entry : RelocationEntry
entry = record { descriptor = 0x3004; param = none }

entry_address : get_address entry ≡ 4
unfolding get_address
entry_address = refl

entry_applied :
    apply_to entry (deserialize (take 4 (drop 20 (contents headers)))) 0x10000 0x14c ≡ ok 0x7080707
unfolding apply_to apply_type get_type deserialize contents
entry_applied = refl

process_relocation_lem_example :
    (after : Image) × (process_relocation program 4 16 0x10000 entry true ≡ (after, none))
    × (struct_from_rva after (16 + get_address entry) 4 true true
        ≡ ok (4, serialize 4 (cast (8 * 4) 0x7080707)))
    × ((c : Buffer) × (contents c
          ≡ overwrite 20 (serialize 4 (cast (8 * 4) 0x7080707)) (contents headers))
        × (after ≡ set_buffer program (place_of program (16 + get_address entry)) c))
    × IsLoaded after
unfolding contents physical get_address
process_relocation_lem_example =
    process_relocation_lem program program-IsLoaded 4 16 0x10000 0x7080707 20 entry true headers
      (omega arith) (omega arith) (inl (refl, refl, refl, omega arith)) (omega arith) entry_applied

abbrev options : RebaseOptions
options = record { new_base = 0x410000; ignore_virtual_data = true }

rebase_image_lem_example :
    (options.new_base ≡ program.optional_header.image_base
      → rebase_image program [] options ≡ (program, none))
    × (options.new_base ≢ program.optional_header.image_base
        → (¬ AllSupported program.machine [])
        → (e : Error) × (rebase_image program [] options ≡ (program, some e)))
    × (options.new_base ≢ program.optional_header.image_base
        → HeaderAfter program options.new_base (rebase_image program [] options))
rebase_image_lem_example = rebase_image_lem program [] options (omega arith) (omega arith)
