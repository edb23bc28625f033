-- ===== src/Image/Writes/Tests.antt =====
-- Two bytes written to the headers of an executable.
use pe_bliss.Base.{ℕ, ◌+◌, ◌≡◌, refl, inl, List, [], ◌∷◌, true, false, arith, length}
use pe_bliss.Errors.{ok}
use pe_bliss.Buffers.Input.{Buffer}
use pe_bliss.Buffers.Input.Contents.{contents, physical}
use pe_bliss.Buffers.Output.{overwrite}
use pe_bliss.Image.Samples.{program, headers}
use pe_bliss.Image.Layout.{Image}
use pe_bliss.Image.SectionData.Laws.{IsLoaded}
use pe_bliss.Image.SectionData.Samples.{program-IsLoaded}
use pe_bliss.Image.Structures.{struct_from_rva}
use pe_bliss.Image.Writes.{set_buffer, place_of, struct_to_rva}
use pe_bliss.Image.Writes.Laws.{struct_from_rva-struct_to_rva}

abbrev value : List ℕ
value = 1 ∷ 2 ∷ []

struct_from_rva-struct_to_rva_example :
    (after : Image) × (c : Buffer) × (struct_to_rva program 4 value (length value) true true false
      ≡ (after, ok (4 + length value)))
    × (struct_from_rva after 4 (length value) true false ≡ ok (length value, value))
    × (after ≡ set_buffer program (place_of program 4) c)
    × (contents c ≡ overwrite 4 value (contents headers))
    × IsLoaded after
unfolding contents physical
struct_from_rva-struct_to_rva_example =
    struct_from_rva-struct_to_rva program program-IsLoaded 4 (omega arith) headers 4 value true true
      false false (inl (refl, refl, refl, omega arith)) (omega arith) (omega arith) (omega arith)
