-- ===== src/Image/Structures/Tests.antt =====
-- A structure in the headers of an executable.
use pe_bliss.Base.{◌≡◌, refl, inl, true, false, arith, take, drop}
use pe_bliss.Errors.{ok}
use pe_bliss.Buffers.Input.Contents.{contents, physical}
use pe_bliss.Image.Samples.{program, headers}
use pe_bliss.Image.Structures.{struct_from_rva}
use pe_bliss.Image.Structures.Laws.{struct_from_rva_lem}
use pe_bliss.Image.SectionData.Samples.{program-IsLoaded}

struct_from_rva_lem_example :
    struct_from_rva program 4 2 true false ≡ ok (2, take 2 (drop 4 (contents headers)))
unfolding contents physical
struct_from_rva_lem_example =
    struct_from_rva_lem program program-IsLoaded 4 (omega arith) headers 4 2 true false
      (inl (refl, refl, refl, omega arith)) (omega arith) (omega arith)
