-- ===== src/Buffers/Samples.antt =====
-- A file of six bytes, a section of it and a virtual buffer on that, for the tests.
use pe_bliss.Base.{[], ◌∷◌, arith, refl}
use pe_bliss.Buffers.Input.{Buffer, container, section, virtual}
use pe_bliss.Buffers.Input.Contents.{IsValid, contents, physical}
use pe_bliss.Buffers.Reader.{Reader}
use pe_bliss.Buffers.Reader.Laws.{IsPositioned}

abbrev pub file : Buffer
file = container (10 ∷ 11 ∷ 12 ∷ 13 ∷ 14 ∷ 15 ∷ []) 0 0

abbrev pub part : Buffer
part = section file 2 3 0 2 2

-- The bytes 12, 13 and 14 of the file and two zeros.
abbrev pub padded : Buffer
padded = virtual part 2 2 2

pub file-IsValid : IsValid file
file-IsValid = omega arith

pub part-IsValid : IsValid part
unfolding contents physical
part-IsValid = (file-IsValid, omega arith, refl)

pub padded-IsValid : IsValid padded
unfolding contents
padded-IsValid = (part-IsValid, omega arith)

abbrev pub reader : Reader
reader = record { buffer = padded; position = 1 }

pub reader-IsPositioned : IsPositioned reader
unfolding contents
reader-IsPositioned = record { valid = padded-IsValid; within = omega arith }
