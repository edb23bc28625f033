-- ===== src/Buffers/Tests.antt =====
-- Reads through a section and a virtual buffer, and the theorems at them.
use pe_bliss.Base.{◌+◌, ◌≤◌, ◌<◌, ◌≡◌, refl, [], ◌∷◌, arith, length, take, drop}
use pe_bliss.Errors.{Error, ok, err}
use pe_bliss.Buffers.Input.{Buffer, read, absolute_offset, relative_offset}
use pe_bliss.Buffers.Input.Contents.{contents, physical, IsValid}
use pe_bliss.Buffers.Input.Slice.{slice}
use pe_bliss.Buffers.Input.Read.{read-slice}
use pe_bliss.Buffers.Views.{reduce, reduce_section}
use pe_bliss.Buffers.Views.Laws.{section_of, reduce_lem, reduce_section_lem}
use pe_bliss.Buffers.Samples.{file, padded, file-IsValid, padded-IsValid}

-- Two bytes of the file, and a byte behind its section.
read_run : slice (contents padded) (physical padded) 1 3 ≡ ok (2, 13 ∷ 14 ∷ 0 ∷ [])
unfolding contents physical
read_run = refl

read-slice_example : read padded 1 3 ≡ slice (contents padded) (physical padded) 1 3
read-slice_example = read-slice padded 1 3 padded-IsValid (omega arith)

reduce_lem_example :
    (2 + 3 ≤ length (contents file)
      → (s : Buffer) × (reduce file 2 3 ≡ ok s)
        × IsValid s
        × (contents s ≡ take 3 (drop 2 (contents file)))
        × (absolute_offset s ≡ 2 + absolute_offset file))
    × (length (contents file) < 2 + 3 → (e : Error) × (reduce file 2 3 ≡ err e))
unfolding absolute_offset relative_offset
reduce_lem_example =
    reduce_lem file 2 3 file-IsValid (omega arith)
      (omega arith, omega arith, omega arith, omega arith)

reduce_section_lem_example :
    (1 + 2 ≤ 3
      → (s : Buffer) × (reduce_section file 2 3 1 2 ≡ ok s)
        × IsValid s
        × (contents s ≡ take 2 (drop 1 (contents (section_of file 2 3)))))
    × (3 < 1 + 2 → (e : Error) × (reduce_section file 2 3 1 2 ≡ err e))
unfolding absolute_offset relative_offset contents
reduce_section_lem_example =
    reduce_section_lem file 2 3 1 2 file-IsValid (omega arith) (omega arith) (omega arith)
      (omega arith, omega arith, omega arith, omega arith)
