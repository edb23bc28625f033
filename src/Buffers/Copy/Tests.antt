-- ===== src/Buffers/Copy/Tests.antt =====
-- A copy of eight bytes, from the middle of a buffer to the middle of another.
use pe_bliss.Base.{◌+◌, ◌≤◌, ◌<◌, ◌≡◌, [], ◌∷◌, arith, length}
use pe_bliss.Base.Loops.{done}
use pe_bliss.Errors.{ok, err, generic, buffer_overrun}
use pe_bliss.Buffers.Input.{container}
use pe_bliss.Buffers.Input.Contents.{contents}
use pe_bliss.Buffers.Reader.{Reader}
use pe_bliss.Buffers.Output.{Output, memory}
use pe_bliss.Buffers.Output.Laws.{written}
use pe_bliss.Buffers.Copy.{copy}
use pe_bliss.Buffers.Copy.Laws.{part_of, copy_lem}

abbrev source : Reader
source = record {
  buffer = container (1 ∷ 2 ∷ 3 ∷ 4 ∷ 5 ∷ 6 ∷ 7 ∷ 8 ∷ 9 ∷ 10 ∷ []) 0 0;
  position = 1;
}

abbrev target : Output
target = memory (0 ∷ 0 ∷ 0 ∷ 0 ∷ []) 2

copy_lem_example :
    (1 + 8 ≤ length (contents source.buffer)
      → (copy source target 8
          ≡ ok (done ((record source { position = 1 + 8 }, written target (part_of source 8)), 8))))
    × (length (contents source.buffer) < 1 + 8
        → copy source target 8 ≡ err (generic buffer_overrun))
unfolding contents
copy_lem_example =
    copy_lem source target 8 (record { valid = omega arith; within = omega arith }) (omega arith)
      (omega arith, omega arith)
