-- ===== src/Buffers/RefBuffer/Tests.antt =====
-- A section of a buffer with a virtual end: copied, and written.
use pe_bliss.Base.{◌+◌, ◌-◌, ◌^◌, ◌≡◌, true, [], ◌∷◌, arith, ltb, leb, ◌==◌, if◌then◌else◌}
use pe_bliss.Base.Loops.{done}
use pe_bliss.Errors.{ok, err, generic, integer_overflow, buffer_overrun}
use pe_bliss.Buffers.Input.{Buffer, container, virtual, section, absolute_offset, relative_offset}
use pe_bliss.Buffers.Input.Contents.{contents, physical, IsValid}
use pe_bliss.Buffers.Output.{Output, memory}
use pe_bliss.Buffers.RefBuffer.{
  RefBuffer, referenced, contents_of, read_buffer, serialize_until, npos,
}
use pe_bliss.Buffers.RefBuffer.Laws.{
  IsView, limit, range_written, read_buffer_lem, serialize_until_lem,
}

-- Three bytes of the file and two virtual ones.
abbrev tail : Buffer
tail = section (virtual (container (1 ∷ 2 ∷ 3 ∷ 4 ∷ []) 0x200 0) 4 0x200 0) 1 5 2 0x201 1

tail-IsValid : IsValid tail
unfolding contents physical
tail-IsValid = ((omega arith, omega arith), omega arith, omega arith)

read_buffer_lem_example :
    (c : RefBuffer) × (read_buffer tail ≡ ok c)
    × IsView
        (contents_of c)
        (contents tail)
        (physical tail)
        (absolute_offset tail)
        (relative_offset tail)
read_buffer_lem_example = read_buffer_lem tail tail-IsValid

abbrev target : Output
target = memory (0 ∷ []) 1

serialize_until_lem_example : serialize_until (referenced tail) target 1 npos true ≡ (
    if npos == npos
    then ok (
        done (
          range_written target
              (contents_of (referenced tail))
              1
              (limit (contents_of (referenced tail)) true - 1),
          limit (contents_of (referenced tail)) true - 1,
        ))
    else (if leb (2 ^ 64) (npos + 1)
        then err (generic integer_overflow)
        else (if npos == 0
            then ok (done (target, 0))
            else (if ltb (limit (contents_of (referenced tail)) true) (npos + 1)
                then err (generic buffer_overrun)
                else ok
                    (done (range_written target (contents_of (referenced tail)) 1 npos, npos))))))
unfolding contents_of contents
serialize_until_lem_example =
    serialize_until_lem (referenced tail) target 1 npos true tail-IsValid (omega arith)
      (omega arith, omega arith)
