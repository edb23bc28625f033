-- ===== src/Buffers/RefBuffer/Laws.antt =====
-- About copies of a buffer and what is written of them.
use native.Mathlib.Nat.{mod-eq_of_lt}
use mathlib.Core.List.{append-nil}
use pe_bliss.Base.{
  ℕ, ◌+◌, ◌-◌, ◌%◌, ◌^◌, ◌≤◌, ◌<◌, ◌≡◌, refl, sym, ◌∙◌, List, [], ◌++◌, arith, ltb, ◌==◌, ◌!=◌,
  if◌then◌else◌, length, take, drop, min, replicate, length-take, length-drop, length-append,
  length-replicate, dec_lt, lt→ltb, le→ltb, true, false, Bool,
}
use pe_bliss.Base.Slices.{
  drop-drop, drop-length, replicate-add, drop-take, drop-append_within, drop-replicate,
  take-replicate, take-append-drop,
}
use pe_bliss.Base.Loops.{done}
use pe_bliss.Errors.{
  ok, err, ◌>>=◌, ◌>>◌, throw_if, ref_buffer, unable_to_read_data, generic, integer_overflow,
  buffer_overrun,
}
use pe_bliss.Buffers.Input.{
  Buffer, size, container, section, virtual, absolute_offset, relative_offset, physical_size,
  virtual_size, read,
}
use pe_bliss.Buffers.Input.Contents.{
  contents, physical, IsValid, length-contents-lt, physical_size_lem, size-length, physical-le,
  virtual_size_lem,
}
use pe_bliss.Buffers.Input.Slice.{slice_in}
use pe_bliss.Buffers.Input.Read.{read-slice}
use pe_bliss.Buffers.Views.{make_virtual}
use pe_bliss.Buffers.RefBuffer
use pe_bliss.Buffers.RefBuffer.{
  RefBuffer, copied, referenced, contents_of, read_buffer, size_to_write, written_count, serialize,
  serialize_until, npos,
}
use pe_bliss.Buffers.Output.{Output}
use pe_bliss.Buffers.Output.Laws.{HasRoom, written, written-nil}
use pe_bliss.Buffers.Copy.{copy}
use pe_bliss.Buffers.Copy.Laws.{copy_lem}
use pe_bliss.Buffers.Reader.{set_rpos}
use pe_bliss.Buffers.Reader
use pe_bliss.Utilities.Math.{is_sum_safe}
use pe_bliss.Utilities.Math.Laws.{is_sum_safe_iff}
use pe_bliss.Base.{leb, Bool-cases, inl, inr}

-- A valid buffer with this abstract view and these offsets.
abbrev pub IsView : Buffer → List ℕ → ℕ → ℕ → ℕ → Type 0
IsView b bytes n absolute relative =
    IsValid b
    × (contents b ≡ bytes)
    × (physical b ≡ n)
    × (absolute_offset b ≡ absolute)
    × (relative_offset b ≡ relative)

-- The bytes behind the physical ones are zeros.
drop-contents :
    (b : Buffer)
    → IsValid b
    → drop (physical b) (contents b) ≡ replicate (length (contents b) - physical b) 0
unfolding contents physical
drop-contents (container bytes _ _) v =
    let nothing : length bytes - length bytes ≡ 0 = omega arith in
    rw nothing (drop-length (length bytes) bytes (omega arith))
drop-contents (section b offset sz virt _ _) (v, fits, e) =
    let bytes = contents b in
    let m = min sz (physical b - offset) in
    let whole : length (take sz (drop offset bytes)) ≡ sz =
      omega (arith, length-take sz (drop offset bytes), length-drop offset bytes) in
    rw (whole, drop-take m sz (drop offset bytes), drop-drop m offset bytes)
      (elim (dec_lt (physical b - offset) sz) [
        | no all ↦ let nothing : sz - m ≡ 0 = omega arith in rw nothing
        | yes some_left ↦
            let past = m + offset - physical b in
            let from : m + offset ≡ past + physical b = omega arith in
            rw (
              from,
              sym (drop-drop past (physical b) bytes),
              drop-contents b v,
              drop-replicate {A = ℕ} past (length bytes - physical b) 0,
              take-replicate {A = ℕ} (sz - m) (length bytes - physical b - past) 0 (omega arith),
            )
      ])
drop-contents (virtual b additional _ _) (v, fits) =
    let bytes = contents b in
    let le = physical-le b in
    let total : length (bytes ++ replicate additional 0) - physical b
        ≡ length bytes - physical b + additional =
      omega (
        arith,
        length-append bytes (replicate additional 0),
        length-replicate {A = ℕ} additional 0,
      ) in
    rw (total, drop-append_within (physical b) bytes (replicate additional 0) le, drop-contents b v)
      (replicate-add (length bytes - physical b) additional 0)

-- The view of a copy with these bytes of the file.
pub copied-IsView :
    (bytes : List ℕ) (absolute relative virt : ℕ)
    → length bytes + virt < 2 ^ 64
    → IsView
        (contents_of (copied bytes absolute relative virt))
        (bytes ++ replicate virt 0)
        (length bytes)
        absolute
        relative
unfolding contents_of contents physical make_virtual absolute_offset relative_offset
copied-IsView bytes absolute relative virt word = elim (dec_lt 0 virt) [
  | no none_virtual ↦
      let nothing : virt ≡ 0 = omega arith in
      rw nothing (omega arith, sym (append-nil bytes), refl, refl, refl)
  | yes some_virtual ↦
      let more : (virt != 0) ≡ true = ground arith in
      rw more ((omega arith, word), refl, refl, refl, refl)
]

take-all :
    (b : Buffer)
    → IsValid b
    → (if physical b != 0
        then (read b 0 (physical b) >>= λ got.
            throw_if (got.0 != physical b) (ref_buffer unable_to_read_data) >> ok got.1)
        else ok [])
      ≡ ok (take (physical b) (contents b))
take-all b v =
    let le = physical-le b in
    let short = length-contents-lt b v in
    elim (dec_lt 0 (physical b)) [
      | no nothing ↦ let none_physical : physical b ≡ 0 = omega arith in rw none_physical
      | yes some_left ↦
          let real : min (physical b) (physical b - 0) ≡ physical b = omega arith in
          let not_zero : (physical b != 0) ≡ true = ground arith in
          let same : (physical b != physical b) ≡ false = ground arith in
          rw (
            not_zero,
            read-slice b 0 (physical b) v (omega arith),
            slice_in 0 (physical b) some_left (contents b) (physical b) (omega arith),
            real,
            same,
          )
    ]

-- The copy of a buffer.
abbrev pub copy_of : Buffer → RefBuffer
copy_of b =
    copied (take (physical b) (contents b)) (absolute_offset b) (relative_offset b)
      (length (contents b) - physical b)

pub read_buffer-copy_of : (b : Buffer) → IsValid b → read_buffer b ≡ ok (copy_of b)
unfolding read_buffer
read_buffer-copy_of b v =
    let virt : virtual_size b ≡ length (contents b) - physical b =
      omega (arith, virtual_size_lem b v) in
    rw (physical_size_lem b v, take-all b v, virt)

-- The bytes of the file, and the zeros behind them.
pub contents-parts :
    (b : Buffer)
    → IsValid b
    → take (physical b) (contents b) ++ replicate (length (contents b) - physical b) 0 ≡ contents b
contents-parts b v = rw (sym (drop-contents b v)) (take-append-drop (physical b) (contents b))

-- A valid buffer is copied, and the copy is valid and shows the same bytes, as many of them in the
-- file, at the same offsets.
pub read_buffer_lem :
    (b : Buffer)
    → IsValid b
    → (c : RefBuffer) × (read_buffer b ≡ ok c)
      × IsView (contents_of c) (contents b) (physical b) (absolute_offset b) (relative_offset b)
read_buffer_lem b v =
    let le = physical-le b in
    let short = length-contents-lt b v in
    let long : length (take (physical b) (contents b)) ≡ physical b =
      omega (arith, length-take (physical b) (contents b)) in
    let (valid, shown, in_file, absolute, relative) =
      copied-IsView (take (physical b) (contents b)) (absolute_offset b) (relative_offset b)
        (length (contents b) - physical b) (omega arith) in
    (
      copy_of b,
      read_buffer-copy_of b v,
      (valid, shown ∙ contents-parts b v, in_file ∙ long, absolute, relative),
    )

-- How many bytes can be written: all, or those of the file.
abbrev pub limit : Buffer → Bool → ℕ
limit b true = length (contents b)
limit b false = physical b

size_to_write_lem : (b : Buffer) (all : Bool) → IsValid b → size_to_write b all ≡ limit b all
unfolding size_to_write size physical_size
size_to_write_lem b true v = size-length b v
size_to_write_lem b false v = physical_size_lem b v

limit-le : (b : Buffer) (all : Bool) → limit b all ≤ length (contents b)
limit-le b true = omega arith
limit-le b false = physical-le b

-- What a write of a range of a buffer leaves in an output.
abbrev pub range_written : Output → Buffer → ℕ → ℕ → Output
range_written out b offset sz = written out (take sz (drop offset (contents b)))

copied_range :
    (b : Buffer) (out : Output) (offset sz : ℕ)
    → IsValid b
    → HasRoom out sz
    → offset + sz ≤ length (contents b)
    → (copy (record { buffer = b; position = offset }) out sz >>= λ r. ok (written_count r))
      ≡ ok (done (range_written out b offset sz, sz))
copied_range b out offset sz v room h =
    let short = length-contents-lt b v in
    let (inside, outside) =
      copy_lem (record { buffer = b; position = offset }) out sz
        (record { valid = v; within = omega arith }) (omega arith) room in
    rw (inside h)

-- For a valid buffer and an output with room for the bytes: all bytes are written, or those of the
-- file only, and their count is returned.
pub serialize_lem :
    (ref : RefBuffer) (out : Output) (all : Bool)
    → IsValid (contents_of ref)
    → HasRoom out (limit (contents_of ref) all)
    → serialize ref out all
      ≡ ok (
          done (
            range_written out (contents_of ref) 0 (limit (contents_of ref) all),
            limit (contents_of ref) all,
          ))
unfolding serialize
serialize_lem ref out all v room =
    let b = contents_of ref in
    rw (size_to_write_lem b all v) (elim (dec_lt 0 (limit b all)) [
      | no nothing ↦
          let none_left : limit b all ≡ 0 = omega arith in rw (none_left, written-nil out)
      | yes some_left ↦
          let not_zero : (limit b all == 0) ≡ false = ground arith in
          rw (not_zero, copied_range b out 0 (limit b all) v room (omega (arith, limit-le b all)))
    ])

module _ (ref : RefBuffer) (out : Output) (offset : ℕ) (all : Bool)
    (v : IsValid (contents_of ref)) where
  -- What is left of the buffer, if anything is.
  serialize_rest :
      HasRoom out (limit (contents_of ref) all - offset)
      → serialize_until ref out offset npos all
        ≡ ok (
            done (
              range_written out (contents_of ref) offset (limit (contents_of ref) all - offset),
              limit (contents_of ref) all - offset,
            ))
  unfolding serialize_until set_rpos Reader.size
  serialize_rest room =
      let b = contents_of ref in
      let le = limit-le b all in
      let short = length-contents-lt b v in
      let left = limit b all - offset in
      rw (size_to_write_lem b all v) (elim (dec_lt offset (limit b all)) [
        | no nothing ↦
            let none_left : left ≡ 0 = omega arith in
            let none_left' : (if ltb (limit b all) offset then 0 else limit b all - offset) ≡ 0 =
              ground arith in
            rw (none_left', none_left, written-nil out)
        | yes some_left ↦
            let sum : (left + offset) % 2 ^ 64 ≡ limit b all = omega arith in
            let not_zero : (left == 0) ≡ false = ground arith in
            rw
              (
                le→ltb (limit b all) offset (omega arith),
                not_zero,
                sum,
                le→ltb (limit b all) (limit b all) (omega arith),
                size-length b v,
                le→ltb (length (contents b)) offset (omega arith),
              )
              (copied_range b out offset left v room (omega arith))
      ])

  -- A range of a given size.
  serialize_range :
      (sz : ℕ)
      → offset < 2 ^ 64
      → (sz == npos) ≡ false
      → HasRoom out sz
      → serialize_until ref out offset sz all ≡ (
          if leb (2 ^ 64) (sz + offset)
          then err (generic integer_overflow)
          else (if sz == 0
              then ok (done (out, 0))
              else (if ltb (limit (contents_of ref) all) (sz + offset)
                  then err (generic buffer_overrun)
                  else ok (done (range_written out (contents_of ref) offset sz, sz)))))
  unfolding serialize_until set_rpos Reader.size
  serialize_range sz word given room =
      let b = contents_of ref in
      let le = limit-le b all in
      let safe = is_sum_safe_iff 64 sz offset word in
      rw (given, size_to_write_lem b all v)
        (elim (dec_lt (sz + offset) (2 ^ 64)) [
          | no over ↦
              let unsafe : is_sum_safe 64 sz offset ≡ false = ground (arith, safe) in
              let over' : leb (2 ^ 64) (sz + offset) ≡ true = ground arith in rw (unsafe, over')
          | yes fits ↦
              let sum : (sz + offset) % 2 ^ 64 ≡ sz + offset = mod-eq_of_lt fits in
              let fits' : leb (2 ^ 64) (sz + offset) ≡ false = ground arith in
              rw (safe.1 fits, fits')
                (elim (dec_lt 0 sz) [
                  | no nothing ↦ let none_left : (sz == 0) ≡ true = ground arith in rw none_left
                  | yes some_left ↦
                      let not_zero : (sz == 0) ≡ false = ground arith in
                      rw (not_zero, sum)
                        (elim (dec_lt (limit b all) (sz + offset)) [
                          | yes leaves ↦ rw (lt→ltb (limit b all) (sz + offset) leaves)
                          | no inside ↦
                              rw
                                (
                                  le→ltb (limit b all) (sz + offset) (omega arith),
                                  size-length b v,
                                  le→ltb (length (contents b)) offset (omega arith),
                                )
                                (copied_range b out offset sz v room (omega arith))
                        ])
                ])
        ])

-- How many bytes are asked for: the size, or for `npos` all that is left of what may be written.
abbrev pub asked : Buffer → Bool → ℕ → ℕ → ℕ
asked b all offset sz = if sz == npos then limit b all - offset else sz

-- For a valid buffer, a 64-bit offset, every size, `npos` included, and an output with room for
-- what is asked for. With `npos` all that is left behind the offset of what may be written is
-- written and counted, which is nothing past its end. With another size the range is written and
-- counted if it lies in what may be written, an empty range with a 64-bit end writes nothing, and
-- a range that leaves what may be written or has no 64-bit end is refused.
pub serialize_until_lem :
    (ref : RefBuffer) (out : Output) (offset sz : ℕ) (all : Bool)
    → IsValid (contents_of ref)
    → offset < 2 ^ 64
    → HasRoom out (asked (contents_of ref) all offset sz)
    → serialize_until ref out offset sz all ≡ (
        if sz == npos
        then ok (
            done (
              range_written out (contents_of ref) offset (limit (contents_of ref) all - offset),
              limit (contents_of ref) all - offset,
            ))
        else (if leb (2 ^ 64) (sz + offset)
            then err (generic integer_overflow)
            else (if sz == 0
                then ok (done (out, 0))
                else (if ltb (limit (contents_of ref) all) (sz + offset)
                    then err (generic buffer_overrun)
                    else ok (done (range_written out (contents_of ref) offset sz, sz))))))
serialize_until_lem ref out offset sz all v word room = elim (Bool-cases (sz == npos)) [
  | inl rest ↦
      let is : sz ≡ npos = ground arith in
      rw is (serialize_rest ref out offset all v (rw rest at room))
  | inr given ↦ rw given (serialize_range ref out offset all v sz word given (rw given at room))
]

-- A valid buffer is kept or copied: both show it.
pub deserialize-IsView :
    (b : Buffer) (copy_memory : Bool)
    → IsValid b
    → (c : RefBuffer) × (RefBuffer.deserialize b copy_memory ≡ ok c)
      × IsView (contents_of c) (contents b) (physical b) (absolute_offset b) (relative_offset b)
unfolding RefBuffer.deserialize contents_of
deserialize-IsView b true v = read_buffer_lem b v
deserialize-IsView b false v = (referenced b, refl, (v, refl, refl, refl, refl))
