-- ===== src/Buffers/Copy/Laws.antt =====
-- About a copy: it is one read and one write.
use native.Mathlib.Nat.{mod-eq_of_lt}
use pe_bliss.Base.{
  ℕ, zero, suc, ◌+◌, ◌-◌, ◌%◌, ◌^◌, ◌≤◌, ◌<◌, ◌≡◌, ap, sym, subst, ◌∙◌, false, List, ◌++◌, arith,
  ◌==◌, length, take, drop, min, length-take, length-drop, dec_lt,
}
use pe_bliss.Base.Slices.{take-add, drop-drop}
use pe_bliss.Base.Loops.{done}
use pe_bliss.Errors.{ok, err, generic, buffer_overrun}
use pe_bliss.Buffers.Input.Contents.{contents, physical, IsValid, length-contents-lt}
use pe_bliss.Buffers.Input.Slice.{slice_in, slice_out}
use pe_bliss.Buffers.Input.Read.{read-slice}
use pe_bliss.Buffers.Reader.{Reader, read}
use pe_bliss.Buffers.Reader.Laws.{IsPositioned}
use pe_bliss.Buffers.Output.{Output}
use pe_bliss.Buffers.Output.Laws.{
  written, written-nil, HasRoom, write-written, written-written, HasRoom-written, HasRoom-less,
  HasRoom-wpos,
}
use pe_bliss.Buffers.Copy.{copy_round, copy_loop, copy}

-- What a read of `count` bytes of the reader's buffer gives.
abbrev pub part_of : Reader → ℕ → List ℕ
part_of r count = take count (drop r.position (contents r.buffer))

length-part_of :
    (r : Reader) (count : ℕ)
    → r.position + count ≤ length (contents r.buffer)
    → length (part_of r count) ≡ count
length-part_of r count h = omega (
  arith,
  length-take count (drop r.position (contents r.buffer)),
  length-drop r.position (contents r.buffer),
)

pub read_inside :
    (r : Reader) (count : ℕ)
    → IsValid r.buffer
    → 0 < count
    → r.position + count ≤ length (contents r.buffer)
    → read r count
      ≡ ok (
        (min count (physical r.buffer - r.position), part_of r count),
        record r { position = r.position + count },
      )
unfolding read
read_inside r count v long h =
    let short = length-contents-lt r.buffer v in
    let word : (r.position + count) % 2 ^ 64 ≡ r.position + count = mod-eq_of_lt (omega arith) in
    rw (
      read-slice r.buffer r.position count v (omega arith),
      slice_in r.position count long (contents r.buffer) (physical r.buffer) h,
      word,
    )

pub read_outside :
    (r : Reader) (count : ℕ)
    → IsValid r.buffer
    → 0 < count
    → count < 2 ^ 64
    → length (contents r.buffer) < r.position + count
    → read r count ≡ err (generic buffer_overrun)
unfolding read
read_outside r count v long word h = rw (
  read-slice r.buffer r.position count v word,
  slice_out r.position count long word (contents r.buffer) (physical r.buffer) h,
)

copy_loop_inside :
    (fuel : ℕ) (r : Reader) (out : Output) (sz : ℕ)
    → IsValid r.buffer
    → sz < fuel
    → r.position + sz ≤ length (contents r.buffer)
    → HasRoom out sz
    → copy_loop fuel r out sz
      ≡ ok (done ((record r { position = r.position + sz }, written out (part_of r sz)), 0))
unfolding copy_loop copy_round
copy_loop_inside zero r out sz v enough h room = absurd (omega arith)
copy_loop_inside (suc fuel) r out zero v enough h room =
    let stay : r.position + 0 ≡ r.position = omega arith in rw (stay, written-nil out)
copy_loop_inside (suc fuel) r out (suc k) v enough h room =
    let sz = suc k in
    let n = min sz 512 in
    let some_left : (suc k == 0) ≡ false = ground arith in
    let after : Reader = record r { position = r.position + n } in
    let total : n + (sz - n) ≡ sz = omega arith in
    let all_room : HasRoom out (n + (sz - n)) = rw total room in
    let length_n = length-part_of r n (omega arith) in
    let room_n = subst (λ m. HasRoom out m) (sym length_n) (HasRoom-less out n (sz - n) all_room) in
    let more = subst (λ m. HasRoom out (m + (sz - n))) (sym length_n) all_room in
    let room_rest = HasRoom-written out (part_of r n) (sz - n) more in
    let end : r.position + n + (sz - n) ≡ r.position + sz = omega arith in
    let order : r.position + n ≡ n + r.position = omega arith in
    let parts : part_of r n ++ part_of after (sz - n) ≡ part_of r sz =
      ap (λ x. part_of r n ++ take (sz - n) (drop x (contents r.buffer))) order
      ∙ ap (λ x. part_of r n ++ take (sz - n) x) (sym (drop-drop n r.position (contents r.buffer)))
      ∙ sym (take-add n (sz - n) (drop r.position (contents r.buffer)))
      ∙ ap (λ x. take x (drop r.position (contents r.buffer))) total in
    rw
      (
        some_left,
        read_inside r n v (omega arith) (omega arith),
        write-written out (part_of r n) room_n,
      )
      (copy_loop_inside fuel after (written out (part_of r n)) (sz - n) v (omega arith)
          (omega arith) room_rest
        ∙ rw (
          written-written out (part_of r n) (part_of after (sz - n)) (HasRoom-wpos out sz room),
          parts,
          end,
        ))

copy_loop_outside :
    (fuel : ℕ) (r : Reader) (out : Output) (sz : ℕ)
    → IsPositioned r
    → sz < fuel
    → sz < 2 ^ 64
    → length (contents r.buffer) < r.position + sz
    → HasRoom out sz
    → copy_loop fuel r out sz ≡ err (generic buffer_overrun)
unfolding copy_loop copy_round
copy_loop_outside zero r out sz v enough word h room = absurd (omega arith)
copy_loop_outside (suc fuel) r out zero v enough word h room = absurd (omega (arith, v.within))
copy_loop_outside (suc fuel) r out (suc k) v enough word h room =
    let sz = suc k in
    let n = min sz 512 in
    let some_left : (suc k == 0) ≡ false = ground arith in
    elim (dec_lt (length (contents r.buffer)) (r.position + n)) [
      | yes over ↦ rw (some_left, read_outside r n v.valid (omega arith) (omega arith) over)
      | no inside ↦
          let after : Reader = record r { position = r.position + n } in
          let total : n + (sz - n) ≡ sz = omega arith in
          let all_room : HasRoom out (n + (sz - n)) = rw total room in
          let length_n = length-part_of r n (omega arith) in
          let room_n =
            subst (λ m. HasRoom out m) (sym length_n) (HasRoom-less out n (sz - n) all_room) in
          let more = subst (λ m. HasRoom out (m + (sz - n))) (sym length_n) all_room in
          let room_rest = HasRoom-written out (part_of r n) (sz - n) more in
          rw
            (
              some_left,
              read_inside r n v.valid (omega arith) (omega arith),
              write-written out (part_of r n) room_n,
            )
            (copy_loop_outside fuel after (written out (part_of r n)) (sz - n)
              (record { valid = v.valid; within = omega arith }) (omega arith) (omega arith)
              (omega arith) room_rest)
    ]

-- For a reader that stands in its valid buffer, a 64-bit count and an output with room for it: the
-- copy ends; it moves the bytes of the range in blocks as one read and one write of the whole
-- range would, returns the count and leaves the reader behind the range; it throws an overrun if
-- the range leaves the buffer.
pub copy_lem :
    (r : Reader) (out : Output) (sz : ℕ)
    → IsPositioned r
    → sz < 2 ^ 64
    → HasRoom out sz
    → (r.position + sz ≤ length (contents r.buffer)
        → (copy r out sz
            ≡ ok
                (done ((record r { position = r.position + sz }, written out (part_of r sz)), sz))))
      × (length (contents r.buffer) < r.position + sz
          → copy r out sz ≡ err (generic buffer_overrun))
unfolding copy
copy_lem r out sz v word room = (
  λ h.
      let all : sz - 0 ≡ sz = omega arith in
      rw (copy_loop_inside (suc sz) r out sz v.valid (omega arith) h room, all),
  λ h. rw (copy_loop_outside (suc sz) r out sz v (omega arith) word h room),
)
