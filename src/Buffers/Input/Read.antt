-- ===== src/Buffers/Input/Read.antt =====
-- About `read` of every kind of buffer, and its abstract view.
use native.Mathlib.Nat.{mod-eq_of_lt}
use pe_bliss.Base.{
  ℕ, ◌+◌, ◌-◌, ◌^◌, ◌<◌, ◌≡◌, ◌++◌, arith, length, replicate, min, length-append, length-replicate,
  dec_lt, lt→leb, le→leb,
}
use pe_bliss.Base.Words.{add_wrap}
use pe_bliss.Utilities.Math.Laws.{is_sum_safe_iff}
use pe_bliss.Buffers.Input.{Buffer, container, section, virtual, read}
use pe_bliss.Buffers.Input.Contents.{
  contents, physical, IsValid, length-contents-lt, size-length, physical-le,
}
use pe_bliss.Buffers.Input.Slice.{
  slice, overruns_lem, slice_in, slice_out, read_container-slice, section-slice, virtual-slice,
}

-- A read of a valid buffer at any position, of a count that is a word, through any nesting of
-- sections and virtual buffers, is the read of its abstract view: the same bytes, the same count
-- of physical ones and the same failures.
pub read-slice :
    (b : Buffer) (pos count : ℕ)
    → IsValid b
    → count < 2 ^ 64
    → read b pos count ≡ slice (contents b) (physical b) pos count
unfolding read contents physical
read-slice (container bytes _ _) pos count v word = elim (dec_lt 0 count) [
  | yes some ↦ ground (arith, read_container-slice pos count some word bytes v)
  | no nothing ↦ ground arith
]
read-slice (section b offset sz virt _ _) pos count (v, fits, e) word = elim (dec_lt 0 count) [
  | yes some ↦ rw (read-slice b (add_wrap 64 pos offset) count v word) (
      ground (
        arith,
        section-slice pos count some word (contents b) (physical b) offset sz fits
            (length-contents-lt b v),
      ))
  | no nothing ↦ ground arith
]
read-slice (virtual b additional _ _) pos count (v, fits) word =
    let bytes = contents b in
    let below = length-contents-lt b v in
    let safe = (is_sum_safe_iff 64 additional (length bytes) below).1 (omega arith) in
    let total : length (bytes ++ replicate additional 0) ≡ length bytes + additional = omega (
      arith,
      length-append bytes (replicate additional 0),
      length-replicate {A = ℕ} additional 0,
    ) in
    elim (dec_lt 0 count) [
      | no nothing ↦ ground arith
      | yes some ↦
          rw
            (
              size-length b v,
              safe,
              mod-eq_of_lt fits,
              overruns_lem pos count (length bytes + additional) word fits,
              read-slice b pos (min count (length bytes - pos)) v (omega arith),
            )
            (elim (dec_lt (length bytes + additional) (pos + count)) [
              | yes over ↦
                  rw
                    (
                      lt→leb (pos + count) (length bytes + additional) over,
                      slice_out pos count some word (bytes ++ replicate additional 0) (physical b)
                          (omega arith),
                    )
                    (ground arith)
              | no inside ↦
                  let whole =
                    virtual-slice bytes (physical b) additional pos count (physical-le b) fits some
                      word (omega arith) in
                  rw
                    (
                      le→leb (pos + count) (length bytes + additional) (omega arith),
                      slice_in pos count some (bytes ++ replicate additional 0) (physical b)
                          (omega arith),
                    )
                    (ground (arith, whole))
            ])
    ]
