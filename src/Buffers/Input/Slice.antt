-- ===== src/Buffers/Input/Slice.antt =====
-- Reads of a list of bytes, and what a section or a virtual buffer makes of a read below it.
use native.Mathlib.Nat.{mod-eq_of_lt}
use pe_bliss.Base.{
  ℕ, ◌+◌, ◌-◌, ◌%◌, ◌^◌, ◌≤◌, ◌<◌, ◌≡◌, not, List, [], ◌++◌, arith, ltb, leb, ◌==◌, if◌then◌else◌,
  length, take, drop, replicate, min, length-take, length-drop, dec_lt, lt→leb, le→leb, lt→ltb,
  le→ltb,
}
use mathlib.Core.List.{append-nil}
use pe_bliss.Base.Slices.{
  drop-drop, drop-take, take-take, take-append_within, take-append_past, drop-append_within,
  drop-append_past, take-length, drop-replicate, take-replicate,
}
use pe_bliss.Base.Words.{add_wrap}
use pe_bliss.Errors.{generic, buffer_overrun, Result, ok, err, ◌>>=◌, ◌>>◌, throw_if}
use pe_bliss.Utilities.Math.Laws.{is_sum_safe_iff}
use pe_bliss.Buffers.Input.{overruns, read_container, pad}

-- A read of `count` bytes from `pos` on, of `bytes` whose first `physical` are physical: it fails
-- if it leaves the bytes, and reads nothing, from anywhere, if `count` is zero.
abbrev pub slice : List ℕ → ℕ → ℕ → ℕ → Result (ℕ × List ℕ)
slice bytes physical pos count =
    if count == 0
    then ok (0, [])
    else (if leb (pos + count) (length bytes)
        then ok (min count (physical - pos), take count (drop pos bytes))
        else err (generic buffer_overrun))

pub overruns_lem :
    (pos count size : ℕ)
    → count < 2 ^ 64
    → size < 2 ^ 64
    → overruns pos count size ≡ not (leb (pos + count) size)
unfolding overruns
overruns_lem pos count size h k =
    ground (arith, is_sum_safe_iff 64 pos count, mod-eq_of_lt {n = pos + count} {m = 2 ^ 64})

pub slice_in :
    (pos count : ℕ)
    → 0 < count
    → (bytes : List ℕ) (n : ℕ) → pos + count ≤ length bytes
    → slice bytes n pos count ≡ ok (min count (n - pos), take count (drop pos bytes))
slice_in pos count some bytes n h = ground arith

module _ (pos count : ℕ) (some_bytes : 0 < count) (word : count < 2 ^ 64) where
  pub slice_out :
      (bytes : List ℕ) (n : ℕ)
      → length bytes < pos + count
      → slice bytes n pos count ≡ err (generic buffer_overrun)
  slice_out bytes n h = ground arith

  pub read_container-slice :
      (bytes : List ℕ)
      → length bytes < 2 ^ 64
      → read_container bytes pos count ≡ slice bytes (length bytes) pos count
  unfolding read_container
  read_container-slice bytes v = rw (overruns_lem pos count (length bytes) word v) (ground arith)

  section_bytes :
      (bytes : List ℕ) (offset sz : ℕ)
      → pos + count ≤ sz
      → take count (drop pos (take sz (drop offset bytes))) ≡ take count (drop (pos + offset) bytes)
  section_bytes bytes offset sz h = rw (
    drop-take pos sz (drop offset bytes),
    take-take count (sz - pos) _ (omega arith),
    drop-drop pos offset bytes,
  )

  -- A read through a section, given that the buffer below reads its own view.
  pub section-slice :
      (bytes : List ℕ) (n offset sz : ℕ)
      → offset + sz ≤ length bytes
      → length bytes < 2 ^ 64
      → (throw_if (overruns pos count sz) (generic buffer_overrun)
          >> slice bytes n (add_wrap 64 pos offset) count)
        ≡ slice (take sz (drop offset bytes)) (min sz (n - offset)) pos count
  section-slice bytes n offset sz fits v =
      let whole : length (take sz (drop offset bytes)) ≡ sz =
        omega (arith, length-take sz (drop offset bytes), length-drop offset bytes) in
      elim (dec_lt sz (pos + count)) [
        | yes over ↦ rw (
          overruns_lem pos count sz word (omega arith),
          lt→leb (pos + count) sz over,
          slice_out (take sz (drop offset bytes)) (min sz (n - offset)) (omega arith),
        )
        | no inside ↦
            let e : (pos + offset) % 2 ^ 64 ≡ pos + offset = mod-eq_of_lt (omega arith) in
            rw
              (
                overruns_lem pos count sz word (omega arith),
                le→leb (pos + count) sz (omega arith),
                e,
              )
              (ground (arith, section_bytes bytes offset sz (omega arith)))
      ]

-- The bytes of a read that may run from the bytes of a buffer into `additional` zeros.
padded_bytes :
    (bytes : List ℕ) (additional pos count : ℕ)
    → pos ≤ length bytes
    → pos + count ≤ length bytes + additional
    → take (min count (length bytes - pos)) (drop pos bytes)
        ++ replicate (count - min count (length bytes - pos)) 0
      ≡ take count (drop pos (bytes ++ replicate additional 0))
padded_bytes bytes additional pos count from to =
    let rest : length (drop pos bytes) ≡ length bytes - pos =
      omega (arith, length-drop pos bytes) in
    rw (drop-append_within pos bytes (replicate additional 0) from)
      (elim (dec_lt (length bytes - pos) count) [
        | yes past ↦
            let e : min count (length bytes - pos) ≡ length bytes - pos = omega arith in
            rw (
              e,
              take-length (length bytes - pos) (drop pos bytes) (omega arith),
              take-append_past count (drop pos bytes) (replicate additional 0) (omega arith),
              rest,
              take-replicate {A = ℕ} (count - (length bytes - pos)) additional 0 (omega arith),
            )
        | no within ↦
            let e : min count (length bytes - pos) ≡ count = omega arith in
            let z : count - count ≡ 0 = omega arith in
            rw (
              e,
              z,
              append-nil,
              take-append_within count (drop pos bytes) (replicate additional 0) (omega arith),
            )
      ])

zero_bytes :
    (bytes : List ℕ) (additional pos count : ℕ)
    → length bytes ≤ pos
    → pos + count ≤ length bytes + additional
    → replicate count 0 ≡ take count (drop pos (bytes ++ replicate additional 0))
zero_bytes bytes additional pos count from to = rw (
  drop-append_past pos bytes (replicate additional 0) from,
  drop-replicate {A = ℕ} (pos - length bytes) additional 0,
  take-replicate {A = ℕ} count (additional - (pos - length bytes)) 0 (omega arith),
)

-- A read through a virtual buffer, given that the buffer below reads its own view.
pub virtual-slice :
    (bytes : List ℕ) (n additional pos count : ℕ)
    → n ≤ length bytes
    → length bytes + additional < 2 ^ 64
    → 0 < count
    → count < 2 ^ 64
    → pos + count ≤ length bytes + additional
    → (let expected = min count (length bytes - pos) in
        if ltb pos (length bytes)
        then (slice bytes n pos expected >>= λ r. ok (pad count expected r))
        else ok (0, replicate count 0))
      ≡ ok (min count (n - pos), take count (drop pos (bytes ++ replicate additional 0)))
unfolding pad
virtual-slice bytes n additional pos count le fits some word to =
    let expected = min count (length bytes - pos) in
    elim (dec_lt pos (length bytes)) [
      | yes inside ↦
          let real : min expected (n - pos) ≡ min count (n - pos) = omega arith in
          let zeros : count - min count (n - pos) - (expected - min count (n - pos))
              ≡ count - expected =
            omega arith in
          rw (
            lt→ltb pos (length bytes) inside,
            slice_in pos expected (omega arith) bytes n (omega arith),
            real,
            zeros,
            padded_bytes bytes additional pos count (omega arith) to,
          )
      | no past ↦
          let none_real : min count (n - pos) ≡ 0 = omega arith in
          rw (
            le→ltb pos (length bytes) (omega arith),
            none_real,
            zero_bytes bytes additional pos count (omega arith) to,
          )
    ]
