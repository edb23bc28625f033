-- ===== src/Buffers/Reader/Laws.antt =====
-- About the position of a reader: moves and consecutive reads.
use native.Mathlib.Nat.{mod-eq_of_lt}
use pe_bliss.Base.{
  ℕ, ◌+◌, ◌-◌, ◌^◌, ◌≤◌, ◌<◌, ◌≡◌, refl, ◌∙◌, none, some, List, ◌++◌, arith, leb, if◌then◌else◌,
  min, length, take, drop,
}
use pe_bliss.Base.Slices.{take-add, drop-drop}
use pe_bliss.Base.Integer.{ℤ, pos, negsuc, IsInt32}
use pe_bliss.Errors.{generic, buffer_overrun, ok, err}
use pe_bliss.Utilities.Math.Laws.{add_offset_if_safe_lem, shifted}
use pe_bliss.Buffers.Input.Contents.{contents, physical, IsValid, size-length, length-contents-lt}
use pe_bliss.Buffers.Input.Read.{read-slice}
use pe_bliss.Buffers.Reader.{Reader, read, set_rpos, advance_rpos}

-- The position is in the buffer, or at its end.
pub record IsPositioned (r : Reader) : Type 0 where
  pub valid : IsValid r.buffer
  pub within : r.position ≤ length (contents r.buffer)

-- For a reader that stands in its valid buffer, a move by a signed 32-bit offset arrives at the
-- exact sum if that lies in the buffer, and is refused if it does not; the offset -2 ^ 31 is
-- always refused.
pub advance_rpos_lem :
    (r : Reader) (offset : ℤ)
    → IsPositioned r
    → IsInt32 offset
    → advance_rpos r offset ≡ elim (shifted r.position offset) [
      | none ↦ err (generic buffer_overrun)
      | some p ↦
          if leb p (length (contents r.buffer))
          then ok (record r { position = p })
          else err (generic buffer_overrun)
    ]
unfolding advance_rpos set_rpos
advance_rpos_lem r (pos n) v small =
    let short = length-contents-lt r.buffer v.valid in
    rw
      (
        add_offset_if_safe_lem r.position (pos n) (omega (arith, v.within)) small,
        size-length r.buffer v.valid,
      )
      (ground arith)
advance_rpos_lem r (negsuc n) v small =
    let short = length-contents-lt r.buffer v.valid in
    rw
      (
        add_offset_if_safe_lem r.position (negsuc n) (omega (arith, v.within)) small,
        size-length r.buffer v.valid,
      )
      (ground arith)

-- For a reader of a valid buffer, a position in the buffer is taken, and the reader stands there
-- in the same buffer; one behind its end is refused.
pub set_rpos-IsPositioned :
    (r : Reader) (p : ℕ)
    → IsValid r.buffer
    → (p ≤ length (contents r.buffer)
        → (r' : Reader) × (set_rpos r p ≡ ok r')
          × IsPositioned r'
          × (r'.position ≡ p)
          × (r'.buffer ≡ r.buffer))
      × (length (contents r.buffer) < p → set_rpos r p ≡ err (generic buffer_overrun))
unfolding set_rpos
set_rpos-IsPositioned r p v = (
  λ h. (
    record r { position = p },
    rw (size-length r.buffer v) (ground arith),
    record { valid = v; within = h },
    refl,
    refl,
  ),
  λ h. rw (size-length r.buffer v) (ground arith),
)

-- A reader that stands in its buffer reads the bytes from its position on and moves behind them.
pub read_lem :
    (r : Reader) (count : ℕ)
    → IsPositioned r
    → r.position + count ≤ length (contents r.buffer)
    → read r count
      ≡ ok (
        (
          min count (physical r.buffer - r.position),
          take count (drop r.position (contents r.buffer)),
        ),
        record r { position = r.position + count },
      )
unfolding read
read_lem r count v h =
    let short = length-contents-lt r.buffer v.valid in
    rw
      (
        read-slice r.buffer r.position count v.valid (omega arith),
        mod-eq_of_lt {n = r.position + count} {m = 2 ^ 64} (omega arith),
      )
      (ground arith)

-- For a reader that stands in its valid buffer, and two counts that stay in it: two reads in a row
-- give what one read of both counts gives, and end at the same position.
pub read_twice :
    (r : Reader) (m n : ℕ)
    → IsPositioned r
    → r.position + (m + n) ≤ length (contents r.buffer)
    → (p q : ℕ) × (xs ys : List ℕ) × (r₁ r₂ : Reader) × (read r m ≡ ok ((p, xs), r₁))
      × (read r₁ n ≡ ok ((q, ys), r₂))
      × (read r (m + n) ≡ ok ((p + q, xs ++ ys), r₂))
read_twice r m n v h =
    let bytes = contents r.buffer in
    let p = r.position in
    let middle = record r { position = p + m } in
    let at : p + (m + n) ≡ p + m + n = omega arith in
    let real : min (m + n) (physical r.buffer - p)
        ≡ min m (physical r.buffer - p) + min n (physical r.buffer - (p + m)) =
      omega arith in
    let swap : m + p ≡ p + m = omega arith in
    let joined : take (m + n) (drop p bytes)
        ≡ take m (drop p bytes) ++ take n (drop (p + m) bytes) =
      rw (take-add m n (drop p bytes), drop-drop m p bytes, swap) in
    (
      min m (physical r.buffer - p),
      min n (physical r.buffer - (p + m)),
      take m (drop p bytes),
      take n (drop (p + m) bytes),
      middle,
      record r { position = p + m + n },
      read_lem r m v (omega arith),
      read_lem middle n (record { valid = v.valid; within = omega arith }) (omega arith),
      read_lem r (m + n) v h ∙ rw (real, joined, at),
    )
