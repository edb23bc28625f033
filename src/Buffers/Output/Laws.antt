-- ===== src/Buffers/Output/Laws.antt =====
-- About writes: what one write leaves, and consecutive writes.
use native.Mathlib.Nat.{mod-eq_of_lt}
use mathlib.Core.List.{append_assoc}
use pe_bliss.Base.{
  ℕ, ◌+◌, ◌-◌, ◌%◌, ◌^◌, ◌≤◌, ◌<◌, ◌≡◌, ap, sym, ◌∙◌, List, [], ◌++◌, arith, length, take, drop,
  replicate, length-append, length-take, length-drop, dec_lt, le→ltb, lt→ltb,
}
use pe_bliss.Base.Slices.{
  take-append_within, drop-length, take-append-drop, drop-drop, drop-append_past,
  drop-append_within, drop-replicate, drop-length_append, take-length_append,
}
use pe_bliss.Base.Words.{sub_wrap}
use pe_bliss.Errors.{ok}
use pe_bliss.Buffers.Output.{Output, memory, memory_ref, overwrite, grow, write, size, wpos}

-- A buffer behind a write of these bytes.
abbrev pub written : Output → List ℕ → Output
written (memory bytes pos) xs = memory (overwrite pos xs bytes) (pos + length xs)
written (memory_ref bytes pos) xs = memory_ref (overwrite pos xs bytes) (pos + length xs)

-- A write of `count` bytes has room: a position in the buffer, and an end that is a word or, for
-- a given range, in the range.
abbrev pub HasRoom : Output → ℕ → Type 0
HasRoom (memory bytes pos) count = (pos ≤ length bytes) × (pos + count < 2 ^ 64)
HasRoom (memory_ref bytes pos) count = (pos + count ≤ length bytes) × (length bytes < 2 ^ 64)

-- Behind bytes that are overwritten nothing is left of a buffer that ends before.
overwrite-grow :
    (pos : ℕ) (xs bytes : List ℕ)
    → pos ≤ length bytes
    → overwrite pos xs (grow bytes (pos + length xs)) ≡ overwrite pos xs bytes
overwrite-grow pos xs bytes h = elim (dec_lt (length bytes) (pos + length xs)) [
  | no fits ↦ rw (le→ltb (length bytes) (pos + length xs) (omega arith))
  | yes grows ↦
      let more = pos + length xs - length bytes in
      let none_left : more - (pos + length xs - length bytes) ≡ 0 = omega arith in
      rw
        (
          lt→ltb (length bytes) (pos + length xs) grows,
          take-append_within pos bytes (replicate more 0) h,
          drop-append_past (pos + length xs) bytes (replicate more 0) (omega arith),
          drop-replicate {A = ℕ} (pos + length xs - length bytes) more 0,
          none_left,
        )
        (ap (λ x. take pos bytes ++ (xs ++ x))
          (sym (drop-length (pos + length xs) bytes (omega arith))))
]

pub write-written :
    (out : Output) (xs : List ℕ) → HasRoom out (length xs) → write out xs ≡ ok (written out xs)
unfolding write
write-written (memory bytes pos) xs (inside, fits) =
    rw (mod-eq_of_lt fits, overwrite-grow pos xs bytes inside)
write-written (memory_ref bytes pos) xs (inside, fits) =
    let left : sub_wrap 64 (length bytes) pos ≡ length bytes - pos = omega arith in
    let sum : (pos + length xs) % 2 ^ 64 ≡ pos + length xs = mod-eq_of_lt (omega arith) in
    rw (left, le→ltb (length bytes - pos) (length xs) (omega arith), sum)

overwrite-overwrite :
    (pos : ℕ) (xs ys bytes : List ℕ)
    → pos ≤ length bytes
    → overwrite (pos + length xs) ys (overwrite pos xs bytes) ≡ overwrite pos (xs ++ ys) bytes
overwrite-overwrite pos xs ys bytes h =
    let front = take pos bytes in
    let rest = drop (pos + length xs) bytes in
    let from : pos + length xs ≡ length (front ++ xs) =
      omega (arith, length-append front xs, length-take pos bytes) in
    let all = sym (append_assoc front xs rest) in
    let kept : take (pos + length xs) (front ++ (xs ++ rest)) ≡ front ++ xs =
      ap (take (pos + length xs)) all
      ∙ ap (λ n. take n (front ++ xs ++ rest)) from
      ∙ take-length_append (front ++ xs) rest in
    let order : pos + length xs + length ys ≡ length ys + (pos + length xs) = omega arith in
    let behind : drop (pos + length xs + length ys) (front ++ (xs ++ rest))
        ≡ drop (length ys) rest =
      ap (λ n. drop n (front ++ (xs ++ rest))) order
      ∙ sym (drop-drop (length ys) (pos + length xs) (front ++ (xs ++ rest)))
      ∙ ap (λ z. drop (length ys) (drop (pos + length xs) z)) all
      ∙ ap (λ n. drop (length ys) (drop n (front ++ xs ++ rest))) from
      ∙ ap (drop (length ys)) (drop-length_append (front ++ xs) rest) in
    let end : length ys + (pos + length xs) ≡ pos + length (xs ++ ys) =
      omega (arith, length-append xs ys) in
    rw (
      kept,
      behind,
      drop-drop (length ys) (pos + length xs) bytes,
      end,
      append_assoc front xs (ys ++ drop (pos + length (xs ++ ys)) bytes),
      append_assoc xs ys (drop (pos + length (xs ++ ys)) bytes),
    )

length-overwrite :
    (pos : ℕ) (xs bytes : List ℕ)
    → pos ≤ length bytes
    → pos + length xs ≤ length (overwrite pos xs bytes)
length-overwrite pos xs bytes h =
    let rest = drop (pos + length xs) bytes in
    omega (
      arith,
      length-append (take pos bytes) (xs ++ rest),
      length-append xs rest,
      length-take pos bytes,
    )

pub length-overwrite_within :
    (pos : ℕ) (xs bytes : List ℕ)
    → pos + length xs ≤ length bytes
    → length (overwrite pos xs bytes) ≡ length bytes
length-overwrite_within pos xs bytes h =
    let rest = drop (pos + length xs) bytes in
    omega (
      arith,
      length-append (take pos bytes) (xs ++ rest),
      length-append xs rest,
      length-take pos bytes,
      length-drop (pos + length xs) bytes,
    )

-- Two writes are one.
pub written-written :
    (out : Output) (xs ys : List ℕ)
    → wpos out ≤ size out
    → written (written out xs) ys ≡ written out (xs ++ ys)
unfolding wpos size
written-written (memory bytes pos) xs ys h =
    let end : pos + length xs + length ys ≡ pos + length (xs ++ ys) =
      omega (arith, length-append xs ys) in
    rw (overwrite-overwrite pos xs ys bytes h, end)
written-written (memory_ref bytes pos) xs ys h =
    let end : pos + length xs + length ys ≡ pos + length (xs ++ ys) =
      omega (arith, length-append xs ys) in
    rw (overwrite-overwrite pos xs ys bytes h, end)

pub HasRoom-written :
    (out : Output) (xs : List ℕ) (more : ℕ)
    → HasRoom out (length xs + more)
    → HasRoom (written out xs) more
HasRoom-written (memory bytes pos) xs more (inside, fits) =
    (length-overwrite pos xs bytes inside, omega arith)
HasRoom-written (memory_ref bytes pos) xs more (inside, fits) = (
  omega (arith, length-overwrite_within pos xs bytes (omega arith)),
  omega (arith, length-overwrite_within pos xs bytes (omega arith)),
)

pub HasRoom-less : (out : Output) (count more : ℕ) → HasRoom out (count + more) → HasRoom out count
HasRoom-less (memory bytes pos) count more (inside, fits) = (inside, omega arith)
HasRoom-less (memory_ref bytes pos) count more (inside, fits) = (omega arith, fits)

pub HasRoom-wpos : (out : Output) (count : ℕ) → HasRoom out count → wpos out ≤ size out
unfolding wpos size
HasRoom-wpos (memory bytes pos) count (inside, fits) = inside
HasRoom-wpos (memory_ref bytes pos) count (inside, fits) = omega arith

pub written-nil : (out : Output) → written out [] ≡ out
written-nil (memory bytes pos) =
    let end : pos + 0 ≡ pos = omega arith in rw (end, take-append-drop pos bytes)
written-nil (memory_ref bytes pos) =
    let end : pos + 0 ≡ pos = omega arith in rw (end, take-append-drop pos bytes)

pub overwrite-append :
    (pos : ℕ) (xs bytes rest : List ℕ)
    → pos + length xs ≤ length bytes
    → overwrite pos xs (bytes ++ rest) ≡ overwrite pos xs bytes ++ rest
overwrite-append pos xs bytes rest h =
    let behind = drop (pos + length xs) bytes in
    rw (
      take-append_within pos bytes rest (omega arith),
      drop-append_within (pos + length xs) bytes rest h,
      append_assoc (take pos bytes) (xs ++ behind) rest,
      append_assoc xs behind rest,
    )

-- The bytes that have been written.
pub take-drop-overwrite :
    (pos : ℕ) (xs bytes : List ℕ)
    → pos ≤ length bytes
    → take (length xs) (drop pos (overwrite pos xs bytes)) ≡ xs
take-drop-overwrite pos xs bytes h =
    let behind = drop (pos + length xs) bytes in
    let from : pos ≡ length (take pos bytes) = omega (arith, length-take pos bytes) in
    ap (λ n. take (length xs) (drop n (take pos bytes ++ (xs ++ behind)))) from
    ∙ ap (take (length xs)) (drop-length_append (take pos bytes) (xs ++ behind))
    ∙ take-length_append xs behind
