-- ===== src/Image/Checksum/Read.antt =====
-- About `calculate_checksum_impl` and the reads that it makes.
use pe_bliss.Base.{
  ℕ, zero, suc, ◌+◌, ◌-◌, ◌%◌, ◌≤◌, ◌≡◌, refl, ◌∙◌, ap, List, [], ◌∷◌, ◌++◌, arith, length, take,
  drop, min, ◌==◌, if◌then◌else◌, Bool-cases, inl, inr, length-take, length-drop,
}
use pe_bliss.Base.Slices.{take-add, drop-drop}
use pe_bliss.Errors.{ok, err, checksum, unaligned_buffer}
use pe_bliss.Utilities.Math.{is_aligned}
use pe_bliss.Buffers.Input.{Buffer}
use pe_bliss.Buffers.Input.Contents.{contents, physical, IsValid, physical-le, physical_size_lem}
use pe_bliss.Buffers.Reader.{Reader}
use pe_bliss.Buffers.Reader.Laws.{IsPositioned, read_lem}
use pe_bliss.Image.Checksum.{
  temp_buffer_size, add_dword, dword_of, add_dwords, checksum_loop, calculate_checksum_impl,
}

pub add_dwords-append :
    (sum : ℕ) (xs ys : List ℕ)
    → length xs % 4 ≡ 0
    → add_dwords sum (xs ++ ys) ≡ add_dwords (add_dwords sum xs) ys
unfolding add_dwords
add_dwords-append sum [] ys h = refl
add_dwords-append sum (a ∷ []) ys h = absurd (omega arith)
add_dwords-append sum (a ∷ b ∷ []) ys h = absurd (omega arith)
add_dwords-append sum (a ∷ b ∷ c ∷ []) ys h = absurd (omega arith)
add_dwords-append sum (a ∷ b ∷ c ∷ d ∷ xs) ys h =
    add_dwords-append (add_dword sum (dword_of a b c d)) xs ys (omega arith)

checksum_loop_lem :
    (fuel sum rest : ℕ) (ref : Reader)
    → IsPositioned ref
    → rest ≤ fuel
    → rest % 4 ≡ 0
    → ref.position + rest ≤ length (contents ref.buffer)
    → checksum_loop fuel sum rest ref
      ≡ ok (add_dwords sum (take rest (drop ref.position (contents ref.buffer))))
unfolding checksum_loop add_dwords
checksum_loop_lem zero sum rest ref v enough aligned inside =
    let none : rest ≡ 0 = omega arith in rw none refl
checksum_loop_lem (suc fuel) sum rest ref v enough aligned inside = elim (Bool-cases (rest == 0)) [
  | inl done ↦ let none : rest ≡ 0 = ground arith in rw none refl
  | inr more ↦
      let p = ref.position in
      let bytes = contents ref.buffer in
      let n = min rest temp_buffer_size in
      let some_left : 1 ≤ rest = ground arith in
      let later = record ref { position = p + n } in
      let chunk = take n (drop p bytes) in
      let ih =
        checksum_loop_lem fuel (add_dwords sum chunk) (rest - n) later
          (record { valid = v.valid; within = omega arith }) (omega arith) (omega arith)
          (omega arith) in
      let split : rest ≡ n + (rest - n) = omega arith in
      let swap : n + p ≡ p + n = omega arith in
      let whole : take rest (drop p bytes) ≡ chunk ++ take (rest - n) (drop (p + n) bytes) =
        ap (λ k. take k (drop p bytes)) split
        ∙ rw (take-add n (rest - n) (drop p bytes), drop-drop n p bytes, swap) refl in
      let full : length chunk % 4 ≡ 0 =
        omega (arith, length-take n (drop p bytes), length-drop p bytes) in
      rw (more, read_lem ref n v (omega arith))
        (ih
          ∙ ap ok (
              rw (whole, add_dwords-append sum chunk (take (rest - n) (drop (p + n) bytes)) full)
                refl))
]

-- The bytes of a buffer that are in the file.
abbrev pub stored : Buffer → List ℕ
stored b = take (physical b) (contents b)

-- A valid buffer of whole words adds the words of its bytes in the file, and any other is refused.
pub calculate_checksum_impl_lem :
    (sum : ℕ) (b : Buffer)
    → IsValid b
    → calculate_checksum_impl sum b ≡ (
        if physical b % 4 == 0
        then ok (add_dwords sum (stored b))
        else err (checksum unaligned_buffer))
unfolding calculate_checksum_impl is_aligned
calculate_checksum_impl_lem sum b v =
    rw (physical_size_lem b v) (elim (Bool-cases (physical b % 4 == 0)) [
      | inl whole ↦ rw whole (
          checksum_loop_lem (physical b) sum (physical b) (record { buffer = b; position = 0 })
            (record { valid = v; within = omega arith }) (omega arith) (ground arith)
            (omega (arith, physical-le b)))
      | inr part ↦ rw part refl
    ])
