-- ===== src/Image/Checksum/Fold.antt =====
-- About the sum of `calculate_checksum_impl` and its final folding, as numbers.
use pe_bliss.Base.{
  ℕ, ◌+◌, ◌*◌, ◌/◌, ◌%◌, ◌^◌, ◌≤◌, ◌<◌, ◌≡◌, refl, List, [], ◌∷◌, arith, length, All, bit_and,
}
use pe_bliss.Base.Masks.{bit_and-low_mask}
use pe_bliss.Image.Checksum.{add_dword, dword_of, add_dwords, finalize}

-- The exact sum of the 16-bit words.
abbrev pub word_sum : List ℕ → ℕ
word_sum (a ∷ b ∷ bytes) = a + 2 ^ 8 * b + word_sum bytes
word_sum (a ∷ []) = 0
word_sum [] = 0

abbrev pub IsByte : ℕ → Type 0
IsByte b = b < 2 ^ 8

add_dword_lem :
    (sum dword : ℕ)
    → sum ≤ 2 ^ 32
    → dword < 2 ^ 32
    → (add_dword sum dword ≤ 2 ^ 32) × (add_dword sum dword % 65535 ≡ (sum + dword) % 65535)
unfolding add_dword
add_dword_lem sum dword small word =
    let low : bit_and sum 0xffffffff ≡ sum % 2 ^ 32 = bit_and-low_mask 32 sum in
    let sum' = sum % 2 ^ 32 + dword + sum / 2 ^ 32 in
    let low' : bit_and sum' 0xffffffff ≡ sum' % 2 ^ 32 = bit_and-low_mask 32 sum' in
    let w₁ : (sum % 2 ^ 32 + dword) % 2 ^ 64 ≡ sum % 2 ^ 32 + dword = omega arith in
    let w₂ : (sum % 2 ^ 32 + dword + sum / 2 ^ 32) % 2 ^ 64 ≡ sum' = omega arith in
    rw (low, w₁, w₂) (rw low' (ground arith))

add_dwords_lem :
    (sum : ℕ) (bytes : List ℕ)
    → sum ≤ 2 ^ 32
    → All IsByte bytes
    → length bytes % 4 ≡ 0
    → (add_dwords sum bytes ≤ 2 ^ 32)
      × (add_dwords sum bytes % 65535 ≡ (sum + word_sum bytes) % 65535)
unfolding add_dwords
add_dwords_lem sum [] small bytes aligned = (small, omega arith)
add_dwords_lem sum (a ∷ []) small bytes aligned = absurd (omega arith)
add_dwords_lem sum (a ∷ b ∷ []) small bytes aligned = absurd (omega arith)
add_dwords_lem sum (a ∷ b ∷ c ∷ []) small bytes aligned = absurd (omega arith)
add_dwords_lem sum (a ∷ b ∷ c ∷ d ∷ xs) small (p, (q, (r, (s, rest)))) aligned =
    let (below, same) = add_dword_lem sum (dword_of a b c d) small (omega arith) in
    let (below', same') =
      add_dwords_lem (add_dword sum (dword_of a b c d)) xs below rest (omega arith) in
    (below', omega arith)

-- For a list of bytes of whole words and a file size below 2 ^ 63, the final checksum is a 16-bit
-- number that equals the sum of the 16-bit words modulo 2 ^ 16 - 1, with the file size added
-- modulo 2 ^ 32.
pub finalize-add_dwords :
    (bytes : List ℕ) (file_size : ℕ)
    → All IsByte bytes
    → length bytes % 4 ≡ 0
    → file_size < 2 ^ 63
    → (folded : ℕ) × (folded < 2 ^ 16)
      × (folded % 65535 ≡ word_sum bytes % 65535)
      × (finalize (add_dwords 0 bytes) file_size ≡ (folded + file_size) % 2 ^ 32)
unfolding finalize
finalize-add_dwords bytes file_size are_bytes aligned fits =
    let sum = add_dwords 0 bytes in
    let (below, same) = add_dwords_lem 0 bytes (omega arith) are_bytes aligned in
    let s₁ = sum % 2 ^ 16 + sum / 2 ^ 16 in
    let s₂ = s₁ + s₁ / 2 ^ 16 in
    let w₁ : (sum % 2 ^ 16 + sum / 2 ^ 16) % 2 ^ 64 ≡ s₁ = omega arith in
    let w₂ : (s₁ + s₁ / 2 ^ 16) % 2 ^ 64 ≡ s₂ = omega arith in
    let w₃ : (s₂ % 2 ^ 16 + file_size) % 2 ^ 64 ≡ s₂ % 2 ^ 16 + file_size = omega arith in
    (
      s₂ % 2 ^ 16,
      omega arith,
      omega arith,
      rw (bit_and-low_mask 16 sum, w₁, w₂, bit_and-low_mask 16 s₂, w₃) refl,
    )
