-- ===== src/Base/Xor.antt =====
-- Exclusive or of words: combined with the same number twice, a word comes back.
use native.Mathlib.Nat.{mul-add-mod_self_right, mod-eq_of_lt, div-add-mod', mod-lt}
use pe_bliss.Base.{ℕ, zero, suc, ◌+◌, ◌*◌, ◌/◌, ◌%◌, ◌^◌, ◌<◌, ◌≡◌, ap, ◌∙◌, bit_xor, arith}
use pe_bliss.Base.Bits.{
  two_pow-suc, two_pow-pos, lt-two_pow, bit_ext, bit_xor-lt, bit-bit_xor, bit-lt,
}
use pe_bliss.Base.Digits.{bit_xor_step}
use pe_bliss.Base.Words.{cast}

mod-two_pow_suc : (w y : ℕ) → y % 2 ^ suc w ≡ y / 2 % 2 ^ w * 2 + y % 2
mod-two_pow_suc w y =
    let q = y / 2 / 2 ^ w in
    let r = y / 2 % 2 ^ w in
    let whole = div-add-mod' (y / 2) (2 ^ w) in
    let below = mod-lt (y / 2) (two_pow-pos w) in
    let double : q * 2 ^ suc w ≡ 2 * (q * 2 ^ w) =
      omega (arith, ap (λ (n : ℕ). q * n) (two_pow-suc w)) in
    let parts : y ≡ q * 2 ^ suc w + (r * 2 + y % 2) = omega arith in
    ap (λ n. n % 2 ^ suc w) parts
    ∙ mul-add-mod_self_right q (2 ^ suc w) (r * 2 + y % 2)
    ∙ mod-eq_of_lt (omega (arith, two_pow-suc w))

bit_xor-mod : (w a c : ℕ) → bit_xor (a % 2 ^ w) c % 2 ^ w ≡ bit_xor a c % 2 ^ w
bit_xor-mod zero a c = omega arith
bit_xor-mod (suc w) a c =
    let low = mod-two_pow_suc w a in
    let half : a % 2 ^ suc w / 2 ≡ a / 2 % 2 ^ w = omega arith in
    let digit : a % 2 ^ suc w % 2 ≡ a % 2 = omega arith in
    let step = rw (half, digit) at (bit_xor_step (a % 2 ^ suc w) c) in
    let step' = bit_xor_step a c in
    let left : bit_xor (a % 2 ^ suc w) c / 2 ≡ bit_xor (a / 2 % 2 ^ w) (c / 2) = omega arith in
    let right : bit_xor a c / 2 ≡ bit_xor (a / 2) (c / 2) = omega arith in
    let rest = bit_xor-mod w (a / 2) (c / 2) in
    mod-two_pow_suc w (bit_xor (a % 2 ^ suc w) c)
    ∙ rw (left, rest) (omega (arith, mod-two_pow_suc w (bit_xor a c), ap (λ n. n % 2 ^ w) right))

pub bit_xor-bit_xor : (a c : ℕ) → bit_xor (bit_xor a c) c ≡ a
bit_xor-bit_xor a c =
    let wide = lt-two_pow (a + c) in
    bit_ext (a + c) (bit_xor (bit_xor a c) c) a
      (bit_xor-lt (a + c) (bit_xor a c) c (bit_xor-lt (a + c) a c (omega arith) (omega arith))
        (omega arith))
      (omega arith)
      (λ k lt.
        omega (arith, bit-bit_xor k (bit_xor a c) c, bit-bit_xor k a c, bit-lt k a, bit-lt k c))

-- A word of width `w`, cut to the width after each combination.
pub cast-bit_xor_twice : (w a c : ℕ) → a < 2 ^ w → cast w (bit_xor (cast w (bit_xor a c)) c) ≡ a
cast-bit_xor_twice w a c h =
    bit_xor-mod w (bit_xor a c) c ∙ ap (λ n. n % 2 ^ w) (bit_xor-bit_xor a c) ∙ mod-eq_of_lt h
