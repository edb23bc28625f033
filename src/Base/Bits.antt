-- ===== src/Base/Bits.antt =====
-- Machine words as native numbers: the digit at a position, masks, and the bit operations that
-- the program uses, as arithmetic at every width.
use native.Mathlib.Nat.{pow-suc, one-le-pow}
use mathlib.Core.Path.{◌≡◌, refl, ap}
use mathlib.Core.Logic.{◌≢◌}
use Prim.Native.Nat.{
  ℕ, zero, suc, ◌+◌, ◌-◌, ◌*◌, ◌/◌, ◌%◌, ◌^◌, ◌≤◌, ◌<◌, min, max, bit_and, bit_or, bit_xor,
  bit_and-bitwise,
}
use native.Mathlib.Omega.{arith}
use pe_bliss.Base.Digits.{bit_and_step, bit_or_step, bit_xor_step}

-- Widths of the unsigned types. A value is a plain number, its range a hypothesis.
abbrev pub u8_mod : ℕ
u8_mod = 2 ^ 8

abbrev pub u16_mod : ℕ
u16_mod = 2 ^ 16

abbrev pub u32_mod : ℕ
u32_mod = 2 ^ 32

abbrev pub u64_mod : ℕ
u64_mod = 2 ^ 64

pub two_pow-suc : (k : ℕ) → 2 ^ suc k ≡ 2 * 2 ^ k
two_pow-suc k = omega (arith, pow-suc 2 k)

pub two_pow-pos : (k : ℕ) → 1 ≤ 2 ^ k
two_pow-pos k = one-le-pow k 2 (omega arith)

pub two_pow_mono : (k w : ℕ) → k ≤ w → 2 ^ k ≤ 2 ^ w
two_pow_mono zero w h = two_pow-pos w
two_pow_mono (suc k) zero h = absurd (omega arith)
two_pow_mono (suc k) (suc w) h =
    omega (arith, two_pow-suc k, two_pow-suc w, two_pow_mono k w (omega arith))

-- The digit of weight `2 ^ k`.
pub bit : ℕ → ℕ → ℕ
bit zero a = a % 2
bit (suc k) a = bit k (a / 2)

pub bit-lt : (k a : ℕ) → bit k a < 2
unfolding bit
bit-lt zero a = omega arith
bit-lt (suc k) a = bit-lt k (a / 2)

pub bit-bit_and : (k a b : ℕ) → bit k (bit_and a b) ≡ min (bit k a) (bit k b)
unfolding bit
bit-bit_and zero a b = omega (arith, bit_and_step a b)
bit-bit_and (suc k) a b =
    let halved : bit_and a b / 2 ≡ bit_and (a / 2) (b / 2) = omega (arith, bit_and_step a b) in
    rw halved (bit-bit_and k (a / 2) (b / 2))

pub bit-bit_or : (k a b : ℕ) → bit k (bit_or a b) ≡ max (bit k a) (bit k b)
unfolding bit
bit-bit_or zero a b = omega (arith, bit_or_step a b)
bit-bit_or (suc k) a b =
    let halved : bit_or a b / 2 ≡ bit_or (a / 2) (b / 2) = omega (arith, bit_or_step a b) in
    rw halved (bit-bit_or k (a / 2) (b / 2))

pub bit-bit_xor : (k a b : ℕ) → bit k (bit_xor a b) ≡ (bit k a + bit k b) % 2
unfolding bit
bit-bit_xor zero a b = omega (arith, bit_xor_step a b)
bit-bit_xor (suc k) a b =
    let halved : bit_xor a b / 2 ≡ bit_xor (a / 2) (b / 2) = omega (arith, bit_xor_step a b) in
    rw halved (bit-bit_xor k (a / 2) (b / 2))

pub bit-zero : (k : ℕ) → bit k 0 ≡ 0
unfolding bit
bit-zero zero = refl
bit-zero (suc k) = bit-zero k

-- A word is determined by its digits.
pub bit_ext : (w a b : ℕ) → a < 2 ^ w → b < 2 ^ w → ((k : ℕ) → k < w → bit k a ≡ bit k b) → a ≡ b
unfolding bit
bit_ext zero a b p q h = omega arith
bit_ext (suc w) a b p q h =
    let low : a % 2 ≡ b % 2 = h 0 (omega arith) in
    let high =
      bit_ext w (a / 2) (b / 2) (omega (arith, two_pow-suc w)) (omega (arith, two_pow-suc w))
        (λ k lt. h (suc k) (omega arith)) in
    omega arith

zero-bit_and : (b : ℕ) → bit_and 0 b ≡ 0
zero-bit_and b = bit_and-bitwise 0 b

bit_and-zero_below : (k a : ℕ) → a < 2 ^ k → bit_and a 0 ≡ 0
bit_and-zero_below zero a h = let e : a ≡ 0 = omega arith in rw e
bit_and-zero_below (suc k) a h =
    omega (arith, bit_and_step a 0, bit_and-zero_below k (a / 2) (omega (arith, two_pow-suc k)))

pub lt-two_pow : (a : ℕ) → a < 2 ^ a
lt-two_pow zero = omega arith
lt-two_pow (suc a) = omega (arith, two_pow-suc a, lt-two_pow a)

pub bit_and-zero : (a : ℕ) → bit_and a 0 ≡ 0
bit_and-zero a = bit_and-zero_below a a (lt-two_pow a)

bit_or-zero_below : (k a : ℕ) → a < 2 ^ k → bit_or a 0 ≡ a
bit_or-zero_below zero a h = let e : a ≡ 0 = omega arith in rw e
bit_or-zero_below (suc k) a h =
    omega (arith, bit_or_step a 0, bit_or-zero_below k (a / 2) (omega (arith, two_pow-suc k)))

pub bit_or-zero : (a : ℕ) → bit_or a 0 ≡ a
bit_or-zero a = bit_or-zero_below a a (lt-two_pow a)

pub bit_and-lt : (w a b : ℕ) → a < 2 ^ w → bit_and a b < 2 ^ w
bit_and-lt zero a b h = let e : a ≡ 0 = omega arith in rw e (omega (arith, zero-bit_and b))
bit_and-lt (suc w) a b h =
    let rest = bit_and-lt w (a / 2) (b / 2) (omega (arith, two_pow-suc w)) in
    omega (arith, bit_and_step a b, two_pow-suc w)

pub bit_xor-lt : (w a b : ℕ) → a < 2 ^ w → b < 2 ^ w → bit_xor a b < 2 ^ w
bit_xor-lt zero a b h k =
    let e : a ≡ 0 = omega arith in let f : b ≡ 0 = omega arith in rw (e, f) (omega arith)
bit_xor-lt (suc w) a b h k =
    let rest =
      bit_xor-lt w (a / 2) (b / 2) (omega (arith, two_pow-suc w)) (omega (arith, two_pow-suc w)) in
    omega (arith, bit_xor_step a b, two_pow-suc w)

pub bit_or-lt : (w a b : ℕ) → a < 2 ^ w → b < 2 ^ w → bit_or a b < 2 ^ w
bit_or-lt zero a b h k =
    let e : a ≡ 0 = omega arith in let f : b ≡ 0 = omega arith in rw (e, f) (omega arith)
bit_or-lt (suc w) a b h k =
    let rest =
      bit_or-lt w (a / 2) (b / 2) (omega (arith, two_pow-suc w)) (omega (arith, two_pow-suc w)) in
    omega (arith, bit_or_step a b, two_pow-suc w)

pub bit_all_ones : (w k : ℕ) → k < w → bit k (2 ^ w - 1) ≡ 1
unfolding bit
bit_all_ones zero k h = absurd (omega arith)
bit_all_ones (suc w) zero h = omega (arith, two_pow-suc w, two_pow-pos w)
bit_all_ones (suc w) (suc k) h =
    let half : (2 ^ suc w - 1) / 2 ≡ 2 ^ w - 1 = omega (arith, two_pow-suc w, two_pow-pos w) in
    rw half (bit_all_ones w k (omega arith))

-- A flag of one digit tests that digit.
pub bit_and-two_pow : (k a : ℕ) → bit_and a (2 ^ k) ≡ bit k a * 2 ^ k
unfolding bit
bit_and-two_pow zero a = omega (arith, bit_and_step a 1, bit_and-zero (a / 2))
bit_and-two_pow (suc k) a =
    let half : 2 ^ suc k / 2 ≡ 2 ^ k = omega (arith, two_pow-suc k) in
    let step = rw half at (bit_and_step a (2 ^ suc k)) in
    omega (
      arith,
      step,
      bit_and-two_pow k (a / 2),
      two_pow-suc k,
      ap (λ (t : ℕ). bit k (a / 2) * t) (two_pow-suc k),
    )

pub bit-two_pow_self : (k : ℕ) → bit k (2 ^ k) ≡ 1
unfolding bit
bit-two_pow_self zero = refl
bit-two_pow_self (suc k) =
    let half : 2 ^ suc k / 2 ≡ 2 ^ k = omega (arith, two_pow-suc k) in rw half (bit-two_pow_self k)

pub bit-two_pow_ne : (j k : ℕ) → j ≢ k → bit j (2 ^ k) ≡ 0
unfolding bit
bit-two_pow_ne zero zero h = absurd (h refl)
bit-two_pow_ne zero (suc k) h = omega (arith, two_pow-suc k)
bit-two_pow_ne (suc j) zero h = bit-zero j
bit-two_pow_ne (suc j) (suc k) h =
    let half : 2 ^ suc k / 2 ≡ 2 ^ k = omega (arith, two_pow-suc k) in
    rw half (bit-two_pow_ne j k (λ e. h (ap suc e)))
