-- ===== src/Base/Words.antt =====
-- Unsigned words of width `w`: casts, complement, wrapping sum and difference, the count of ones
-- behind `std::has_single_bit`, and the signed 32-bit offsets.
use mathlib.Core.Path.{◌≡◌, refl}
use mathlib.Core.Bool.{Bool, true}
use Prim.Native.Nat.{ℕ, zero, suc, ◌+◌, ◌-◌, ◌/◌, ◌%◌, ◌^◌, ◌<◌}
use native.Mathlib.Omega.{arith}
use native.Mathlib.Decide.{dec_lt}
use pe_bliss.Base.Bits.{two_pow-suc}
use pe_bliss.Base.Tests.{◌==◌}

-- `static_cast` to the width, `~x`, `a + b` and `a - b` of the unsigned type.
abbrev pub cast : ℕ → ℕ → ℕ
cast w x = x % 2 ^ w

abbrev pub complement : ℕ → ℕ → ℕ
complement w x = 2 ^ w - 1 - x

abbrev pub add_wrap : ℕ → ℕ → ℕ → ℕ
add_wrap w a b = (a + b) % 2 ^ w

abbrev pub sub_wrap : ℕ → ℕ → ℕ → ℕ
sub_wrap w a b = (a + 2 ^ w - b) % 2 ^ w

-- The number of ones among the lowest `w` digits.
unfoldable pub popcount : ℕ → ℕ → ℕ
popcount zero x = 0
popcount (suc w) x = x % 2 + popcount w (x / 2)

-- `std::has_single_bit` of an unsigned type of width `w`.
unfoldable pub has_single_bit : ℕ → ℕ → Bool
has_single_bit w x = popcount w x == 1

popcount_zero : (w x : ℕ) → x < 2 ^ w → popcount w x ≡ 0 → x ≡ 0
unfolding popcount
popcount_zero zero x h e = omega arith
popcount_zero (suc w) x h e =
    omega (arith, popcount_zero w (x / 2) (omega (arith, two_pow-suc w)) (omega arith))

popcount_one : (w x : ℕ) → x < 2 ^ w → popcount w x ≡ 1 → (k : ℕ) × (k < w) × (x ≡ 2 ^ k)
unfolding popcount
popcount_one zero x h e = absurd (omega arith)
popcount_one (suc w) x h e = elim (dec_lt (x % 2) 1) [
  | yes even ↦
      let (k, lt, p) = popcount_one w (x / 2) (omega (arith, two_pow-suc w)) (omega arith) in
      (suc k, omega arith, omega (arith, two_pow-suc k))
  | no odd ↦
      let rest = popcount_zero w (x / 2) (omega (arith, two_pow-suc w)) (omega arith) in
      (0, omega arith, omega arith)
]

popcount-zero : (w : ℕ) → popcount w 0 ≡ 0
unfolding popcount
popcount-zero zero = refl
popcount-zero (suc w) = omega (arith, popcount-zero w)

popcount-two_pow : (w k : ℕ) → k < w → popcount w (2 ^ k) ≡ 1
unfolding popcount
popcount-two_pow zero k h = absurd (omega arith)
popcount-two_pow (suc w) zero h = omega (arith, popcount-zero w)
popcount-two_pow (suc w) (suc k) h =
    let half : 2 ^ suc k / 2 ≡ 2 ^ k = omega (arith, two_pow-suc k) in
    rw half (omega (arith, two_pow-suc k, popcount-two_pow w k (omega arith)))

-- A word has a single bit exactly when it is a power of two.
pub power_of_has_single_bit :
    (w x : ℕ) → x < 2 ^ w → has_single_bit w x ≡ true → (k : ℕ) × (k < w) × (x ≡ 2 ^ k)
unfolding has_single_bit
power_of_has_single_bit w x h e = popcount_one w x h (ground arith)

pub has_single_bit-two_pow : (w k : ℕ) → k < w → has_single_bit w (2 ^ k) ≡ true
unfolding has_single_bit
has_single_bit-two_pow w k h = rw (popcount-two_pow w k h)
