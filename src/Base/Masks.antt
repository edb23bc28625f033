-- ===== src/Base/Masks.antt =====
-- Masks of neighbouring digits, and division and remainder by a power of two.
use native.Mathlib.Nat.{div-add-mod', mod-lt}
use mathlib.Core.Path.{◌≡◌, ap, ◌∙◌}
use Prim.Native.Nat.{ℕ, zero, suc, ◌+◌, ◌-◌, ◌*◌, ◌/◌, ◌%◌, ◌^◌, ◌≤◌, ◌<◌, bit_and, bit_or}
use native.Mathlib.Omega.{arith}
use pe_bliss.Base.Digits.{bit_and_step, bit_or_step}
use pe_bliss.Base.Bits.{
  two_pow-suc, two_pow-pos, two_pow_mono, bit_and-zero, bit_or-zero, bit_ext, bit-bit_or, bit_or-lt,
  lt-two_pow, bit_and-lt,
}

doubled : (q k : ℕ) → q * 2 ^ suc k ≡ 2 * (q * 2 ^ k)
doubled q k = omega (arith, ap (λ (t : ℕ). q * t) (two_pow-suc k))

-- `x & (2 ^ k - 1)`, in parts: the digits below `k` are kept and those above are dropped.
low_mask_parts : (k q r : ℕ) → r < 2 ^ k → bit_and (q * 2 ^ k + r) (2 ^ k - 1) ≡ r
low_mask_parts zero q r below = rw bit_and-zero (omega arith)
low_mask_parts (suc k) q r below =
    let half : (q * 2 ^ suc k + r) / 2 ≡ q * 2 ^ k + r / 2 = omega (arith, doubled q k) in
    let mask : (2 ^ suc k - 1) / 2 ≡ 2 ^ k - 1 = omega (arith, two_pow-suc k, two_pow-pos k) in
    let rest = low_mask_parts k q (r / 2) (omega (arith, two_pow-suc k)) in
    let step = bit_and_step (q * 2 ^ suc k + r) (2 ^ suc k - 1) in
    let step' = rw (half, mask, rest) at step in
    omega (arith, step', two_pow-suc k, two_pow-pos k, doubled q k)

pub bit_and-low_mask : (k a : ℕ) → bit_and a (2 ^ k - 1) ≡ a % 2 ^ k
bit_and-low_mask k a =
    let parts = low_mask_parts k (a / 2 ^ k) (a % 2 ^ k) (mod-lt a (two_pow-pos k)) in
    rw (div-add-mod' a (2 ^ k)) at parts

-- `x & (2 ^ w - 2 ^ k)`, in parts: the digits below `k` are cleared.
high_mask_parts :
    (k w q r : ℕ)
    → k ≤ w
    → q * 2 ^ k + r < 2 ^ w
    → r < 2 ^ k
    → bit_and (q * 2 ^ k + r) (2 ^ w - 2 ^ k) ≡ q * 2 ^ k
high_mask_parts zero w q r le fits below =
    let whole = low_mask_parts w 0 (q * 2 ^ 0 + r) fits in
    let plain : 0 * 2 ^ w + (q * 2 ^ 0 + r) ≡ q * 2 ^ 0 + r = omega arith in
    rw plain at whole ∙ omega arith
high_mask_parts (suc k) zero q r le fits below = absurd (omega arith)
high_mask_parts (suc k) (suc w) q r le fits below =
    let half : (q * 2 ^ suc k + r) / 2 ≡ q * 2 ^ k + r / 2 = omega (arith, doubled q k) in
    let mask : (2 ^ suc w - 2 ^ suc k) / 2 ≡ 2 ^ w - 2 ^ k =
      omega (arith, two_pow-suc w, two_pow-suc k) in
    let rest =
      high_mask_parts k w q (r / 2) (omega arith) (omega (arith, doubled q k, two_pow-suc w))
        (omega (arith, two_pow-suc k)) in
    let step = bit_and_step (q * 2 ^ suc k + r) (2 ^ suc w - 2 ^ suc k) in
    let step' = rw (half, mask, rest) at step in
    omega (arith, step', two_pow-suc w, two_pow-suc k, doubled q k)

pub bit_and-high_mask :
    (k w a : ℕ) → k ≤ w → a < 2 ^ w → bit_and a (2 ^ w - 2 ^ k) ≡ a / 2 ^ k * 2 ^ k
bit_and-high_mask k w a le fits =
    let whole = div-add-mod' a (2 ^ k) in
    let parts =
      high_mask_parts k w (a / 2 ^ k) (a % 2 ^ k) le (rw whole fits) (mod-lt a (two_pow-pos k)) in
    rw whole at parts

-- `(q << k) | r`, where `r` fits in the `k` digits that the shift leaves free.
pub bit_or_disjoint : (k q r : ℕ) → r < 2 ^ k → bit_or (q * 2 ^ k) r ≡ q * 2 ^ k + r
bit_or_disjoint zero q r below = let e : r ≡ 0 = omega arith in rw (e, bit_or-zero) (omega arith)
bit_or_disjoint (suc k) q r below =
    let half : q * 2 ^ suc k / 2 ≡ q * 2 ^ k = omega (arith, doubled q k) in
    let rest = bit_or_disjoint k q (r / 2) (omega (arith, two_pow-suc k)) in
    let step = bit_or_step (q * 2 ^ suc k) r in
    let step' = rw (half, rest) at step in omega (arith, step', doubled q k)

-- Only the digits of a mask below the width of the word count.
pub bit_and-low_part :
    (w q r a : ℕ) → r < 2 ^ w → a < 2 ^ w → bit_and a (q * 2 ^ w + r) ≡ bit_and a r
bit_and-low_part zero q r a below fits =
    omega (arith, bit_and-lt 0 a (q * 2 ^ 0 + r) fits, bit_and-lt 0 a r fits)
bit_and-low_part (suc w) q r a below fits =
    let half : (q * 2 ^ suc w + r) / 2 ≡ q * 2 ^ w + r / 2 = omega (arith, doubled q w) in
    let rest =
      bit_and-low_part w q (r / 2) (a / 2) (omega (arith, two_pow-suc w))
        (omega (arith, two_pow-suc w)) in
    let step = bit_and_step a (q * 2 ^ suc w + r) in
    let step' = rw (half, rest) at step in omega (arith, step', bit_and_step a r, doubled q w)

pub bit_or_comm : (a b : ℕ) → bit_or a b ≡ bit_or b a
bit_or_comm a b =
    let w = a + b in
    let left : a < 2 ^ w = omega (arith, lt-two_pow a, two_pow_mono a w (omega arith)) in
    let right : b < 2 ^ w = omega (arith, lt-two_pow b, two_pow_mono b w (omega arith)) in
    bit_ext w (bit_or a b) (bit_or b a) (bit_or-lt w a b left right) (bit_or-lt w b a right left)
      λ k lt. omega (arith, bit-bit_or k a b, bit-bit_or k b a)
