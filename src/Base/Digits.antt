-- ===== src/Base/Digits.antt =====
-- The native bit operations mean a recursion on binary digits with fuel. Here the fuel is
-- dropped: one equation for the lowest digit of each operation.
use Prim.Native.Nat.{
  ℕ, zero, suc, ◌+◌, ◌-◌, ◌*◌, ◌/◌, ◌%◌, ◌≤◌, ◌<◌, min, max, differ, bit_and, bit_or, bit_xor,
  digits, bitwise, bit_and-bitwise, bit_or-bitwise, bit_xor-bitwise,
}
use mathlib.Core.Path.{◌≡◌, refl, ◌∙◌}
use native.Mathlib.Omega.{arith}

module _ (ends : ℕ → ℕ) (digit : ℕ → ℕ → ℕ) where
  digits_enough :
      (n extra a b : ℕ) → a ≤ n → digits ends digit (n + extra) a b ≡ digits ends digit n a b
  digits_enough zero zero zero b h = refl
  digits_enough zero (suc e) zero b h = let s : 0 + suc e ≡ suc e = omega arith in rw s
  digits_enough (suc n) e zero b h = let s : suc n + e ≡ suc (n + e) = omega arith in rw s
  digits_enough zero e (suc a) b h = absurd (omega arith)
  digits_enough (suc n) e (suc a) b h =
      let s : suc n + e ≡ suc (n + e) = omega arith in
      rw (s, digits_enough n e (suc a / 2) (b / 2) (omega arith))

  module _ (op : ℕ → ℕ → ℕ) (means : (a b : ℕ) → op a b ≡ bitwise ends digit a b) where
    op_step : (a b : ℕ) → op (suc a) b ≡ op (suc a / 2) (b / 2) * 2 + digit (suc a % 2) (b % 2)
    op_step a b =
        let h : suc a / 2 + (a - suc a / 2) ≡ a = omega arith in
        let enough = digits_enough (suc a / 2) (a - suc a / 2) (suc a / 2) (b / 2) (omega arith) in
        omega (arith, rw h at enough, means (suc a) b, means (suc a / 2) (b / 2))

pub bit_and_step : (a b : ℕ) → bit_and a b ≡ bit_and (a / 2) (b / 2) * 2 + min (a % 2) (b % 2)
bit_and_step zero b = omega (arith, bit_and-bitwise 0 b, bit_and-bitwise 0 (b / 2))
bit_and_step (suc a) b = op_step (λ y. 0) min bit_and bit_and-bitwise a b

pub bit_or_step : (a b : ℕ) → bit_or a b ≡ bit_or (a / 2) (b / 2) * 2 + max (a % 2) (b % 2)
bit_or_step zero b = omega (arith, bit_or-bitwise 0 b, bit_or-bitwise 0 (b / 2))
bit_or_step (suc a) b = op_step (λ y. y) max bit_or bit_or-bitwise a b

differ-digits : (x y : ℕ) → x < 2 → y < 2 → differ x y ≡ (x + y) % 2
differ-digits zero y h k = omega arith
differ-digits (suc x) zero h k = omega arith
differ-digits (suc zero) (suc zero) h k = refl
differ-digits (suc zero) (suc (suc y)) h k = absurd (omega arith)
differ-digits (suc (suc x)) (suc y) h k = absurd (omega arith)

-- The digits are added without carry.
pub bit_xor_step : (a b : ℕ) → bit_xor a b ≡ bit_xor (a / 2) (b / 2) * 2 + (a % 2 + b % 2) % 2
bit_xor_step zero b = omega (arith, bit_xor-bitwise 0 b, bit_xor-bitwise 0 (b / 2))
bit_xor_step (suc a) b =
    op_step (λ y. y) differ bit_xor bit_xor-bitwise a b
    ∙ omega (arith, differ-digits (suc a % 2) (b % 2) (omega arith) (omega arith))
