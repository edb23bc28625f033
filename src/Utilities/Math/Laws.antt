-- ===== src/Utilities/Math/Laws.antt =====
-- About the checked sums.
use native.Mathlib.Nat.{mod-eq_of_lt}
use pe_bliss.Base.{
  ℕ, ◌+◌, ◌-◌, ◌%◌, ◌^◌, ◌≤◌, ◌<◌, ◌≡◌, ◌↔◌, true, Option, none, some, arith, ltb, ◌==◌,
  if◌then◌else◌, ◌||◌,
}
use pe_bliss.Base.Integer.{ℤ, pos, negsuc, IsInt32}
use pe_bliss.Utilities.Math.{is_sum_safe, add_if_safe, add_offset_if_safe}

-- The test holds exactly when the sum of two words is a word.
pub is_sum_safe_iff : (w a b : ℕ) → b < 2 ^ w → (is_sum_safe w a b ≡ true) ↔ (a + b < 2 ^ w)
unfolding is_sum_safe
is_sum_safe_iff w a b h = ground arith

-- A checked sum of words is the sum where that is a word, and fails where it is not.
pub add_if_safe_lem :
    (w a b : ℕ)
    → b < 2 ^ w
    → add_if_safe w a b ≡ (if ltb (a + b) (2 ^ w) then some (a + b) else none)
unfolding add_if_safe is_sum_safe
add_if_safe_lem w a b h = ground (arith, mod-eq_of_lt {n = a + b} {m = 2 ^ w})

pub add_if_safe-some : (w a b : ℕ) → b < 2 ^ w → a + b < 2 ^ w → add_if_safe w a b ≡ some (a + b)
add_if_safe-some w a b h fits = ground (arith, add_if_safe_lem w a b)

pub add_if_safe-none : (w a b : ℕ) → b < 2 ^ w → 2 ^ w ≤ a + b → add_if_safe w a b ≡ none
add_if_safe-none w a b h over = ground (arith, add_if_safe_lem w a b)

-- `p + offset` as an exact number, for the offsets that the function accepts.
abbrev pub shifted : ℕ → ℤ → Option ℕ
shifted p (pos n) = some (p + n)
shifted p (negsuc n) = if n + 1 == 2 ^ 31 || ltb p (n + 1) then none else some (p - (n + 1))

-- A move of a 64-bit position by a signed 32-bit offset is exact where it stays in the words, and
-- fails elsewhere and for the offset -2 ^ 31, whose negation is no 32-bit integer.
pub add_offset_if_safe_lem :
    (p : ℕ) (offset : ℤ)
    → p < 2 ^ 64
    → IsInt32 offset
    → add_offset_if_safe p offset
      ≡ elim (shifted p offset) [ none ↦ none | some q ↦ if ltb q (2 ^ 64) then some q else none ]
unfolding add_offset_if_safe
add_offset_if_safe_lem p (pos n) h small = add_if_safe_lem 64 p n (omega arith)
add_offset_if_safe_lem p (negsuc n) h small = ground (arith, back)
  where
    back : n + 1 ≤ p → (p + (2 ^ 64 - (n + 1))) % 2 ^ 64 ≡ p - (n + 1)
    back le = omega arith
