-- ===== src/Utilities/SafeUint.antt =====
-- class safe_uint (include/utilities/safe_uint.h). A `safe_uint<T>` is its value, at the width
-- `w` of `T`; the operand is a word of any width, and is read as its value.
use native.Mathlib.Nat.{mod-eq_of_lt, mod-lt}
use pe_bliss.Base.{
  ℕ, ◌+◌, ◌-◌, ◌%◌, ◌^◌, ◌<◌, ◌≡◌, arith, ltb, ◌!=◌, if◌then◌else◌, Bool-cases, inl, inr,
}
use pe_bliss.Base.Words.{cast}
use pe_bliss.Base.Bits.{two_pow-pos}
use pe_bliss.Errors.{generic, integer_overflow, Result, ok, err, ◌>>◌, throw_if, or_throw}
use pe_bliss.Utilities.Math.{add_if_safe, align_up_if_safe}
use pe_bliss.Utilities.Math.Laws.{add_if_safe_lem}

-- `operator+`, and `+=`, which assigns its result.
unfoldable pub plus : ℕ → ℕ → ℕ → Result ℕ
plus w value other = do
  throw_if (cast w other != other) (generic integer_overflow)
  or_throw (add_if_safe w value (cast w other)) (generic integer_overflow)

-- `operator-`, and `-=`.
pub minus : ℕ → ℕ → ℕ → Result ℕ
minus w value other = do
  throw_if (ltb value other) (generic integer_overflow)
  ok (value - cast w other)

unfoldable pub align_up : ℕ → ℕ → ℕ → Result ℕ
align_up w value alignment =
    or_throw (align_up_if_safe w value alignment) (generic integer_overflow)

abbrev pub overflow {ℓ} : {A : Type ℓ} → Result A
overflow = err (generic integer_overflow)

-- For a sum of width `w`, whatever the operand's width: the exact sum, or an overflow error if
-- that is no word of the width.
pub plus_lem :
    (w value other : ℕ)
    → plus w value other ≡ (if ltb (value + other) (2 ^ w) then ok (value + other) else overflow)
unfolding plus
plus_lem w value other = elim (Bool-cases (ltb other (2 ^ w))) [
  | inl small ↦
      let same : other % 2 ^ w ≡ other = mod-eq_of_lt (ground arith) in
      rw (same, add_if_safe_lem w value other (ground arith)) (ground arith)
  | inr large ↦ ground (arith, mod-lt other (two_pow-pos w))
]

-- For a value of width `w`: the exact difference, or an overflow error if the operand is greater.
pub minus_lem :
    (w value other : ℕ)
    → value < 2 ^ w
    → minus w value other ≡ (if ltb value other then overflow else ok (value - other))
unfolding minus
minus_lem w value other h = ground (arith, mod-eq_of_lt {n = other} {m = 2 ^ w})
