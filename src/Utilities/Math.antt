-- ===== src/Utilities/Math.antt =====
-- class math (include/utilities/math.h). A function template over an unsigned type takes the
-- width `w` of that type first; a function that changes its argument and returns a success flag
-- returns the new value, and `none` where it returns false and leaves the argument alone.
pub mod Laws
pub mod Align
use pe_bliss.Base.{
  ℕ, ◌+◌, ◌-◌, ◌%◌, ◌^◌, Bool, ◌||◌, Option, none, some, leb, ltb, ◌==◌, ◌!=◌, if◌then◌else◌,
  bit_and,
}
use pe_bliss.Base.Words.{cast, complement, add_wrap, sub_wrap}
use pe_bliss.Base.Integer.{ℤ, pos, negsuc}

unfoldable pub is_aligned : ℕ → ℕ → Bool
is_aligned boundary value = value % boundary == 0

-- `(std::numeric_limits<T>::max)() - b` does not wrap, since `b` is a `T`.
unfoldable pub is_sum_safe : ℕ → ℕ → ℕ → Bool
is_sum_safe w a b = leb a (2 ^ w - 1 - b)

unfoldable pub add_if_safe : ℕ → ℕ → ℕ → Option ℕ
add_if_safe w target value =
    if is_sum_safe w target value then some (add_wrap w target value) else none

unfoldable pub align_down : ℕ → ℕ → ℕ → ℕ
align_down w x align = bit_and x (complement w (sub_wrap w (cast w align) 1))

pub align_up : ℕ → ℕ → ℕ → ℕ
align_up w x align =
    if bit_and x (cast w (sub_wrap 32 align 1)) != 0
    then add_wrap w (align_down w x align) (cast w align)
    else x

unfoldable pub align_up_if_safe : ℕ → ℕ → ℕ → Option ℕ
align_up_if_safe w x align =
    if bit_and x (cast w (sub_wrap 32 align 1)) != 0
    then add_if_safe w (cast w align) (align_down w x align)
    else some x

-- `pos` is a `std::size_t` and `offset` a `std::int32_t`: a negative one is added modulo 2 ^ 64.
pub add_offset_if_safe : ℕ → ℤ → Option ℕ
add_offset_if_safe p (negsuc n) =
    if n + 1 == 2 ^ 31 || ltb p (n + 1) then none else some (add_wrap 64 p (2 ^ 64 - (n + 1)))
add_offset_if_safe p (pos n) = add_if_safe 64 p n
