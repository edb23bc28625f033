-- ===== src/Base/Integer.antt =====
-- Signed integers over the native numbers, for `std::int32_t` offsets.
use Prim.Native.Nat.{ℕ, ◌<◌, ◌^◌}

-- `negsuc n` is -(n + 1).
pub data ℤ : Type 0 where
  pos : ℕ → ℤ
  negsuc : ℕ → ℤ

-- The values of `std::int32_t`.
abbrev pub IsInt32 : ℤ → Type 0
IsInt32 (pos n) = n < 2 ^ 31
IsInt32 (negsuc n) = n < 2 ^ 31
