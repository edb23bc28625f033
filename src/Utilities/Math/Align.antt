-- ===== src/Utilities/Math/Align.antt =====
-- About alignment by masks, at a power of two that fits the type.
use native.Mathlib.Nat.{
  mod-eq_of_lt, div-add-mod', mod-lt, add-mod_right, div-mul-le_self, mul-mod_left, add-mod_left,
  mul-le-mul_right,
}
use native.Mathlib.Decide.{dec_lt}
use pe_bliss.Base.{
  ℕ, ◌+◌, ◌-◌, ◌*◌, ◌/◌, ◌%◌, ◌^◌, ◌≤◌, ◌<◌, ◌≡◌, ◌∙◌, Option, none, some, arith, ltb, ◌!=◌,
  if◌then◌else◌, suc, bit_and, Bool-cases, inl, inr,
}
use pe_bliss.Base.Bits.{two_pow-pos, two_pow_mono, two_pow-suc}
use pe_bliss.Base.Masks.{bit_and-low_mask, bit_and-high_mask}
use pe_bliss.Base.Words.{cast, complement, sub_wrap}
use pe_bliss.Utilities.Math.{align_down, align_up, align_up_if_safe}
use pe_bliss.Utilities.Math.Laws.{add_if_safe_lem}

module _ (w k : ℕ) (fits_type : k < w) (fits_param : k < 32) where
  multiple-le :
      {x r : ℕ} (m q : ℕ) → r < 2 ^ k → q * 2 ^ k + r ≡ x → m * 2 ^ k ≤ x → m * 2 ^ k ≤ q * 2 ^ k
  multiple-le m q h e le = elim (dec_lt q m) [
    | yes above ↦ absurd (omega (arith, mul-le-mul_right (2 ^ k) above))
    | no below ↦ mul-le-mul_right (2 ^ k) (omega arith)
  ]

  power-lt : 2 ^ k < 2 ^ w
  power-lt = omega (arith, two_pow_mono (suc k) w fits_type, two_pow-suc k, two_pow-pos k)

  power-lt_param : 2 ^ k < 2 ^ 32
  power-lt_param = omega (arith, two_pow_mono (suc k) 32 fits_param, two_pow-suc k, two_pow-pos k)

  cast_power : cast w (2 ^ k) ≡ 2 ^ k
  cast_power = mod-eq_of_lt power-lt

  below_power : (v : ℕ) → 2 ^ k < 2 ^ v → sub_wrap v (2 ^ k) 1 ≡ 2 ^ k - 1
  below_power v h =
      let shifted : 2 ^ k + 2 ^ v - 1 ≡ 2 ^ k - 1 + 2 ^ v = omega (arith, two_pow-pos k) in
      rw (shifted, add-mod_right) (mod-eq_of_lt (omega (arith, two_pow-pos k)))

  clearing_mask : complement w (sub_wrap w (cast w (2 ^ k)) 1) ≡ 2 ^ w - 2 ^ k
  clearing_mask =
      let below : sub_wrap w (2 ^ k) 1 ≡ 2 ^ k - 1 = below_power w power-lt in
      rw (cast_power, below) (omega (arith, power-lt, two_pow-pos k))

  testing_mask : cast w (sub_wrap 32 (2 ^ k) 1) ≡ 2 ^ k - 1
  testing_mask =
      let below : sub_wrap 32 (2 ^ k) 1 ≡ 2 ^ k - 1 = below_power 32 power-lt_param in
      rw below (mod-eq_of_lt (omega (arith, power-lt, two_pow-pos k)))

  pub align_down_lem : (x : ℕ) → x < 2 ^ w → align_down w x (2 ^ k) ≡ x / 2 ^ k * 2 ^ k
  unfolding align_down
  align_down_lem x h = rw clearing_mask (bit_and-high_mask k w x (omega (arith, fits_type)) h)

  pub remainder : (x : ℕ) → bit_and x (cast w (sub_wrap 32 (2 ^ k) 1)) ≡ x % 2 ^ k
  remainder x = rw testing_mask (bit_and-low_mask k x)

  -- The least multiple of the alignment from `x` on, if it is a word.
  pub align_up_if_safe_lem :
      (x : ℕ)
      → x < 2 ^ w
      → align_up_if_safe w x (2 ^ k) ≡ (
          if x % 2 ^ k != 0
          then (if ltb (2 ^ k + x / 2 ^ k * 2 ^ k) (2 ^ w)
              then some (2 ^ k + x / 2 ^ k * 2 ^ k)
              else none)
          else some x)
  unfolding align_up_if_safe
  align_up_if_safe_lem x h =
      let down : x / 2 ^ k * 2 ^ k < 2 ^ w = omega (arith, div-mul-le_self x (2 ^ k)) in
      rw (
        remainder x,
        align_down_lem x h,
        cast_power,
        add_if_safe_lem w (2 ^ k) (x / 2 ^ k * 2 ^ k) down,
      )

  -- For a power of two below both 2 ^ w and 2 ^ 32, aligning a word `x` of width `w` down gives
  -- the greatest multiple of the alignment up to `x`.
  pub align_down_greatest :
      (x : ℕ)
      → x < 2 ^ w
      → let d = align_down w x (2 ^ k) in
        (d % 2 ^ k ≡ 0) × (d ≤ x) × ((m : ℕ) → m * 2 ^ k ≤ x → m * 2 ^ k ≤ d)
  align_down_greatest x h = rw (align_down_lem x h) (
    mul-mod_left (x / 2 ^ k) (2 ^ k),
    div-mul-le_self x (2 ^ k),
    λ m le. multiple-le m (x / 2 ^ k) (mod-lt x (two_pow-pos k)) (div-add-mod' x (2 ^ k)) le,
  )

  -- What a call of `align_up_if_safe` promises of its result.
  abbrev pub IsAlignedUp : ℕ → Option ℕ → Type 0
  IsAlignedUp x (some r) = (x ≤ r) × (r < x + 2 ^ k) × (r % 2 ^ k ≡ 0) × (r < 2 ^ w)
  IsAlignedUp x none = (m : ℕ) → x ≤ m * 2 ^ k → 2 ^ w ≤ m * 2 ^ k

  -- For a power of two below both 2 ^ w and 2 ^ 32, and a word `x` of width `w`, the result is the
  -- least multiple of the alignment from `x` on; the call fails only if no such multiple is a
  -- word.
  pub align_up_if_safe-IsAlignedUp :
      (x : ℕ) → x < 2 ^ w → IsAlignedUp x (align_up_if_safe w x (2 ^ k))
  align_up_if_safe-IsAlignedUp x h =
      let q = x / 2 ^ k in
      let whole = div-add-mod' x (2 ^ k) in
      let below = mod-lt x (two_pow-pos k) in
      rw (align_up_if_safe_lem x h) (elim (Bool-cases (x % 2 ^ k != 0)) [
        | inl part ↦ elim (Bool-cases (ltb (2 ^ k + q * 2 ^ k) (2 ^ w))) [
          | inl fits ↦
              rw (part, fits)
                (
                  omega arith,
                  ground arith,
                  add-mod_left (2 ^ k) (q * 2 ^ k) ∙ mul-mod_left q (2 ^ k),
                  ground arith,
                )
          | inr over ↦
              rw (part, over)
                λ m le. elim (dec_lt q m) [
                  | yes above ↦ ground (arith, mul-le-mul_right (2 ^ k) above)
                  | no under ↦
                      ground (arith, mul-le-mul_right {m = m} {n = q} (2 ^ k) (omega arith))
                ]
        ]
        | inr exact ↦ rw exact (omega arith, omega (arith, two_pow-pos k), ground arith, h)
      ])

  -- Where the checked alignment succeeds the unchecked one gives the same value.
  pub align_up-align_up_if_safe :
      (x r : ℕ) → x < 2 ^ w → align_up_if_safe w x (2 ^ k) ≡ some r → align_up w x (2 ^ k) ≡ r
  unfolding align_up
  align_up-align_up_if_safe x r h e =
      let q = x / 2 ^ k in
      rw (remainder x, align_down_lem x h, cast_power)
        (ground (
          arith,
          rw (align_up_if_safe_lem x h) at e,
          mod-eq_of_lt {n = q * 2 ^ k + 2 ^ k} {m = 2 ^ w},
        ))
