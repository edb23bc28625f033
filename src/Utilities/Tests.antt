-- ===== src/Utilities/Tests.antt =====
-- Runs of the arithmetic helpers, and their theorems at concrete words.
use pe_bliss.Base.{◌^◌, ◌≡◌, refl, none, some, arith}
use pe_bliss.Utilities.Math.{align_down, align_up_if_safe, add_if_safe, is_sum_safe}
use pe_bliss.Utilities.Math.Align.{IsAlignedUp, align_up_if_safe-IsAlignedUp}

align_up_run : align_up_if_safe 32 0x1234 0x1000 ≡ some 0x2000
unfolding align_up_if_safe align_down add_if_safe is_sum_safe
align_up_run = refl

align_up_over : align_up_if_safe 32 0xfffff001 0x1000 ≡ none
unfolding align_up_if_safe align_down add_if_safe is_sum_safe
align_up_over = refl

align_up_if_safe-IsAlignedUp_example :
    IsAlignedUp 32 12 (omega arith) (omega arith) 0x1234 (align_up_if_safe 32 0x1234 (2 ^ 12))
align_up_if_safe-IsAlignedUp_example =
    align_up_if_safe-IsAlignedUp 32 12 (omega arith) (omega arith) 0x1234 (omega arith)
