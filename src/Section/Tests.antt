-- ===== src/Section/Tests.antt =====
-- Two sections of an executable, runs of their headers, and the theorems at them.
use pe_bliss.Base.{ℕ, ◌≡◌, refl, List, [], ◌∷◌, arith}
use pe_bliss.Base.Words.{has_single_bit, popcount}
use pe_bliss.Section.Header.{get_virtual_size}
use pe_bliss.Section.Header.Sizes.{base_size, IsLoadedSize, get_virtual_size-IsLoadedSize}
use pe_bliss.Section.Samples.{text, text-IsValid}
use pe_bliss.Utilities.Math.{align_up_if_safe, align_down, add_if_safe, is_sum_safe}

get_virtual_size-IsLoadedSize_example :
    IsLoadedSize 0x1000 (base_size text) (get_virtual_size text 0x1000)
get_virtual_size-IsLoadedSize_example =
    get_virtual_size-IsLoadedSize text 0x1000 text-IsValid (omega arith)

loaded_size : get_virtual_size text 0x1000 ≡ 0x2000
unfolding get_virtual_size has_single_bit popcount align_up_if_safe align_down add_if_safe
    is_sum_safe
loaded_size = refl

abbrev new_name : List ℕ
new_name = 0x2e ∷ 0x78 ∷ []
