-- ===== src/Relocations/Entry/Apply.antt =====
-- About `apply_to` and `get_affected_size_in_bytes`.
use pe_bliss.Base.{
  ℕ, ◌+◌, ◌*◌, ◌/◌, ◌%◌, ◌^◌, ◌<◌, ◌≡◌, ◌≢◌, ◌↔◌, refl, ap, subst, if◌then◌else◌, Bool, true, false,
  not, ◌&&◌, ◌||◌, Option, none, some, arith, ◌==◌, inl, inr, ◌⊎◌,
}
use pe_bliss.Base.Words.{cast, add_wrap, sub_wrap}
use pe_bliss.Errors.{ok, ◌>>=◌, is_ok}
use pe_bliss.Relocations.Entry.{
  RelocationEntry, absolute, high, low, highlow, highadj, thumb_mov32, dir64, get_type,
  apply_highadj, unsupported, apply_type, apply_to, affected_size, get_affected_size_in_bytes,
  requires_parameter,
}

abbrev is_some : Option ℕ → Bool
is_some none = false
is_some (some p) = true

-- The types whose value depends on nothing but the value and the difference.
abbrev pub IsPlain : ℕ → Type 0
IsPlain type = (type ≢ highadj) × (type ≢ thumb_mov32)

-- The plain types with the size of their value.
plain_cases :
    (type machine size : ℕ)
    → IsPlain type
    → affected_size type machine ≡ ok size
    → ((type ≡ absolute) × (size ≡ 0))
      ⊎ (((type ≡ highlow) × (size ≡ 4))
          ⊎ (((type ≡ dir64) × (size ≡ 8))
              ⊎ (((type ≡ high) × (size ≡ 2)) ⊎ ((type ≡ low) × (size ≡ 2)))))
unfolding affected_size unsupported
plain_cases type machine size plain sized = grind arith

low_back :
    (v d : ℕ)
    → v < 2 ^ 16
    → d < 2 ^ 64
    → cast 16 (add_wrap 64 (cast 16 (add_wrap 64 v d)) (sub_wrap 64 0 d)) ≡ v
low_back v d fits word = omega arith

highlow_back :
    (v d : ℕ)
    → v < 2 ^ 32
    → d < 2 ^ 64
    → cast 32 (add_wrap 64 (cast 32 (add_wrap 64 v d)) (sub_wrap 64 0 d)) ≡ v
highlow_back v d fits word = omega arith

dir64_back :
    (v d : ℕ) → v < 2 ^ 64 → d < 2 ^ 64 → add_wrap 64 (add_wrap 64 v d) (sub_wrap 64 0 d) ≡ v
dir64_back v d fits word = omega arith

high_back :
    (v d : ℕ)
    → v < 2 ^ 16
    → d < 2 ^ 64
    → d % 2 ^ 16 ≡ 0
    → cast 16 (add_wrap 64 (cast 16 (add_wrap 64 v (d / 2 ^ 16))) (sub_wrap 64 0 d / 2 ^ 16)) ≡ v
high_back v d fits word aligned = omega arith

apply_type_back :
    (type : ℕ) (param : Option ℕ) (value difference machine size : ℕ)
    → IsPlain type
    → affected_size type machine ≡ ok size
    → value < 2 ^ (8 * size)
    → difference < 2 ^ 64
    → difference % 2 ^ 16 ≡ 0
    → (apply_type type param value difference machine >>= λ moved.
        apply_type type param moved (sub_wrap 64 0 difference) machine)
      ≡ ok value
unfolding apply_type
apply_type_back type param value difference machine size plain sized fits word aligned =
    elim (plain_cases type machine size plain sized) [
      | inl (e, s) ↦ rw e refl
      | inr (inl (e, s)) ↦ rw e (ap ok (highlow_back value difference (rw s at fits) word))
      | inr (inr (inl (e, s))) ↦ rw e (ap ok (dir64_back value difference (rw s at fits) word))
      | inr (inr (inr (inl (e, s)))) ↦
          rw e (ap ok (high_back value difference (rw s at fits) word aligned))
      | inr (inr (inr (inr (e, s)))) ↦ rw e (ap ok (low_back value difference (rw s at fits) word))
    ]

-- The part of an address that a plain type with a value of this size stores.
abbrev pub stored : ℕ → ℕ → ℕ → ℕ
stored type size address = (if type == high then address / 2 ^ 16 else address) % 2 ^ (8 * size)

apply_type-stored :
    (type : ℕ) (param : Option ℕ) (address difference machine size : ℕ)
    → IsPlain type
    → affected_size type machine ≡ ok size
    → difference < 2 ^ 64
    → difference % 2 ^ 16 ≡ 0
    → apply_type type param (stored type size address) difference machine
      ≡ ok (stored type size (address + difference))
unfolding apply_type
apply_type-stored type param address difference machine size plain sized word aligned =
    elim (plain_cases type machine size plain sized) [
      | inl (e, s) ↦ rw (e, s) (ap ok (omega arith))
      | inr (inl (e, s)) ↦ rw (e, s) (ap ok (omega arith))
      | inr (inr (inl (e, s))) ↦ rw (e, s) (ap ok (omega arith))
      | inr (inr (inr (inl (e, s)))) ↦ rw (e, s) (ap ok (omega arith))
      | inr (inr (inr (inr (e, s)))) ↦ rw (e, s) (ap ok (omega arith))
    ]

-- For an entry of a supported type other than highadj and thumb_mov32, a value that fits the
-- type's field and a 64-bit difference that is a multiple of 64K: a value that is the part of an
-- address that the type stores is moved to that part of the address plus the difference, and
-- moving it back gives the value again.
pub apply_to_back :
    (e : RelocationEntry) (value difference machine size : ℕ)
    → IsPlain (get_type e)
    → get_affected_size_in_bytes e machine ≡ ok size
    → value < 2 ^ (8 * size)
    → difference < 2 ^ 64
    → difference % 2 ^ 16 ≡ 0
    → ((address : ℕ)
        → stored (get_type e) size address ≡ value
        → apply_to e value difference machine
          ≡ ok (stored (get_type e) size (address + difference)))
      × ((apply_to e value difference machine >>= λ moved.
            apply_to e moved (sub_wrap 64 0 difference) machine)
          ≡ ok value)
unfolding apply_to get_affected_size_in_bytes
apply_to_back e value difference machine size plain sized fits word aligned = (
  λ address is.
      subst
        (λ x.
          apply_type (get_type e) e.param x difference machine
          ≡ ok (stored (get_type e) size (address + difference)))
        is
        (apply_type-stored (get_type e) e.param address difference machine size plain sized word
          aligned),
  apply_type_back (get_type e) e.param value difference machine size plain sized fits word aligned,
)

supported :
    (type value difference machine : ℕ) (param : Option ℕ)
    → is_ok (apply_type type param value difference machine)
      ≡ (is_ok (affected_size type machine) && (not (type == highadj) || is_some param))
unfolding apply_type affected_size unsupported
supported type value difference machine none = ground arith
supported type value difference machine (some p) = ground arith

-- An entry applies to every value, if its type is supported and it has the parameter that its type
-- requires, and to none if not.
pub apply_to_iff :
    (e : RelocationEntry) (value difference machine : ℕ)
    → (is_ok (apply_to e value difference machine) ≡ true) ↔ (
        (is_ok (get_affected_size_in_bytes e machine) ≡ true)
        × (requires_parameter e ≡ true → e.param ≢ none))
unfolding apply_to get_affected_size_in_bytes requires_parameter
apply_to_iff e value difference machine =
    rw (supported (get_type e) value difference machine e.param)
      (needs (get_type e == highadj) e.param)
  where
    needs :
        (b : Bool) (param : Option ℕ) {s : Bool}
        → ((s && (not b || is_some param)) ≡ true) ↔ ((s ≡ true) × (b ≡ true → param ≢ none))
    needs b none = ground arith
    needs b (some p) = ground arith

-- For a 16-bit parameter and value, the adjusted high half moves by the difference with the
-- parameter, read as an unsigned number, and a rounding of 0x8000: a carry of the two into the
-- high half is added even for a zero difference.
pub apply_highadj_lem :
    (param value difference : ℕ)
    → param < 2 ^ 16
    → value < 2 ^ 16
    → apply_highadj param value difference
      ≡ (value + (param + difference % 2 ^ 32 + 0x8000) / 2 ^ 16) % 2 ^ 16
unfolding apply_highadj
apply_highadj_lem param value difference low high = omega arith
