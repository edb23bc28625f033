-- ===== src/Relocations/Entry/Laws.antt =====
-- About the type and the address in the descriptor of an entry.
use pe_bliss.Base.{
  ℕ, ◌+◌, ◌*◌, ◌/◌, ◌%◌, ◌^◌, ◌≤◌, ◌<◌, ◌≡◌, refl, ◌∙◌, arith, ltb, if◌then◌else◌, bit_and,
  Bool-cases, inl, inr, le→ltb, lt→ltb,
}
use pe_bliss.Base.Masks.{
  bit_and-low_mask, bit_and-high_mask, bit_or_disjoint, bit_and-low_part, bit_or_comm,
}
use pe_bliss.Base.Words.{complement}
use pe_bliss.Errors.{ok, err, relocation_entry, too_large_relocation_address}
use pe_bliss.Relocations.Entry.{RelocationEntry, get_type, set_type, get_address, set_address}

get_type_lem : (e : RelocationEntry) → e.descriptor < 2 ^ 16 → get_type e ≡ e.descriptor / 2 ^ 12
unfolding get_type
get_type_lem e fits = rw (bit_and-high_mask 12 16 e.descriptor (omega arith) fits) (omega arith)

get_address_lem : (e : RelocationEntry) → get_address e ≡ e.descriptor % 2 ^ 12
unfolding get_address
get_address_lem e = bit_and-low_mask 12 e.descriptor

cleared_type : (d : ℕ) → d < 2 ^ 16 → bit_and d (complement 32 0xf000) ≡ d % 2 ^ 12
cleared_type d fits = bit_and-low_part 16 0xffff 0xfff d (omega arith) fits ∙ bit_and-low_mask 12 d

cleared_address : (d : ℕ) → d < 2 ^ 16 → bit_and d (complement 32 0xfff) ≡ d / 2 ^ 12 * 2 ^ 12
cleared_address d fits =
    bit_and-low_part 16 0xffff 0xf000 d (omega arith) fits
    ∙ bit_and-high_mask 12 16 d (omega arith) fits

set_type_lem :
    (e : RelocationEntry) (t : ℕ)
    → e.descriptor < 2 ^ 16
    → t < 2 ^ 4
    → (set_type e t).descriptor ≡ t * 2 ^ 12 + e.descriptor % 2 ^ 12
unfolding set_type
set_type_lem e t fits small =
    let d = e.descriptor in
    let low : d % 2 ^ 12 < 2 ^ 12 = omega arith in
    let kept : d % 2 ^ 12 % 2 ^ 16 ≡ d % 2 ^ 12 = omega arith in
    let plain : t % 2 ^ 8 ≡ t = omega arith in
    rw (cleared_type d fits, kept, plain)
      (rw (bit_or_comm (d % 2 ^ 12) (t * 2 ^ 12), bit_or_disjoint 12 t (d % 2 ^ 12) low)
        (omega arith))

set_address_lem :
    (e : RelocationEntry) (a : ℕ)
    → e.descriptor < 2 ^ 16
    → set_address e a ≡ (
        if ltb 0xfff a
        then err (relocation_entry too_large_relocation_address)
        else ok (record e { descriptor = e.descriptor / 2 ^ 12 * 2 ^ 12 + a }))
unfolding set_address
set_address_lem e a fits = elim (Bool-cases (ltb 0xfff a)) [
  | inl large ↦ rw large refl
  | inr small ↦
      let d = e.descriptor in
      let whole : d / 2 ^ 12 * 2 ^ 12 % 2 ^ 16 ≡ d / 2 ^ 12 * 2 ^ 12 = omega arith in
      let word : (d / 2 ^ 12 * 2 ^ 12 + a) % 2 ^ 16 ≡ d / 2 ^ 12 * 2 ^ 12 + a = ground arith in
      rw (small, cleared_address d fits, whole)
        (rw (bit_or_disjoint 12 (d / 2 ^ 12) a (ground arith)) (rw word refl))
]

-- In a 16-bit descriptor a type below 16 is read back as it was set, and setting it keeps the
-- address.
pub get_type-set_type :
    (e : RelocationEntry) (t : ℕ)
    → e.descriptor < 2 ^ 16
    → t < 2 ^ 4
    → (get_type (set_type e t) ≡ t) × (get_address (set_type e t) ≡ get_address e)
get_type-set_type e t fits small =
    let set = set_type_lem e t fits small in
    (
      get_type_lem (set_type e t) (omega (arith, set)) ∙ omega (arith, set),
      get_address_lem (set_type e t) ∙ omega (arith, set, get_address_lem e),
    )

-- In a 16-bit descriptor an address below 4096 is read back as it was set, and setting it keeps
-- the type; a greater one is refused.
pub get_address-set_address :
    (e : RelocationEntry) (a : ℕ)
    → e.descriptor < 2 ^ 16
    → (a < 2 ^ 12
        → (e' : RelocationEntry) × (set_address e a ≡ ok e')
          × (get_address e' ≡ a)
          × (get_type e' ≡ get_type e))
      × (2 ^ 12 ≤ a → set_address e a ≡ err (relocation_entry too_large_relocation_address))
get_address-set_address e a fits = (
  λ small.
      let e' = record e { descriptor = e.descriptor / 2 ^ 12 * 2 ^ 12 + a } in
      (
        e',
        set_address_lem e a fits ∙ rw (le→ltb 0xfff a (omega arith)) refl,
        get_address_lem e' ∙ omega arith,
        get_type_lem e' (omega arith) ∙ omega (arith, get_type_lem e fits),
      ),
  λ large. set_address_lem e a fits ∙ rw (lt→ltb 0xfff a (omega arith)) refl,
)
