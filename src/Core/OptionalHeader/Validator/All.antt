-- ===== src/Core/OptionalHeader/Validator/All.antt =====
-- About `validate`, which runs the enabled checks on one error list.
use pe_bliss.Base.{◌≡◌, ◌↔◌, refl, Bool, true, false, not, Option, none, some, [], ap}
use pe_bliss.Errors.{Error}
use pe_bliss.Errors.List.{ErrorList, has_errors, has_errors-add_error, has_errors-nil}
use pe_bliss.Core.OptionalHeader.{OptionalHeader}
use pe_bliss.Core.OptionalHeader.Validator.{
  ValidationOptions, report, validate, validate_address_of_entry_point, validate_file_alignment,
  validate_section_alignment, validate_subsystem_version, validate_size_of_heap,
  validate_size_of_stack, validate_size_of_headers,
}

abbrev pub Passes : Bool → Option Error → Type 0
Passes enabled check = enabled ≡ true → check ≡ none

report-has_errors :
    (enabled : Bool) (check : Option Error) (es : ErrorList)
    → (has_errors (report enabled check es) ≡ false)
      ↔ (Passes enabled check × (has_errors es ≡ false))
unfolding report
report-has_errors enabled none es = (λ h. (λ p. refl, h), λ h. h.1)
report-has_errors true (some e) es = (λ h. cc (has_errors-add_error es e), λ h. cc (h.0 refl))
report-has_errors false (some e) es = (λ h. (λ p. cc, h), λ h. h.1)

-- On an empty list the call returns true exactly when every check that its options enable passes.
pub validate_iff :
    (oh : OptionalHeader) (o : ValidationOptions) (is_dll : Bool)
    → ((validate oh o is_dll []).1 ≡ true) ↔ (
        Passes o.check_address_of_entry_point (validate_address_of_entry_point oh is_dll)
        × Passes o.check_alignments (validate_file_alignment oh)
        × Passes o.check_alignments (validate_section_alignment oh)
        × Passes o.check_subsystem_version (validate_subsystem_version oh)
        × Passes o.check_size_of_heap (validate_size_of_heap oh)
        × Passes o.check_size_of_stack (validate_size_of_stack oh)
        × Passes o.check_size_of_headers (validate_size_of_headers oh))
unfolding validate
validate_iff oh o is_dll = (
  λ h.
      let (p₇, h₆) = (report-has_errors _ _ _).0 (clean _ h) in
      let (p₆, h₅) = (report-has_errors _ _ _).0 h₆ in
      let (p₅, h₄) = (report-has_errors _ _ _).0 h₅ in
      let (p₄, h₃) = (report-has_errors _ _ _).0 h₄ in
      let (p₃, h₂) = (report-has_errors _ _ _).0 h₃ in
      let (p₂, h₁) = (report-has_errors _ _ _).0 h₂ in
      let (p₁, h₀) = (report-has_errors _ _ _).0 h₁ in (p₁, p₂, p₃, p₄, p₅, p₆, p₇),
  λ (p₁, p₂, p₃, p₄, p₅, p₆, p₇).
      let h₁ = (report-has_errors _ _ []).1 (p₁, has_errors-nil) in
      let h₂ = (report-has_errors _ _ _).1 (p₂, h₁) in
      let h₃ = (report-has_errors _ _ _).1 (p₃, h₂) in
      let h₄ = (report-has_errors _ _ _).1 (p₄, h₃) in
      let h₅ = (report-has_errors _ _ _).1 (p₅, h₄) in
      let h₆ = (report-has_errors _ _ _).1 (p₆, h₅) in
      let h₇ = (report-has_errors _ _ _).1 (p₇, h₆) in ap not h₇,
)
  where
    clean : (b : Bool) → not b ≡ true → b ≡ false
    clean true h = cc
    clean false h = refl
