-- ===== src/Section/Validator/Single.antt =====
-- About the error list that the validator leaves, and its checks.
use pe_bliss.Base.{
  ℕ, suc, ◌+◌, ◌-◌, ◌^◌, ◌≤◌, ◌<◌, ◌≡◌, ◌↔◌, refl, Bool, false, Option, none, some, List, [], ◌∷◌,
  arith, All, subst,
}
use pe_bliss.Errors
use pe_bliss.Errors.{Error, section, optional_header}
use pe_bliss.Errors.List.{
  ErrorList, has_errors, has_errors-add_error, has_errors-add_error_at, has_errors-nil,
}
use mathlib.Core.Option.{some-injective}
use pe_bliss.Utilities.Math.Laws.{add_if_safe_lem}
use pe_bliss.Core.OptionalHeader.{OptionalHeader}
use pe_bliss.Section.Header.{SectionHeader, IsValid, get_virtual_size, get_rva}
use pe_bliss.Section.Validator.{
  report_at, validate_raw_size, validate_virtual_size, validate_raw_address,
  validate_raw_size_alignment, validate_raw_address_alignment, validate_virtual_address_alignment,
  validate_raw_size_bounds, validate_virtual_size_bounds, validate_low_alignment,
  validate_section_header, validate_gap, validate_section_at, is_empty, validate_from,
  validate_section_headers,
}

abbrev pub IsClean : ErrorList → Type 0
IsClean es = has_errors es ≡ false

report_at-IsClean :
    (i : ℕ) (check : Option Error) (es : ErrorList)
    → IsClean (report_at i check es) ↔ ((check ≡ none) × IsClean es)
unfolding report_at
report_at-IsClean i none es = (λ h. (refl, h), λ h. h.1)
report_at-IsClean i (some e) es = (λ h. cc (has_errors-add_error_at es e i), λ h. cc)

-- The checks of one section.
abbrev pub Passes : OptionalHeader → SectionHeader → Bool → Type 0
Passes oh h last =
    (validate_raw_size h oh.section_alignment ≡ none)
    × (validate_virtual_size h ≡ none)
    × (validate_raw_address h ≡ none)
    × (validate_raw_address_alignment h oh.file_alignment ≡ none)
    × (validate_raw_size_bounds h oh.section_alignment ≡ none)
    × (validate_virtual_size_bounds h oh.section_alignment ≡ none)
    × (validate_virtual_address_alignment h oh.section_alignment ≡ none)
    × (validate_low_alignment oh h ≡ none)
    × (validate_raw_size_alignment h oh.section_alignment oh.file_alignment last ≡ none)

section_checks :
    (oh : OptionalHeader) (h : SectionHeader) (last : Bool) (i : ℕ) (es : ErrorList)
    → IsClean (
        report_at i
          (validate_raw_size_alignment h oh.section_alignment oh.file_alignment last)
          (validate_section_header oh h i es))
      ↔ (Passes oh h last × IsClean es)
unfolding validate_section_header
section_checks oh h last i es = (
  λ c.
      let (p₉, h₈) = (report_at-IsClean i _ _).0 c in
      let (p₈, h₇) = (report_at-IsClean i _ _).0 h₈ in
      let (p₇, h₆) = (report_at-IsClean i _ _).0 h₇ in
      let (p₆, h₅) = (report_at-IsClean i _ _).0 h₆ in
      let (p₅, h₄) = (report_at-IsClean i _ _).0 h₅ in
      let (p₄, h₃) = (report_at-IsClean i _ _).0 h₄ in
      let (p₃, h₂) = (report_at-IsClean i _ _).0 h₃ in
      let (p₂, h₁) = (report_at-IsClean i _ _).0 h₂ in
      let (p₁, h₀) = (report_at-IsClean i _ _).0 h₁ in ((p₁, p₂, p₃, p₄, p₅, p₆, p₇, p₈, p₉), h₀),
  λ ((p₁, p₂, p₃, p₄, p₅, p₆, p₇, p₈, p₉), h₀).
      let h₁ = (report_at-IsClean i _ es).1 (p₁, h₀) in
      let h₂ = (report_at-IsClean i _ _).1 (p₂, h₁) in
      let h₃ = (report_at-IsClean i _ _).1 (p₃, h₂) in
      let h₄ = (report_at-IsClean i _ _).1 (p₄, h₃) in
      let h₅ = (report_at-IsClean i _ _).1 (p₅, h₄) in
      let h₆ = (report_at-IsClean i _ _).1 (p₆, h₅) in
      let h₇ = (report_at-IsClean i _ _).1 (p₇, h₆) in
      let h₈ = (report_at-IsClean i _ _).1 (p₈, h₇) in (report_at-IsClean i _ _).1 (p₉, h₈),
)

-- The first section starts after the headers, every other one where the section before it ends.
abbrev pub Follows : OptionalHeader → Option SectionHeader → SectionHeader → Type 0
Follows oh none h = oh.size_of_headers ≤ get_rva h
Follows oh (some prev) h = (get_rva prev + get_virtual_size prev oh.section_alignment ≡ get_rva h)

validate_gap-IsClean :
    (oh : OptionalHeader) (prev : Option SectionHeader) (h : SectionHeader) (i : ℕ) (es : ErrorList)
    → get_rva h < 2 ^ 32
    → ((g : SectionHeader) → prev ≡ some g → get_rva g < 2 ^ 32)
    → IsClean (validate_gap oh prev h i es) ↔ (Follows oh prev h × IsClean es)
unfolding validate_gap
validate_gap-IsClean oh none h i es fits prev_fits =
    ground (arith, has_errors-add_error es (optional_header Errors.invalid_size_of_headers))
validate_gap-IsClean oh (some prev) h i es fits prev_fits = ground (
  arith,
  add_if_safe_lem 32 (get_virtual_size prev oh.section_alignment) (get_rva prev)
      (prev_fits prev refl),
  has_errors-add_error_at es (section Errors.invalid_section_virtual_size) (i - 1),
  has_errors-add_error_at es (section Errors.virtual_gap_between_sections) i,
)

-- Every section passes its checks and follows the section before it.
abbrev pub AllPass : OptionalHeader → Option SectionHeader → List SectionHeader → Type 0
AllPass oh prev [] = Unit
AllPass oh prev (h ∷ hs) = Passes oh h (is_empty hs) × Follows oh prev h × AllPass oh (some h) hs

validate_section_at-IsClean :
    (oh : OptionalHeader) (prev : Option SectionHeader) (h : SectionHeader) (last : Bool) (i : ℕ)
    (es : ErrorList)
    → get_rva h < 2 ^ 32
    → ((g : SectionHeader) → prev ≡ some g → get_rva g < 2 ^ 32)
    → IsClean (validate_section_at oh prev h last i es)
      ↔ (Passes oh h last × Follows oh prev h × IsClean es)
unfolding validate_section_at
validate_section_at-IsClean oh prev h last i es fits prev_fits =
    let gap = validate_gap-IsClean oh prev h i _ fits prev_fits in
    let checks = section_checks oh h last i es in
    (
      λ c. let (follows, c') = gap.0 c in let (passes, c₀) = checks.0 c' in (passes, follows, c₀),
      λ (passes, follows, c₀). gap.1 (follows, checks.1 (passes, c₀)),
    )

validate_from-IsClean :
    (oh : OptionalHeader) (prev : Option SectionHeader) (i : ℕ) (hs : List SectionHeader)
    (es : ErrorList)
    → All IsValid hs
    → ((g : SectionHeader) → prev ≡ some g → get_rva g < 2 ^ 32)
    → IsClean (validate_from oh prev i hs es) ↔ (AllPass oh prev hs × IsClean es)
unfolding validate_from get_rva
validate_from-IsClean oh prev i [] es valid prev_fits = (λ c. (tt, c), λ p. p.1)
validate_from-IsClean oh prev i (h ∷ hs) es valid prev_fits =
    let fits : get_rva h < 2 ^ 32 = valid.0.virtual_address_fits in
    let here = validate_section_at-IsClean oh prev h (is_empty hs) i es fits prev_fits in
    let rest =
      validate_from-IsClean oh (some h) (suc i) hs
        (validate_section_at oh prev h (is_empty hs) i es) valid.1
        (λ g e. subst (λ x. get_rva x < 2 ^ 32) (some-injective _ _ e) fits) in
    (
      λ c.
          let (later, c') = rest.0 c in
          let (passes, follows, c₀) = here.0 c' in ((passes, follows, later), c₀),
      λ ((passes, follows, later), c₀). rest.1 (later, here.1 (passes, follows, c₀)),
    )

-- For a table of valid headers and an empty error list, the validator reports nothing exactly when
-- every section passes its own checks, the first starts at or after the end of the headers, and
-- every other one starts where the section before it ends in memory.
pub validate_section_headers_iff :
    (oh : OptionalHeader) (hs : List SectionHeader)
    → All IsValid hs
    → IsClean (validate_section_headers oh hs []) ↔ AllPass oh none hs
unfolding validate_section_headers
validate_section_headers_iff oh hs valid =
    let all = validate_from-IsClean oh none 0 hs [] valid (λ g e. cc) in
    (λ c. (all.0 c).0, λ p. all.1 (p, has_errors-nil))
