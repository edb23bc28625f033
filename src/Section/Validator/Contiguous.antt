-- ===== src/Section/Validator/Contiguous.antt =====
-- About the order of the sections in a table that the validator accepts.
use pe_bliss.Base.{
  ℕ, zero, suc, ◌+◌, ◌≤◌, ◌<◌, ◌≡◌, Option, none, some, List, [], ◌∷◌, arith, get_elem?, All, subst,
}
use mathlib.Core.Option.{some-injective}
use pe_bliss.Core.OptionalHeader.{OptionalHeader}
use pe_bliss.Section.Header.{SectionHeader, IsValid, get_virtual_size, get_rva}
use pe_bliss.Section.Validator.{validate_section_headers}
use pe_bliss.Section.Validator.Single.{IsClean, AllPass, validate_section_headers_iff}

abbrev section_end : OptionalHeader → SectionHeader → ℕ
section_end oh h = get_rva h + get_virtual_size h oh.section_alignment

-- All sections of a checked tail start at or after the end of the section before it.
after_previous :
    (oh : OptionalHeader) (prev : SectionHeader) (hs : List SectionHeader) (l : ℕ)
    (g : SectionHeader)
    → AllPass oh (some prev) hs
    → get_elem? hs l ≡ some g
    → section_end oh prev ≤ get_rva g
after_previous oh prev [] l g p e = cc
after_previous oh prev (h ∷ hs) zero g p e = ground arith
after_previous oh prev (h ∷ hs) (suc l) g p e = omega (arith, p.1, after_previous oh h hs l g p.2 e)

ordered :
    (oh : OptionalHeader) (prev : Option SectionHeader) (hs : List SectionHeader) (l m : ℕ)
    (g k : SectionHeader)
    → AllPass oh prev hs
    → l < m
    → get_elem? hs l ≡ some g
    → get_elem? hs m ≡ some k
    → section_end oh g ≤ get_rva k
ordered oh prev [] l m g k p lt e f = cc
ordered oh prev (h ∷ hs) l zero g k p lt e f = elim lt [ ]
ordered oh prev (h ∷ hs) zero (suc m) g k p lt e f =
    subst (λ x. section_end oh x ≤ get_rva k) (some-injective _ _ e)
      (after_previous oh h hs m k p.2 f)
ordered oh prev (h ∷ hs) (suc l) (suc m) g k p lt e f =
    ordered oh (some h) hs l m g k p.2 (omega arith) e f

-- In a table of valid headers for which the validator reports nothing, a section ends in memory
-- before any later one starts, and none starts within the headers.
pub sections_disjoint :
    (oh : OptionalHeader) (hs : List SectionHeader)
    → All IsValid hs
    → IsClean (validate_section_headers oh hs [])
    → ((l m : ℕ) (g k : SectionHeader)
        → l < m
        → get_elem? hs l ≡ some g
        → get_elem? hs m ≡ some k
        → section_end oh g ≤ get_rva k)
      × ((l : ℕ) (g : SectionHeader) → get_elem? hs l ≡ some g → oh.size_of_headers ≤ get_rva g)
sections_disjoint oh hs valid clean =
    let pass = (validate_section_headers_iff oh hs valid).0 clean in
    (λ l m g k lt e f. ordered oh none hs l m g k pass lt e f, after_headers hs pass)
  where
    after_headers :
        (hs : List SectionHeader)
        → AllPass oh none hs
        → (l : ℕ) (g : SectionHeader) → get_elem? hs l ≡ some g
        → oh.size_of_headers ≤ get_rva g
    after_headers [] p l g e = cc
    after_headers (h ∷ hs) p zero g e = ground arith
    after_headers (h ∷ hs) p (suc l) g e = omega (arith, p.1, after_previous oh h hs l g p.2 e)
