-- ===== src/Section/Header/Name.antt =====
-- About `get_name` and `set_name`: eight bytes, padded with zeros.
use pe_bliss.Base.{
  ℕ, zero, suc, ◌+◌, ◌-◌, ◌≤◌, ◌<◌, ◌≡◌, ◌≢◌, refl, ap, ◌∙◌, List, [], ◌∷◌, ◌++◌, arith, length,
  take, replicate, length-replicate, length-append,
}
use pe_bliss.Errors.{ok, err, generic, buffer_overrun}
use pe_bliss.Section.Header.{SectionHeader, byte_at, name_end, get_name, set_name}

-- A name that the padding can carry: it does not end in a zero byte.
abbrev pub IsTrimmed : List ℕ → Type 0
IsTrimmed [] = Unit
IsTrimmed (c ∷ []) = c ≢ 0
IsTrimmed (c ∷ d ∷ cs) = IsTrimmed (d ∷ cs)

byte_at-pad : (s : List ℕ) (n i : ℕ) → length s ≤ i → byte_at (s ++ replicate n 0) i ≡ 0
byte_at-pad [] zero i h = refl
byte_at-pad [] (suc n) zero h = refl
byte_at-pad [] (suc n) (suc i) h = byte_at-pad [] n i (omega arith)
byte_at-pad (c ∷ s) n zero h = absurd (omega arith)
byte_at-pad (c ∷ s) n (suc i) h = byte_at-pad s n i (omega arith)

last-IsTrimmed : (c : ℕ) (s t : List ℕ) → IsTrimmed (c ∷ s) → byte_at (c ∷ s ++ t) (length s) ≢ 0
last-IsTrimmed c [] t h = h
last-IsTrimmed c (d ∷ s) t h = last-IsTrimmed d s t h

-- The scan from position `length s + extra` stops at the end of `s`.
name_end-pad :
    (s : List ℕ) (n extra : ℕ)
    → IsTrimmed s
    → name_end (s ++ replicate n 0) (extra + length s) ≡ length s
unfolding name_end
name_end-pad [] n zero h = refl
name_end-pad (c ∷ s) n zero h =
    let e : 0 + suc (length s) ≡ suc (length s) = omega arith in
    rw e (ground (arith, last-IsTrimmed c s (replicate n 0) h))
name_end-pad s n (suc extra) h =
    let e : suc extra + length s ≡ suc (extra + length s) = omega arith in
    rw (e, byte_at-pad s n (extra + length s) (omega arith)) (name_end-pad s n extra h)

take-append : (s t : List ℕ) → take (length s) (s ++ t) ≡ s
take-append [] t = refl
take-append (c ∷ s) t = ap (◌∷◌ c) (take-append s t)

-- A name of at most eight bytes that does not end in zero is read back as it was set, and fills
-- the field exactly; a longer one is refused.
pub get_name-set_name :
    (h : SectionHeader) (s : List ℕ)
    → IsTrimmed s
    → (length s ≤ 8
        → (h' : SectionHeader) × (set_name h s ≡ ok h') × (get_name h' ≡ s) × (length h'.name ≡ 8))
      × (8 < length s → set_name h s ≡ err (generic buffer_overrun))
unfolding set_name get_name
get_name-set_name h s trimmed = (
  λ le. (
    record h { name = s ++ replicate (8 - length s) 0 },
    ground arith,
    let e : 8 ≡ 8 - length s + length s = omega arith in
        ap (λ n. take n (s ++ replicate (8 - length s) 0))
          (ap (name_end (s ++ replicate (8 - length s) 0)) e
            ∙ name_end-pad s (8 - length s) (8 - length s) trimmed)
        ∙ take-append s (replicate (8 - length s) 0),
    omega (
      arith,
      length-append s (replicate (8 - length s) 0),
      length-replicate {A = ℕ} (8 - length s) 0,
    ),
  ),
  λ gt. ground arith,
)
