-- ===== src/Errors/List.antt =====
-- error_list (include/pe_bliss2/error_list.h, src/error_list.cpp): a map from a code with its
-- context. The exception pointer that the source keeps with an entry is not modelled, and the
-- map's order is that of insertion.
use native.Mathlib.Decide.{ℕ_discrete}
use mathlib.Core.Logic.{if_pos, if_neg, ◌≢◌}
use mathlib.Core.Path.{subst, ◌∙◌}
use pe_bliss.Base.{
  ℕ, ◌≡◌, refl, Bool, true, false, List, [], ◌∷◌, if◌then◌else◌, ite, arith, ◌⊎◌, inl, inr,
}
use pe_bliss.Errors.{Error, Error-discrete}

-- `std::variant<std::monostate, std::size_t, std::string>`, a string by its code units.
pub data Context : Type 0 where
  no_context : Context
  index : ℕ → Context
  string : List ℕ → Context

pub record ErrorContext : Type 0 where
  pub code : Error
  pub context : Context

pub Context-discrete : Discrete Context
Context-discrete = hlevel ℕ_discrete

pub ErrorContext-discrete : Discrete ErrorContext
ErrorContext-discrete = hlevel (ℕ_discrete, Error-discrete)

abbrev pub ErrorList : Type 0
ErrorList = List ErrorContext

-- `errors_->contains(key)`
pub contains : ErrorContext → ErrorList → Bool
contains key [] = false
contains key (e ∷ es) = ite (ErrorContext-discrete e key) true (contains key es)

pub insert : ErrorContext → ErrorList → ErrorList
insert key es = if contains key es then es else key ∷ es

pub add_error : ErrorList → Error → ErrorList
add_error es e = insert (record { code = e; context = no_context }) es

pub add_error_at : ErrorList → Error → ℕ → ErrorList
add_error_at es e i = insert (record { code = e; context = index i }) es

pub add_error_text : ErrorList → Error → List ℕ → ErrorList
add_error_text es e s = insert (record { code = e; context = string s }) es

pub has_errors : ErrorList → Bool
has_errors [] = false
has_errors (e ∷ es) = true

pub has_error : ErrorList → Error → Bool
has_error es e = contains (record { code = e; context = no_context }) es

pub has_error_at : ErrorList → Error → ℕ → Bool
has_error_at es e i = contains (record { code = e; context = index i }) es

pub has_error_text : ErrorList → Error → List ℕ → Bool
has_error_text es e s = contains (record { code = e; context = string s }) es

pub clear_errors : ErrorList → ErrorList
clear_errors es = []

pub has_any_error : ErrorList → Error → Bool
has_any_error [] e = false
has_any_error (x ∷ es) e = ite (Error-discrete x.code e) true (has_any_error es e)

-- Looking up after an insertion finds the new key and what was there, and nothing else.
pub contains-insert :
    (key k : ErrorContext) (es : ErrorList)
    → contains k (insert key es) ≡ ite (ErrorContext-discrete key k) true (contains k es)
unfolding insert contains
contains-insert key k es = elim (ErrorContext-discrete key k) [
  | yes same ↦ rw (if_pos _ same) (subst (λ x. contains x (insert key es) ≡ true) same present)
  | no other ↦ rw (if_neg _ other) (absent other)
]
  where
    present : contains key (insert key es) ≡ true
    present = ground arith

    absent : ¬ (key ≡ k) → contains k (insert key es) ≡ contains k es
    absent other = ground arith

contains-insert_other :
    (key k : ErrorContext) (es : ErrorList) → key ≢ k → contains k (insert key es) ≡ contains k es
contains-insert_other key k es h =
    contains-insert key k es ∙ if_neg (ErrorContext-discrete key k) h true _

-- A recorded key makes its code present.
has_any_error_of_contains :
    (es : ErrorList) (k : ErrorContext) → contains k es ≡ true → has_any_error es k.code ≡ true
unfolding contains has_any_error
has_any_error_of_contains [] k h = cc
has_any_error_of_contains (x ∷ es) k h = ground (arith, has_any_error_of_contains es k)

has_any_error-insert :
    (key : ErrorContext) (es : ErrorList) (f : Error)
    → has_any_error (insert key es) f ≡ ite (Error-discrete key.code f) true (has_any_error es f)
unfolding insert has_any_error
has_any_error-insert key es f = ground (arith, has_any_error_of_contains es key)

-- An error added at an index is found there; no lookup at another code, at another index or
-- without an index changes, and the error counts as present whatever its context.
pub add_error_at_lem :
    (es : ErrorList) (e f : Error) (i j : ℕ)
    → (has_error_at (add_error_at es e i) e i ≡ true)
      × ((e ≢ f) ⊎ (i ≢ j) → has_error_at (add_error_at es e i) f j ≡ has_error_at es f j)
      × (has_error (add_error_at es e i) f ≡ has_error es f)
      × (has_any_error (add_error_at es e i) f ≡ ite (Error-discrete e f) true (has_any_error es f))
unfolding add_error_at has_error_at has_error
add_error_at_lem es e f i j = (
  contains-insert _ _ es ∙ if_pos (ErrorContext-discrete _ _) refl true _,
  λ h. contains-insert_other _ _ es (λ p. differs h p),
  contains-insert_other _ _ es (λ p. cc),
  has_any_error-insert _ es f,
)
  where
    differs :
        (e ≢ f) ⊎ (i ≢ j)
        → ◌≡◌ {A = ErrorContext}
            (record { code = e; context = index i })
            (record { code = f; context = index j })
        → ⊥
    differs (inl h) p = h (cc)
    differs (inr h) p = h (cc)

has_errors-insert : (key : ErrorContext) (es : ErrorList) → has_errors (insert key es) ≡ true
unfolding insert has_errors contains
has_errors-insert key [] = refl
has_errors-insert key (e ∷ es) = ground arith

pub has_errors-add_error : (es : ErrorList) (e : Error) → has_errors (add_error es e) ≡ true
unfolding add_error
has_errors-add_error es e = has_errors-insert _ es

pub has_errors-add_error_at :
    (es : ErrorList) (e : Error) (i : ℕ) → has_errors (add_error_at es e i) ≡ true
unfolding add_error_at
has_errors-add_error_at es e i = has_errors-insert _ es

pub has_errors-nil : has_errors [] ≡ false
unfolding has_errors
has_errors-nil = refl
