-- ===== src/Image/Loader/Laws/Goes.antt =====
-- Steps that do not throw.
use pe_bliss.Base.{
  ◌≡◌, refl, sym, subst, Bool, true, false, Option, none, some, List, [], ◌∷◌, All, if◌then◌else◌,
}
use pe_bliss.Errors.{Error, Result, ok, err}
use pe_bliss.Image.Loader.State.{LoadState, Step, continue, then_step, run, try_catch}
use pe_bliss.Image.Loader.Laws.Ends.{NeverThrows}

-- A step that does not throw leads from one predicate to another.
abbrev pub Goes : (LoadState → Type 0) → (LoadState → Type 0) → Step → Type 0
Goes P Q step = (st : LoadState) → P st → ((step st).1 ≡ none) × Q (step st).0

abbrev pub Succeeds : (LoadState → Type 0) → List Step → Type 0
Succeeds P steps = (st : LoadState) → P st → (run steps st).1 ≡ none

continue-none :
    (r : LoadState × Option Error) (rest : Step)
    → r.1 ≡ none
    → (rest r.0).1 ≡ none
    → (continue r rest).1 ≡ none
continue-none (st, none) rest e h = h
continue-none (st, some _) rest e h = cc

pub cons-Succeeds :
    (P Q : LoadState → Type 0) (step : Step) (steps : List Step)
    → Goes P Q step
    → Succeeds Q steps
    → Succeeds P (step ∷ steps)
unfolding run then_step
cons-Succeeds P Q step steps goes succeeds st p =
    let (none_thrown, q) = goes st p in
    continue-none (step st) (run steps) none_thrown (succeeds (step st).0 q)

pub never-Succeeds :
    (P : LoadState → Type 0) (steps : List Step) → All NeverThrows steps → Succeeds P steps
unfolding run
never-Succeeds P [] all st p = refl
never-Succeeds P (step ∷ steps) (never, all) st p =
    cons-Succeeds P (λ _. Unit) step steps (λ st p. (never st, tt))
      (never-Succeeds (λ _. Unit) steps all) st p

-- A call whose value is known.
pub try_catch-Goes {ℓ} :
    {A : Type ℓ} (Q : LoadState → Type 0) (r : Result A) (a : A)
    (body : A → LoadState × Option Error) (handler : Error → LoadState × Option Error)
    → r ≡ ok a
    → ((body a).1 ≡ none) × Q (body a).0
    → ((try_catch r body handler).1 ≡ none) × Q (try_catch r body handler).0
unfolding try_catch
try_catch-Goes Q (ok a') a body handler e h =
    subst (λ r. ((try_catch r body handler).1 ≡ none) × Q (try_catch r body handler).0) (sym e) h
try_catch-Goes Q (err _) a body handler e h = cc

pub if-Goes :
    (Q : LoadState → Type 0) (on : Bool) (a c : LoadState × Option Error)
    → (on ≡ true → (a.1 ≡ none) × Q a.0)
    → (on ≡ false → (c.1 ≡ none) × Q c.0)
    → ((if on then a else c).1 ≡ none) × Q (if on then a else c).0
if-Goes Q true a c h h' = h refl
if-Goes Q false a c h h' = h' refl
