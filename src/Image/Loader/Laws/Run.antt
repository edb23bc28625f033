-- ===== src/Image/Loader/Laws/Run.antt =====
-- About steps and their composition, for any predicate on the states of a load.
use pe_bliss.Base.{Bool, true, false, Option, none, some, List, [], ◌∷◌, ◌++◌, if◌then◌else◌, All}
use pe_bliss.Errors.{Error, Result, ok, err}
use pe_bliss.Errors.Ensures.{Ensures}
use pe_bliss.Image.Loader.State.{LoadState, Step, continue, then_step, run, try_catch}

module _ (P : LoadState → Type 0) where
  -- A call, whether it throws or not.
  pub try_catch_lem {ℓ} :
      {A : Type ℓ} (r : Result A) (body : A → LoadState × Option Error)
      (handler : Error → LoadState × Option Error)
      → Ensures (λ a. P (body a).0) r
      → ((e : Error) → P (handler e).0)
      → P (try_catch r body handler).0
  unfolding try_catch
  try_catch_lem (ok a) body handler ensures p = ensures
  try_catch_lem (err e) body handler ensures p = p e

  -- A step that an option turns on.
  pub if_lem :
      (on : Bool) (done skipped : LoadState × Option Error)
      → P done.0
      → P skipped.0
      → P (if on then done else skipped).0
  if_lem true done skipped p p' = p
  if_lem false done skipped p p' = p'

-- A step leads from one predicate to another, whether it throws or not.
abbrev pub Leads : (LoadState → Type 0) → (LoadState → Type 0) → Step → Type 0
Leads P Q step = (st : LoadState) → P st → Q (step st).0

module _ (P Q R : LoadState → Type 0) (weaken : (st : LoadState) → Q st → R st) where
  continue-Leads :
      (r : LoadState × Option Error) (rest : Step) → Q r.0 → Leads Q R rest → R (continue r rest).0
  continue-Leads (st, none) rest q leads = leads st q
  continue-Leads (st, some e) rest q leads = weaken st q

  then_step-Leads : (s t : Step) → Leads P Q s → Leads Q R t → Leads P R (then_step s t)
  unfolding then_step
  then_step-Leads s t first second st p = continue-Leads (s st) t (first st p) second

run-Keeps :
    (P : LoadState → Type 0) (steps : List Step) → All (Leads P P) steps → Leads P P (run steps)
unfolding run
run-Keeps P [] all st p = p
run-Keeps P (step ∷ steps) (first, all) st p =
    then_step-Leads P P P (λ st p. p) step (run steps) first (run-Keeps P steps all) st p

-- Steps that keep one predicate, a step that leads to another, and steps that keep that.
pub run-Leads :
    (P Q : LoadState → Type 0) (before : List Step) (step : Step) (after : List Step)
    → ((st : LoadState) → P st → Q st)
    → All (Leads P P) before
    → Leads P Q step
    → All (Leads Q Q) after
    → Leads P Q (run (before ++ (step ∷ after)))
unfolding run
run-Leads P Q [] step after weaken all leads kept st p =
    then_step-Leads P Q Q (λ st q. q) step (run after) leads (run-Keeps Q after kept) st p
run-Leads P Q (s ∷ before) step after weaken (first, all) leads kept st p =
    then_step-Leads P P Q weaken s (run (before ++ (step ∷ after))) first
      (run-Leads P Q before step after weaken all leads kept) st p
