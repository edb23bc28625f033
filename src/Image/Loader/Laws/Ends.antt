-- ===== src/Image/Loader/Laws/Ends.antt =====
-- Which steps throw, and what holds where steps end by an error.
use pe_bliss.Base.{
  ◌≡◌, refl, Bool, true, false, Option, none, some, List, [], ◌∷◌, ◌++◌, All, if◌then◌else◌,
}
use pe_bliss.Errors.{Error, Result, ok, err}
use pe_bliss.Image.Loader.{buffer_steps}
use pe_bliss.Image.Loader.State.{LoadState, Step, continue, then_step, run, try_catch}
use pe_bliss.Image.Loader.Headers.{ImageLoadOptions}
use pe_bliss.Image.Loader.Sections.{
  load_section_data, load_full_sections_buffer, load_overlay, validate_image_size,
  load_full_headers_buffer,
}
use pe_bliss.Image.Loader.Laws.Run.{Leads}

abbrev pub NeverThrows : Step → Type 0
NeverThrows step = (st : LoadState) → (step st).1 ≡ none

-- What holds of the state behind steps that throw, and of that behind steps that do not.
abbrev pub Ends : (LoadState → Type 0) → (LoadState → Type 0) → LoadState × Option Error → Type 0
Ends P Q (st, some e) = P st
Ends P Q (st, none) = Q st

module _ (P Q : LoadState → Type 0) where
  returned : (r : LoadState × Option Error) → r.1 ≡ none → Q r.0 → Ends P Q r
  returned (st, none) e q = q
  returned (st, some _) e q = cc

  continue-Ends :
      (r : LoadState × Option Error) (rest : Step)
      → P r.0
      → ((st : LoadState) → P st → Ends P Q (rest st))
      → Ends P Q (continue r rest)
  continue-Ends (st, none) rest p next = next st p
  continue-Ends (st, some e) rest p next = p

  continue-returned :
      (r : LoadState × Option Error) (rest : Step)
      → r.1 ≡ none
      → Q r.0
      → ((st : LoadState) → Q st → Ends P Q (rest st))
      → Ends P Q (continue r rest)
  continue-returned (st, none) rest e q next = next st q
  continue-returned (st, some _) rest e q next = cc

  run-returned :
      (steps : List Step)
      → All (λ step. Leads Q Q step × NeverThrows step) steps
      → (st : LoadState) → Q st
      → Ends P Q (run steps st)
  unfolding run then_step
  run-returned [] all st q = q
  run-returned (step ∷ steps) ((leads, never), all) st q =
      continue-returned (step st) (run steps) (never st) (leads st q) (run-returned steps all)

  pub run-Ends :
      (before : List Step) (step : Step) (after : List Step)
      → All (Leads P P) before
      → Leads P Q step
      → NeverThrows step
      → All (λ s. Leads Q Q s × NeverThrows s) after
      → (st : LoadState) → P st
      → Ends P Q (run (before ++ (step ∷ after)) st)
  unfolding run then_step
  run-Ends [] step after all leads never kept st p =
      continue-returned (step st) (run after) (never st) (leads st p) (run-returned after kept)
  run-Ends (s ∷ before) step after (first, all) leads never kept st p =
      continue-Ends (s st) (run (before ++ (step ∷ after))) (first st p)
        (run-Ends before step after all leads never kept)

try_catch-none {ℓ} :
    {A : Type ℓ} (r : Result A) (body : A → LoadState × Option Error)
    (handler : Error → LoadState × Option Error)
    → ((a : A) → (body a).1 ≡ none)
    → ((e : Error) → (handler e).1 ≡ none)
    → (try_catch r body handler).1 ≡ none
unfolding try_catch
try_catch-none (ok a) body handler h h' = h a
try_catch-none (err e) body handler h h' = h' e

pub if-none :
    (on : Bool) (a c : LoadState × Option Error)
    → a.1 ≡ none
    → c.1 ≡ none
    → (if on then a else c).1 ≡ none
if-none true a c h h' = h
if-none false a c h h' = h'

module _ (options : ImageLoadOptions) where
  pub section_data-NeverThrows : NeverThrows (load_section_data options)
  unfolding load_section_data
  section_data-NeverThrows st = if-none options.load_sections (_, none) (st, none) refl refl

  pub full_sections-NeverThrows : NeverThrows (load_full_sections_buffer options)
  unfolding load_full_sections_buffer
  full_sections-NeverThrows st =
      if-none _ _ (st, none) (try_catch-none _ _ _ (λ a. refl) (λ e. refl)) refl

  pub overlay-NeverThrows : NeverThrows (load_overlay options)
  unfolding load_overlay
  overlay-NeverThrows st =
      if-none _ _ (st, none) (try_catch-none _ _ _ (λ a. refl) (λ e. refl)) refl

  pub image_size-NeverThrows : NeverThrows (validate_image_size options)
  unfolding validate_image_size
  image_size-NeverThrows st = refl

  pub full_headers-NeverThrows : NeverThrows (load_full_headers_buffer options)
  unfolding load_full_headers_buffer
  full_headers-NeverThrows st =
      if-none options.load_full_headers _ (st, none) (try_catch-none _ _ _ (λ a. refl) (λ e. refl))
        refl

  pub data_steps-NeverThrow : All NeverThrows (load_section_data options ∷ buffer_steps options)
  data_steps-NeverThrow = (
    section_data-NeverThrows,
    (
      full_sections-NeverThrows,
      (overlay-NeverThrows, (image_size-NeverThrows, (full_headers-NeverThrows, tt))),
    ),
  )
