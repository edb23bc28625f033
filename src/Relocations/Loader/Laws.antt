-- ===== src/Relocations/Loader/Laws.antt =====
-- About the loop over the elements of a block.
use pe_bliss.Base.{
  ℕ, zero, suc, ◌+◌, ◌-◌, ◌*◌, ◌^◌, ◌≤◌, ◌<◌, ◌≡◌, ◌⊎◌, inl, inr, refl, Bool, true, false, not,
  ◌&&◌, List, [], ◌∷◌, ◌++◌, arith, ltb, leb, ◌==◌, ◌!=◌, if◌then◌else◌, length, length-append,
  none,
}
use pe_bliss.Base.Loops.{Run, out_of_fuel, done}
use pe_bliss.Errors.{Result, ok, err, ◌>>=◌, generic, integer_overflow}
use pe_bliss.Errors.List.{ErrorList}
use pe_bliss.Utilities.Math.{is_sum_safe}
use pe_bliss.Utilities.SafeUint.{plus, plus_lem}
use pe_bliss.Image.Layout.{Image}
use pe_bliss.Packed.Struct.{deserialize}
use pe_bliss.Relocations.Entry.{RelocationEntry, requires_parameter, get_affected_size_in_bytes}
use pe_bliss.Relocations.Loader.{
  LoaderOptions, LoadedEntry, ElementState, read_struct, read_next, load_param, load_described,
  load_element, elements_round, load_elements, stop_at, failed_entry, support_errors,
}

-- A call that throws nothing but an overflow, and whose result has a property.
abbrev pub Ends {ℓ} : {A : Type ℓ} → (A → Type 0) → Result A → Type 0
Ends P (ok a) = P a
Ends P (err e) = e ≡ generic integer_overflow

-- A property of the result, if there is one.
abbrev pub Holds {ℓ} : {A : Type ℓ} → (A → Type 0) → Result A → Type 0
Holds P (ok a) = P a
Holds P (err e) = Unit

pub Ends->>= {ℓ κ} :
    {A : Type ℓ} {B : Type κ} (P : A → Type 0) (Q : B → Type 0) (m : Result A) (f : A → Result B)
    → Ends P m
    → ((a : A) → P a → Ends Q (f a))
    → Ends Q (m >>= f)
Ends->>= P Q (ok a) f p q = q a p
Ends->>= P Q (err e) f p q = p

pub Ends-weaken {ℓ} :
    {A : Type ℓ} (P Q : A → Type 0) (m : Result A) → Ends P m → ((a : A) → P a → Q a) → Ends Q m
Ends-weaken P Q (ok a) p q = q a p
Ends-weaken P Q (err e) p q = p

pub Ends-if {ℓ} :
    {A : Type ℓ} (P : A → Type 0) (b : Bool) (m n : Result A)
    → Ends P m
    → Ends P n
    → Ends P (if b then m else n)
Ends-if P true m n p q = p
Ends-if P false m n p q = q

pub Holds->>= {ℓ κ} :
    {A : Type ℓ} {B : Type κ} (Q : B → Type 0) (m : Result A) (f : A → Result B)
    → Holds (λ a. Holds Q (f a)) m
    → Holds Q (m >>= f)
Holds->>= Q (ok a) f p = p
Holds->>= Q (err e) f p = tt

Holds-all {ℓ} : {A : Type ℓ} (P : A → Type 0) (m : Result A) → ((a : A) → P a) → Holds P m
Holds-all P (ok a) p = p a
Holds-all P (err e) p = tt

Holds-Ends {ℓ} : {A : Type ℓ} (P : A → Type 0) (m : Result A) → Ends P m → Holds P m
Holds-Ends P (ok a) p = p
Holds-Ends P (err e) p = tt

pub plus-Ends : (a b : ℕ) → Ends (λ n. n ≡ a + b) (plus 32 a b)
plus-Ends a b = rw (plus_lem 32 a b) (choice (ltb (a + b) (2 ^ 32)))
  where
    choice :
        (c : Bool)
        → Ends (λ n. n ≡ a + b) (if c then ok (a + b) else err (generic integer_overflow))
    choice true = refl
    choice false = refl

pub plus-Holds : (a b : ℕ) → Holds (λ n. n ≡ a + b) (plus 32 a b)
plus-Holds a b = Holds-Ends (λ n. n ≡ a + b) (plus 32 a b) (plus-Ends a b)

-- A call of `load_element`: it adds an entry, and if it asks for the next one, it has passed two
-- bytes before the end and fewer elements are left.
abbrev pub IsStep : ℕ → ElementState → Bool × ElementState → Type 0
IsStep last_rva st (more, after) =
    (length after.entries ≡ suc (length st.entries))
    × (st.current_rva + (if more then 2 else 0) ≤ after.current_rva)
    × ((after.current_rva ≤ last_rva) ⊎ (after.current_rva ≡ st.current_rva))
    × (more ≡ true → after.elem_count < st.elem_count)

-- The same behind the descriptor of the entry.
abbrev pub IsParam : ℕ → ElementState → Bool × ElementState → Type 0
IsParam last_rva st (more, after) =
    (length after.entries ≡ suc (length st.entries))
    × (st.current_rva ≤ after.current_rva)
    × ((after.current_rva ≤ last_rva) ⊎ (after.current_rva ≡ st.current_rva))
    × (after.elem_count ≤ st.elem_count)

length-snoc : (es : List LoadedEntry) (e : LoadedEntry) → length (es ++ (e ∷ [])) ≡ suc (length es)
length-snoc es e = omega (arith, length-append es (e ∷ []))

module _ (img : Image) (options : LoaderOptions) (last_rva : ℕ) where
  has_space-Ends :
      (b : Bool) (current : ℕ)
      → Ends
          (λ h. h ≡ true → current + 2 ≤ last_rva)
          (if b then (plus 32 current 2 >>= λ after. ok (leb after last_rva)) else ok false)
  has_space-Ends true current =
      Ends->>= (λ n. n ≡ current + 2) _ (plus 32 current 2) _ (plus-Ends current 2)
        (λ n e h. ground arith)
  has_space-Ends false current = λ h. cc

  past-Ends :
      (b : Bool) (current : ℕ)
      → Ends
          (λ past. past ≡ false → current + 2 ≤ last_rva)
          (if not b then ok true else (plus 32 current 2 >>= λ after. ok (ltb last_rva after)))
  past-Ends true current =
      Ends->>= (λ n. n ≡ current + 2) _ (plus 32 current 2) _ (plus-Ends current 2)
        (λ n e h. ground arith)
  past-Ends false current = λ h. cc

  read_next-Holds : (current : ℕ) → Holds (λ r. r.1 ≡ current + 2) (read_next img options current 2)
  unfolding read_next
  read_next-Holds current = Holds->>= _ (read_struct img options current 2) _ (
      Holds-all _ (read_struct img options current 2)
        (λ bytes. Holds->>= _ (plus 32 current 2) _ (plus-Holds current 2)))

  -- The choice of `load_param`, on its test and on what was read.
  load_choice :
      (b h : Bool) (absent : LoadedEntry) (with_param : List ℕ → LoadedEntry)
      (r : Result (List ℕ × ℕ)) (st : ElementState)
      → (h ≡ true → st.current_rva + 2 ≤ last_rva)
      → Holds (λ r. r.1 ≡ st.current_rva + 2) r
      → Ends (IsParam last_rva st) (
          if b && h
          then (elim r [
            | err e ↦ stop_at st absent
            | ok (bytes, next) ↦ ok (
              h,
              record {
                entries = st.entries ++ (with_param bytes ∷ []);
                elem_count = st.elem_count - 1;
                current_rva = next;
              },
            )
          ])
          else ok (h, record st { entries = st.entries ++ (absent ∷ []) }))
  load_choice false h absent with_param r st room next =
      (length-snoc st.entries absent, omega arith, inr refl, omega arith)
  load_choice true false absent with_param r st room next =
      (length-snoc st.entries absent, omega arith, inr refl, omega arith)
  load_choice true true absent with_param (err e) st room next =
      (length-snoc st.entries absent, omega arith, inr refl, omega arith)
  load_choice true true absent with_param (ok (bytes, at)) st room next =
      let enough = room refl in
      (length-snoc st.entries (with_param bytes), omega arith, inl (omega arith), omega arith)

  load_param-Ends :
      (entry : RelocationEntry) (errors : ErrorList) (st : ElementState)
      → Ends (IsParam last_rva st) (load_param img options last_rva entry errors st)
  unfolding load_param
  load_param-Ends entry errors st =
      Ends->>= (λ h. h ≡ true → st.current_rva + 2 ≤ last_rva) _ _ _
        (has_space-Ends (is_sum_safe 32 st.current_rva 2) st.current_rva)
        (λ h room.
          load_choice (st.elem_count != 0) h _ _ (read_next img options st.current_rva 2) st room
            (read_next-Holds st.current_rva))

  -- The steps behind the descriptor, as they count from before it.
  IsStep-of_IsParam :
      (st : ElementState) (next : ℕ) (r : Bool × ElementState)
      → 0 < st.elem_count
      → next ≡ st.current_rva + 2
      → next ≤ last_rva
      → IsParam last_rva (record st { elem_count = st.elem_count - 1; current_rva = next }) r
      → IsStep last_rva st r
  IsStep-of_IsParam st next (true, after) some e fits (l, c, inl i, n) =
      (l, omega arith, inl i, λ m. omega arith)
  IsStep-of_IsParam st next (true, after) some e fits (l, c, inr i, n) =
      (l, omega arith, inl (omega arith), λ m. omega arith)
  IsStep-of_IsParam st next (false, after) some e fits (l, c, inl i, n) =
      (l, omega arith, inl i, λ m. cc)
  IsStep-of_IsParam st next (false, after) some e fits (l, c, inr i, n) =
      (l, omega arith, inl (omega arith), λ m. cc)

  load_described-Ends :
      (descriptor : ℕ) (st : ElementState)
      → Ends (IsParam last_rva st) (load_described img options last_rva descriptor st)
  unfolding load_described
  load_described-Ends descriptor st =
      let entry : RelocationEntry = record { descriptor = descriptor; param = none } in
      let errors = support_errors (get_affected_size_in_bytes entry img.machine) in
      Ends-if _ (requires_parameter entry) _ _ (load_param-Ends entry errors st) (
        length-snoc st.entries (record { entry = entry; entry_errors = errors }),
        omega arith,
        inr refl,
        omega arith,
      )

  stop_at-IsStep : (st : ElementState) (e : LoadedEntry) → Ends (IsStep last_rva st) (stop_at st e)
  stop_at-IsStep st e = (length-snoc st.entries e, omega arith, inr refl, λ m. cc)

  -- An element that starts two bytes before the end.
  read_element-Ends :
      (st : ElementState) (r : Result (List ℕ)) (sum : Result ℕ)
      → 0 < st.elem_count
      → st.current_rva + 2 ≤ last_rva
      → Holds (λ n. n ≡ st.current_rva + 2) sum
      → Ends (IsStep last_rva st) (elim r [
        | err e ↦ stop_at st (failed_entry 0)
        | ok bytes ↦ elim sum [
          | err e ↦ stop_at st (failed_entry (deserialize bytes))
          | ok next ↦
              load_described img options last_rva
                (deserialize bytes)
                (record st { elem_count = st.elem_count - 1; current_rva = next })
        ]
      ])
  read_element-Ends st (err e) sum some fits next = stop_at-IsStep st (failed_entry 0)
  read_element-Ends st (ok bytes) (err e) some fits next =
      stop_at-IsStep st (failed_entry (deserialize bytes))
  read_element-Ends st (ok bytes) (ok n) some fits next =
      Ends-weaken _ _ _ (load_described-Ends (deserialize bytes) _)
        (λ r. IsStep-of_IsParam st n r some next (omega arith))

  element-choice :
      (past : Bool) (st : ElementState)
      → 0 < st.elem_count
      → (past ≡ false → st.current_rva + 2 ≤ last_rva)
      → Ends (IsStep last_rva st) (
          if past
          then stop_at st (failed_entry 0)
          else (elim (read_struct img options st.current_rva 2) [
            | err e ↦ stop_at st (failed_entry 0)
            | ok bytes ↦ elim (plus 32 st.current_rva 2) [
              | err e ↦ stop_at st (failed_entry (deserialize bytes))
              | ok next ↦
                  load_described img options last_rva
                    (deserialize bytes)
                    (record st { elem_count = st.elem_count - 1; current_rva = next })
            ]
          ]))
  element-choice true st some room = stop_at-IsStep st (failed_entry 0)
  element-choice false st some room =
      read_element-Ends st (read_struct img options st.current_rva 2) (plus 32 st.current_rva 2)
        some (room refl) (plus-Holds st.current_rva 2)

  pub load_element-Ends :
      (st : ElementState)
      → 0 < st.elem_count
      → Ends (IsStep last_rva st) (load_element img options last_rva st)
  unfolding load_element
  load_element-Ends st some =
      Ends->>= (λ past. past ≡ false → st.current_rva + 2 ≤ last_rva) _ _ _
        (past-Ends (is_sum_safe 32 last_rva 2) st.current_rva)
        (λ past room. element-choice past st some room)

  -- A run of the loop that has ended: it has passed two bytes for each entry that it added, but
  -- the last one if it was stopped there, and has not passed the end.
  abbrev pub IsRun : ElementState → Run (Bool × ElementState) → Type 0
  IsRun st out_of_fuel = ⊥
  IsRun st (done (all, after)) =
      (2 * length after.entries + st.current_rva
        ≤ 2 * length st.entries + after.current_rva + (if all then 0 else 2))
      × ((after.current_rva ≤ last_rva) ⊎ (after.current_rva ≡ st.current_rva))
      × (st.current_rva ≤ after.current_rva)

  IsRun-step :
      (st after : ElementState) (r : Run (Bool × ElementState))
      → IsStep last_rva st (true, after)
      → IsRun after r
      → IsRun st r
  IsRun-step st after out_of_fuel step run = absurd run
  IsRun-step st after (done (all, end)) (l, c, bound, n) (total, inl within, rise) =
      (omega arith, inl within, omega arith)
  IsRun-step st after (done (all, end)) (l, c, inl bound, n) (total, inr same, rise) =
      (omega arith, inl (omega arith), omega arith)
  IsRun-step st after (done (all, end)) (l, c, inr bound, n) (total, inr same, rise) =
      (omega arith, inr (omega arith), omega arith)

  round-Ends :
      (b : Bool) (rest : ElementState → Result (Run (Bool × ElementState))) (st : ElementState)
      → (b ≡ false → 0 < st.elem_count)
      → ((after : ElementState)
          → IsStep last_rva st (true, after)
          → Ends (IsRun after) (rest after))
      → Ends (IsRun st) (
          if b
          then ok (done (true, st))
          else (load_element img options last_rva st >>= λ loaded.
              if loaded.0 then rest loaded.1 else ok (done (false, loaded.1))))
  round-Ends true rest st some next = (omega arith, inr refl, omega arith)
  round-Ends false rest st some next =
      Ends->>= (IsStep last_rva st) _ _ _ (load_element-Ends st (some refl)) branch
    where
      branch :
          (loaded : Bool × ElementState)
          → IsStep last_rva st loaded
          → Ends (IsRun st) (if loaded.0 then rest loaded.1 else ok (done (false, loaded.1)))
      branch (true, after) step =
          Ends-weaken (IsRun after) _ _ (next after step) (λ r. IsRun-step st after r step)
      branch (false, after) (l, c, bound, n) = (omega arith, bound, omega arith)

  pub load_elements-Ends :
      (fuel : ℕ) (st : ElementState)
      → st.elem_count < fuel
      → Ends (IsRun st) (load_elements img options fuel last_rva st)
  unfolding load_elements elements_round
  load_elements-Ends zero st h = absurd (omega arith)
  load_elements-Ends (suc fuel) st h =
      round-Ends (st.elem_count == 0) _ st (λ e. ground arith)
        (λ after (l, c, bound, n). load_elements-Ends fuel after (omega (arith, n refl)))
