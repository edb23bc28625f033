-- ===== src/Relocations/Loader/Stored.antt =====
-- About loading the elements of a block from the bytes that the builder wrote.
use mathlib.Core.List.{append_assoc, append-nil}
use pe_bliss.Base.{
  ℕ, zero, suc, ◌+◌, ◌-◌, ◌*◌, ◌^◌, ◌≤◌, ◌<◌, ◌≡◌, refl, ap, sym, ◌∙◌, subst, Bool, true, false,
  Option, none, some, List, [], ◌∷◌, ◌++◌, map, arith, All, ◌==◌, ◌!=◌, if◌then◌else◌, length, take,
  drop, length-append, lt→ltb, le→ltb, le→leb,
}
use pe_bliss.Base.Slices.{drop-length_append, take-length_append}
use pe_bliss.Base.Loops.{done}
use pe_bliss.Packed.Struct.{serialize}
use pe_bliss.Packed.Struct.Numbers.{deserialize-serialize, length-serialize}
use pe_bliss.Errors.{Result, ok, err, ◌>>=◌, is_ok}
use pe_bliss.Utilities.Math.Laws.{is_sum_safe_iff}
use pe_bliss.Utilities.SafeUint.{plus, plus_lem}
use pe_bliss.Image.Layout.{Image}
use pe_bliss.Buffers.Input.{Buffer}
use pe_bliss.Buffers.Input.Contents.{contents, physical}
use pe_bliss.Image.SectionData.Laws.{IsLoaded}
use pe_bliss.Image.Structures.Laws.{IsByteOf, struct_from_rva_lem}
use pe_bliss.Relocations.Entry.{
  RelocationEntry, get_type, requires_parameter, get_affected_size_in_bytes,
}
use pe_bliss.Relocations.Builder.{serialize_entries, params_from, param_count}
use pe_bliss.Relocations.Builder.Laws.{length-param}
use pe_bliss.Relocations.Builder.Bytes.{entry_bytes, elements, elements-cons}
use pe_bliss.Relocations.Loader.{
  LoaderOptions, LoadedEntry, ElementState, read_struct, read_next, load_param, load_described,
  load_element, elements_round, load_elements, support_errors,
}

-- An entry as the loader gives it, without errors.
abbrev pub loaded : RelocationEntry → LoadedEntry
loaded entry = record { entry = entry; entry_errors = [] }

abbrev pub FitsParam : Bool → Option ℕ → Type 0
FitsParam false none = Unit
FitsParam false (some p) = ⊥
FitsParam true none = ⊥
FitsParam true (some p) = p < 2 ^ 16

-- An entry of two words, of a type that the machine supports, with a parameter if it needs one.
abbrev pub IsEntry : ℕ → RelocationEntry → Type 0
IsEntry machine entry =
    (entry.descriptor < 2 ^ 16)
    × (is_ok (get_affected_size_in_bytes entry machine) ≡ true)
    × FitsParam (requires_parameter entry) entry.param

pub plus-ok : (a b : ℕ) → a + b < 2 ^ 32 → plus 32 a b ≡ ok (a + b)
plus-ok a b h = rw (plus_lem 32 a b, lt→ltb (a + b) (2 ^ 32) h)

support_errors-nil : (r : Result ℕ) → is_ok r ≡ true → support_errors r ≡ []
support_errors-nil (ok n) h = refl
support_errors-nil (err e) h = cc

add-zero : (n : ℕ) → n + 0 ≡ n
add-zero n = omega arith

minus-zero : (n : ℕ) → n - 0 ≡ n
minus-zero n = omega arith

length-entry_bytes : (e : RelocationEntry) → length (entry_bytes e) ≡ 2 + 2 * param_count e.param
length-entry_bytes e = omega (
  arith,
  length-append (serialize 2 e.descriptor)
      (elim e.param as (λ x. List ℕ) [ none ↦ [] | some param ↦ serialize 2 param ]),
  length-serialize 2 e.descriptor,
  length-param e.param,
)

behind_rva :
    (e : RelocationEntry) (rva : ℕ)
    → rva + length (entry_bytes e) ≡ rva + 2 + 2 * param_count e.param
behind_rva e rva = omega (arith, length-entry_bytes e)

state-eq :
    (es fs : List LoadedEntry) (m n c d : ℕ)
    → es ≡ fs
    → m ≡ n
    → c ≡ d
    → ◌≡◌ {A = ElementState}
        (record { entries = es; elem_count = m; current_rva = c })
        (record { entries = fs; elem_count = n; current_rva = d })
state-eq es fs m n c d p q r = rw (p, q, r)

module _ (img : Image) (options : LoaderOptions) where
  -- The image holds these bytes from an address on: every part of them is what is read there.
  abbrev pub IsStored : ℕ → List ℕ → Type 0
  IsStored rva bytes =
      (before part after : List ℕ)
      → bytes ≡ before ++ (part ++ after)
      → 0 < length part
      → read_struct img options (rva + length before) (length part) ≡ ok part

  pub first-IsStored :
      (rva : ℕ) (part after : List ℕ)
      → 0 < length part
      → IsStored rva (part ++ after)
      → read_struct img options rva (length part) ≡ ok part
  first-IsStored rva part after long stored =
      subst (λ k. read_struct img options k (length part) ≡ ok part) (add-zero rva)
        (stored [] part after refl long)

  pub rest-IsStored :
      (rva : ℕ) (xs ys : List ℕ) → IsStored rva (xs ++ ys) → IsStored (rva + length xs) ys
  rest-IsStored rva xs ys stored before part after e long =
      let at : rva + length xs + length before ≡ rva + length (xs ++ before) =
        omega (arith, length-append xs before) in
      rw at (
        stored (xs ++ before) part after
          (ap (λ z. xs ++ z) e ∙ sym (append_assoc xs before (part ++ after))) long)

  read_number :
      (rva n v : ℕ) (after : List ℕ)
      → 0 < n
      → IsStored rva (serialize n v ++ after)
      → read_struct img options rva n ≡ ok (serialize n v)
  read_number rva n v after long stored =
      subst (λ k. read_struct img options rva k ≡ ok (serialize n v)) (length-serialize n v)
        (first-IsStored rva (serialize n v) after (omega (arith, length-serialize n v)) stored)

  module _ (last_rva : ℕ) (last_fits : last_rva + 2 < 2 ^ 32) where
    -- The state behind an entry.
    abbrev pub after_entry : ElementState → RelocationEntry → ElementState
    after_entry st e = record {
      entries = st.entries ++ (loaded e ∷ []);
      elem_count = st.elem_count - 1 - param_count e.param;
      current_rva = st.current_rva + 2 + 2 * param_count e.param;
    }

    load_param-stored :
        (d p : ℕ) (st : ElementState) (after : List ℕ)
        → p < 2 ^ 16
        → 0 < st.elem_count
        → st.current_rva + 2 ≤ last_rva
        → IsStored st.current_rva (serialize 2 p ++ after)
        → load_param img options last_rva (record { descriptor = d; param = none }) [] st
          ≡ ok (
            true,
            record {
              entries = st.entries ++ (loaded (record { descriptor = d; param = some p }) ∷ []);
              elem_count = st.elem_count - 1;
              current_rva = st.current_rva + 2;
            },
          )
    unfolding load_param read_next
    load_param-stored d p st after word some_left fits stored =
        let some_count : (st.elem_count != 0) ≡ true = ground arith in
        rw
          (
            (is_sum_safe_iff 32 st.current_rva 2 (omega arith)).1 (omega arith),
            plus-ok st.current_rva 2 (omega arith),
            read_number st.current_rva 2 p after (omega arith) stored,
            some_count,
          )
          (rw (le→leb (st.current_rva + 2) last_rva fits, deserialize-serialize 2 p word))

    load_described-stored :
        (e : RelocationEntry) (st : ElementState) (after : List ℕ)
        → IsEntry img.machine e
        → param_count e.param ≤ st.elem_count
        → st.current_rva + 2 * param_count e.param ≤ last_rva
        → IsStored st.current_rva
            ((elim e.param [ none ↦ [] | some param ↦ serialize 2 param ]) ++ after)
        → load_described img options last_rva e.descriptor st
          ≡ ok (
            true,
            record {
              entries = st.entries ++ (loaded e ∷ []);
              elem_count = st.elem_count - param_count e.param;
              current_rva = st.current_rva + 2 * param_count e.param;
            },
          )
    unfolding load_described get_affected_size_in_bytes requires_parameter get_type
    load_described-stored e st after (word, supported, fits) count room stored =
        rw (support_errors-nil (get_affected_size_in_bytes e img.machine) supported)
          (go (requires_parameter e) e.param fits count room stored)
      where
        go :
            (b : Bool) (param : Option ℕ)
            → FitsParam b param
            → param_count param ≤ st.elem_count
            → st.current_rva + 2 * param_count param ≤ last_rva
            → IsStored st.current_rva
                ((elim param [ none ↦ [] | some param ↦ serialize 2 param ]) ++ after)
            → (if b
                then load_param img options last_rva
                    (record { descriptor = e.descriptor; param = none })
                    []
                    st
                else ok (
                  true,
                  record st {
                    entries =
                        st.entries
                        ++ (loaded (record { descriptor = e.descriptor; param = none }) ∷ []);
                  },
                ))
              ≡ ok (
                true,
                record {
                  entries =
                      st.entries
                      ++ (loaded (record { descriptor = e.descriptor; param = param }) ∷ []);
                  elem_count = st.elem_count - param_count param;
                  current_rva = st.current_rva + 2 * param_count param;
                },
              )
        go false none fits count room stored =
            rw (minus-zero st.elem_count, add-zero st.current_rva)
        go false (some p) fits count room stored = absurd fits
        go true none fits count room stored = absurd fits
        go true (some p) fits count room stored =
            load_param-stored e.descriptor p st after fits (omega arith) (omega arith) stored

    pub load_element-stored :
        (e : RelocationEntry) (st : ElementState) (after : List ℕ)
        → IsEntry img.machine e
        → 1 + param_count e.param ≤ st.elem_count
        → st.current_rva + 2 + 2 * param_count e.param ≤ last_rva
        → IsStored st.current_rva (entry_bytes e ++ after)
        → load_element img options last_rva st ≡ ok (true, after_entry st e)
    unfolding load_element
    load_element-stored e st after is count room stored =
        let param_bytes = elim e.param as (λ x. List ℕ) [
          | none ↦ []
          | some param ↦ serialize 2 param
        ] in
        let split = append_assoc (serialize 2 e.descriptor) param_bytes after in
        let whole = subst (IsStored st.current_rva) split stored in
        let behind =
          subst (λ k. IsStored (st.current_rva + k) (param_bytes ++ after))
            (length-serialize 2 e.descriptor)
            (rest-IsStored st.current_rva (serialize 2 e.descriptor) (param_bytes ++ after)
              whole) in
        rw
          (
            (is_sum_safe_iff 32 last_rva 2 (omega arith)).1 (omega arith),
            plus-ok st.current_rva 2 (omega arith),
            read_number st.current_rva 2 e.descriptor (param_bytes ++ after) (omega arith) whole,
          )
          (rw
            (
              le→ltb last_rva (st.current_rva + 2) (omega arith),
              plus-ok st.current_rva 2 (omega arith),
              deserialize-serialize 2 e.descriptor is.0,
            )
            (load_described-stored e
              (record st { elem_count = st.elem_count - 1; current_rva = st.current_rva + 2 }) after
              is (omega arith) (omega arith) behind))

    -- The state behind the loop over all elements.
    abbrev pub after_entries : ElementState → List RelocationEntry → ElementState
    after_entries st es = record {
      entries = st.entries ++ map loaded es;
      elem_count = 0;
      current_rva = st.current_rva + 2 * elements es;
    }

    pub load_elements-stored :
        (es : List RelocationEntry) (fuel : ℕ) (st : ElementState) (after : List ℕ)
        → All (IsEntry img.machine) es
        → st.elem_count ≡ elements es
        → st.elem_count < fuel
        → st.current_rva + 2 * elements es ≤ last_rva
        → IsStored st.current_rva (serialize_entries es ++ after)
        → load_elements img options fuel last_rva st ≡ ok (done (true, after_entries st es))
    unfolding load_elements elements_round serialize_entries params_from
    load_elements-stored es zero st after is count enough room stored = absurd (omega arith)
    load_elements-stored [] (suc fuel) st after is count enough room stored =
        let none_left : (st.elem_count == 0) ≡ true = ground arith in
        rw none_left (
          ap (λ x. ok (done (true, x)))
            (state-eq st.entries (st.entries ++ []) st.elem_count 0 st.current_rva
              (st.current_rva + 0) (sym (append-nil st.entries)) count (omega arith)))
    load_elements-stored (e ∷ es) (suc fuel) st after (is, all) count enough room stored =
        let total = elements-cons e es in
        let some_left : (st.elem_count == 0) ≡ false = ground arith in
        let whole =
          subst (IsStored st.current_rva)
            (append_assoc (entry_bytes e) (serialize_entries es) after) stored in
        let behind =
          subst (λ k. IsStored k (serialize_entries es ++ after)) (behind_rva e st.current_rva)
            (rest-IsStored st.current_rva (entry_bytes e) (serialize_entries es ++ after) whole) in
        rw
          (
            some_left,
            load_element-stored e st (serialize_entries es ++ after) is (omega arith) (omega arith)
                whole,
          )
          (rw
            (load_elements-stored es fuel (after_entry st e) after all (omega arith) (omega arith)
              (omega arith) behind)
            (ap (λ x. ok (done (true, x)))
              (state-eq (st.entries ++ (loaded e ∷ []) ++ map loaded es)
                (st.entries ++ (loaded e ∷ map loaded es)) 0 0 _ _
                (append_assoc st.entries (loaded e ∷ []) (map loaded es)) refl (omega arith))))

-- The bytes of a buffer are stored at the addresses of its bytes.
pub bytes-IsStored :
    (img : Image) (loaded : IsLoaded img) (options : LoaderOptions) (rva : ℕ) (b : Buffer)
    (front bytes back : List ℕ)
    → contents b ≡ front ++ (bytes ++ back)
    → length front + length bytes ≤ physical b
    → rva + length bytes < 2 ^ 32
    → ((i : ℕ)
        → i < length bytes
        → IsByteOf img options.include_headers (rva + i) b (length front + i))
    → IsStored img options rva bytes
unfolding read_struct
bytes-IsStored img loaded options rva b front bytes back is in_file fits bytes_of before part after
      e long =
    let total : length bytes ≡ length before + (length part + length after) =
      rw e (omega (arith, length-append before (part ++ after), length-append part after)) in
    let from : length front + length before ≡ length (front ++ before) =
      omega (arith, length-append front before) in
    let split : contents b ≡ front ++ before ++ (part ++ (after ++ back)) =
      is
      ∙ ap (λ x. front ++ (x ++ back)) e
      ∙ ap (λ x. front ++ x) (append_assoc before (part ++ after) back)
      ∙ ap (λ x. front ++ (before ++ x)) (append_assoc part after back)
      ∙ sym (append_assoc front before (part ++ (after ++ back))) in
    let read =
      struct_from_rva_lem img loaded (rva + length before) (omega arith) b
        (length front + length before) (length part) options.include_headers
        options.allow_virtual_data (bytes_of (length before) (omega arith)) long (omega arith) in
    ap (λ r. r >>= λ got. ok got.1) read
    ∙ ap ok (
        ap (λ x. take (length part) (drop (length front + length before) x)) split
        ∙ ap (λ k. take (length part) (drop k (front ++ before ++ (part ++ (after ++ back))))) from
        ∙ ap (take (length part)) (drop-length_append (front ++ before) (part ++ (after ++ back)))
        ∙ take-length_append part (after ++ back))
