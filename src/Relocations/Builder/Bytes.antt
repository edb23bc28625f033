-- ===== src/Relocations/Builder/Bytes.antt =====
-- About the bytes that the builder writes: numbers are read back, and a block is the header, the
-- entries and the padding entry.
use mathlib.Core.List.{append_assoc, append-nil}
use pe_bliss.Base.{
  ℕ, suc, ◌+◌, ◌%◌, ◌^◌, ◌<◌, ◌≡◌, refl, ap, sym, ◌∙◌, Bool, true, false, ◌&&◌, none, some, List,
  [], ◌∷◌, ◌++◌, map, arith, length, length-append, ◌!=◌, if◌then◌else◌,
}
use pe_bliss.Packed.Struct.Numbers.{length-serialize}
use pe_bliss.Errors.{ok}
use pe_bliss.Packed.Struct.{serialize}
use pe_bliss.Relocations.Entry.{RelocationEntry}
use pe_bliss.Relocations.Builder.{
  BaseRelocation, param_count, params_from, get_element_count, serialize_entries, build_block,
  build_blocks, build_new, total_elements, get_built_size,
}
use pe_bliss.Relocations.Builder.Laws.{
  block_size_lem, block_length, padded, params_from_lem, directory_length, directory_length-cons,
  IsInMemory, get_built_size_lem, length-serialize_entries,
}

-- The entry that fills a block up.
abbrev pub padding : RelocationEntry
padding = record { descriptor = 0; param = none }

-- The entries of a block as they are written.
abbrev pub with_padding : Bool → List RelocationEntry → List RelocationEntry
with_padding pad es = if pad then es ++ (padding ∷ []) else es

abbrev pub is_padded : Bool → BaseRelocation → Bool
is_padded align b = align && get_element_count b % 2 != 0

abbrev pub written : Bool → BaseRelocation → List RelocationEntry
written align b = with_padding (is_padded align b) b.relocations

-- The bytes of an entry.
abbrev pub entry_bytes : RelocationEntry → List ℕ
entry_bytes e =
    serialize 2 e.descriptor ++ (elim e.param [ none ↦ [] | some param ↦ serialize 2 param ])

pub serialize_entries-append :
    (xs ys : List RelocationEntry)
    → serialize_entries (xs ++ ys) ≡ serialize_entries xs ++ serialize_entries ys
unfolding serialize_entries
serialize_entries-append [] ys = refl
serialize_entries-append (x ∷ xs) ys =
    rw (serialize_entries-append xs ys)
      (sym (append_assoc (entry_bytes x) (serialize_entries xs) (serialize_entries ys)))

-- The count of two-byte elements of entries.
abbrev pub elements : List RelocationEntry → ℕ
elements es = params_from (length es) es

pub elements-cons :
    (e : RelocationEntry) (es : List RelocationEntry)
    → elements (e ∷ es) ≡ 1 + param_count e.param + elements es
unfolding params_from
elements-cons e es = omega (
  arith,
  params_from_lem (suc (length es) + param_count e.param) es,
  params_from_lem (length es) es,
)

elements-with_padding :
    (pad : Bool) (es : List RelocationEntry)
    → elements (with_padding pad es) ≡ (if pad then suc (elements es) else elements es)
unfolding params_from
elements-with_padding false es = refl
elements-with_padding true [] = elements-cons padding []
elements-with_padding true (e ∷ es) = omega (
  arith,
  elements-cons e (es ++ (padding ∷ [])),
  elements-cons e es,
  elements-with_padding true es,
)

pub elements-written :
    (align : Bool) (b : BaseRelocation) → elements (written align b) ≡ padded align b
unfolding get_element_count
elements-written align b = elements-with_padding (is_padded align b) b.relocations

serialize-with_padding :
    (pad : Bool) (es : List RelocationEntry)
    → serialize_entries es ++ (if pad then serialize 2 0 else [])
      ≡ serialize_entries (with_padding pad es)
unfolding serialize_entries serialize
serialize-with_padding false es = append-nil _
serialize-with_padding true es = sym (serialize_entries-append es (padding ∷ []))

-- A block is its header and the entries as they are written.
pub build_block-written :
    (align : Bool) (b : BaseRelocation)
    → block_length align b < 2 ^ 32
    → build_block align b
      ≡ ok (
        serialize 4 b.virtual_address
            ++ (serialize 4 (block_length align b) ++ serialize_entries (written align b)),
        record b { size_of_block = block_length align b },
      )
unfolding build_block get_element_count
build_block-written align b h = rw (block_size_lem (is_padded align b) (get_element_count b) h) (
    ap (λ x. ok (x, record b { size_of_block = block_length align b }))
      (append_assoc (serialize 4 b.virtual_address ++ serialize 4 (block_length align b))
          (serialize_entries b.relocations) _
        ∙ ap (λ x. serialize 4 b.virtual_address ++ serialize 4 (block_length align b) ++ x)
            (serialize-with_padding (is_padded align b) b.relocations)
        ∙ append_assoc (serialize 4 b.virtual_address) (serialize 4 (block_length align b)) _))

abbrev pub block_bytes : Bool → BaseRelocation → List ℕ
block_bytes align b =
    serialize 4 b.virtual_address
    ++ (serialize 4 (block_length align b) ++ serialize_entries (written align b))

-- The bytes of a directory, and the blocks with the sizes that the build stores.
abbrev pub directory_bytes : Bool → List BaseRelocation → List ℕ
directory_bytes align [] = []
directory_bytes align (b ∷ rs) = block_bytes align b ++ directory_bytes align rs

pub length-block_bytes :
    (align : Bool) (b : BaseRelocation) → length (block_bytes align b) ≡ block_length align b
length-block_bytes align b =
    let entries = serialize_entries (written align b) in
    omega (
      arith,
      length-append (serialize 4 b.virtual_address) (serialize 4 (block_length align b) ++ entries),
      length-append (serialize 4 (block_length align b)) entries,
      length-serialize 4 b.virtual_address,
      length-serialize 4 (block_length align b),
      length-serialize_entries (written align b),
      elements-written align b,
    )

abbrev pub sized : Bool → BaseRelocation → BaseRelocation
sized align b = record b { size_of_block = block_length align b }

pub build_blocks-written :
    (align : Bool) (rs : List BaseRelocation)
    → directory_length align rs < 2 ^ 32
    → build_blocks align rs ≡ ok (directory_bytes align rs, map (sized align) rs)
unfolding build_blocks
build_blocks-written align [] h = refl
build_blocks-written align (b ∷ rs) h =
    let whole = directory_length-cons align b rs in
    rw (build_block-written align b (omega arith), build_blocks-written align rs (omega arith))

pub length-directory_bytes :
    (align : Bool) (rs : List BaseRelocation)
    → length (directory_bytes align rs) ≡ directory_length align rs
unfolding total_elements
length-directory_bytes align [] = refl
length-directory_bytes align (b ∷ rs) = omega (
  arith,
  directory_length-cons align b rs,
  length-block_bytes align b,
  length-append (block_bytes align b) (directory_bytes align rs),
  length-directory_bytes align rs,
)

pub build_new-written :
    (align : Bool) (rs : List BaseRelocation) (size : ℕ)
    → IsInMemory align rs
    → get_built_size align rs ≡ ok size
    → (build_new align rs ≡ ok ((directory_bytes align rs, map (sized align) rs), size))
      × (directory_length align rs ≡ size)
unfolding build_new
build_new-written align rs size memory e =
    let total = directory_length align rs in
    let known = rw (get_built_size_lem align rs memory) at e in
    let below : total < 2 ^ 32 = ground arith in
    let same : total ≡ size = ground arith in
    let word : length (directory_bytes align rs) % 2 ^ 32 ≡ size =
      omega (arith, length-directory_bytes align rs) in
    (rw (build_blocks-written align rs below, word) refl, same)
