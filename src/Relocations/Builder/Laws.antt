-- ===== src/Relocations/Builder/Laws.antt =====
-- About the size of a directory before and after it is built.
use native.Mathlib.Nat.{mod-eq_of_lt}
use pe_bliss.Base.{
  ℕ, suc, ◌+◌, ◌*◌, ◌%◌, ◌^◌, ◌<◌, ◌≡◌, refl, ap, Bool, true, false, ◌&&◌, Option, none, some, List,
  [], ◌∷◌, ◌++◌, arith, length, length-append, ltb, ◌!=◌, if◌then◌else◌,
}
use pe_bliss.Packed.Struct.{serialize}
use pe_bliss.Packed.Struct.Numbers.{length-serialize}
use pe_bliss.Errors.{ok}
use pe_bliss.Utilities.SafeUint.{plus_lem, overflow}
use pe_bliss.Relocations.Entry.{RelocationEntry}
use pe_bliss.Relocations.Builder.{
  BaseRelocation, block_header_size, entry_size, param_count, params_from, get_element_count,
  total_elements, get_built_size, serialize_entries, block_size, build_block, build_blocks,
  build_new,
}

pub params_from_lem : (n : ℕ) (es : List RelocationEntry) → params_from n es ≡ n + params_from 0 es
unfolding params_from
params_from_lem n [] = omega arith
params_from_lem n (e ∷ es) = omega (
  arith,
  params_from_lem (n + param_count e.param) es,
  params_from_lem (0 + param_count e.param) es,
)

pub length-param :
    (p : Option ℕ)
    → length (elim p as (λ x. List ℕ) [ none ↦ [] | some param ↦ serialize 2 param ])
      ≡ 2 * param_count p
length-param none = refl
length-param (some p) = length-serialize 2 p

pub length-serialize_entries :
    (es : List RelocationEntry) → length (serialize_entries es) ≡ 2 * params_from (length es) es
unfolding serialize_entries params_from serialize
length-serialize_entries [] = refl
length-serialize_entries (e ∷ es) =
    let tail = serialize_entries es in
    let param = elim e.param as (λ x. List ℕ) [ none ↦ [] | some param ↦ serialize 2 param ] in
    omega (
      arith,
      length-append (serialize 2 e.descriptor) (param ++ tail),
      length-append param tail,
      length-serialize 2 e.descriptor,
      length-param e.param,
      length-serialize_entries es,
      params_from_lem (length es) es,
      params_from_lem (suc (length es) + param_count e.param) es,
    )

-- The entries of a block, with the one that aligns it.
abbrev pub padded : Bool → BaseRelocation → ℕ
padded align b = let n = get_element_count b in if align && n % 2 != 0 then suc n else n

pub total_elements_lem :
    (align : Bool) (n : ℕ) (rs : List BaseRelocation)
    → total_elements align n rs ≡ n + total_elements align 0 rs
unfolding total_elements
total_elements_lem align n [] = omega arith
total_elements_lem align n (b ∷ rs) = omega (
  arith,
  total_elements_lem align (n + padded align b) rs,
  total_elements_lem align (0 + padded align b) rs,
)

pub block_size_lem :
    (pad : Bool) (n : ℕ)
    → 8 + 2 * (if pad then suc n else n) < 2 ^ 32
    → block_size pad n ≡ ok (8 + 2 * (if pad then suc n else n))
unfolding block_size
block_size_lem pad n h =
    let whole : n * 2 % 2 ^ 64 ≡ n * 2 = mod-eq_of_lt (ground arith) in
    rw (plus_lem 32 0 8, whole)
      (rw (plus_lem 32 8 (n * 2))
        (ground (arith, plus_lem 32 (8 + n * 2) 2, plus_lem 32 (8 + n * 2) 0)))

tail_length :
    (pad : Bool) (n : ℕ)
    → length (if pad then serialize 2 0 else []) + 2 * n ≡ 2 * (if pad then suc n else n)
tail_length true n = omega (arith, length-serialize 2 0)
tail_length false n = omega arith

-- The bytes of a block and its size are those that the entries count.
abbrev pub block_length : Bool → BaseRelocation → ℕ
block_length align b = 8 + 2 * padded align b

build_block_lem :
    (align : Bool) (b : BaseRelocation)
    → block_length align b < 2 ^ 32
    → (bytes : List ℕ) × (built : BaseRelocation) × (build_block align b ≡ ok (bytes, built))
      × (length bytes ≡ block_length align b)
      × (built ≡ record b { size_of_block = block_length align b })
unfolding build_block serialize get_element_count
build_block_lem align b h =
    let n = get_element_count b in
    let pad = align && n % 2 != 0 in
    let sized = block_size_lem pad n h in
    let tail = if pad then serialize 2 0 else [] in
    let body = serialize_entries b.relocations in
    let size = block_length align b in
    (
      serialize 4 b.virtual_address ++ serialize 4 size ++ body ++ tail,
      record b { size_of_block = size },
      rw sized refl,
      omega (
        arith,
        length-append (serialize 4 b.virtual_address) (serialize 4 size ++ body ++ tail),
        length-append (serialize 4 size) (body ++ tail),
        length-append body tail,
        length-serialize 4 b.virtual_address,
        length-serialize 4 size,
        length-serialize_entries b.relocations,
        tail_length pad n,
      ),
      refl,
    )

abbrev pub block_sizes : List BaseRelocation → ℕ
block_sizes [] = 0
block_sizes (b ∷ bs) = b.size_of_block + block_sizes bs

abbrev pub directory_length : Bool → List BaseRelocation → ℕ
directory_length align rs = 8 * length rs + 2 * total_elements align 0 rs

pub directory_length-cons :
    (align : Bool) (b : BaseRelocation) (rs : List BaseRelocation)
    → directory_length align (b ∷ rs) ≡ block_length align b + directory_length align rs
unfolding total_elements
directory_length-cons align b rs = omega (arith, total_elements_lem align (0 + padded align b) rs)

abbrev IsBuilt : Bool → List BaseRelocation → Type 0
IsBuilt align rs =
    (bytes : List ℕ) × (built : List BaseRelocation) × (build_blocks align rs ≡ ok (bytes, built))
    × (length bytes ≡ directory_length align rs)
    × (block_sizes built ≡ directory_length align rs)

build_blocks_lem :
    (align : Bool) (rs : List BaseRelocation)
    → directory_length align rs < 2 ^ 32
    → IsBuilt align rs
unfolding build_blocks total_elements
build_blocks_lem align [] h = ([], [], refl, refl, refl)
build_blocks_lem align (b ∷ rs) h =
    let whole = directory_length-cons align b rs in
    let (bytes, block, made, bytes_length, is_block) = build_block_lem align b (omega arith) in
    let (rest, blocks, made_rest, rest_length, rest_sizes) =
      build_blocks_lem align rs (omega arith) in
    let size : block.size_of_block ≡ block_length align b = ap (λ x. x.size_of_block) is_block in
    (
      bytes ++ rest,
      block ∷ blocks,
      rw (made, made_rest) refl,
      omega (arith, length-append bytes rest),
      omega arith,
    )

-- The counts of bytes are no larger than a vector can hold.
abbrev pub IsInMemory : Bool → List BaseRelocation → Type 0
IsInMemory align rs =
    (length rs * block_header_size < 2 ^ 64) × (total_elements align 0 rs * entry_size < 2 ^ 64)

pub get_built_size_lem :
    (align : Bool) (rs : List BaseRelocation)
    → IsInMemory align rs
    → get_built_size align rs ≡ (
        if ltb (directory_length align rs) (2 ^ 32)
        then ok (directory_length align rs)
        else overflow)
unfolding get_built_size
get_built_size_lem align rs (headers, entries) =
    rw (mod-eq_of_lt headers, mod-eq_of_lt entries, plus_lem 32 0 (length rs * 8))
      (ground (arith, plus_lem 32 (length rs * 8) (total_elements align 0 rs * 2)))

-- For a directory whose counts of bytes are below 2 ^ 64, the size that is computed in advance,
-- where it is no overflow, is the one that the build returns, the count of the bytes that it
-- writes, and the sum of the block sizes that it stores.
pub get_built_size-build_new :
    (align : Bool) (rs : List BaseRelocation) (size : ℕ)
    → IsInMemory align rs
    → get_built_size align rs ≡ ok size
    → (bytes : List ℕ) × (built : List BaseRelocation) × (build_new align rs
        ≡ ok ((bytes, built), size))
      × (length bytes ≡ size)
      × (block_sizes built ≡ size)
unfolding build_new
get_built_size-build_new align rs size memory e =
    let total = directory_length align rs in
    let known = rw (get_built_size_lem align rs memory) at e in
    let below : total < 2 ^ 32 = ground arith in
    let same : total ≡ size = ground arith in
    let (bytes, built, made, bytes_length, sizes) = build_blocks_lem align rs below in
    let word : length bytes % 2 ^ 32 ≡ size = omega arith in
    (bytes, built, rw (made, word) refl, omega arith, omega arith)
