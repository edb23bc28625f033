-- ===== src/Rich/Tests.antt =====
-- A rich header with one entry, behind nothing.
use pe_bliss.Base.{
  ℕ, ◌+◌, ◌%◌, ◌≤◌, ◌<◌, ◌≡◌, ◌≢◌, refl, subst, arith, bit_xor, [], ◌∷◌, ◌++◌, some, length,
  replicate,
}
use pe_bliss.Errors.{ok}
use pe_bliss.Buffers.Input.{container, absolute_offset}
use pe_bliss.Buffers.Input.Contents.{contents, physical}
use pe_bliss.Buffers.Output.{memory}
use pe_bliss.Buffers.Reader.{Reader}
use pe_bliss.Packed.CString.Laws.{moved}
use pe_bliss.Rich.{RichCompid, RichHeader}
use pe_bliss.Packed.Struct.{deserialize, serialize}
use pe_bliss.Rich.Utils.{dans_signature, xor_compid}
use pe_bliss.Rich.Utils.Laws.{entry_bytes, word_at}
use pe_bliss.Rich.Builder.{get_built_size, build, serialize_compid}
use pe_bliss.Rich.Builder.Laws.{built_bytes, get_built_size-build}
use pe_bliss.Rich.Loader.{load_at}
use pe_bliss.Rich.Loader.Laws.{load_at-built_bytes}

abbrev compid : RichCompid
compid = record { build_number = 30729; prod_id = 261; use_count = 7 }

-- Behind a stub of three bytes.
abbrev stub_header : RichHeader
stub_header = record {
  checksum = 3735928559;
  dans_relative_offset = 3;
  dans_absolute_offset = 3;
  compids = compid ∷ [];
}

get_built_size-build_example :
    (pad : ℕ) × (n : ℕ) × (get_built_size stub_header ≡ ok n)
    × (build stub_header (memory (9 ∷ 9 ∷ 9 ∷ []) 1)
        ≡ ok (memory ((9 ∷ 9 ∷ 9 ∷ []) ++ replicate pad 0 ++ built_bytes stub_header) (3 + n)))
    × (n ≡ pad + length (built_bytes stub_header))
    × (pad < 16)
    × ((3 + pad) % 16 ≡ 0)
get_built_size-build_example =
    get_built_size-build stub_header (9 ∷ 9 ∷ 9 ∷ []) 1 refl (omega arith) (omega arith)

abbrev header : RichHeader
header = record {
  checksum = 3735928559;
  dans_relative_offset = 0;
  dans_absolute_offset = 0;
  compids = compid ∷ [];
}

abbrev file : Reader
file = record { buffer = container (built_bytes header) 0 0; position = 0 }

-- The entry is the only word at a later multiple of 16.
entry_differs :
    (x : ℕ)
    → 0 < x
    → x % 16 ≡ 0
    → x + 4 ≤ 32
    → bit_xor (word_at file.buffer x) 3735928559 ≢ dans_signature
unfolding contents entry_bytes serialize_compid xor_compid serialize deserialize
entry_differs x after whole within =
    let is : 16 ≡ x = omega arith in
    subst (λ y. bit_xor (word_at file.buffer y) 3735928559 ≢ dans_signature) is (λ e. omega arith)

load_at-built_bytes_example :
    load_at file 28
    ≡ ok (
      some (record {
        checksum = 3735928559;
        dans_relative_offset = 0;
        dans_absolute_offset = 0;
        compids = compid ∷ [];
      }),
      moved file 24,
    )
unfolding contents physical absolute_offset entry_bytes serialize_compid xor_compid serialize
load_at-built_bytes_example =
    load_at-built_bytes file header [] (omega arith) (omega arith)
      ((omega arith, omega arith, omega arith), tt) refl refl (omega arith) (omega arith)
      entry_differs
