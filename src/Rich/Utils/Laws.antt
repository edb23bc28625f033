-- ===== src/Rich/Utils/Laws.antt =====
-- About the entries of a rich header: what is written is decoded.
use mathlib.Core.List.{append_assoc, append-nil}
use pe_bliss.Base.{
  ℕ, suc, ◌+◌, ◌-◌, ◌*◌, ◌/◌, ◌%◌, ◌^◌, ◌≤◌, ◌<◌, ◌≡◌, refl, ap, ◌∙◌, subst, bit_xor, List, [], ◌∷◌,
  ◌++◌, arith, All, ◌!=◌, length, take, drop, min, length-append, le→ltb, ltb, true, false, zero,
  ◌≢◌, ◌==◌, ◌&&◌, if◌then◌else◌,
}
use pe_bliss.Base.Slices.{take-length_append}
use pe_bliss.Base.Words.{sub_wrap}
use pe_bliss.Base.Xor.{cast-bit_xor_twice}
use pe_bliss.Packed.Struct.Numbers.{deserialize-serialize, length-serialize}
use pe_bliss.Errors.{ok}
use pe_bliss.Utilities.Math.{align_up, is_aligned}
use pe_bliss.Utilities.Math.Align.{align_up-align_up_if_safe, align_up_if_safe_lem}
use pe_bliss.Buffers.Input
use pe_bliss.Buffers.Input.{Buffer}
use pe_bliss.Buffers.Input.Contents.{contents, physical, IsValid, physical-le, size-length}
use pe_bliss.Buffers.Reader.{Reader, read, set_rpos, size}
use pe_bliss.Buffers.Copy.Laws.{read_inside}
use pe_bliss.Packed.Struct.{deserialize, serialize}
use pe_bliss.Packed.CString.Laws.{ahead, moved, ahead-moved}
use pe_bliss.Rich.{RichCompid}
use pe_bliss.Rich.Utils.{
  xor_compid, deserialize_compid, decode_rounds, get_compid_offset, decode_compids, decode_checksum,
  dans_signature, match_dans, find_dans,
}
use pe_bliss.Rich.Builder.{serialize_compid}

abbrev pub IsCompid : RichCompid → Type 0
IsCompid c = (c.build_number < 2 ^ 16) × (c.prod_id < 2 ^ 16) × (c.use_count < 2 ^ 32)

-- The bytes of entries.
unfoldable pub entry_bytes : ℕ → List RichCompid → List ℕ
entry_bytes checksum [] = []
entry_bytes checksum (c ∷ cs) = serialize_compid (xor_compid checksum c) ++ entry_bytes checksum cs

pub length-serialize_compid : (c : RichCompid) → length (serialize_compid c) ≡ 8
unfolding serialize_compid serialize
length-serialize_compid c = refl

pub length-entry_bytes :
    (checksum : ℕ) (cs : List RichCompid) → length (entry_bytes checksum cs) ≡ length cs * 8
unfolding entry_bytes
length-entry_bytes checksum [] = refl
length-entry_bytes checksum (c ∷ cs) = omega (
  arith,
  length-append (serialize_compid (xor_compid checksum c)) (entry_bytes checksum cs),
  length-serialize_compid (xor_compid checksum c),
  length-entry_bytes checksum cs,
)

deserialize_compid-serialize_compid :
    (c : RichCompid) → IsCompid c → deserialize_compid (serialize_compid c) ≡ c
unfolding deserialize_compid serialize_compid serialize deserialize
deserialize_compid-serialize_compid c (b, p, u) =
    rw
      (
        deserialize-serialize 2 c.build_number b,
        deserialize-serialize 2 c.prod_id p,
        deserialize-serialize 4 c.use_count u,
      )
      refl

xor_compid-IsCompid : (checksum : ℕ) (c : RichCompid) → IsCompid (xor_compid checksum c)
unfolding xor_compid
xor_compid-IsCompid checksum c = (omega arith, omega arith, omega arith)

xor_compid-xor_compid :
    (checksum : ℕ) (c : RichCompid) → IsCompid c → xor_compid checksum (xor_compid checksum c) ≡ c
unfolding xor_compid
xor_compid-xor_compid checksum c (b, p, u) =
    rw
      (
        cast-bit_xor_twice 16 c.build_number checksum b,
        cast-bit_xor_twice 16 c.prod_id (checksum / 2 ^ 16) p,
        cast-bit_xor_twice 32 c.use_count checksum u,
      )
      refl

-- Bytes of the file that a reader stands before are read.
pub read-ahead :
    (r : Reader) (xs rest : List ℕ)
    → IsValid r.buffer
    → 0 < length xs
    → ahead r ≡ xs ++ rest
    → r.position + length xs ≤ physical r.buffer
    → (read r (length xs) ≡ ok ((length xs, xs), moved r (length xs)))
      × (ahead (moved r (length xs)) ≡ rest)
read-ahead r xs rest v some e fits =
    let le = physical-le r.buffer in
    let real : min (length xs) (physical r.buffer - r.position) ≡ length xs = omega arith in
    let shown : take (length xs) (ahead r) ≡ xs =
      ap (take (length xs)) e ∙ take-length_append xs rest in
    (read_inside r (length xs) v some (omega arith) ∙ rw (real, shown), ahead-moved r xs rest e)

pub decode_rounds_lem :
    (checksum : ℕ) (cs : List RichCompid) (r : Reader) (before : List RichCompid) (rest : List ℕ)
    → All IsCompid cs
    → IsValid r.buffer
    → ahead r ≡ entry_bytes checksum cs ++ rest
    → r.position + length cs * 8 ≤ physical r.buffer
    → decode_rounds (length cs) checksum r before ≡ ok (before ++ cs, moved r (length cs * 8))
unfolding decode_rounds entry_bytes
decode_rounds_lem checksum [] r before rest all v e fits =
    let stay : r.position + 0 ≡ r.position = omega arith in rw (append-nil before, stay)
decode_rounds_lem checksum (c ∷ cs) r before rest (is, all) v e fits =
    let bytes = serialize_compid (xor_compid checksum c) in
    let parts = e ∙ append_assoc bytes (entry_bytes checksum cs) rest in
    let eight = length-serialize_compid (xor_compid checksum c) in
    let (got, behind) =
      read-ahead r bytes (entry_bytes checksum cs ++ rest) v (omega arith) parts (omega arith) in
    let got' : read r 8 ≡ ok ((8, bytes), moved r 8) =
      subst (λ n. read r n ≡ ok ((n, bytes), moved r n)) eight got in
    let behind' = subst (λ n. ahead (moved r n) ≡ entry_bytes checksum cs ++ rest) eight behind in
    let back =
      ap (xor_compid checksum) (
        deserialize_compid-serialize_compid (xor_compid checksum c)
          (xor_compid-IsCompid checksum c))
      ∙ xor_compid-xor_compid checksum c is in
    let next =
      decode_rounds_lem checksum cs (moved r 8) (before ++ (c ∷ [])) rest all v behind'
        (omega arith) in
    let end : r.position + 8 + length cs * 8 ≡ r.position + suc (length cs) * 8 = omega arith in
    rw (got', back) (next ∙ rw (end, append_assoc before (c ∷ []) cs))

get_compid_offset_lem : (p : ℕ) → p % 16 ≡ 0 → p < 2 ^ 63 → get_compid_offset p ≡ p + 16
unfolding get_compid_offset
get_compid_offset_lem p multiple h =
    let word : (p + 4) % 2 ^ 64 ≡ p + 4 = omega arith in
    let part : ((p + 4) % 16 != 0) ≡ true = ground arith in
    let fits : ltb (16 + (p + 4) / 16 * 16) (2 ^ 64) ≡ true = ground arith in
    let up : 16 + (p + 4) / 16 * 16 ≡ p + 16 = omega arith in
    ap (λ n. align_up 64 n 16) word
    ∙ align_up-align_up_if_safe 64 4 (omega arith) (omega arith) (p + 4) (p + 16) (omega arith) (
        align_up_if_safe_lem 64 4 (omega arith) (omega arith) (p + 4) (omega arith)
        ∙ rw (part, fits, up))

-- Entries that stand 16 bytes behind the reader are decoded.
pub decode_compids_lem :
    (checksum : ℕ) (cs : List RichCompid) (r : Reader) (front rest : List ℕ)
    → All IsCompid cs
    → IsValid r.buffer
    → r.position % 16 ≡ 0
    → length front ≡ 16
    → ahead r ≡ front ++ (entry_bytes checksum cs ++ rest)
    → r.position + 16 + length cs * 8 ≤ physical r.buffer
    → r.position + 20 + length cs * 8 < 2 ^ 63
    → decode_compids r (r.position + 20 + length cs * 8) checksum []
      ≡ ok (cs, moved r (16 + length cs * 8))
unfolding decode_compids set_rpos size
decode_compids_lem checksum cs r front rest all v multiple sixteen e fits word =
    let le = physical-le r.buffer in
    let p = r.position in
    let k = length cs in
    let from = get_compid_offset_lem p multiple (omega arith) in
    let signature : sub_wrap 64 (p + 20 + k * 8) 4 ≡ p + 16 + k * 8 = omega arith in
    let distance : sub_wrap 64 (p + 16 + k * 8) (p + 16) ≡ k * 8 = omega arith in
    let whole : (k * 8 % 8 != 0) ≡ false = ground arith in
    let rounds : (p + 16 + k * 8 - (p + 16)) / 8 ≡ k = omega arith in
    let inside : ltb (Input.size r.buffer) (p + 16) ≡ false =
      rw (size-length r.buffer v) (le→ltb (length (contents r.buffer)) (p + 16) (omega arith)) in
    let behind =
      subst (λ n. ahead (moved r n) ≡ entry_bytes checksum cs ++ rest) sixteen
        (ahead-moved r front (entry_bytes checksum cs ++ rest) e) in
    let end : p + 16 + k * 8 ≡ p + (16 + k * 8) = omega arith in
    rw (from, signature, distance, whole, inside, rounds)
      (decode_rounds_lem checksum cs (moved r 16) [] rest all v behind (omega arith)
        ∙ ap (λ n. ok (cs, record r { position = n })) end)

pub decode_checksum_lem :
    (r : Reader) (checksum : ℕ) (rest : List ℕ)
    → IsValid r.buffer
    → checksum < 2 ^ 32
    → ahead r ≡ serialize 4 checksum ++ rest
    → r.position + 4 ≤ physical r.buffer
    → decode_checksum r ≡ ok (checksum, moved r 4)
unfolding decode_checksum
decode_checksum_lem r checksum rest v word e fits =
    let (got, behind) =
      read-ahead r (serialize 4 checksum) rest v (omega (arith, length-serialize 4 checksum)) e
        (omega (arith, length-serialize 4 checksum)) in
    let got' : read r 4 ≡ ok ((4, serialize 4 checksum), moved r 4) =
      subst (λ n. read r n ≡ ok ((n, serialize 4 checksum), moved r n))
        (length-serialize 4 checksum) got in
    rw (got', deserialize-serialize 4 checksum word)

-- The number of four bytes at a position.
abbrev pub word_at : Buffer → ℕ → ℕ
word_at b x = deserialize (take 4 (drop x (contents b)))

-- A round of the search for 'DanS'.
find_dans-round :
    (checksum left : ℕ) (r : Reader)
    → IsValid r.buffer
    → 4 * left + 4 ≤ physical r.buffer
    → find_dans checksum 0 (suc left) r ≡ (
        if bit_xor (word_at r.buffer (4 * left)) checksum == dans_signature
          && is_aligned 16 (4 * left)
        then ok (4 * left, record r { position = 4 * left + 4 })
        else find_dans checksum 0 left (record r { position = 4 * left + 4 }))
unfolding find_dans match_dans set_rpos size
find_dans-round checksum left r v in_file =
    let le = physical-le r.buffer in
    let x = 4 * left in
    let zero_start : 0 + x ≡ x = omega arith in
    let inside : ltb (Input.size r.buffer) x ≡ false =
      rw (size-length r.buffer v) (le→ltb (length (contents r.buffer)) x (omega arith)) in
    let real : min 4 (physical r.buffer - x) ≡ 4 = omega arith in
    rw (
      zero_start,
      inside,
      read_inside (record r { position = x }) 4 v (omega arith) (omega arith),
      real,
    )

multiple-is_aligned : (x : ℕ) → x % 16 ≡ 0 → is_aligned 16 x ≡ true
unfolding is_aligned
multiple-is_aligned x multiple = ground arith

not_dans :
    (checksum x : ℕ) (b : Buffer)
    → (x % 16 ≡ 0 → bit_xor (word_at b x) checksum ≢ dans_signature)
    → (bit_xor (word_at b x) checksum == dans_signature && is_aligned 16 x) ≡ false
unfolding is_aligned
not_dans checksum x b other = ground arith

-- The search finds 'DanS', unless a word that begins at a later multiple of 16 reads like it.
pub find_dans_lem :
    (checksum p n : ℕ) (r : Reader)
    → IsValid r.buffer
    → p % 16 ≡ 0
    → p + 4 * n + 4 ≤ physical r.buffer
    → bit_xor (word_at r.buffer p) checksum ≡ dans_signature
    → ((x : ℕ)
        → p < x
        → x % 16 ≡ 0
        → x + 4 ≤ p + 4 * n + 4
        → bit_xor (word_at r.buffer x) checksum ≢ dans_signature)
    → find_dans checksum 0 (suc (p / 4 + n)) r ≡ ok (p, record r { position = p + 4 })
find_dans_lem checksum p zero r v multiple in_file here later =
    let at : 4 * (p / 4 + 0) ≡ p = omega arith in
    let same : (bit_xor (word_at r.buffer p) checksum == dans_signature) ≡ true = ground arith in
    let aligned = multiple-is_aligned p multiple in
    find_dans-round checksum (p / 4 + 0) r v (omega arith) ∙ rw (at, same, aligned)
find_dans_lem checksum p (suc n) r v multiple in_file here later =
    let x = 4 * (p / 4 + suc n) in
    let next : p / 4 + suc n ≡ suc (p / 4 + n) = omega arith in
    let other : (bit_xor (word_at r.buffer x) checksum == dans_signature && is_aligned 16 x)
        ≡ false =
      not_dans checksum x r.buffer (λ whole. later x (omega arith) whole (omega arith)) in
    find_dans-round checksum (p / 4 + suc n) r v (omega arith)
    ∙ rw other (
        ap (λ k. find_dans checksum 0 k (record r { position = x + 4 })) next
        ∙ find_dans_lem checksum p n (record r { position = x + 4 }) v multiple (omega arith) here
            (λ y after whole inside. later y after whole (omega arith)))
