-- ===== src/Rich/Utils.antt =====
-- class rich_header_utils (src/detail/rich/rich_header_utils.cpp): the search for a rich header in a
-- buffer, and its entries, which are combined with the checksum.
pub mod Laws
use pe_bliss.Base.{
  ℕ, zero, suc, ◌+◌, ◌-◌, ◌*◌, ◌/◌, ◌%◌, ◌^◌, bit_xor, Bool, ◌&&◌, ◌||◌, Option, none, some, List,
  [], ◌∷◌, ◌++◌, take, drop, ltb, ◌==◌, ◌!=◌, if◌then◌else◌,
}
use pe_bliss.Base.Words.{cast, sub_wrap}
use pe_bliss.Errors.{
  Result, ok, err, ◌>>=◌, ◌>>◌, throw_if, rich_header_loader, no_dans_signature,
  unable_to_decode_compids,
}
use pe_bliss.Utilities.Math.{align_up, is_aligned}
use pe_bliss.Buffers.Reader.{Reader, size, read, set_rpos}
use pe_bliss.Packed.Struct.{deserialize}
use pe_bliss.Rich.{RichCompid}

abbrev pub dans_alignment : ℕ
dans_alignment = 16

abbrev pub compid_alignment : ℕ
compid_alignment = 16

-- 'DanS'
abbrev pub dans_signature : ℕ
dans_signature = 1399742788

-- 'Rich'
abbrev pub rich_signature : List ℕ
rich_signature = 82 ∷ 105 ∷ 99 ∷ 104 ∷ []

-- The signature from its end.
abbrev pub reversed_signature : List ℕ
reversed_signature = 104 ∷ 99 ∷ 105 ∷ 82 ∷ []

abbrev pub rich_compid_size : ℕ
rich_compid_size = 8

pub get_compid_offset : ℕ → ℕ
get_compid_offset dans_offset = align_up 64 ((dans_offset + 4) % 2 ^ 64) compid_alignment

-- The byte that a round reads, compared to the next one of the signature from its end.
pub match_byte :
    (List ℕ → Reader → Result (Option ℕ × Reader))
    → ℕ
    → List ℕ
    → (ℕ × List ℕ) × Reader
    → Result (Option ℕ × Reader)
match_byte rest c cs ((count, bytes), after) =
    if count != 1
    then ok (none, after)
    else rest (if deserialize bytes == c then cs else reversed_signature) after

-- The loop, `left` bytes behind `min_pos`, with what is left of the signature, and the position
-- where it ends with the whole signature found.
pub find_signature : ℕ → ℕ → List ℕ → Reader → Result (Option ℕ × Reader)
find_signature min_pos left [] buf = ok (some (min_pos + left), buf)
find_signature min_pos zero (c ∷ cs) buf = ok (none, buf)
find_signature min_pos (suc left) (c ∷ cs) buf = do
  moved ← set_rpos buf (min_pos + left)
  got ← read moved 1
  match_byte (find_signature min_pos left) c cs got

pub checksum_offset : ℕ → Option ℕ → ℕ
checksum_offset sz none = 0
checksum_offset sz (some pos) =
    let offset = pos + 4 in if ltb (sub_wrap 64 sz offset) 4 || offset % 4 != 0 then 0 else offset

-- The position of a reader is at most its size.
pub find_checksum : Reader → Result (ℕ × Reader)
find_checksum buffer = do
  found ← find_signature buffer.position (size buffer - buffer.position) reversed_signature buffer
  ok (checksum_offset (size buffer) found.0, found.1)

pub decode_checksum : Reader → Result (ℕ × Reader)
decode_checksum buffer = do got ← read buffer 4; ok (deserialize got.0.1, got.1)

-- The four bytes that a round reads, at `pos`.
pub match_dans :
    (Reader → Result (ℕ × Reader)) → ℕ → ℕ → (ℕ × List ℕ) × Reader → Result (ℕ × Reader)
match_dans rest checksum pos ((count, bytes), after) =
    if count != 4
    then err (rich_header_loader no_dans_signature)
    else (if bit_xor (deserialize bytes) checksum == dans_signature && is_aligned dans_alignment pos
        then ok (pos, after)
        else rest after)

-- The loop at `pos`, which is `start + 4 * left`.
pub find_dans : ℕ → ℕ → ℕ → Reader → Result (ℕ × Reader)
find_dans checksum start zero buffer = err (rich_header_loader no_dans_signature)
find_dans checksum start (suc left) buffer = do
  moved ← set_rpos buffer (start + 4 * left)
  got ← read moved 4
  match_dans (find_dans checksum start left) checksum (start + 4 * left) got

unfoldable pub find_dans_signature : Reader → ℕ → Result (ℕ × Reader)
find_dans_signature buffer checksum =
    find_dans checksum (buffer.position % 4) (buffer.position / 4) buffer

-- An entry and the checksum, combined; a second time gives the entry back.
unfoldable pub xor_compid : ℕ → RichCompid → RichCompid
xor_compid checksum compid = record {
  build_number = cast 16 (bit_xor compid.build_number checksum);
  prod_id = cast 16 (bit_xor compid.prod_id (checksum / 2 ^ 16));
  use_count = cast 32 (bit_xor compid.use_count checksum);
}

-- The packed structure `rich_compid`.
pub deserialize_compid : List ℕ → RichCompid
deserialize_compid bytes = record {
  build_number = deserialize (take 2 bytes);
  prod_id = deserialize (take 2 (drop 2 bytes));
  use_count = deserialize (take 4 (drop 4 bytes));
}

-- The loop, which has this many rounds left.
pub decode_rounds : ℕ → ℕ → Reader → List RichCompid → Result (List RichCompid × Reader)
decode_rounds zero checksum buffer compids = ok (compids, buffer)
decode_rounds (suc rounds) checksum buffer compids = do
  got ← read buffer rich_compid_size
  throw_if (got.0.0 != rich_compid_size) (rich_header_loader unable_to_decode_compids)
  decode_rounds rounds checksum got.1
      (compids ++ (xor_compid checksum (deserialize_compid got.0.1) ∷ []))

pub decode_compids : Reader → ℕ → ℕ → List RichCompid → Result (List RichCompid × Reader)
decode_compids buffer checksum_pos checksum compids =
    let compid_pos = get_compid_offset buffer.position in
    let rich_signature_pos = sub_wrap 64 checksum_pos 4 in
    do
      throw_if (sub_wrap 64 rich_signature_pos compid_pos % rich_compid_size != 0)
          (rich_header_loader unable_to_decode_compids)
      moved ← set_rpos buffer compid_pos
      decode_rounds ((rich_signature_pos - compid_pos) / rich_compid_size) checksum moved compids
