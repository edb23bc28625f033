-- ===== src/Rich/Loader/Laws.antt =====
-- About the load of a rich header that was built.
use mathlib.Core.List.{append_assoc}
use pe_bliss.Base.{
  ℕ, suc, ◌+◌, ◌*◌, ◌/◌, ◌%◌, ◌^◌, ◌≤◌, ◌<◌, ◌≡◌, ◌≢◌, refl, ap, ◌∙◌, subst, bit_xor, false, List,
  ◌++◌, arith, All, ltb, some, length, take, drop, length-append, le→ltb,
}
use pe_bliss.Base.Bits.{bit_xor-lt}
use pe_bliss.Base.Xor.{bit_xor-bit_xor}
use pe_bliss.Packed.Struct.Numbers.{deserialize-serialize}
use pe_bliss.Errors.{ok}
use pe_bliss.Buffers.Input
use pe_bliss.Buffers.Input.{Buffer, absolute_offset}
use pe_bliss.Buffers.Input.Contents.{contents, physical, IsValid, physical-le, size-length}
use pe_bliss.Buffers.Reader.{Reader, set_rpos, size}
use pe_bliss.Packed.Struct.{deserialize, serialize}
use pe_bliss.Packed.CString.Laws.{ahead, moved, ahead-moved}
use pe_bliss.Rich.{RichHeader}
use pe_bliss.Rich.Utils.{dans_signature, rich_signature, find_dans_signature}
use pe_bliss.Rich.Utils.Laws.{
  IsCompid, entry_bytes, length-entry_bytes, decode_compids_lem, find_dans_lem, decode_checksum_lem,
  word_at,
}
use pe_bliss.Rich.Builder.Laws.{built_bytes, head_bytes}
use pe_bliss.Rich.Loader.{load_at}

length-head_bytes : (checksum : ℕ) → length (head_bytes checksum) ≡ 16
unfolding serialize
length-head_bytes checksum = refl

-- The bytes of a header, part by part.
parts :
    (header : RichHeader) (rest : List ℕ)
    → built_bytes header ++ rest
      ≡ head_bytes header.checksum
        ++ (entry_bytes header.checksum header.compids
            ++ (rich_signature ++ (serialize 4 header.checksum ++ rest)))
parts header rest =
    let h = head_bytes header.checksum in
    let e = entry_bytes header.checksum header.compids in
    let c = serialize 4 header.checksum in
    append_assoc (h ++ e ++ rich_signature) c rest
    ∙ append_assoc (h ++ e) rich_signature (c ++ rest)
    ∙ append_assoc h e (rich_signature ++ (c ++ rest))

take-head_bytes :
    (checksum : ℕ) (more : List ℕ)
    → take 4 (head_bytes checksum ++ more) ≡ serialize 4 (bit_xor dans_signature checksum)
unfolding serialize
take-head_bytes checksum more = refl

first_word :
    (checksum : ℕ) (more : List ℕ)
    → checksum < 2 ^ 32
    → bit_xor (deserialize (take 4 (head_bytes checksum ++ more))) checksum ≡ dans_signature
first_word checksum more word =
    ap (λ xs. bit_xor (deserialize xs) checksum) (take-head_bytes checksum more)
    ∙ ap (λ n. bit_xor n checksum)
        (deserialize-serialize 4 (bit_xor dans_signature checksum)
          (bit_xor-lt 32 dans_signature checksum (omega arith) word))
    ∙ bit_xor-bit_xor dans_signature checksum

-- For a valid buffer with a header's bytes in its file, at a multiple of 16, a checksum of 32
-- bits, entries of words, and no later multiple of 16, up to the header's end, at which a word
-- combines with the checksum to 'DanS': the load at the checksum's place gives back the checksum,
-- the entries and the offsets of the header.
pub load_at-built_bytes :
    (r : Reader) (header : RichHeader) (rest : List ℕ)
    → IsValid r.buffer
    → header.checksum < 2 ^ 32
    → All IsCompid header.compids
    → r.position % 16 ≡ 0
    → ahead r ≡ built_bytes header ++ rest
    → r.position + 24 + length header.compids * 8 ≤ physical r.buffer
    → physical r.buffer < 2 ^ 63
    → ((x : ℕ)
        → r.position < x
        → x % 16 ≡ 0
        → x + 4 ≤ r.position + 24 + length header.compids * 8
        → bit_xor (word_at r.buffer x) header.checksum ≢ dans_signature)
    → load_at r (r.position + 20 + length header.compids * 8)
      ≡ ok (
        some (record {
          checksum = header.checksum;
          dans_relative_offset = r.position;
          dans_absolute_offset = (r.position + absolute_offset r.buffer) % 2 ^ 64;
          compids = header.compids;
        }),
        moved r (16 + length header.compids * 8),
      )
unfolding load_at set_rpos size find_dans_signature
load_at-built_bytes r header rest v word all multiple e fits small later =
    let c = header.checksum in
    let k = length header.compids in
    let p = r.position in
    let le = physical-le r.buffer in
    let entries = entry_bytes c header.compids in
    let split = e ∙ parts header rest in
    let from = p + 20 + k * 8 in
    let inside : ltb (Input.size r.buffer) from ≡ false =
      rw (size-length r.buffer v) (le→ltb (length (contents r.buffer)) from (omega arith)) in
    let inside_dans : ltb (Input.size r.buffer) p ≡ false =
      rw (size-length r.buffer v) (le→ltb (length (contents r.buffer)) p (omega arith)) in
    let front = head_bytes c ++ entries ++ rich_signature in
    let place : p + length front ≡ from = omega (
      arith,
      length-append (head_bytes c) entries,
      length-append (head_bytes c ++ entries) rich_signature,
      length-head_bytes c,
      length-entry_bytes c header.compids,
    ) in
    let behind : drop from (contents r.buffer) ≡ serialize 4 c ++ rest =
      subst (λ n. drop n (contents r.buffer) ≡ serialize 4 c ++ rest) place
        (ahead-moved r front (serialize 4 c ++ rest)
          (e ∙ append_assoc front (serialize 4 c) rest)) in
    let sum =
      decode_checksum_lem (record r { position = from }) c rest v word behind (omega arith) in
    let end : from + 4 ≡ 4 * suc (p / 4 + (5 + k * 2)) = omega arith in
    let zero_rest : (from + 4) % 4 ≡ 0 = omega arith in
    let steps : (from + 4) / 4 ≡ suc (p / 4 + (5 + k * 2)) = omega arith in
    let dans =
      find_dans_lem c p (5 + k * 2) (record r { position = from + 4 }) v multiple (omega arith)
        (ap (λ xs. bit_xor (deserialize (take 4 xs)) c) split ∙ first_word c _ word)
        (λ x after whole within. later x after whole (omega arith)) in
    let compids =
      decode_compids_lem c header.compids r (head_bytes c)
        (rich_signature ++ (serialize 4 c ++ rest)) all v multiple (length-head_bytes c) split
        (omega arith) (omega arith) in
    rw (inside, sum, zero_rest, steps, dans, inside_dans, compids)
