-- ===== src/Rich/Builder/Laws.antt =====
-- About the bytes of a rich header: their count, and what is decoded from them.
use native.Mathlib.Nat.{mod-eq_of_lt}
use mathlib.Core.List.{append-nil}
use pe_bliss.Base.Slices.{take-length, drop-length}
use pe_bliss.Base.{
  ℕ, ◌+◌, ◌-◌, ◌*◌, ◌%◌, ◌^◌, ◌≤◌, ◌<◌, ◌≡◌, ap, sym, ◌∙◌, subst, bit_xor, List, [], ◌∷◌, ◌++◌,
  arith, length, length-append, Option-cases, zero, suc, length-replicate, true, some, inl, inr,
  lt→ltb, le→ltb, le→leb, lt→leb, leb, replicate, ◌/◌,
}
use pe_bliss.Packed.Struct.{serialize}
use pe_bliss.Packed.Struct.Numbers.{length-serialize}
use pe_bliss.Errors.{ok}
use pe_bliss.Utilities.Math.{align_up_if_safe, is_sum_safe}
use pe_bliss.Utilities.SafeUint.{plus, plus_lem}
use pe_bliss.Utilities.Math.Align.{IsAlignedUp, align_up_if_safe-IsAlignedUp}
use pe_bliss.Buffers.Output.{Output, memory, set_wpos, write, grow, overwrite}
use pe_bliss.Buffers.Output.Laws.{
  written, written-written, HasRoom, HasRoom-written, HasRoom-less, HasRoom-wpos, write-written,
  written-nil,
}
use pe_bliss.Rich.{RichCompid, RichHeader}
use pe_bliss.Rich.Utils.{dans_signature, rich_signature, xor_compid}
use pe_bliss.Rich.Utils.Laws.{entry_bytes, length-entry_bytes, length-serialize_compid}
use pe_bliss.Rich.Builder.{
  serialize_compid, write_compids, write_header, build, sum_sizes, get_built_size,
}

-- The signature and the padding.
abbrev pub head_bytes : ℕ → List ℕ
head_bytes checksum =
    serialize 4 (bit_xor dans_signature checksum)
    ++ serialize 4 checksum
    ++ serialize 4 checksum
    ++ serialize 4 checksum

-- The bytes of a header.
abbrev pub built_bytes : RichHeader → List ℕ
built_bytes header =
    head_bytes header.checksum
    ++ entry_bytes header.checksum header.compids
    ++ rich_signature
    ++ serialize 4 header.checksum

-- A write behind another one.
write-more :
    (out : Output) (xs ys : List ℕ)
    → HasRoom out (length xs + length ys)
    → write (written out xs) ys ≡ ok (written out (xs ++ ys))
write-more out xs ys room =
    write-written (written out xs) ys (HasRoom-written out xs (length ys) room)
    ∙ ap ok (written-written out xs ys (HasRoom-wpos out _ room))

write_compids-written :
    (checksum : ℕ) (cs : List RichCompid) (out : Output)
    → HasRoom out (length cs * 8)
    → write_compids checksum cs out ≡ ok (written out (entry_bytes checksum cs))
unfolding write_compids entry_bytes
write_compids-written checksum [] out room = ap ok (sym (written-nil out))
write_compids-written checksum (c ∷ cs) out room =
    let bytes = serialize_compid (xor_compid checksum c) in
    let total : length (c ∷ cs) * 8 ≡ length bytes + length cs * 8 =
      omega (arith, length-serialize_compid (xor_compid checksum c)) in
    let room' = subst (HasRoom out) total room in
    rw (write-written out bytes (HasRoom-less out (length bytes) (length cs * 8) room')) (
      write_compids-written checksum cs (written out bytes)
        (HasRoom-written out bytes (length cs * 8) room')
      ∙ ap ok (written-written out bytes (entry_bytes checksum cs) (HasRoom-wpos out _ room)))

write_compids-more :
    (checksum : ℕ) (cs : List RichCompid) (out : Output) (xs : List ℕ)
    → HasRoom out (length xs + length cs * 8)
    → write_compids checksum cs (written out xs) ≡ ok (written out (xs ++ entry_bytes checksum cs))
write_compids-more checksum cs out xs room =
    write_compids-written checksum cs (written out xs) (HasRoom-written out xs (length cs * 8) room)
    ∙ ap ok (written-written out xs (entry_bytes checksum cs) (HasRoom-wpos out _ room))

length-built_bytes :
    (header : RichHeader) → length (built_bytes header) ≡ 24 + length header.compids * 8
unfolding serialize
length-built_bytes header = omega (
  arith,
  length-append (head_bytes header.checksum) (entry_bytes header.checksum header.compids),
  length-append (head_bytes header.checksum ++ entry_bytes header.checksum header.compids)
      rich_signature,
  length-append
      (head_bytes header.checksum ++ entry_bytes header.checksum header.compids ++ rich_signature)
      (serialize 4 header.checksum),
  length-entry_bytes header.checksum header.compids,
)

write_header-written :
    (header : RichHeader) (out at : Output) (aligned : ℕ)
    → align_up_if_safe 64 header.dans_relative_offset 16 ≡ some aligned
    → set_wpos out aligned ≡ ok at
    → HasRoom at (24 + length header.compids * 8)
    → write_header header out ≡ ok (written at (built_bytes header))
unfolding write_header
write_header-written header out at aligned is_aligned moved room =
    let c = serialize 4 header.checksum in
    let d = serialize 4 (bit_xor dans_signature header.checksum) in
    let e = entry_bytes header.checksum header.compids in
    let four = length-serialize 4 header.checksum in
    let four_dans = length-serialize 4 (bit_xor dans_signature header.checksum) in
    let entries = length-entry_bytes header.checksum header.compids in
    let l2 = length-append d c in
    let l3 = length-append (d ++ c) c in
    let l4 = length-append (d ++ c ++ c) c in
    let l5 = length-append (d ++ c ++ c ++ c) e in
    let l6 = length-append (d ++ c ++ c ++ c ++ e) rich_signature in
    let has : (n : ℕ) → n ≤ 24 + length header.compids * 8 → HasRoom at n = λ n le.
      HasRoom-less at n (24 + length header.compids * 8 - n)
        (subst (HasRoom at) (omega arith) room) in
    rw (
      is_aligned,
      moved,
      write-written at d (has (length d) (omega arith)),
      write-more at d c (has (length d + length c) (omega arith)),
      write-more at (d ++ c) c (has (length (d ++ c) + length c) (omega arith)),
      write-more at (d ++ c ++ c) c (has (length (d ++ c ++ c) + length c) (omega arith)),
      write_compids-more header.checksum header.compids at (d ++ c ++ c ++ c)
          (has (length (d ++ c ++ c ++ c) + length header.compids * 8) (omega arith)),
      write-more at (d ++ c ++ c ++ c ++ e) rich_signature
          (has (length (d ++ c ++ c ++ c ++ e) + 4) (omega arith)),
      write-more at (d ++ c ++ c ++ c ++ e ++ rich_signature) c
          (has (length (d ++ c ++ c ++ c ++ e ++ rich_signature) + length c) (omega arith)),
    )

plus-ok : (value other : ℕ) → value + other < 2 ^ 64 → plus 64 value other ≡ ok (value + other)
plus-ok value other h = rw (plus_lem 64 value other, lt→ltb (value + other) (2 ^ 64) h)

sum_sizes_lem :
    (padding compid_count : ℕ)
    → padding < 16
    → compid_count * 8 < 2 ^ 63
    → sum_sizes padding compid_count ≡ ok (padding + (24 + compid_count * 8))
unfolding sum_sizes
sum_sizes_lem padding k small fits =
    let word : k * 8 % 2 ^ 64 ≡ k * 8 = mod-eq_of_lt (omega arith) in
    let end : padding + 4 + 12 + k * 8 + 4 + 4 ≡ padding + (24 + k * 8) = omega arith in
    rw (
      word,
      plus-ok padding 4 (omega arith),
      plus-ok (padding + 4) 12 (omega arith),
      plus-ok (padding + 4 + 12) (k * 8) (omega arith),
      plus-ok (padding + 4 + 12 + k * 8) 4 (omega arith),
      plus-ok (padding + 4 + 12 + k * 8 + 4) 4 (omega arith),
      end,
    )

-- The offset of a header and the padding in front of it.
aligned_offset :
    (offset : ℕ)
    → offset < 2 ^ 63
    → (pad : ℕ) × (align_up_if_safe 64 offset 16 ≡ some (offset + pad))
      × (pad < 16)
      × ((offset + pad) % 16 ≡ 0)
aligned_offset offset h = elim (Option-cases (align_up_if_safe 64 offset 16)) [
  | inl is_none ↦ absurd (
      omega (
        arith,
        subst (IsAlignedUp 64 4 (omega arith) (omega arith) offset) is_none
            (align_up_if_safe-IsAlignedUp 64 4 (omega arith) (omega arith) offset (omega arith))
            (offset / 16 + 1) (omega arith),
      ))
  | inr (r, is_some) ↦
      let (above, near, multiple, word) =
        subst (IsAlignedUp 64 4 (omega arith) (omega arith) offset) is_some
          (align_up_if_safe-IsAlignedUp 64 4 (omega arith) (omega arith) offset (omega arith)) in
      let sum : offset + (r - offset) ≡ r = omega arith in
      (r - offset, is_some ∙ ap some (sym sum), omega arith, rw sum multiple)
]

overwrite-end : (ys xs : List ℕ) → overwrite (length ys) xs ys ≡ ys ++ xs
overwrite-end ys xs = rw (
  take-length (length ys) ys (omega arith),
  drop-length (length ys + length xs) ys (omega arith),
  append-nil xs,
)

grow-pad : (bytes : List ℕ) (pad : ℕ) → grow bytes (length bytes + pad) ≡ bytes ++ replicate pad 0
grow-pad bytes zero = rw (le→ltb (length bytes) (length bytes + 0) (omega arith), append-nil bytes)
grow-pad bytes (suc pad) =
    let more : length bytes + suc pad - length bytes ≡ suc pad = omega arith in
    rw (lt→ltb (length bytes) (length bytes + suc pad) (omega arith), more)

written_at_end :
    (bytes xs : List ℕ) (pad : ℕ)
    → written (memory (grow bytes (length bytes + pad)) (length bytes + pad)) xs
      ≡ memory (bytes ++ replicate pad 0 ++ xs) (length bytes + pad + length xs)
written_at_end bytes xs pad =
    let full : length bytes + pad ≡ length (bytes ++ replicate pad 0) =
      omega (arith, length-append bytes (replicate pad 0), length-replicate {A = ℕ} pad 0) in
    ap (λ ys. memory (overwrite (length bytes + pad) xs ys) (length bytes + pad + length xs))
      (grow-pad bytes pad)
    ∙ ap (λ n. memory (overwrite n xs (bytes ++ replicate pad 0)) (length bytes + pad + length xs))
        full
    ∙ ap (λ ys. memory ys (length bytes + pad + length xs))
        (overwrite-end (bytes ++ replicate pad 0) xs)

set_wpos-grow :
    (bytes : List ℕ) (position pad : ℕ)
    → length bytes + pad < 2 ^ 63 - 1
    → set_wpos (memory bytes position) (length bytes + pad)
      ≡ ok (memory (grow bytes (length bytes + pad)) (length bytes + pad))
unfolding set_wpos
set_wpos-grow bytes position pad h = rw (lt→leb (2 ^ 63 - 1) (length bytes + pad) h)

room_at_end :
    (bytes : List ℕ) (pad count : ℕ)
    → length bytes + pad + count < 2 ^ 64
    → HasRoom (memory (grow bytes (length bytes + pad)) (length bytes + pad)) count
room_at_end bytes pad count h = (
  omega (
    arith,
    ap length (grow-pad bytes pad),
    length-append bytes (replicate pad 0),
    length-replicate {A = ℕ} pad 0,
  ),
  h,
)

-- For a header whose offset is the size of an output in memory, of less than 2 ^ 62 bytes, and
-- less than 2 ^ 58 entries: the build appends zeroes up to the next multiple of 16 and the bytes
-- of the header, `get_built_size` is the count of all of them, and the write position is behind
-- them.
pub get_built_size-build :
    (header : RichHeader) (bytes : List ℕ) (position : ℕ)
    → length bytes ≡ header.dans_relative_offset
    → length bytes < 2 ^ 62
    → length header.compids < 2 ^ 58
    → (pad : ℕ) × (n : ℕ) × (get_built_size header ≡ ok n)
      × (build header (memory bytes position)
          ≡ ok (memory (bytes ++ replicate pad 0 ++ built_bytes header) (length bytes + n)))
      × (n ≡ pad + length (built_bytes header))
      × (pad < 16)
      × ((length bytes + pad) % 16 ≡ 0)
unfolding get_built_size build is_sum_safe
get_built_size-build header bytes position at_end small few =
    let offset = header.dans_relative_offset in
    let (pad, aligned, near, multiple) = aligned_offset offset (omega arith) in
    let k = length header.compids in
    let long = length-built_bytes header in
    let sums = sum_sizes_lem pad k near (omega arith) in
    let padding : offset + pad - offset ≡ pad = omega arith in
    let safe : leb (pad + (24 + k * 8)) (2 ^ 64 - 1 - offset) ≡ true = le→leb _ _ (omega arith) in
    let out = memory (grow bytes (length bytes + pad)) (length bytes + pad) in
    let moved : set_wpos (memory bytes position) (offset + pad) ≡ ok out =
      subst (λ m. set_wpos (memory bytes position) (m + pad) ≡ ok out) at_end
        (set_wpos-grow bytes position pad (omega arith)) in
    let room : HasRoom out (24 + k * 8) = room_at_end bytes pad (24 + k * 8) (omega arith) in
    let end : length bytes + pad + length (built_bytes header)
        ≡ length bytes + (pad + (24 + k * 8)) =
      omega arith in
    (
      pad,
      pad + (24 + k * 8),
      rw (aligned, padding, sums, safe),
      rw (write_header-written header (memory bytes position) out (offset + pad) aligned moved room)
          (ap ok (written_at_end bytes (built_bytes header) pad)
            ∙ ap (λ m. ok (memory (bytes ++ replicate pad 0 ++ built_bytes header) m)) end),
      omega arith,
      near,
      ap (λ m. (m + pad) % 16) at_end ∙ multiple,
    )
