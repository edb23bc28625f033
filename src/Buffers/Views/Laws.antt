-- ===== src/Buffers/Views/Laws.antt =====
-- About the views that `reduce` and the method of a section make.
use native.Mathlib.Nat.{mod-eq_of_lt}
use pe_bliss.Base.{
  ℕ, ◌+◌, ◌-◌, ◌^◌, ◌≤◌, ◌<◌, ◌≡◌, refl, arith, min, length, take, drop, lt→ltb, le→ltb, dec_lt,
}
use pe_bliss.Base.Slices.{drop-take, take-take, drop-drop}
use pe_bliss.Errors.{Error, generic, integer_overflow, buffer_overrun, ok, err}
use pe_bliss.Utilities.Math.Laws.{is_sum_safe_iff, add_if_safe-some, add_if_safe-none}
use pe_bliss.Buffers.Input.{Buffer, section, absolute_offset, relative_offset}
use pe_bliss.Buffers.Input.Contents.{
  contents, physical, IsValid, size-length, physical_size_lem, length-contents-lt,
}
use pe_bliss.Buffers.Views.{reduce_from, make_section, reduce_section, reduce, virtual_part}

-- The offsets of a view of `b` from `offset` on are words.
abbrev pub OffsetsFit : Buffer → ℕ → Type 0
OffsetsFit b offset =
    (offset + absolute_offset b < 2 ^ 64)
    × (offset + relative_offset b < 2 ^ 64)
    × (absolute_offset b < 2 ^ 64)
    × (relative_offset b < 2 ^ 64)

-- The section that the constructor builds.
abbrev pub section_of : Buffer → ℕ → ℕ → Buffer
section_of b offset sz =
    section b offset sz (min (offset + sz - physical b) sz) (offset + absolute_offset b)
      (offset + relative_offset b)

module _ (b : Buffer) (offset sz : ℕ) (v : IsValid b) (word : sz < 2 ^ 64) where
  pub make_section_inside :
      OffsetsFit b offset
      → offset + sz ≤ length (contents b)
      → make_section b offset sz ≡ ok (section_of b offset sz)
  unfolding make_section
  make_section_inside o h =
      let short = length-contents-lt b v in
      let virt : virtual_part (offset + sz) (physical b) sz ≡ min (offset + sz - physical b) sz =
        ground arith in
      rw (
        add_if_safe-some 64 offset sz word (omega arith),
        size-length b v,
        le→ltb (length (contents b)) (offset + sz) h,
        add_if_safe-some 64 offset (absolute_offset b) o.2 o.0,
        add_if_safe-some 64 offset (relative_offset b) o.3 o.1,
        mod-eq_of_lt {n = offset + sz} {m = 2 ^ 64} (omega arith),
        physical_size_lem b v,
        virt,
      )

  pub make_section_outside :
      length (contents b) < offset + sz → (e : Error) × (make_section b offset sz ≡ err e)
  unfolding make_section
  make_section_outside h = elim (dec_lt (offset + sz) (2 ^ 64)) [
    | yes fits ↦ (
      generic buffer_overrun,
      rw (
        add_if_safe-some 64 offset sz word fits,
        size-length b v,
        lt→ltb (length (contents b)) (offset + sz) h,
      ),
    )
    | no over ↦ (generic integer_overflow, rw (add_if_safe-none 64 offset sz word (omega arith)))
  ]

  pub reduce-section_of :
      OffsetsFit b offset
      → offset + sz ≤ length (contents b)
      → reduce b offset sz ≡ ok (section_of b offset sz)
  unfolding reduce
  reduce-section_of o h = make_section_inside o h

  -- For a valid buffer, a 64-bit size and offsets whose sums are words: a view within the buffer
  -- is made, is valid, and shows exactly the bytes asked for, at the offset in the file that they
  -- have in the buffer; a view that leaves the buffer is refused.
  pub reduce_lem :
      OffsetsFit b offset
      → (offset + sz ≤ length (contents b)
          → (s : Buffer) × (reduce b offset sz ≡ ok s)
            × IsValid s
            × (contents s ≡ take sz (drop offset (contents b)))
            × (absolute_offset s ≡ offset + absolute_offset b))
        × (length (contents b) < offset + sz → (e : Error) × (reduce b offset sz ≡ err e))
  unfolding reduce contents absolute_offset
  reduce_lem o = (
    λ h. (section_of b offset sz, make_section_inside o h, (v, h, refl), refl, refl),
    λ h. make_section_outside h,
  )

pub reduce_from-section_of :
    (b : Buffer) (offset : ℕ)
    → IsValid b
    → OffsetsFit b offset
    → offset ≤ length (contents b)
    → reduce_from b offset ≡ ok (section_of b offset (length (contents b) - offset))
unfolding reduce_from
reduce_from-section_of b offset v o h =
    let short = length-contents-lt b v in
    rw (size-length b v, le→ltb (length (contents b)) offset h)
      (reduce-section_of b offset (length (contents b) - offset) v (omega arith) o (omega arith))

-- For a section that lies in a valid buffer, 64-bit arguments and offsets whose sums are words:
-- reducing the section, which refers to the buffer below it, shows the same bytes as viewing the
-- section itself; a range that leaves the section is refused even if the buffer below is longer.
pub reduce_section_lem :
    (b : Buffer) (own_offset own_size offset sz : ℕ)
    → IsValid b
    → own_offset + own_size ≤ length (contents b)
    → offset < 2 ^ 64
    → sz < 2 ^ 64
    → OffsetsFit b (own_offset + offset)
    → (offset + sz ≤ own_size
        → (s : Buffer) × (reduce_section b own_offset own_size offset sz ≡ ok s)
          × IsValid s
          × (contents s ≡ take sz (drop offset (contents (section_of b own_offset own_size)))))
      × (own_size < offset + sz
          → (e : Error) × (reduce_section b own_offset own_size offset sz ≡ err e))
unfolding reduce_section contents
reduce_section_lem b own_offset own_size offset sz v own word sz_word o = (
  λ h.
      let short = length-contents-lt b v in
      let total = own_offset + offset in
      (
        section_of b total sz,
        rw
            (
              add_if_safe-some 64 own_offset offset word (omega arith),
              (is_sum_safe_iff 64 total sz sz_word).1 (omega arith),
              mod-eq_of_lt {n = own_offset + own_size} {m = 2 ^ 64} (omega arith),
              mod-eq_of_lt {n = total + sz} {m = 2 ^ 64} (omega arith),
              le→ltb (own_offset + own_size) (total + sz) (omega arith),
            )
            (make_section_inside b total sz v sz_word o (omega arith)),
        (v, omega arith, refl),
        let swap : own_offset + offset ≡ offset + own_offset = omega arith in
            rw (
              drop-take offset own_size (drop own_offset (contents b)),
              take-take sz (own_size - offset) (drop offset (drop own_offset (contents b)))
                  (omega arith),
              drop-drop offset own_offset (contents b),
              swap,
            ),
      ),
  λ h.
      let short = length-contents-lt b v in
      let total = own_offset + offset in
      elim (dec_lt (total + sz) (2 ^ 64)) [
        | yes fits ↦ (
          generic buffer_overrun,
          rw (
            add_if_safe-some 64 own_offset offset word (omega arith),
            (is_sum_safe_iff 64 total sz sz_word).1 fits,
            mod-eq_of_lt {n = own_offset + own_size} {m = 2 ^ 64} (omega arith),
            mod-eq_of_lt {n = total + sz} {m = 2 ^ 64} fits,
            lt→ltb (own_offset + own_size) (total + sz) (omega arith),
          ),
        )
        | no over ↦ (
          generic integer_overflow,
          rw (add_if_safe-some 64 own_offset offset word (omega arith))
              (ground (arith, is_sum_safe_iff 64 total sz)),
        )
      ],
)
