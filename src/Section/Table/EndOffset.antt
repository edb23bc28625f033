-- ===== src/Section/Table/EndOffset.antt =====
-- About `get_raw_data_end_offset`.
use pe_bliss.Base.{
  ℕ, zero, suc, ◌+◌, ◌≤◌, ◌≡◌, ◌≢◌, ◌⊎◌, inl, inr, refl, some, [], ◌∷◌, arith, max, get_elem?, ◌==◌,
  if◌then◌else◌, Bool-cases, dec_lt,
}
use pe_bliss.Section.Header.{SectionHeader, get_raw_size, get_pointer_to_raw_data}
use pe_bliss.Section.Table.{SectionTable, end_offset_from, get_raw_data_end_offset}

abbrev pub raw_end : SectionHeader → ℕ → ℕ
raw_end h align = get_pointer_to_raw_data h + get_raw_size h align

abbrev next : ℕ → SectionHeader → ℕ → ℕ
next result h align = if h.pointer_to_raw_data == 0 then result else max result (raw_end h align)

end_offset_from-ge : (acc : ℕ) (hs : SectionTable) (align : ℕ) → acc ≤ end_offset_from acc hs align
unfolding end_offset_from
end_offset_from-ge acc [] align = omega arith
end_offset_from-ge acc (h ∷ hs) align =
    ground (arith, end_offset_from-ge (next acc h align) hs align)

end_offset_from_bound :
    (acc : ℕ) (hs : SectionTable) (align l : ℕ) (g : SectionHeader)
    → get_elem? hs l ≡ some g
    → g.pointer_to_raw_data ≢ 0
    → raw_end g align ≤ end_offset_from acc hs align
unfolding end_offset_from
end_offset_from_bound acc [] align l g e h = cc
end_offset_from_bound acc (x ∷ hs) align zero g e h =
    ground (arith, end_offset_from-ge (next acc x align) hs align)
end_offset_from_bound acc (x ∷ hs) align (suc l) g e h =
    end_offset_from_bound (next acc x align) hs align l g e h

-- The end is the one that the loop starts from, or that of a section.
abbrev IsAttained : ℕ → SectionTable → ℕ → ℕ → Type 0
IsAttained acc hs align end =
    (end ≡ acc)
    ⊎ ((l : ℕ) × (g : SectionHeader) × (get_elem? hs l ≡ some g)
        × (g.pointer_to_raw_data ≢ 0)
        × (end ≡ raw_end g align))

IsAttained-cons :
    (acc : ℕ) (h : SectionHeader) (hs : SectionTable) (align end : ℕ)
    → IsAttained (next acc h align) hs align end
    → IsAttained acc (h ∷ hs) align end
IsAttained-cons acc h hs align end (inl e) = elim (Bool-cases (h.pointer_to_raw_data == 0)) [
  | inl skip ↦ inl (ground arith)
  | inr taken ↦ elim (dec_lt acc (raw_end h align)) [
    | yes above ↦ inr (0, h, refl, ground arith, ground arith)
    | no below ↦ inl (ground arith)
  ]
]
IsAttained-cons acc h hs align end (inr (l, g, at, ptr, e)) = inr (suc l, g, at, ptr, e)

end_offset_from-IsAttained :
    (acc : ℕ) (hs : SectionTable) (align : ℕ)
    → IsAttained acc hs align (end_offset_from acc hs align)
unfolding end_offset_from
end_offset_from-IsAttained acc [] align = inl refl
end_offset_from-IsAttained acc (h ∷ hs) align =
    IsAttained-cons acc h hs align _ (end_offset_from-IsAttained (next acc h align) hs align)

-- The result is the greatest end of the raw data among the sections whose header has a pointer to
-- raw data, or zero.
pub get_raw_data_end_offset_lem :
    (hs : SectionTable) (align : ℕ)
    → let end = get_raw_data_end_offset hs align in
      ((l : ℕ) (g : SectionHeader)
        → get_elem? hs l ≡ some g
        → g.pointer_to_raw_data ≢ 0
        → raw_end g align ≤ end)
      × ((end ≡ 0)
          ⊎ ((l : ℕ) × (g : SectionHeader) × (get_elem? hs l ≡ some g)
              × (g.pointer_to_raw_data ≢ 0)
              × (end ≡ raw_end g align)))
unfolding get_raw_data_end_offset
get_raw_data_end_offset_lem hs align =
    (end_offset_from_bound 0 hs align, end_offset_from-IsAttained 0 hs align)
