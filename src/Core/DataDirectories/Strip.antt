-- ===== src/Core/DataDirectories/Strip.antt =====
-- About `strip_data_directories` and its search from the end.
use pe_bliss.Base.{
  ℕ, zero, suc, ◌-◌, ◌≤◌, ◌<◌, ◌≡◌, ◌≢◌, inl, inr, refl, sym, subst, ◌∙◌, true, false, ◌||◌, some,
  [], ◌∷◌, arith, leb, ◌!=◌, length, get_elem?, take, reverse, length-take, Bool-cases,
}
use mathlib.Core.Option.{some-injective}
use pe_bliss.Base.Reverse.{length-reverse, get_elem?-reverse, get_elem?-take, get_elem?-lt}
use pe_bliss.Core.DataDirectories.{
  DataDirectory, DataDirectories, strip_count, strip_data_directories,
}

-- The entries that a scan of the reversed table passes are empty, it stops at the lower bound or
-- at an entry in use, and passes as many as it can.
record IsScan (count min_count : ℕ) (back : DataDirectories) (passed : ℕ) : Type 0 where
  pub at_most : passed ≤ length back
  pub keeps : min_count ≤ count - passed
  pub empty :
      (i : ℕ) (d : DataDirectory) → i < passed → get_elem? back i ≡ some d → d.virtual_address ≡ 0
  pub stops :
      (d : DataDirectory)
      → get_elem? back passed ≡ some d
      → min_count < count - passed
      → d.virtual_address ≢ 0

stopped :
    (d : DataDirectory) (back : DataDirectories) (count min_count : ℕ)
    → min_count ≤ count
    → (d.virtual_address != 0 || leb count min_count) ≡ true
    → IsScan count min_count (d ∷ back) 0
stopped d back count min_count le stop = record {
  at_most = omega arith;
  keeps = omega arith;
  empty = λ i x lt at. absurd (omega arith);
  stops = λ x at lt.
      let used : d.virtual_address ≢ 0 = ground arith in
      subst (λ y. y.virtual_address ≢ 0) (some-injective _ _ at) used;
}

passed_one :
    (d : DataDirectory) (back : DataDirectories) (count min_count passed : ℕ)
    → (d.virtual_address != 0 || leb count min_count) ≡ false
    → IsScan (count - 1) min_count back passed
    → IsScan count min_count (d ∷ back) (suc passed)
passed_one d back count min_count passed go s = record {
  at_most = omega (arith, s.at_most);
  keeps = omega (arith, s.keeps);
  empty = empty_at;
  stops = λ x at lt. s.stops x at (omega arith);
}
  where
    unused : d.virtual_address ≡ 0
    unused = ground arith

    empty_at :
        (i : ℕ) (x : DataDirectory)
        → i < suc passed
        → get_elem? (d ∷ back) i ≡ some x
        → x.virtual_address ≡ 0
    empty_at zero x lt at = subst (λ y. y.virtual_address ≡ 0) (some-injective _ _ at) unused
    empty_at (suc i) x lt at = s.empty i x (omega arith) at

strip_count-IsScan :
    (count min_count : ℕ) (back : DataDirectories)
    → count ≡ length back
    → min_count ≤ count
    → IsScan count min_count back (strip_count count min_count back)
unfolding strip_count
strip_count-IsScan count min_count [] e le = record {
  at_most = omega arith;
  keeps = omega arith;
  empty = λ i d lt at. cc;
  stops = λ d at lt. cc;
}
strip_count-IsScan count min_count (d ∷ back) e le =
    elim (Bool-cases (d.virtual_address != 0 || leb count min_count)) [
      | inl stop ↦ rw stop (stopped d back count min_count le stop)
      | inr go ↦ rw go (
          passed_one d back count min_count _ go
            (strip_count-IsScan (count - 1) min_count back (omega arith) (ground arith)))
    ]

-- Stripping: the table is cut to its first `n` directories, at least the lower bound; those cut
-- are empty; and it stops at the bound or behind a directory in use.
pub record IsStripped (ds kept : DataDirectories) (min_count : ℕ) : Type 0 where
  pub prefix : kept ≡ take (length kept) ds
  pub at_least : min_count ≤ length kept
  pub cut_empty :
      (i : ℕ) (d : DataDirectory)
      → length kept ≤ i
      → get_elem? ds i ≡ some d
      → d.virtual_address ≡ 0
  pub last_used :
      (d : DataDirectory)
      → min_count < length kept
      → get_elem? kept (length kept - 1) ≡ some d
      → d.virtual_address ≢ 0

module _ (ds : DataDirectories) (min_count passed : ℕ)
    (s : IsScan (length ds) min_count (reverse ds) passed) where
  length_kept : length (take (length ds - passed) ds) ≡ length ds - passed
  length_kept = omega (arith, length-take (length ds - passed) ds)

  empty_behind :
      (i : ℕ) (d : DataDirectory)
      → length ds - passed ≤ i
      → get_elem? ds i ≡ some d
      → d.virtual_address ≡ 0
  empty_behind i d behind at =
      let lt = get_elem?-lt ds i d at in
      s.empty (length ds - 1 - i) d (omega (arith, s.at_most, length-reverse ds))
        (get_elem?-reverse ds (length ds - 1 - i) i (omega arith) ∙ at)

  used_last :
      (d : DataDirectory)
      → min_count < length ds - passed
      → get_elem? (take (length ds - passed) ds) (length ds - passed - 1) ≡ some d
      → d.virtual_address ≢ 0
  used_last d above at =
      s.stops d
        (get_elem?-reverse ds passed (length ds - passed - 1) (omega arith)
          ∙ sym (get_elem?-take (length ds - passed) ds (length ds - passed - 1) (omega arith))
          ∙ at)
        above

-- Stripping a table with more directories than the bound.
take-IsStripped :
    (ds : DataDirectories) (min_count passed : ℕ)
    → IsScan (length ds) min_count (reverse ds) passed
    → IsStripped ds (take (length ds - passed) ds) min_count
take-IsStripped ds min_count passed s =
    let same = length_kept ds min_count passed s in
    record {
      prefix = rw same refl;
      at_least = rw same s.keeps;
      cut_empty = rw same (empty_behind ds min_count passed s);
      last_used = rw same (used_last ds min_count passed s);
    }

-- The count that is returned is the number of the directories kept. A table no longer than the
-- bound is kept whole. Of a longer one a prefix at least as long as the bound is kept, what is cut
-- is empty, and the last directory kept is in use if the prefix is longer than the bound.
pub strip_data_directories_lem :
    (ds : DataDirectories) (min_count : ℕ)
    → let (kept, count) = strip_data_directories ds min_count in
      (count ≡ length kept)
      × (length ds ≤ min_count → kept ≡ ds)
      × (min_count < length ds → IsStripped ds kept min_count)
unfolding strip_data_directories
strip_data_directories_lem ds min_count = elim (Bool-cases (leb (length ds) min_count)) [
  | inl short ↦ rw short (refl, λ h. refl, λ h. ground arith)
  | inr long ↦ rw long (
    refl,
    λ h. ground arith,
    λ h. take-IsStripped ds min_count _ (
        strip_count-IsScan (length ds) min_count (reverse ds) (sym (length-reverse ds))
          (omega arith)),
  )
]
