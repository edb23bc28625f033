-- ===== src/Relocations/Loader/Directory/Termination.antt =====
-- About the loop over the blocks, and `load`.
use pe_bliss.Base.{
  ℕ, zero, suc, ◌+◌, ◌-◌, ◌*◌, ◌/◌, ◌%◌, ◌^◌, ◌≤◌, ◌<◌, ◌≡◌, ◌⊎◌, inl, inr, refl, ap, Bool, true,
  false, Option, none, some, List, [], ◌∷◌, ◌++◌, arith, ltb, ◌!=◌, if◌then◌else◌, length, dec_lt,
  lt→ltb, le→ltb,
}
use pe_bliss.Base.Loops.{Run, out_of_fuel, done}
use pe_bliss.Errors.{
  Result, ok, err, generic, integer_overflow, relocation_loader, invalid_relocation_block_size,
  invalid_directory_size, unaligned_relocation_entry,
}
use pe_bliss.Utilities.SafeUint.{plus, align_up}
use pe_bliss.Utilities.Math.{add_if_safe}
use pe_bliss.Utilities.Math.Laws.{add_if_safe_lem}
use pe_bliss.Errors.List.{add_error}
use pe_bliss.Core.DataDirectories.{DataDirectory, basereloc, get_directory, has_nonempty_directory}
use pe_bliss.Image.Layout.{Image}
use pe_bliss.Relocations.Loader.{
  LoaderOptions, LoadedBlock, LoadedDirectory, ElementState, invalid_block, read_struct,
}
use pe_bliss.Relocations.Loader.Laws.{
  Ends, Holds, plus-Holds, Ends->>=, Ends-if, Ends-weaken, plus-Ends, load_elements-Ends, IsRun,
}
use pe_bliss.Relocations.Loader.Directory.{
  Round, continued, returned, empty_block, with_error, described, end_block, load_block_elements,
  load_described_block, load_block, go_on, load_blocks, load_directory, found, load,
}

-- The bytes of the headers and of the entries of blocks, without parameters.
abbrev pub loaded_size : List LoadedBlock → ℕ
loaded_size [] = 0
loaded_size (b ∷ bs) = 8 + 2 * length b.relocations + loaded_size bs

loaded_size-snoc :
    (bs : List LoadedBlock) (b : LoadedBlock)
    → loaded_size (bs ++ (b ∷ [])) ≡ loaded_size bs + (8 + 2 * length b.relocations)
loaded_size-snoc [] b = omega arith
loaded_size-snoc (c ∷ bs) b = omega (arith, loaded_size-snoc bs b)

-- A round at a position before the end: it passes a header and what it adds, and what it adds is
-- no more than the rest of the directory holds, but for a header and an entry that leave it.
abbrev pub IsRound : ℕ → List LoadedBlock → ℕ → Run Round → Type 0
IsRound last_rva list current out_of_fuel = ⊥
IsRound last_rva list current (done (continued after next)) =
    (loaded_size after + current ≤ loaded_size list + next)
    × (loaded_size after + current ≤ loaded_size list + last_rva + 8)
    × (current + 8 ≤ next)
IsRound last_rva list current (done (returned after)) =
    loaded_size after + current ≤ loaded_size list + last_rva + 10

module _ (img : Image) (options : LoaderOptions) (last_rva : ℕ) where
  failed-IsRound :
      (list : List LoadedBlock) (current : ℕ) (b : LoadedBlock)
      → current < last_rva
      → length b.relocations ≡ 0
      → IsRound last_rva list current (done (returned (list ++ (b ∷ []))))
  failed-IsRound list current b h e = omega (arith, loaded_size-snoc list b, e)

  end_block-IsRound :
      (list : List LoadedBlock) (b : LoadedBlock) (current n : ℕ) (r : Run (Bool × ElementState))
      → current < last_rva
      → IsRun img options last_rva
          (record { entries = []; elem_count = n; current_rva = current + 8 })
          r
      → IsRound last_rva list current (end_block list b r)
  end_block-IsRound list b current n out_of_fuel h run = absurd run
  end_block-IsRound list b current n (done (true, st)) h (total, bound, rise) =
      let grown = loaded_size-snoc list (record b { relocations = st.entries }) in
      (
        omega (arith, grown),
        elim bound [ inl within ↦ omega (arith, grown) | inr same ↦ omega (arith, grown) ],
        omega arith,
      )
  end_block-IsRound list b current n (done (false, st)) h (total, bound, rise) =
      let grown = loaded_size-snoc list (record b { relocations = st.entries }) in
      elim bound [ inl within ↦ omega (arith, grown) | inr same ↦ omega (arith, grown) ]

  load_block_elements-Ends :
      (list : List LoadedBlock) (b : LoadedBlock) (current : ℕ)
      → current < last_rva
      → length b.relocations ≡ 0
      → Ends
          (IsRound last_rva list current)
          (load_block_elements img options last_rva list b (current + 8))
  unfolding load_block_elements
  load_block_elements-Ends list b current h e =
      let count = b.size_of_block - 8 in
      let odd = with_error b (relocation_loader invalid_relocation_block_size) in
      Ends-if _ (count % 2 != 0) _ _
        (Ends->>= (λ n. n ≡ current + 8 + count) _ _ _ (plus-Ends (current + 8) count)
          (λ n sum.
            let grown = loaded_size-snoc list odd in
            (omega (arith, grown, e), omega (arith, grown, e), omega arith)))
        (Ends->>=
          (IsRun img options last_rva
            (record { entries = []; elem_count = count / 2; current_rva = current + 8 }))
          _ _ _ (load_elements-Ends img options last_rva (suc (count / 2)) _ (omega arith))
          (λ r run. end_block-IsRound list b current (count / 2) r h run))

  sized-Ends :
      (list : List LoadedBlock) (b : LoadedBlock) (current size : ℕ) (sum : Result ℕ)
      → current < last_rva
      → length b.relocations ≡ 0
      → Holds (λ n. n ≡ current + 8) sum
      → Ends (IsRound last_rva list current) (elim sum [
        | err e ↦ ok (done (returned (list ++ (with_error b invalid_block ∷ []))))
        | ok next ↦
            if ltb size 8
            then ok (
                done (
                  continued
                    (list ++ (with_error b (relocation_loader invalid_relocation_block_size) ∷ []))
                    next))
            else load_block_elements img options last_rva list b next
      ])
  sized-Ends list b current size (err x) h e n =
      failed-IsRound list current (with_error b invalid_block) h e
  sized-Ends list b current size (ok next) h e n =
      let short = with_error b (relocation_loader invalid_relocation_block_size) in
      let grown = loaded_size-snoc list short in
      Ends-if _ (ltb size 8) _ _ (omega (arith, grown, e), omega (arith, grown, e), omega arith)
        (rw n (load_block_elements-Ends list b current h e))

  aligned-Ends :
      (list : List LoadedBlock) (b : LoadedBlock) (current : ℕ) (r : Result ℕ)
      → current < last_rva
      → length b.relocations ≡ 0
      → Ends (IsRound last_rva list current) (elim r [
        | err e ↦ ok (done (returned (list ++ (with_error b invalid_block ∷ []))))
        | ok aligned_rva ↦
            let checked =
              if current != aligned_rva
              then with_error b (relocation_loader unaligned_relocation_entry)
              else b in
            elim (plus 32 current 8) [
              | err e ↦ ok (done (returned (list ++ (with_error checked invalid_block ∷ []))))
              | ok next ↦
                  if ltb b.size_of_block 8
                  then ok (
                      done (
                        continued
                          (list
                            ++ (with_error checked (relocation_loader invalid_relocation_block_size)
                                ∷ []))
                          next))
                  else load_block_elements img options last_rva list checked next
            ]
      ])
  aligned-Ends list b current (err x) h e =
      failed-IsRound list current (with_error b invalid_block) h e
  aligned-Ends list b current (ok aligned_rva) h e =
      sized-Ends list _ current b.size_of_block (plus 32 current 8) h
        (still_empty (current != aligned_rva)) (plus-Holds current 8)
    where
      still_empty :
          (c : Bool)
          → length
              (if c
                then with_error b (relocation_loader unaligned_relocation_entry)
                else b).relocations
            ≡ 0
      still_empty true = e
      still_empty false = e

  load_block-Ends :
      (list : List LoadedBlock) (current : ℕ)
      → current < last_rva
      → Ends (IsRound last_rva list current) (load_block img options last_rva list current)
  unfolding load_block load_described_block
  load_block-Ends list current h = read (read_struct img options current 8)
    where
      read :
          (r : Result (List ℕ))
          → Ends (IsRound last_rva list current) (elim r [
            | err e ↦ ok (done (returned (list ++ (with_error empty_block invalid_block ∷ []))))
            | ok bytes ↦ load_described_block img options last_rva list (described bytes) current
          ])
      read (err e) = failed-IsRound list current (with_error empty_block invalid_block) h refl
      read (ok bytes) = aligned-Ends list (described bytes) current (align_up 32 current 4) h refl

  -- A directory that starts at `first` has been loaded within its size.
  abbrev pub IsWithin : ℕ → Run LoadedDirectory → Type 0
  IsWithin first out_of_fuel = ⊥
  IsWithin first (done d) = loaded_size d.blocks + first ≤ last_rva + 10

  go_on-Ends :
      (first current : ℕ) (list : List LoadedBlock)
      (rest : List LoadedBlock → ℕ → Result (Run LoadedDirectory)) (r : Run Round)
      → current < last_rva
      → loaded_size list + first ≤ current
      → loaded_size list + first ≤ last_rva + 10
      → IsRound last_rva list current r
      → ((after : List LoadedBlock) (next : ℕ)
          → loaded_size after + first ≤ next
          → loaded_size after + first ≤ last_rva + 10
          → current + 8 ≤ next
          → Ends (IsWithin first) (rest after next))
      → Ends (IsWithin first) (go_on img options rest r)
  go_on-Ends first current list rest out_of_fuel h a b round next = absurd round
  go_on-Ends first current list rest (done (returned after)) h a b round next = omega arith
  go_on-Ends first current list rest (done (continued after at)) h a b (x, y, z) next =
      next after at (omega arith) (omega arith) z

  load_blocks-Ends :
      (first fuel : ℕ) (list : List LoadedBlock) (current : ℕ)
      → 0 < fuel
      → last_rva < current + fuel
      → loaded_size list + first ≤ current
      → loaded_size list + first ≤ last_rva + 10
      → Ends (IsWithin first) (load_blocks img options fuel last_rva list current)
  unfolding load_blocks
  load_blocks-Ends first zero list current p f a b = absurd (omega arith)
  load_blocks-Ends first (suc fuel) list current p f a b = elim (dec_lt current last_rva) [
    | yes inside ↦ rw (lt→ltb current last_rva inside) (
        Ends->>= (IsRound last_rva list current) _ _ _ (load_block-Ends list current inside)
          (λ r round.
            go_on-Ends first current list (load_blocks img options fuel last_rva) r inside a b round
              (λ after next x y z.
                load_blocks-Ends first fuel after next (omega arith) (omega arith) x y)))
    | no outside ↦ rw (le→ltb current last_rva (omega arith)) b
  ]

abbrev pub total_size : Option LoadedDirectory → ℕ
total_size none = 0
total_size (some d) = loaded_size d.blocks

-- A run that has ended with a directory of at most `limit` bytes.
abbrev IsSmall : ℕ → Run (Option LoadedDirectory) → Type 0
IsSmall limit out_of_fuel = ⊥
IsSmall limit (done r) = total_size r ≤ limit

module _ (img : Image) (options : LoaderOptions) where
  load_directory-Ends :
      (info : DataDirectory)
      → info.size < 2 ^ 32
      → Ends (λ r. IsSmall (info.size + 10) (found r)) (load_directory img options info)
  unfolding load_directory found
  load_directory-Ends info word = sum (add_if_safe 32 info.virtual_address info.size) (sum_lem)
    where
      sum_lem :
          (last : ℕ)
          → add_if_safe 32 info.virtual_address info.size ≡ some last
          → last ≡ info.virtual_address + info.size
      sum_lem last e = ground (arith, add_if_safe_lem 32 info.virtual_address info.size word)

      within :
          (last : ℕ)
          → last ≡ info.virtual_address + info.size
          → (r : Run LoadedDirectory) → IsWithin img options last info.virtual_address r
          → IsSmall (info.size + 10) (found r)
      within last e out_of_fuel w = w
      within last e (done d) w = omega arith

      sum :
          (s : Option ℕ)
          → ((last : ℕ) → s ≡ some last → last ≡ info.virtual_address + info.size)
          → Ends
              (λ r. IsSmall (info.size + 10) (found r))
              (elim s [
                | none ↦ ok (
                    done (record {
                      blocks = [];
                      directory_errors = add_error [] (relocation_loader invalid_directory_size);
                    }))
                | some last_rva ↦
                    load_blocks img options (suc info.size) last_rva [] info.virtual_address
              ])
      sum none e = omega arith
      sum (some last) e =
          let total = e last refl in
          Ends-weaken (IsWithin img options last info.virtual_address) _ _
            (load_blocks-Ends img options last info.virtual_address (suc info.size) []
              info.virtual_address (omega arith) (omega arith) (omega arith) (omega arith))
            (within last total)

  load-Ends :
      (info : DataDirectory)
      → get_directory img.data_directories basereloc ≡ some info
      → info.size < 2 ^ 32
      → Ends (IsSmall (info.size + 10)) (load img options)
  unfolding load
  load-Ends info e word =
      Ends-if _ (has_nonempty_directory img.data_directories basereloc) _ _
        (rw e (
          Ends->>= (λ r. IsSmall (info.size + 10) (found r)) _ (load_directory img options info) _
            (load_directory-Ends info word) (λ r small. small)))
        (omega arith)

  -- For a relocation directory of a 32-bit size: the load always ends, and if it throws, it throws
  -- an overflow only, since all other errors are recorded; what it returns has no more headers and
  -- entries than fit in the directory, but for a last header and a last entry.
  pub load_lem :
      (info : DataDirectory)
      → get_directory img.data_directories basereloc ≡ some info
      → info.size < 2 ^ 32
      → (load img options ≡ err (generic integer_overflow))
        ⊎ ((r : Option LoadedDirectory) × (load img options ≡ ok (done r))
            × (total_size r ≤ info.size + 10))
  load_lem info e word = ended (load img options) (load-Ends info e word)
    where
      ended :
          (m : Result (Run (Option LoadedDirectory)))
          → Ends (IsSmall (info.size + 10)) m
          → (m ≡ err (generic integer_overflow))
            ⊎ ((r : Option LoadedDirectory) × (m ≡ ok (done r)) × (total_size r ≤ info.size + 10))
      ended (err x) p = inl (ap err p)
      ended (ok out_of_fuel) p = absurd p
      ended (ok (done r)) p = inr (r, refl, p)
