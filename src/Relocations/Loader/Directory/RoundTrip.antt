-- ===== src/Relocations/Loader/Directory/RoundTrip.antt =====
-- About loading a directory from the bytes that the builder wrote.
use mathlib.Core.List.{append_assoc, append-nil}
use pe_bliss.Base.{
  ℕ, zero, suc, ◌+◌, ◌-◌, ◌*◌, ◌/◌, ◌%◌, ◌^◌, ◌≤◌, ◌<◌, ◌≡◌, refl, ap, sym, ◌∙◌, subst, Bool, true,
  false, some, List, [], ◌∷◌, ◌++◌, map, arith, All, ltb, ◌!=◌, lt→ltb, le→ltb,
}
use pe_bliss.Base.Loops.{done}
use pe_bliss.Packed.Struct.{serialize}
use pe_bliss.Packed.Struct.Numbers.{deserialize-serialize}
use pe_bliss.Errors.{ok}
use pe_bliss.Utilities.Math.Laws.{add_if_safe-some}
use pe_bliss.Utilities.Math.Align.{align_up_if_safe_lem}
use pe_bliss.Utilities.SafeUint.{align_up}
use pe_bliss.Core.DataDirectories.{
  DataDirectories, DataDirectory, basereloc, get_directory, has_nonempty_directory,
}
use pe_bliss.Image.Layout.{Image}
use pe_bliss.Relocations.Entry.{
  RelocationEntry, get_type, requires_parameter, get_affected_size_in_bytes, affected_size,
}
use pe_bliss.Relocations.Builder.{
  BaseRelocation, serialize_entries, get_built_size, get_element_count, build_new, total_elements,
}
use pe_bliss.Relocations.Builder.Laws.{
  block_length, padded, directory_length, directory_length-cons, IsInMemory,
}
use pe_bliss.Relocations.Builder.Bytes.{
  with_padding, is_padded, written, elements, elements-written, block_bytes, length-block_bytes,
  directory_bytes, sized, build_new-written,
}
use pe_bliss.Relocations.Loader.{LoaderOptions, LoadedBlock, read_struct}
use pe_bliss.Relocations.Loader.Stored.{
  loaded, IsEntry, IsStored, first-IsStored, rest-IsStored, plus-ok, load_elements-stored,
}
use pe_bliss.Relocations.Loader.Directory.{
  continued, described, load_block_elements, load_described_block, load_block, load_blocks,
  load_directory, found, load,
}

-- What the loader gives for the bytes of a block.
abbrev pub loaded_block : BaseRelocation → LoadedBlock
loaded_block b = record {
  virtual_address = b.virtual_address;
  size_of_block = block_length true b;
  relocations = map loaded (written true b);
  block_errors = [];
}

-- A block at a 32-bit address whose entries can be loaded.
abbrev pub IsBlock : ℕ → BaseRelocation → Type 0
IsBlock machine b = (b.virtual_address < 2 ^ 32) × All (IsEntry machine) b.relocations

written-IsEntry :
    (machine : ℕ) (pad : Bool) (es : List RelocationEntry)
    → All (IsEntry machine) es
    → All (IsEntry machine) (with_padding pad es)
unfolding get_affected_size_in_bytes affected_size requires_parameter get_type
written-IsEntry machine false es all = all
written-IsEntry machine true [] all = ((omega arith, refl, tt), tt)
written-IsEntry machine true (e ∷ es) (is, all) = (is, written-IsEntry machine true es all)

aligned-ok : (rva : ℕ) → rva < 2 ^ 32 → rva % 4 ≡ 0 → align_up 32 rva 4 ≡ ok rva
unfolding align_up
aligned-ok rva word h = rw (align_up_if_safe_lem 32 2 (omega arith) (omega arith) rva word, h)

block_length-aligned : (b : BaseRelocation) → block_length true b % 4 ≡ 0
block_length-aligned b = ground arith

-- The header of a block, without entries.
abbrev empty_of : BaseRelocation → LoadedBlock
empty_of b = record {
  virtual_address = b.virtual_address;
  size_of_block = block_length true b;
  relocations = [];
  block_errors = [];
}

module _ (img : Image) (options : LoaderOptions) (last_rva : ℕ)
    (last_fits : last_rva + 2 < 2 ^ 32) where
  read_header :
      (rva address size : ℕ) (after : List ℕ)
      → IsStored img options rva (serialize 4 address ++ (serialize 4 size ++ after))
      → read_struct img options rva 8 ≡ ok (serialize 4 address ++ serialize 4 size)
  unfolding serialize
  read_header rva address size after stored =
      first-IsStored img options rva (serialize 4 address ++ serialize 4 size) after (omega arith)
        stored

  described-serialize :
      (address size : ℕ)
      → address < 2 ^ 32
      → size < 2 ^ 32
      → ◌≡◌ {A = LoadedBlock} (described (serialize 4 address ++ serialize 4 size)) (record {
        virtual_address = address;
        size_of_block = size;
        relocations = [];
        block_errors = [];
      })
  unfolding serialize
  described-serialize address size a s =
      rw (deserialize-serialize 4 address a, deserialize-serialize 4 size s)

  elements_part :
      (rva address size : ℕ) (after : List ℕ)
      → IsStored img options rva (serialize 4 address ++ (serialize 4 size ++ after))
      → IsStored img options (rva + 8) after
  unfolding serialize
  elements_part rva address size after stored =
      rest-IsStored img options rva (serialize 4 address ++ serialize 4 size) after stored

  -- The bytes of a block, with its parts to the right.
  block_parts :
      (b : BaseRelocation) (after : List ℕ)
      → block_bytes true b ++ after
        ≡ serialize 4 b.virtual_address
          ++ (serialize 4 (block_length true b) ++ (serialize_entries (written true b) ++ after))
  block_parts b after =
      append_assoc (serialize 4 b.virtual_address)
        (serialize 4 (block_length true b) ++ serialize_entries (written true b)) after
      ∙ ap (λ x. serialize 4 b.virtual_address ++ x)
          (append_assoc (serialize 4 (block_length true b)) (serialize_entries (written true b))
            after)

  load_block_elements-stored :
      (list : List LoadedBlock) (b : BaseRelocation) (rva : ℕ) (after : List ℕ)
      → IsBlock img.machine b
      → rva + block_length true b ≤ last_rva
      → IsStored img options (rva + 8) (serialize_entries (written true b) ++ after)
      → load_block_elements img options last_rva list
          (record {
            virtual_address = b.virtual_address;
            size_of_block = block_length true b;
            relocations = [];
            block_errors = [];
          })
          (rva + 8)
        ≡ ok (done (continued (list ++ (loaded_block b ∷ [])) (rva + block_length true b)))
  unfolding load_block_elements
  load_block_elements-stored list b rva after is room stored =
      let count = elements-written true b in
      let even : ((8 + 2 * padded true b - 8) % 2 != 0) ≡ false = ground arith in
      let half : (8 + 2 * padded true b - 8) / 2 ≡ padded true b = omega arith in
      let end : rva + 8 + 2 * elements (written true b) ≡ rva + block_length true b =
        omega (arith, count) in
      rw (even, half)
        (rw (
          load_elements-stored img options last_rva last_fits (written true b) (suc (padded true b))
              (record { entries = []; elem_count = padded true b; current_rva = rva + 8 }) after
              (written-IsEntry img.machine (is_padded true b) b.relocations is.1) (sym count)
              (omega arith) (omega (arith, end)) stored,
          end,
        ))

  load_described_block-stored :
      (list : List LoadedBlock) (b : BaseRelocation) (rva : ℕ) (after : List ℕ)
      → IsBlock img.machine b
      → rva % 4 ≡ 0
      → rva + block_length true b ≤ last_rva
      → IsStored img options (rva + 8) (serialize_entries (written true b) ++ after)
      → load_described_block img options last_rva list (empty_of b) rva
        ≡ ok (done (continued (list ++ (loaded_block b ∷ [])) (rva + block_length true b)))
  unfolding load_described_block
  load_described_block-stored list b rva after is aligned room stored =
      let large : ltb (block_length true b) 8 ≡ false = ground arith in
      let same : (rva != rva) ≡ false = ground arith in
      rw (load_described_block, aligned-ok rva (omega arith) aligned, plus-ok rva 8 (omega arith))
        (rw (same, large) (load_block_elements-stored list b rva after is room stored))

  load_block-stored :
      (list : List LoadedBlock) (b : BaseRelocation) (rva : ℕ) (after : List ℕ)
      → IsBlock img.machine b
      → rva % 4 ≡ 0
      → rva + block_length true b ≤ last_rva
      → IsStored img options rva (block_bytes true b ++ after)
      → load_block img options last_rva list rva
        ≡ ok (done (continued (list ++ (loaded_block b ∷ [])) (rva + block_length true b)))
  unfolding load_block
  load_block-stored list b rva after is aligned room stored =
      let parts = subst (IsStored img options rva) (block_parts b after) stored in
      let size = block_length true b in
      let rest = serialize_entries (written true b) ++ after in
      let header = described-serialize b.virtual_address size is.0 (omega arith) in
      rw (load_block, read_header rva b.virtual_address size rest parts)
        (subst
          (λ x.
            load_described_block img options last_rva list x rva
            ≡ ok (done (continued (list ++ (loaded_block b ∷ [])) (rva + size))))
          (sym header)
          (load_described_block-stored list b rva after is aligned room
            (elements_part rva b.virtual_address size rest parts)))

  load_blocks-stored :
      (rs : List BaseRelocation) (fuel : ℕ) (list : List LoadedBlock) (rva : ℕ)
      → All (IsBlock img.machine) rs
      → rva % 4 ≡ 0
      → rva + directory_length true rs ≡ last_rva
      → directory_length true rs < fuel
      → IsStored img options rva (directory_bytes true rs)
      → load_blocks img options fuel last_rva list rva
        ≡ ok (done (record { blocks = list ++ map loaded_block rs; directory_errors = [] }))
  unfolding load_blocks total_elements
  load_blocks-stored rs zero list rva all aligned end enough stored = absurd (omega arith)
  load_blocks-stored [] (suc fuel) list rva all aligned end enough stored =
      let at : (rva != last_rva) ≡ false = ground arith in
      rw (le→ltb rva last_rva (omega arith), at)
        (ap (λ x. ok (done (record { blocks = x; directory_errors = [] }))) (sym (append-nil list)))
  load_blocks-stored (b ∷ rs) (suc fuel) list rva (is, all) aligned end enough stored =
      let whole = directory_length-cons true b rs in
      let behind =
        subst (λ k. IsStored img options (rva + k) (directory_bytes true rs))
          (length-block_bytes true b)
          (rest-IsStored img options rva (block_bytes true b) (directory_bytes true rs) stored) in
      let added = append_assoc list (loaded_block b ∷ []) (map loaded_block rs) in
      rw
        (
          lt→ltb rva last_rva (omega arith),
          load_block-stored list b rva (directory_bytes true rs) is aligned (omega arith) stored,
        )
        (load_blocks-stored rs fuel (list ++ (loaded_block b ∷ [])) (rva + block_length true b) all
            (omega (arith, block_length-aligned b)) (omega arith) (omega arith) behind
          ∙ ap (λ x. ok (done (record { blocks = x; directory_errors = [] }))) added)

load_directory-stored :
    (img : Image) (options : LoaderOptions) (info : DataDirectory) (rs : List BaseRelocation)
    → directory_length true rs ≡ info.size
    → IsStored img options info.virtual_address (directory_bytes true rs)
    → info.virtual_address % 4 ≡ 0
    → info.virtual_address + info.size + 2 < 2 ^ 32
    → All (IsBlock img.machine) rs
    → load_directory img options info
      ≡ ok (done (record { blocks = map loaded_block rs; directory_errors = [] }))
unfolding load_directory
load_directory-stored img options info rs total stored aligned fits all =
    rw
      (
        load_directory,
        add_if_safe-some 32 info.virtual_address info.size (omega arith) (omega arith),
      )
      (load_blocks-stored img options (info.virtual_address + info.size) fits rs (suc info.size) []
        info.virtual_address all aligned (omega arith) (omega arith) stored)

nonempty_of_directory :
    (ds : DataDirectories) (type : ℕ) (d : DataDirectory)
    → get_directory ds type ≡ some d
    → 0 < d.virtual_address
    → has_nonempty_directory ds type ≡ true
unfolding get_directory has_nonempty_directory
nonempty_of_directory ds type d at h = rw (has_nonempty_directory, at) (ground arith)

-- A block that has been built, as the loader gives it: with its size, with the entry that fills it
-- up, and without errors.
abbrev pub reloaded : BaseRelocation → LoadedBlock
reloaded b = record {
  virtual_address = b.virtual_address;
  size_of_block = b.size_of_block;
  relocations = map loaded (written true b);
  block_errors = [];
}

map-reloaded : (rs : List BaseRelocation) → map reloaded (map (sized true) rs) ≡ map loaded_block rs
unfolding get_element_count
map-reloaded [] = refl
map-reloaded (b ∷ rs) = ap (λ x. loaded_block b ∷ x) (map-reloaded rs)

-- For an image whose relocation directory holds the bytes that the builder wrote, with blocks
-- aligned, at an aligned address that is not zero and ends two bytes below 2 ^ 32; for blocks of
-- 32-bit addresses and entries of two words, of types that the machine supports, with a parameter
-- exactly if they need one: the load gives back the blocks with the sizes that the build stored
-- and their entries, behind which a padding entry stands where a block has been filled up, and no
-- error.
pub load-build_new :
    (img : Image) (options : LoaderOptions) (info : DataDirectory) (rs built : List BaseRelocation)
    (bytes : List ℕ)
    → IsInMemory true rs
    → get_built_size true rs ≡ ok info.size
    → build_new true rs ≡ ok ((bytes, built), info.size)
    → get_directory img.data_directories basereloc ≡ some info
    → IsStored img options info.virtual_address bytes
    → 0 < info.virtual_address
    → info.virtual_address % 4 ≡ 0
    → info.virtual_address + info.size + 2 < 2 ^ 32
    → All (IsBlock img.machine) rs
    → load img options
      ≡ ok (done (some (record { blocks = map reloaded built; directory_errors = [] })))
unfolding load found
load-build_new img options info rs built bytes memory size made at stored some_rva aligned fits
      all =
    let (known, total) = build_new-written true rs info.size memory size in
    let same : bytes ≡ directory_bytes true rs = cc in
    let blocks : built ≡ map (sized true) rs = cc in
    let loaded_all =
      load_directory-stored img options info rs total
        (subst (IsStored img options info.virtual_address) same stored) aligned fits all in
    let present = nonempty_of_directory img.data_directories basereloc info at some_rva in
    rw (present, at, loaded_all, blocks, map-reloaded rs)
