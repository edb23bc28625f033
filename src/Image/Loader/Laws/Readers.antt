-- ===== src/Image/Loader/Laws/Readers.antt =====
-- The invariant of a load, and what its reads of the headers give.
use pe_bliss.Base.{
  Option, none, some, ℕ, zero, suc, ◌^◌, ◌<◌, ◌≡◌, sym, subst, Bool, false, Bool-cases, inl, inr,
  none, some, List, [], arith, All, ltb,
}
use pe_bliss.Errors.{Error, Result, ok, err, ◌>>=◌, rethrow}
use pe_bliss.Errors.Ensures.{Ensures, Ensures-bind, Ensures-bind_any, Ensures-rethrow}
use pe_bliss.Buffers.Input.{Buffer}
use pe_bliss.Buffers.Input.Contents.{contents, physical, IsValid}
use pe_bliss.Buffers.Views.{make_section, without_relative_offset}
use pe_bliss.Buffers.Reader.{Reader, set_rpos, size}
use pe_bliss.Buffers.RefBuffer.{RefBuffer, contents_of, new}
use pe_bliss.Buffers.RefBuffer
use pe_bliss.Packed.Struct.{deserialize_struct}
use pe_bliss.Packed.Struct.Fields.{IsByte, field-lt, deserialize_struct-Ensures}
use pe_bliss.Dos.{deserialize_dos_header, deserialize_dos_stub}
use pe_bliss.Core.FileHeader.{deserialize_file_header}
use pe_bliss.Core.ImageSignature.{deserialize_signature}
use pe_bliss.Core.OptionalHeader.{Magic, OptionalHeader, pe32, pe64, packed_size}
use pe_bliss.Core.OptionalHeader.Bytes.{
  structure_then, known_then, magic_then, deserialize_optional_header, header_of, header_32_of,
  header_64_of,
}
use pe_bliss.Core.DataDirectories.{DataDirectory, DataDirectories}
use pe_bliss.Core.DataDirectories.Bytes.{
  deserialize_directory, directory_then, deserialize_directories,
}
use pe_bliss.Section.Header.{SectionHeader}
use pe_bliss.Section.Header
use pe_bliss.Section.Header.Bytes.{deserialize_section_header}
use pe_bliss.Section.Table.{SectionTable}
use pe_bliss.Section.Table.Bytes.{no_header, header_then, deserialize_table}
use pe_bliss.Section.Data.Laws.{HasRoom}
use pe_bliss.Image.Loader.State.{LoadState}
use pe_bliss.Image.Loader.Laws.Parts.{
  AreParts, section_header_of-IsValid, no_header-IsValid, All-replicate,
}

module _ (b : Buffer) (room : HasRoom b) (bytes : All IsByte (contents b)) where
  abbrev pub Inv : LoadState → Type 0
  Inv st =
      AreParts st.image.optional_header st.image.section_table st.image.section_list
        st.image.full_headers_buffer
      × (st.wrapper.buffer ≡ b)

  -- A structure that is read of the buffer.
  reads :
      (r : Reader) (n : ℕ) (allow : Bool)
      → r.buffer ≡ b
      → 0 < n
      → n < 2 ^ 64
      → Ensures (λ got. All IsByte got.0.1 × (got.1.buffer ≡ b)) (deserialize_struct r n allow)
  reads r n allow is some_bytes word =
      subst
        (λ c.
          Ensures (λ got. All IsByte got.0.1 × (got.1.buffer ≡ c)) (deserialize_struct r n allow))
        is
        (deserialize_struct-Ensures r n allow (subst IsValid (sym is) room.0)
          (subst (λ c. All IsByte (contents c)) (sym is) bytes) some_bytes word)

  abbrev pub StaysAt {ℓ} : {A : Type ℓ} → A × Reader → Type 0
  StaysAt got = got.1.buffer ≡ b

  -- A structure that is read, and what follows.
  struct_then {κ} :
      {A : Type 0} (Q : A → Type κ) (r : Reader) (n : ℕ) (allow : Bool) (e : Error)
      (f : (ℕ × List ℕ) × Reader → Result A)
      → r.buffer ≡ b
      → 0 < n
      → n < 2 ^ 64
      → ((got : (ℕ × List ℕ) × Reader) → All IsByte got.0.1 → got.1.buffer ≡ b → Ensures Q (f got))
      → Ensures Q (rethrow (deserialize_struct r n allow) e >>= f)
  struct_then Q r n allow e f is some_bytes word next =
      Ensures-bind (λ (got : (ℕ × List ℕ) × Reader). All IsByte got.0.1 × (got.1.buffer ≡ b)) Q
        (rethrow (deserialize_struct r n allow) e) f
        (Ensures-rethrow (λ (got : (ℕ × List ℕ) × Reader). All IsByte got.0.1 × (got.1.buffer ≡ b))
          (deserialize_struct r n allow) e (reads r n allow is some_bytes word))
        (λ got p. next got p.0 p.1)

  pub dos_header-StaysAt :
      (r : Reader) (allow : Bool) → r.buffer ≡ b → Ensures StaysAt (deserialize_dos_header r allow)
  unfolding deserialize_dos_header
  dos_header-StaysAt r allow is =
      struct_then StaysAt r 64 allow _ _ is (omega arith) (omega arith) (λ got all stays. stays)

  pub signature-StaysAt :
      (r : Reader) (allow : Bool) → r.buffer ≡ b → Ensures StaysAt (deserialize_signature r allow)
  unfolding deserialize_signature
  signature-StaysAt r allow is =
      struct_then StaysAt r 4 allow _ _ is (omega arith) (omega arith) (λ got all stays. stays)

  pub file_header-StaysAt :
      (r : Reader) (allow : Bool) → r.buffer ≡ b → Ensures StaysAt (deserialize_file_header r allow)
  unfolding deserialize_file_header
  file_header-StaysAt r allow is =
      struct_then StaysAt r 20 allow _ _ is (omega arith) (omega arith) (λ got all stays. stays)

  pub set_rpos-StaysAt :
      (r : Reader) (pos : ℕ)
      → r.buffer ≡ b
      → Ensures (λ (after : Reader). after.buffer ≡ b) (set_rpos r pos)
  unfolding set_rpos
  set_rpos-StaysAt r pos is = elim (Bool-cases (ltb (size r) pos)) [
    | inl past ↦ rw past tt
    | inr inside ↦ rw inside is
  ]

  pub dos_stub-StaysAt :
      (r : Reader) (copy_memory : Bool) (e_lfanew : ℕ)
      → r.buffer ≡ b
      → Ensures StaysAt (deserialize_dos_stub r copy_memory e_lfanew)
  unfolding deserialize_dos_stub
  dos_stub-StaysAt r copy_memory e_lfanew is =
      let moved = λ (stub : RefBuffer) (pos : ℕ).
        Ensures-bind (λ (after : Reader). after.buffer ≡ b) StaysAt (set_rpos r pos)
          (λ after. ok (stub, after)) (set_rpos-StaysAt r pos is) (λ after stays. stays) in
      Ensures-rethrow StaysAt _ _ (
        Ensures-bind_any StaysAt (make_section r.buffer r.position _) _ (λ view.
          Ensures-bind_any StaysAt
            (RefBuffer.deserialize (without_relative_offset view) copy_memory) _
            (λ stub. moved stub _)))

  header_of-alignment :
      (magic : Magic) (xs : List ℕ)
      → All IsByte xs
      → (header_of magic xs).section_alignment < 2 ^ 32
  unfolding header_of header_32_of header_64_of
  header_of-alignment pe32 xs all = field-lt xs 30 4 all
  header_of-alignment pe64 xs all = field-lt xs 30 4 all

  abbrev pub IsAt : Result Reader → Type 0
  IsAt r = Ensures (λ (after : Reader). after.buffer ≡ b) r

  abbrev pub IsAligned : OptionalHeader × Result Reader → Type 0
  IsAligned got = (got.0.section_alignment < 2 ^ 32) × IsAt got.1

  structure_size : (magic : Magic) → (0 < packed_size magic) × (packed_size magic < 2 ^ 64)
  structure_size pe32 = (omega arith, omega arith)
  structure_size pe64 = (omega arith, omega arith)

  abbrev IsRead : (ℕ × List ℕ) × Reader → Type 0
  IsRead got = All IsByte got.0.1 × (got.1.buffer ≡ b)

  structure_then-IsAligned :
      (magic : Magic) (r : Result ((ℕ × List ℕ) × Reader))
      → Ensures IsRead r
      → IsAligned (structure_then magic r)
  unfolding structure_then
  structure_then-IsAligned magic (err e) read_of = (header_of-alignment magic [] tt, tt)
  structure_then-IsAligned magic (ok (got, after)) (all, stays) =
      (header_of-alignment magic got.1 all, stays)

  known_then-IsAligned :
      (old : OptionalHeader) (allow : Bool) (after : Reader) (magic : Option Magic)
      → old.section_alignment < 2 ^ 32
      → after.buffer ≡ b
      → IsAligned (known_then old allow after magic)
  unfolding known_then
  known_then-IsAligned old allow after none aligned stays = (aligned, tt)
  known_then-IsAligned old allow after (some magic) aligned stays =
      structure_then-IsAligned magic _ (
        Ensures-rethrow IsRead _ _ (
          reads after (packed_size magic) allow stays (structure_size magic).0
            (structure_size magic).1))

  magic_then-IsAligned :
      (old : OptionalHeader) (allow : Bool) (r : Result ((ℕ × List ℕ) × Reader))
      → old.section_alignment < 2 ^ 32
      → Ensures IsRead r
      → IsAligned (magic_then old allow r)
  unfolding magic_then
  magic_then-IsAligned old allow (err e) aligned read_of = (aligned, tt)
  magic_then-IsAligned old allow (ok (value, after)) aligned (all, stays) =
      known_then-IsAligned old allow after _ aligned stays

  pub optional_header-IsAligned :
      (old : OptionalHeader) (r : Reader) (allow : Bool)
      → old.section_alignment < 2 ^ 32
      → r.buffer ≡ b
      → IsAligned (deserialize_optional_header old r allow)
  unfolding deserialize_optional_header
  optional_header-IsAligned old r allow aligned is =
      magic_then-IsAligned old allow _ aligned
        (Ensures-rethrow IsRead _ _ (reads r 2 false is (omega arith) (omega arith)))

  directory-StaysAt :
      (r : Reader) (allow : Bool) → r.buffer ≡ b → Ensures StaysAt (deserialize_directory r allow)
  unfolding deserialize_directory
  directory-StaysAt r allow is =
      struct_then StaysAt r 8 allow _ _ is (omega arith) (omega arith) (λ got all stays. stays)

  directory_then-IsAt :
      (rest : Reader → DataDirectories × Result Reader) (left : ℕ)
      (r : Result ((ℕ × DataDirectory) × Reader))
      → Ensures StaysAt r
      → ((after : Reader) → after.buffer ≡ b → IsAt (rest after).1)
      → IsAt (directory_then rest left r).1
  unfolding directory_then
  directory_then-IsAt rest left (err e) stays next = tt
  directory_then-IsAt rest left (ok ((physical, directory), after)) is next =
      elim (Bool-cases (ltb physical 8)) [
        | inl virt ↦ rw virt is
        | inr real ↦ rw real (next after is)
      ]

  pub directories-IsAt :
      (left : ℕ) (r : Reader) (allow : Bool)
      → r.buffer ≡ b
      → IsAt (deserialize_directories left r allow).1
  unfolding deserialize_directories
  directories-IsAt zero r allow is = is
  directories-IsAt (suc left) r allow is =
      directory_then-IsAt (λ after. deserialize_directories left after allow) left _
        (directory-StaysAt r allow is) (λ after at. directories-IsAt left after allow at)

  abbrev HoldsHeader : (ℕ × SectionHeader) × Reader → Type 0
  HoldsHeader got = Header.IsValid got.0.1 × (got.1.buffer ≡ b)

  section_header-HoldsHeader :
      (r : Reader) (allow : Bool)
      → r.buffer ≡ b
      → Ensures HoldsHeader (deserialize_section_header r allow)
  unfolding deserialize_section_header
  section_header-HoldsHeader r allow is =
      struct_then HoldsHeader r 40 allow _ _ is (omega arith) (omega arith)
        (λ got all stays. (section_header_of-IsValid got.0.1 all, stays))

  abbrev pub HoldsTable : SectionTable × Result Reader → Type 0
  HoldsTable got = All Header.IsValid got.0 × IsAt got.1

  header_then-HoldsTable :
      (rest : Reader → SectionTable × Result Reader) (left : ℕ)
      (r : Result ((ℕ × SectionHeader) × Reader))
      → Ensures HoldsHeader r
      → ((after : Reader) → after.buffer ≡ b → HoldsTable (rest after))
      → HoldsTable (header_then rest left r)
  unfolding header_then
  header_then-HoldsTable rest left (err e) valid next = ((no_header-IsValid, tt), tt)
  header_then-HoldsTable rest left (ok ((physical, header), after)) (valid, is) next =
      elim (Bool-cases (ltb physical 40)) [
        | inl virt ↦
            rw virt ((valid, All-replicate Header.IsValid left no_header no_header-IsValid), is)
        | inr real ↦ let (all, at) = next after is in rw real ((valid, all), at)
      ]

  pub table-HoldsTable :
      (left : ℕ) (r : Reader) (allow : Bool)
      → r.buffer ≡ b
      → HoldsTable (deserialize_table left r allow)
  unfolding deserialize_table
  table-HoldsTable zero r allow is = (tt, is)
  table-HoldsTable (suc left) r allow is =
      header_then-HoldsTable (λ after. deserialize_table left after allow) left _
        (section_header-HoldsHeader r allow is) (λ after at. table-HoldsTable left after allow at)
