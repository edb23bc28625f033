-- ===== src/Image/SectionData/Length/Laws.antt =====
-- About the length of the data behind an address, as the size of that data.
use pe_bliss.Base.{
  ℕ, ◌-◌, ◌^◌, ◌≤◌, ◌<◌, ◌≡◌, ◌≢◌, inl, inr, refl, ap, sym, subst, ◌∙◌, Bool, true, false, arith,
  All-get_elem?, leb, if◌then◌else◌, length, le→leb, lt→leb,
}
use pe_bliss.Base.Words.{cast, sub_wrap}
use pe_bliss.Errors.{ok, ◌>>=◌}
use pe_bliss.Section.Header.{get_rva}
use pe_bliss.Buffers.Input.{Buffer, size, physical_size}
use pe_bliss.Buffers.Input.Contents.{
  contents, physical, IsValid, physical_size_lem, size-length, physical-le, length-contents-lt,
}
use pe_bliss.Image.Layout.{Image}
use pe_bliss.Image.SectionData.Laws.{IsLoaded}
use pe_bliss.Image.SectionData.Whole.{all_section_data_from_rva}
use pe_bliss.Image.SectionData.Length.{counted_size, section_data_length_from_rva}
use pe_bliss.Image.Structures.Laws.{IsByteOf, byte_result, served, left_behind, data_of-some}

-- The counted size of a valid buffer.
counted_size_lem :
    (b : Buffer) (allow : Bool)
    → IsValid b
    → counted_size b allow ≡ (if allow then length (contents b) else physical b)
unfolding physical_size
counted_size_lem b true v = size-length b v
counted_size_lem b false v = physical_size_lem b v

counted-le :
    (b : Buffer) (allow : Bool)
    → (physical b ≤ (if allow then length (contents b) else physical b))
      × ((if allow then length (contents b) else physical b) ≤ length (contents b))
counted-le b true = (physical-le b, omega arith)
counted-le b false = (omega arith, physical-le b)

module _ (img : Image) (loaded : IsLoaded img) (rva : ℕ) (fits : rva < 2 ^ 32) where
  length-left_behind :
      (b : Buffer) (offset : ℕ) (include allow : Bool)
      → IsByteOf img include rva b offset
      → rva ≢ length (contents img.full_headers_buffer)
      → offset < physical b
      → section_data_length_from_rva img rva include allow
        ≡ ok (cast 32 (left_behind b offset allow))
  unfolding section_data_length_from_rva
  length-left_behind b offset include allow (inl (included, is, at, inside)) other in_file =
      let headers = img.full_headers_buffer in
      let short = length-contents-lt headers loaded.headers in
      let in_headers : leb rva (size headers) ≡ true =
        rw (size-length headers loaded.headers) (le→leb _ _ (omega arith)) in
      let (some_file, bounded) = counted-le headers allow in
      let real : rva < physical headers =
        subst (λ k. k < physical headers) at (subst (λ x. offset < physical x) is in_file) in
      let counted : sub_wrap 64 (counted_size headers allow) rva ≡ left_behind headers rva allow =
        rw (counted_size_lem headers allow loaded.headers) (omega arith) in
      rw (in_headers, included, counted, is, at) refl
  length-left_behind b offset include allow (inr (outside, (l, h, found, here, at))) other in_file =
      let (valid, offsets) = All-get_elem? _ img.section_data_list l loaded.section_data here in
      let headers = img.full_headers_buffer in
      let not_in_headers : leb rva (size headers) ≡ false =
        rw (size-length headers loaded.headers) (lt→leb _ _ (omega arith)) in
      let (some_file, bounded) = counted-le b allow in
      let distance : sub_wrap 32 rva (get_rva h) ≡ offset = omega arith in
      let behind : leb (if allow then length (contents b) else physical b) offset ≡ false =
        lt→leb _ _ (omega arith) in
      rw
        (
          not_in_headers,
          found,
          data_of-some img l h b here,
          distance,
          counted_size_lem b allow valid,
          behind,
        )
        refl

  -- For a loaded image and a 32-bit address of a byte of the file, of the headers, where they are
  -- included, or of a section's data, that is not the address right behind the headers: the length
  -- is the size, cut to 32 bits, of the data that is returned for the address.
  pub section_data_length_from_rva_lem :
      (b : Buffer) (offset : ℕ) (include allow : Bool)
      → IsByteOf img include rva b offset
      → rva ≢ length (contents img.full_headers_buffer)
      → offset < physical b
      → section_data_length_from_rva img rva include allow
        ≡ (all_section_data_from_rva img rva include allow >>= λ s. ok (cast 32 (size s)))
  unfolding all_section_data_from_rva size
  section_data_length_from_rva_lem b offset include allow byte other in_file =
      let (found, within, v, offsets) = byte_result img loaded rva fits b offset include byte in
      let same : rva - (rva - offset) ≡ offset = omega arith in
      let (n, made, fits_in, enough, exact) =
        served b rva (rva - offset) allow v (omega arith) fits (omega arith)
          (offsets (rva - (rva - offset)) (omega arith)) in
      length-left_behind b offset include allow byte other in_file
      ∙ (rw (found, made)
          (ap (λ k. ok (cast 32 k)) (sym (exact ∙ ap (λ k. left_behind b k allow) same))))
