-- ===== src/Image/Checksum/Laws.antt =====
-- About `calculate_checksum` and the buffers that an image holds.
use native.Mathlib.Nat.{mod-eq_of_lt}
use pe_bliss.Base.{
  ℕ, ◌+◌, ◌-◌, ◌%◌, ◌^◌, ◌≤◌, ◌<◌, ◌≡◌, refl, ◌∙◌, ap, sym, List, [], ◌∷◌, ◌++◌, arith, length,
  take, drop, min, ◌!=◌, if◌then◌else◌, All, length-take, length-append, lt→ltb, Bool-cases, inl,
  inr,
}
use pe_bliss.Base.Slices.{take-take, drop-take}
use pe_bliss.Errors.{ok}
use pe_bliss.Utilities.Math.{is_aligned}
use pe_bliss.Utilities.SafeUint.{plus, plus_lem}
use pe_bliss.Buffers.Input
use pe_bliss.Buffers.Input.{physical_size, size}
use pe_bliss.Buffers.Input.Contents.{contents, physical, IsValid, physical-le, physical_size_lem}
use pe_bliss.Buffers.Views.{reduce, reduce_from}
use pe_bliss.Buffers.Views.Laws.{OffsetsFit, section_of, reduce-section_of, reduce_from-section_of}
use pe_bliss.Image.Layout.{Image}
use pe_bliss.Image.Checksum.{
  add_dwords, calculate_checksum_impl, get_checksum_offset, checksum_sections, finalize,
  calculate_checksum,
}
use pe_bliss.Image.Checksum.Read.{stored, add_dwords-append, calculate_checksum_impl_lem}

plus-ok : (value other : ℕ) → value + other < 2 ^ 32 → plus 32 value other ≡ ok (value + other)
plus-ok value other fits = plus_lem 32 value other ∙ rw (lt→ltb (value + other) (2 ^ 32) fits) refl

-- The field of the checksum has an offset that is a 32-bit word and a multiple of four.
abbrev pub IsPlaced : Image → Type 0
IsPlaced img = (img.e_lfanew + 88 < 2 ^ 32) × (img.e_lfanew % 4 ≡ 0)

get_checksum_offset_lem :
    (img : Image) → IsPlaced img → get_checksum_offset img ≡ ok (img.e_lfanew + 88)
unfolding get_checksum_offset is_aligned
get_checksum_offset_lem img (fits, aligned) =
    let e = img.e_lfanew in
    let sum : e + 20 + 4 + 2 + 62 ≡ e + 88 = omega arith in
    let whole : (e + 88) % 4 ≡ 0 = omega arith in
    rw
      (
        plus-ok e 20 (omega arith),
        plus-ok (e + 20) 4 (omega arith),
        plus-ok (e + 20 + 4) 2 (omega arith),
        plus-ok (e + 20 + 4 + 2) 62 (omega arith),
        sum,
        whole,
      )
      refl

abbrev pub IsWhole : Input.Buffer → Type 0
IsWhole b = IsValid b × (physical b % 4 ≡ 0)

-- The bytes in the file of the buffers, one after the other.
abbrev pub stored_all : List Input.Buffer → List ℕ
stored_all [] = []
stored_all (b ∷ bs) = stored b ++ stored_all bs

length-stored : (b : Input.Buffer) → length (stored b) ≡ physical b
length-stored b = omega (arith, length-take (physical b) (contents b), physical-le b)

whole_length : (b : Input.Buffer) → IsWhole b → length (stored b) % 4 ≡ 0
whole_length b (v, aligned) = rw (length-stored b) aligned

all_whole_length : (bs : List Input.Buffer) → All IsWhole bs → length (stored_all bs) % 4 ≡ 0
all_whole_length [] all = refl
all_whole_length (b ∷ bs) (w, rest) =
    omega
      (arith, length-append (stored b) (stored_all bs), whole_length b w, all_whole_length bs rest)

whole_lem :
    (sum : ℕ) (b : Input.Buffer)
    → IsWhole b
    → calculate_checksum_impl sum b ≡ ok (add_dwords sum (stored b))
whole_lem sum b (v, aligned) = calculate_checksum_impl_lem sum b v ∙ rw aligned refl

checksum_sections_lem :
    (sum file_size : ℕ) (bs : List Input.Buffer)
    → All IsWhole bs
    → file_size + length (stored_all bs) < 2 ^ 64
    → checksum_sections sum file_size bs
      ≡ ok (add_dwords sum (stored_all bs), file_size + length (stored_all bs))
unfolding checksum_sections add_dwords
checksum_sections_lem sum file_size [] all fits = ap (λ n. ok (sum, n)) (omega arith)
checksum_sections_lem sum file_size (b ∷ bs) ((v, aligned), rest) fits =
    let total = length-append (stored b) (stored_all bs) in
    let here = length-stored b in
    let word : (file_size + physical b) % 2 ^ 64 ≡ file_size + physical b =
      mod-eq_of_lt (omega arith) in
    let assoc : file_size + length (stored b ++ stored_all bs)
        ≡ file_size + physical b + length (stored_all bs) =
      omega arith in
    rw (whole_lem sum b (v, aligned), physical_size_lem b v, word)
      (checksum_sections_lem (add_dwords sum (stored b)) (file_size + physical b) bs rest
          (omega arith)
        ∙ rw (add_dwords-append sum (stored b) (stored_all bs) (omega arith), assoc) refl)

-- The buffers after the headers.
abbrev pub body : Image → List Input.Buffer
body img =
    if size img.full_sections_buffer != 0
    then img.full_sections_buffer ∷ []
    else img.section_data_list

-- Buffers of whole words, headers that hold the checksum, and a file of fewer than 2 ^ 64 bytes.
pub record IsSummable (img : Image) : Type 0 where
  pub placed : IsPlaced img
  pub headers : IsWhole img.full_headers_buffer
  pub holds : img.e_lfanew + 92 ≤ physical img.full_headers_buffer
  pub offsets : OffsetsFit img.full_headers_buffer (img.e_lfanew + 92)
  pub parts : All IsWhole (body img)
  pub overlay : IsWhole img.overlay
  pub fits :
      physical img.full_headers_buffer + length (stored_all (body img)) + physical img.overlay
      < 2 ^ 64

-- The file without the four bytes of the checksum.
abbrev pub summed : Image → List ℕ
summed img =
    let h = stored img.full_headers_buffer in
    take (img.e_lfanew + 88) h
    ++ (drop (img.e_lfanew + 92) h ++ (stored_all (body img) ++ stored img.overlay))

module _ (img : Image) (s : IsSummable img) where
  before : Input.Buffer
  before = section_of img.full_headers_buffer 0 (img.e_lfanew + 88)

  after : Input.Buffer
  after =
      section_of img.full_headers_buffer (img.e_lfanew + 92)
        (length (contents img.full_headers_buffer) - (img.e_lfanew + 92))

  before_lem :
      (reduce img.full_headers_buffer 0 (img.e_lfanew + 88) ≡ ok before)
      × IsWhole before
      × (stored before ≡ take (img.e_lfanew + 88) (stored img.full_headers_buffer))
  unfolding before contents physical
  before_lem =
      let b = img.full_headers_buffer in
      let inside = physical-le b in
      let o = s.offsets in
      let at = s.holds in
      let fits = s.placed.0 in
      let kept : min (img.e_lfanew + 88) (physical b - 0) ≡ img.e_lfanew + 88 = omega arith in
      (
        reduce-section_of b 0 (img.e_lfanew + 88) s.headers.0 (omega arith)
            (omega arith, omega arith, omega arith, omega arith) (omega arith),
        ((s.headers.0, omega arith, refl), rw kept (omega (arith, s.placed.1))),
        rw
            (
              kept,
              take-take (img.e_lfanew + 88) (img.e_lfanew + 88) (contents b) (omega arith),
              take-take (img.e_lfanew + 88) (physical b) (contents b) (omega arith),
            )
            refl,
      )

  after_lem :
      (reduce_from img.full_headers_buffer (img.e_lfanew + 92) ≡ ok after)
      × IsWhole after
      × (stored after ≡ drop (img.e_lfanew + 92) (stored img.full_headers_buffer))
  unfolding after contents physical
  after_lem =
      let b = img.full_headers_buffer in
      let from = img.e_lfanew + 92 in
      let rest = length (contents b) - from in
      let inside = physical-le b in
      let at = s.holds in
      let kept : min rest (physical b - from) ≡ physical b - from = omega arith in
      (
        reduce_from-section_of b from s.headers.0 s.offsets (omega arith),
        ((s.headers.0, omega arith, refl), rw kept (omega (arith, s.placed.1, s.headers.1))),
        rw
            (
              kept,
              take-take (physical b - from) rest (drop from (contents b)) (omega arith),
              drop-take from (physical b) (contents b),
            )
            refl,
      )

  body_lem :
      (sum file_size : ℕ)
      → (if size img.full_sections_buffer != 0
          then checksum_sections sum file_size (img.full_sections_buffer ∷ [])
          else checksum_sections sum file_size img.section_data_list)
        ≡ checksum_sections sum file_size (body img)
  body_lem sum file_size = elim (Bool-cases (size img.full_sections_buffer != 0)) [
    | inl whole ↦ rw whole refl
    | inr parts ↦ rw parts refl
  ]

  -- The sum of the words of the file in one piece.
  joined :
      add_dwords
        (add_dwords
          (add_dwords (add_dwords 0 (stored before)) (stored after))
          (stored_all (body img)))
        (stored img.overlay)
      ≡ add_dwords 0 (summed img)
  joined =
      let tail = stored_all (body img) ++ stored img.overlay in
      sym (
        rw
          (
            sym before_lem.2,
            sym after_lem.2,
            add_dwords-append 0 (stored before) (stored after ++ tail)
                (whole_length before before_lem.1),
            add_dwords-append (add_dwords 0 (stored before)) (stored after) tail
                (whole_length after after_lem.1),
            add_dwords-append (add_dwords (add_dwords 0 (stored before)) (stored after))
                (stored_all (body img)) (stored img.overlay) (all_whole_length (body img) s.parts),
          )
          refl)

  -- For an image whose valid buffers are whole words, with headers that hold the checksum at an
  -- aligned offset, and fewer than 2 ^ 64 bytes: the checksum is that of its file in one piece
  -- without the four bytes of the checksum, with the size of the file added, however the file is
  -- divided into buffers and read.
  pub calculate_checksum_lem :
      calculate_checksum img
      ≡ ok (
          finalize (add_dwords 0 (summed img)) (
            physical img.full_headers_buffer
            + length (stored_all (body img))
            + physical img.overlay))
  unfolding calculate_checksum
  calculate_checksum_lem =
      let step : img.e_lfanew + 88 + 4 ≡ img.e_lfanew + 92 = omega arith in
      let fits = s.fits in
      rw
        (
          get_checksum_offset_lem img s.placed,
          step,
          before_lem.0,
          after_lem.0,
          whole_lem 0 before before_lem.1,
          whole_lem (add_dwords 0 (stored before)) after after_lem.1,
          physical_size_lem img.full_headers_buffer s.headers.0,
          body_lem (add_dwords (add_dwords 0 (stored before)) (stored after))
              (physical img.full_headers_buffer),
          checksum_sections_lem (add_dwords (add_dwords 0 (stored before)) (stored after))
              (physical img.full_headers_buffer) (body img) s.parts (omega arith),
          whole_lem
              (add_dwords (add_dwords (add_dwords 0 (stored before)) (stored after))
                (stored_all (body img)))
              img.overlay s.overlay,
          physical_size_lem img.overlay s.overlay.0,
          mod-eq_of_lt fits,
          joined,
        )
        refl
