-- ===== src/Image/Checksum/Tests.antt =====
-- The checksum of an executable with two sections.
use pe_bliss.Base.{ℕ, ◌+◌, ◌≡◌, refl, [], ◌∷◌, arith, length, length-replicate, List}
use pe_bliss.Errors.{ok}
use pe_bliss.Buffers.Input.{size, absolute_offset, relative_offset}
use pe_bliss.Buffers.Input.Contents.{contents, physical}
use pe_bliss.Image.Samples.{program, headers, no_bytes}
use pe_bliss.Image.Checksum.{add_dwords, add_dword, finalize, calculate_checksum}
use pe_bliss.Image.Checksum.Laws.{IsSummable, summed, stored_all, body, calculate_checksum_lem}

abbrev bytes : List ℕ
bytes = 1 ∷ 2 ∷ 3 ∷ 4 ∷ 0xff ∷ 0xff ∷ 0xff ∷ 0xff ∷ []

bytes_run : finalize (add_dwords 0 bytes) 8 ≡ 0x604 + 8
unfolding finalize add_dwords add_dword
bytes_run = refl

program-IsSummable : IsSummable program
unfolding contents physical size absolute_offset relative_offset
program-IsSummable =
    let long = length-replicate {A = ℕ} 96 7 in
    record {
      placed = (omega arith, refl);
      headers = (omega (arith, long), refl);
      holds = omega (arith, long);
      offsets = (omega arith, omega arith, omega arith, omega arith);
      parts = ((omega arith, refl), ((omega arith, refl), tt));
      overlay = (omega arith, refl);
      fits = omega (arith, long);
    }

calculate_checksum_lem_example :
    calculate_checksum program
    ≡ ok (
        finalize
          (add_dwords 0 (summed program))
          (physical headers + length (stored_all (body program)) + physical no_bytes))
calculate_checksum_lem_example = calculate_checksum_lem program program-IsSummable
