-- ===== src/Image/SectionData/Length/Tests.antt =====
-- How many bytes of an executable's headers an address has behind it.
use pe_bliss.Base.{◌≡◌, refl, inl, true, false, arith}
use pe_bliss.Base.Words.{cast}
use pe_bliss.Errors.{ok, err, ◌>>=◌, image, section_data_does_not_exist}
use pe_bliss.Buffers.Input.{size}
use pe_bliss.Buffers.Input.Contents.{contents, physical}
use pe_bliss.Image.Samples.{program, headers}
use pe_bliss.Image.SectionData.Samples.{program-IsLoaded}
use pe_bliss.Image.SectionData.Whole.{all_section_data_from_rva}
use pe_bliss.Image.SectionData.Length.{section_data_length_from_rva}
use pe_bliss.Image.SectionData.Length.Laws.{section_data_length_from_rva_lem}

section_data_length_from_rva_lem_example :
    section_data_length_from_rva program 4 true false
    ≡ (all_section_data_from_rva program 4 true false >>= λ s. ok (cast 32 (size s)))
unfolding contents physical
section_data_length_from_rva_lem_example =
    section_data_length_from_rva_lem program program-IsLoaded 4 (omega arith) headers 4 true false
      (inl (refl, refl, refl, omega arith)) (ground arith) (omega arith)

-- The address right behind the headers counts as one of the headers.
length_behind_headers :
    section_data_length_from_rva program (size headers) false true
    ≡ err (image section_data_does_not_exist)
unfolding section_data_length_from_rva size
length_behind_headers = refl
