-- ===== src/Image/SectionData/Samples.antt =====
-- The executable of the tests as it is loaded.
use pe_bliss.Base.{ℕ, arith, length-replicate}
use pe_bliss.Section.Samples.{two_sections-IsValid}
use pe_bliss.Buffers.Input.{absolute_offset, relative_offset}
use pe_bliss.Buffers.Input.Contents.{contents}
use pe_bliss.Image.Samples.{program}
use pe_bliss.Image.SectionData.Laws.{IsLoaded}

pub program-IsLoaded : IsLoaded program
unfolding contents absolute_offset relative_offset
program-IsLoaded =
    let long = length-replicate {A = ℕ} 96 7 in
    record {
      sections = two_sections-IsValid;
      alignment_fits = omega arith;
      headers = omega (arith, long);
      headers_offsets = λ offset lt. (omega arith, omega arith, omega arith, omega arith);
      section_data = (
        (omega arith, λ offset lt. (omega arith, omega arith, omega arith, omega arith)),
        ((omega arith, λ offset lt. (omega arith, omega arith, omega arith, omega arith)), tt),
      );
    }
