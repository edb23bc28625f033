-- ===== src/Image/Strings/Tests.antt =====
-- "Hi" in the headers of an executable.
use pe_bliss.Base.{◌≡◌, ◌++◌, refl, inl, true, false, [], ◌∷◌, ℕ, List, arith}
use pe_bliss.Base.Loops.{done}
use pe_bliss.Errors.{ok}
use pe_bliss.Buffers.Input.{Buffer}
use pe_bliss.Buffers.Input.Contents.{contents, physical}
use pe_bliss.Buffers.Output.{overwrite}
use pe_bliss.Packed.CString.{serialize_chars}
use pe_bliss.Image.Layout.{Image}
use pe_bliss.Image.Samples.{program, headers}
use pe_bliss.Image.Writes.{place_of, set_buffer}
use pe_bliss.Image.Strings.{string_from_rva, string_to_rva}
use pe_bliss.Image.Strings.Laws.{string_from_rva-string_to_rva}
use pe_bliss.Image.SectionData.Samples.{program-IsLoaded}

abbrev chars : List ℕ
chars = 72 ∷ 105 ∷ []

string_from_rva-string_to_rva_example :
    (after : Image) × (c : Buffer) × (string_to_rva 1 program 4
        (record { value = chars; virtual_nullbyte = true })
        true
        true
      ≡ (after, ok 7))
    × (string_from_rva 1 after 4 true false
        ≡ ok (done (record { value = chars; virtual_nullbyte = false })))
    × (after ≡ set_buffer program (place_of program 4) c)
    × (contents c ≡ overwrite 4 (serialize_chars 1 (chars ++ (0 ∷ []))) (contents headers))
unfolding contents physical
string_from_rva-string_to_rva_example =
    string_from_rva-string_to_rva 1 (omega arith) (omega arith) program program-IsLoaded 4
      (omega arith) headers 4 true true true false chars (inl (refl, refl, refl, omega arith))
      ((omega arith, omega arith), ((omega arith, omega arith), tt)) refl (omega arith)
      (omega arith)
