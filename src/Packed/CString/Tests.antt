-- ===== src/Packed/CString/Tests.antt =====
-- Strings of one byte per character, with a zero of the file and with a virtual one.
use pe_bliss.Base.{
  ℕ, ◌+◌, ◌*◌, ◌≤◌, ◌≡◌, refl, List, [], ◌∷◌, ◌++◌, true, false, arith, if◌then◌else◌,
}
use pe_bliss.Base.Loops.{done}
use pe_bliss.Packed.Struct.{serialize}
use pe_bliss.Errors.{ok, err, generic, buffer_overrun}
use pe_bliss.Buffers.Input.{container, virtual}
use pe_bliss.Buffers.Input.Contents.{contents, physical}
use pe_bliss.Buffers.Reader.{Reader}
use pe_bliss.Packed.CString.{deserialize_string, serialize_chars}
use pe_bliss.Packed.CString.Laws.{moved, deserialize_string_lem}

-- "Hi" and its end, of which the zero is virtual.
abbrev text : Reader
text = record { buffer = virtual (container (7 ∷ 72 ∷ 105 ∷ []) 0 0) 2 0 0; position = 1 }

abbrev chars : List ℕ
chars = 72 ∷ 105 ∷ []

deserialize_string_lem_example :
    ((more : List ℕ)
      → (0 ∷ 0 ∷ []) ≡ serialize 1 0 ++ more
      → 1 + 3 * 1 ≤ physical text.buffer
      → deserialize_string 1 text true 100
        ≡ ok (done (record { value = chars; virtual_nullbyte = false }, moved text (3 * 1))))
    × (1 + 2 * 1 ≡ physical text.buffer
        → 1 ≤ 2
        → deserialize_string 1 text true 100 ≡ (
            if true
            then ok (done (record { value = chars; virtual_nullbyte = true }, moved text (3 * 1)))
            else err (generic buffer_overrun)))
    × (◌≡◌ {A = List ℕ} (0 ∷ 0 ∷ []) []
        → deserialize_string 1 text true 100 ≡ err (generic buffer_overrun))
unfolding contents physical serialize_chars serialize
deserialize_string_lem_example =
    deserialize_string_lem 1 (omega arith) text chars (0 ∷ 0 ∷ []) true 100 (omega arith)
      (record { valid = (omega arith, omega arith); within = omega arith })
      ((omega arith, omega arith), ((omega arith, omega arith), tt)) refl (omega arith)
      (omega arith)
