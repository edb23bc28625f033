-- ===== src/Packed/CString/Laws.antt =====
-- About a string that is read.
use native.Mathlib.Nat.{suc-mul, one-le-pow}
use mathlib.Core.List.{append_assoc, append-nil}
use pe_bliss.Base.{
  ℕ, zero, suc, ◌+◌, ◌-◌, ◌*◌, ◌^◌, ◌≤◌, ◌<◌, ◌≡◌, refl, ap, sym, ◌∙◌, subst, Bool, true, false,
  List, [], ◌∷◌, ◌++◌, arith, All, ltb, ◌==◌, if◌then◌else◌, length, take, drop, min, length-drop,
  le→ltb,
}
use pe_bliss.Base.Slices.{drop-drop, drop-length_append, take-length_append}
use pe_bliss.Base.Loops.{done}
use pe_bliss.Packed.Struct.Numbers.{deserialize-serialize, length-serialize}
use pe_bliss.Errors.{ok, err, ◌>>=◌, generic, buffer_overrun}
use pe_bliss.Buffers.Input
use pe_bliss.Buffers.Input.Contents.{contents, physical, IsValid, physical-le, size-length}
use pe_bliss.Buffers.Reader.{Reader, read, size}
use pe_bliss.Buffers.Reader.Laws.{IsPositioned}
use pe_bliss.Buffers.Copy.Laws.{part_of, read_inside, read_outside}
use pe_bliss.Packed.Struct.{deserialize, serialize}
use pe_bliss.Packed.CString.{
  in_virtual, scan_char, scan, end_string, deserialize_string, serialize_chars,
}

-- A character that ends no string.
abbrev pub IsChar : ℕ → ℕ → Type 0
IsChar width ch = (0 < ch) × (ch < 256 ^ width)

-- The bytes of the reader's buffer from its position on.
abbrev pub ahead : Reader → List ℕ
ahead r = drop r.position (contents r.buffer)

abbrev pub moved : Reader → ℕ → Reader
moved r n = record r { position = r.position + n }

pub ahead-moved :
    (r : Reader) (xs ys : List ℕ) → ahead r ≡ xs ++ ys → ahead (moved r (length xs)) ≡ ys
ahead-moved r xs ys e =
    let order : r.position + length xs ≡ length xs + r.position = omega arith in
    ap (λ n. drop n (contents r.buffer)) order
    ∙ sym (drop-drop (length xs) r.position (contents r.buffer))
    ∙ ap (drop (length xs)) e
    ∙ drop-length_append xs ys

le-mul : (n w : ℕ) → 0 < w → n ≤ n * w
le-mul zero w h = omega arith
le-mul (suc n) w h = omega (arith, le-mul n w h, suc-mul n w)

module _ (width : ℕ) (some_bytes : 0 < width) where
  -- A character of the file that is read.
  read_char :
      (r : Reader) (ch : ℕ) (rest : List ℕ)
      → IsValid r.buffer
      → ahead r ≡ serialize width ch ++ rest
      → r.position + width ≤ physical r.buffer
      → (read r width ≡ ok ((width, serialize width ch), moved r width))
        × (ahead (moved r width) ≡ rest)
  read_char r ch rest v e fits =
      let le = physical-le r.buffer in
      let size = length-serialize width ch in
      let real : min width (physical r.buffer - r.position) ≡ width = omega arith in
      let shown : take width (ahead r) ≡ serialize width ch =
        ap (take width) e
        ∙ subst (λ n. take n (serialize width ch ++ rest) ≡ serialize width ch) size
            (take-length_append (serialize width ch) rest) in
      (
        read_inside r width v some_bytes (omega arith) ∙ rw (real, shown),
        subst (λ n. ahead (moved r n) ≡ rest) size (ahead-moved r (serialize width ch) rest e),
      )

  scan-chars :
      (chars : List ℕ) (fuel : ℕ) (r : Reader) (max : ℕ) (value rest : List ℕ)
      → All (IsChar width) chars
      → IsValid r.buffer
      → ahead r ≡ serialize_chars width chars ++ rest
      → r.position + length chars * width ≤ physical r.buffer
      → length chars * width ≤ max
      → (scan (length chars + fuel) width r max value
          ≡ scan fuel width
              (moved r (length chars * width))
              (max - length chars * width)
              (value ++ chars))
        × (ahead (moved r (length chars * width)) ≡ rest)
  unfolding scan scan_char serialize_chars
  scan-chars [] fuel r max value rest all v e fits enough =
      let nothing : 0 * width ≡ 0 = omega arith in
      let stay : r.position + 0 * width ≡ r.position = omega arith in
      let left : max - 0 * width ≡ max = omega arith in
      let begin : 0 + fuel ≡ fuel = omega arith in
      (rw (begin, stay, left, append-nil value), rw stay e)
  scan-chars (ch ∷ chars) fuel r max value rest (is, all) v e fits enough =
      let total = suc-mul (length chars) width in
      let tail = serialize_chars width chars ++ rest in
      let parts = e ∙ append_assoc (serialize width ch) (serialize_chars width chars) rest in
      let (got, behind) = read_char r ch tail v parts (omega arith) in
      let (run, last) =
        scan-chars chars fuel (moved r width) (max - width) (value ++ (ch ∷ [])) rest all v behind
          (omega arith) (omega arith) in
      let full : (width == width) ≡ true = ground arith in
      let room : ltb max width ≡ false = le→ltb max width (omega arith) in
      let not_end : (ch == 0) ≡ false = ground arith in
      let begin : suc (length chars) + fuel ≡ suc (length chars + fuel) = omega arith in
      let end : r.position + suc (length chars) * width
          ≡ r.position + width + length chars * width =
        omega arith in
      let left : max - suc (length chars) * width ≡ max - width - length chars * width =
        omega arith in
      (
        rw (begin, end, left, got, deserialize-serialize width ch is.1)
            (rw (full, room, not_end)
              (run
                ∙ ap
                    (scan fuel width (moved (moved r width) (length chars * width))
                      (max - width - length chars * width))
                    (append_assoc value (ch ∷ []) chars))),
        rw end last,
      )

  -- The scan behind the characters.
  scan_behind :
      (chars : List ℕ) (r : Reader) (max : ℕ) (rest : List ℕ)
      → All (IsChar width) chars
      → IsValid r.buffer
      → ahead r ≡ serialize_chars width chars ++ rest
      → r.position + length chars * width ≤ physical r.buffer
      → length chars * width ≤ max
      → (k : ℕ) × (scan (suc (size r)) width r max []
          ≡ scan (suc k) width (moved r (length chars * width)) (max - length chars * width) chars)
        × (ahead (moved r (length chars * width)) ≡ rest)
  unfolding size
  scan_behind chars r max rest all v e fits enough =
      let le = physical-le r.buffer in
      let short = le-mul (length chars) width some_bytes in
      let k = length (contents r.buffer) - length chars in
      let fuel : suc (Input.size r.buffer) ≡ length chars + suc k =
        omega (arith, size-length r.buffer v) in
      let (run, behind) = scan-chars chars (suc k) r max [] rest all v e fits enough in
      (k, rw fuel run, behind)

  scan-suc :
      (k : ℕ) (r : Reader) (max : ℕ) (value : List ℕ)
      → scan (suc k) width r max value ≡ (read r width >>= scan_char (scan k width) width max value)
  unfolding scan
  scan-suc k r max value = refl

  -- The end of a string at virtual bytes.
  virtual_end :
      (allow : Bool) (chars : List ℕ) (after : Reader) (left ch : ℕ)
      → width ≤ left
      → (end_string width allow (in_virtual chars after left 0 ch) >>= λ r. ok (done r)) ≡ (
          if allow
          then ok (done (record { value = chars; virtual_nullbyte = true }, after))
          else err (generic buffer_overrun))
  unfolding end_string
  virtual_end true chars after left ch h = rw (le→ltb left width h)
  virtual_end false chars after left ch h = refl

  -- For a reader that stands in its valid buffer, before characters that are not zero and are all
  -- in the file, and a limit of characters and zero: a zero of the file behind them ends the
  -- string; if they end where the virtual bytes begin, the zero is virtual, and the string is
  -- refused if virtual data is not allowed; if they end with the buffer, it is an overrun.
  pub deserialize_string_lem :
      (r : Reader) (chars rest : List ℕ) (allow : Bool) (max : ℕ)
      → width < 2 ^ 31
      → IsPositioned r
      → All (IsChar width) chars
      → ahead r ≡ serialize_chars width chars ++ rest
      → r.position + length chars * width ≤ physical r.buffer
      → suc (length chars) * width ≤ max
      → ((more : List ℕ)
          → rest ≡ serialize width 0 ++ more
          → r.position + suc (length chars) * width ≤ physical r.buffer
          → deserialize_string width r allow max
            ≡ ok (
                done (
                  record { value = chars; virtual_nullbyte = false },
                  moved r (suc (length chars) * width),
                )))
        × (r.position + length chars * width ≡ physical r.buffer
            → width ≤ length rest
            → deserialize_string width r allow max ≡ (
                if allow
                then ok (
                    done (
                      record { value = chars; virtual_nullbyte = true },
                      moved r (suc (length chars) * width),
                    ))
                else err (generic buffer_overrun)))
        × (rest ≡ [] → deserialize_string width r allow max ≡ err (generic buffer_overrun))
  unfolding deserialize_string scan_char end_string
  deserialize_string_lem r chars rest allow max word p all e fits enough =
      let total = suc-mul (length chars) width in
      let v = p.valid in
      let at = moved r (length chars * width) in
      let left = max - length chars * width in
      let (k, run, behind) = scan_behind chars r max rest all v e fits (omega arith) in
      let end : r.position + length chars * width + width
          ≡ r.position + suc (length chars) * width =
        omega arith in
      let room : ltb left width ≡ false = le→ltb left width (omega arith) in
      (
        λ more is_end within.
            let (got, next) = read_char at 0 more v (behind ∙ is_end) (omega arith) in
            let full : (width == width) ≡ true = ground arith in
            let zero_read = deserialize-serialize width 0 (one-le-pow width 256 (omega arith)) in
            rw (run, scan-suc k at left chars, got)
              (rw (full, room, zero_read)
                (ap
                  (λ n. ok (
                    done (
                      record { value = chars; virtual_nullbyte = false },
                      record r { position = n },
                    )))
                  end)),
        λ at_end long.
            let inside : r.position + length chars * width + width ≤ length (contents r.buffer) =
              omega (
                arith,
                ap length behind,
                length-drop (r.position + length chars * width) (contents r.buffer),
              ) in
            let none_real : min width (physical r.buffer - (r.position + length chars * width))
                ≡ 0 =
              omega arith in
            let not_full : (0 == width) ≡ false = ground arith in
            rw (run, scan-suc k at left chars, read_inside at width v some_bytes inside, none_real)
              (rw not_full (
                virtual_end allow chars (moved at width) left (deserialize (part_of at width))
                  (omega arith)
                ∙ ap
                    (λ n.
                      if allow
                      then ok (
                          done (
                            record { value = chars; virtual_nullbyte = true },
                            record r { position = n },
                          ))
                      else err (generic buffer_overrun))
                    end)),
        λ is_nil.
            let le = physical-le r.buffer in
            let ends = ap length (behind ∙ is_nil) in
            let outside : length (contents r.buffer) < r.position + length chars * width + width =
              omega (
                arith,
                ends,
                length-drop (r.position + length chars * width) (contents r.buffer),
              ) in
            rw (
              run,
              scan-suc k at left chars,
              read_outside at width v some_bytes (omega arith) outside,
            ),
      )
