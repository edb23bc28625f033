-- ===== src/Packed/Struct/Fields.antt =====
-- The fields of a packed structure, by their place in its bytes
-- (include/pe_bliss2/detail/packed_serialization.h), and what a reader gives of a structure.
use native.Mathlib.Nat.{pow-suc, one-le-pow}
use pe_bliss.Base.{
  ℕ, zero, suc, ◌+◌, ◌-◌, ◌^◌, ◌≤◌, ◌<◌, ◌≡◌, refl, Bool, false, not, ◌&&◌, ◌⊎◌, inl, inr, List, [],
  ◌∷◌, arith, All, ◌!=◌, length, take, drop, min, length-take, dec_lt, Bool-cases,
}
use pe_bliss.Errors.{Error, ok, err, generic, buffer_overrun}
use pe_bliss.Errors.Ensures.{Ensures}
use pe_bliss.Buffers.Input.Contents.{contents, physical, IsValid, physical-le}
use pe_bliss.Buffers.Reader.{Reader}
use pe_bliss.Buffers.Copy.Laws.{part_of, read_inside, read_outside}
use pe_bliss.Packed.Struct.{deserialize, deserialize_struct}

-- A number of `width` bytes at an offset of a structure.
abbrev pub field : List ℕ → ℕ → ℕ → ℕ
field bytes offset width = deserialize (take width (drop offset bytes))

-- `count` numbers of `width` bytes each.
unfoldable pub field_array : List ℕ → ℕ → ℕ → ℕ → List ℕ
field_array bytes offset width zero = []
field_array bytes offset width (suc count) =
    field bytes offset width ∷ field_array bytes (offset + width) width count

abbrev pub IsByte : ℕ → Type 0
IsByte x = x < 256

pub deserialize-lt : (xs : List ℕ) → All IsByte xs → deserialize xs < 256 ^ length xs
unfolding deserialize
deserialize-lt [] all = omega arith
deserialize-lt (x ∷ xs) (byte, all) = omega (arith, deserialize-lt xs all, pow-suc 256 (length xs))

pub All-take {ℓ κ} :
    {A : Type ℓ} (P : A → Type κ) (n : ℕ) (xs : List A) → All P xs → All P (take n xs)
All-take P zero xs all = tt
All-take P (suc n) [] all = tt
All-take P (suc n) (x ∷ xs) (p, all) = (p, All-take P n xs all)

pub All-drop {ℓ κ} :
    {A : Type ℓ} (P : A → Type κ) (n : ℕ) (xs : List A) → All P xs → All P (drop n xs)
All-drop P zero xs all = all
All-drop P (suc n) [] all = tt
All-drop P (suc n) (x ∷ xs) (p, all) = All-drop P n xs all

pow_mono : (m n : ℕ) → m ≤ n → 256 ^ m ≤ 256 ^ n
pow_mono zero n h = one-le-pow n 256 (omega arith)
pow_mono (suc m) zero h = absurd (omega arith)
pow_mono (suc m) (suc n) h = omega (arith, pow_mono m n (omega arith), pow-suc 256 m, pow-suc 256 n)

-- A field is a word of its width.
pub field-lt :
    (bytes : List ℕ) (offset width : ℕ) → All IsByte bytes → field bytes offset width < 256 ^ width
field-lt bytes offset width all =
    let xs = take width (drop offset bytes) in
    omega (
      arith,
      deserialize-lt xs
          (All-take IsByte width (drop offset bytes) (All-drop IsByte offset bytes all)),
      pow_mono (length xs) width (omega (arith, length-take width (drop offset bytes))),
    )

-- A structure is read, or the read throws; the reader moves behind it.
pub deserialize_struct-cases :
    (r : Reader) (n : ℕ) (allow : Bool)
    → IsValid r.buffer
    → 0 < n
    → n < 2 ^ 64
    → ((k : ℕ) × (deserialize_struct r n allow
          ≡ ok ((k, part_of r n), record r { position = r.position + n }))
        × (r.position + n ≤ length (contents r.buffer)))
      ⊎ ((e : Error) × (deserialize_struct r n allow ≡ err e))
unfolding deserialize_struct
deserialize_struct-cases r n allow v some_bytes word =
    elim (dec_lt (length (contents r.buffer)) (r.position + n)) [
      | yes outside ↦ inr (generic buffer_overrun, rw (read_outside r n v some_bytes word outside))
      | no inside ↦
          let k = min n (physical r.buffer - r.position) in
          rw (read_inside r n v some_bytes (omega arith)) (elim (Bool-cases (not allow && k != n)) [
            | inl short ↦ rw short (inr (generic buffer_overrun, refl))
            | inr fine ↦ rw fine (inl (k, refl, omega arith))
          ])
    ]

-- What is read of a buffer of bytes: bytes, and the reader stays at the buffer.
pub deserialize_struct-Ensures :
    (r : Reader) (n : ℕ) (allow : Bool)
    → IsValid r.buffer
    → All IsByte (contents r.buffer)
    → 0 < n
    → n < 2 ^ 64
    → Ensures (λ got. All IsByte got.0.1 × (got.1.buffer ≡ r.buffer)) (deserialize_struct r n allow)
deserialize_struct-Ensures r n allow v bytes some_bytes word =
    elim (deserialize_struct-cases r n allow v some_bytes word) [
      | inl (k, read_ok, within) ↦ rw read_ok (
        All-take IsByte n (drop r.position (contents r.buffer))
            (All-drop IsByte r.position (contents r.buffer) bytes),
        refl,
      )
      | inr (e, failed) ↦ rw failed tt
    ]

-- A structure whose bytes are all in the file is read.
pub deserialize_struct-inside :
    (r : Reader) (n : ℕ) (allow : Bool)
    → IsValid r.buffer
    → 0 < n
    → r.position + n ≤ physical r.buffer
    → deserialize_struct r n allow ≡ ok ((n, part_of r n), record r { position = r.position + n })
unfolding deserialize_struct
deserialize_struct-inside r n allow v some_bytes in_file =
    let whole : min n (physical r.buffer - r.position) ≡ n = omega arith in
    let real : (not allow && n != n) ≡ false = ground arith in
    rw (read_inside r n v some_bytes (omega (arith, physical-le r.buffer)), whole, real)
