-- ===== src/Buffers/Input/Contents.antt =====
-- The abstract view of a buffer: its bytes, virtual ones included, and how many are physical.
use native.Mathlib.Nat.{mod-eq_of_lt, add-mod_right}
use pe_bliss.Base.{
  ℕ, ◌+◌, ◌-◌, ◌^◌, ◌≤◌, ◌<◌, ◌≡◌, refl, List, ◌++◌, arith, length, take, drop, replicate, min,
  length-take, length-drop, length-append, length-replicate,
}
use pe_bliss.Buffers.Input.{Buffer, container, section, virtual, size, virtual_size, physical_size}

unfoldable pub contents : Buffer → List ℕ
contents (container bytes _ _) = bytes
contents (section buf offset sz _ _ _) = take sz (drop offset (contents buf))
contents (virtual buf additional _ _) = contents buf ++ replicate additional 0

unfoldable pub physical : Buffer → ℕ
physical (container bytes _ _) = length bytes
physical (section buf offset sz _ _ _) = min sz (physical buf - offset)
physical (virtual buf _ _ _) = physical buf

-- Sizes are words, a section lies in its buffer, and counts the virtual bytes at its end.
abbrev pub IsValid : Buffer → Type 0
IsValid (container bytes _ _) = length bytes < 2 ^ 64
IsValid (section buf offset sz virt _ _) =
    IsValid buf
    × (offset + sz ≤ length (contents buf))
    × (virt ≡ min (offset + sz - physical buf) sz)
IsValid (virtual buf additional _ _) = IsValid buf × (length (contents buf) + additional < 2 ^ 64)

pub length-contents-lt : (b : Buffer) → IsValid b → length (contents b) < 2 ^ 64
unfolding contents
length-contents-lt (container bytes _ _) v = v
length-contents-lt (section b offset sz virt _ _) (v, fits, e) = omega (
  arith,
  length-take sz (drop offset (contents b)),
  length-drop offset (contents b),
  length-contents-lt b v,
)
length-contents-lt (virtual b additional _ _) (v, fits) = omega (
  arith,
  length-append (contents b) (replicate additional 0),
  length-replicate {A = ℕ} additional 0,
)

-- The methods `size` and `virtual_size` measure the abstract view.
pub size-length : (b : Buffer) → IsValid b → size b ≡ length (contents b)
unfolding size contents
size-length (container bytes _ _) v = refl
size-length (section b offset sz virt _ _) (v, fits, e) =
    omega (arith, length-take sz (drop offset (contents b)), length-drop offset (contents b))
size-length (virtual b additional _ _) (v, fits) =
    rw (size-length b v, mod-eq_of_lt fits)
      (omega (
        arith,
        length-append (contents b) (replicate additional 0),
        length-replicate {A = ℕ} additional 0,
      ))

pub physical-le : (b : Buffer) → physical b ≤ length (contents b)
unfolding physical contents
physical-le (container bytes _ _) = omega arith
physical-le (section b offset sz virt _ _) = omega (
  arith,
  length-take sz (drop offset (contents b)),
  length-drop offset (contents b),
  physical-le b,
)
physical-le (virtual b additional _ _) =
    omega (arith, length-append (contents b) (replicate additional 0), physical-le b)

pub virtual_size_lem : (b : Buffer) → IsValid b → virtual_size b + physical b ≡ length (contents b)
unfolding virtual_size physical contents
virtual_size_lem (container bytes _ _) v = omega arith
virtual_size_lem (section b offset sz virt _ _) (v, fits, e) = omega (
  arith,
  length-take sz (drop offset (contents b)),
  length-drop offset (contents b),
  physical-le b,
)
virtual_size_lem (virtual b additional _ _) (v, fits) =
    let below = virtual_size_lem b v in
    let word : virtual_size b + additional < 2 ^ 64 = omega arith in
    rw (mod-eq_of_lt word) (
      omega (
        arith,
        length-append (contents b) (replicate additional 0),
        length-replicate {A = ℕ} additional 0,
      ))

pub physical_size_lem : (b : Buffer) → IsValid b → physical_size b ≡ physical b
unfolding physical_size
physical_size_lem b v =
    let total = virtual_size_lem b v in
    let shifted : size b + 2 ^ 64 - virtual_size b ≡ physical b + 2 ^ 64 =
      omega (arith, size-length b v) in
    rw (shifted, add-mod_right)
      (mod-eq_of_lt (omega (arith, physical-le b, length-contents-lt b v)))
