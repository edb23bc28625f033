-- ===== src/Packed/Struct/Numbers.antt =====
-- About numbers and their bytes.
use native.Mathlib.Nat.{pow-suc}
use pe_bliss.Base.{ℕ, zero, suc, ◌/◌, ◌^◌, ◌<◌, ◌≡◌, refl, ap, arith, length}
use pe_bliss.Packed.Struct.{deserialize, serialize}

pub length-serialize : (n v : ℕ) → length (serialize n v) ≡ n
unfolding serialize
length-serialize zero v = refl
length-serialize (suc n) v = ap suc (length-serialize n (v / 256))

pub deserialize-serialize : (n v : ℕ) → v < 256 ^ n → deserialize (serialize n v) ≡ v
unfolding deserialize serialize
deserialize-serialize zero v h = omega arith
deserialize-serialize (suc n) v h =
    let rest = deserialize-serialize n (v / 256) (omega (arith, pow-suc 256 n)) in
    omega (arith, rest)
