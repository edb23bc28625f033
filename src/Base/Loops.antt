-- ===== src/Base/Loops.antt =====
-- Loops run on fuel: a run that ends, or one that has no fuel left.
pub data Run {ℓ} (A : Type ℓ) : Type ℓ where
  out_of_fuel : Run A
  done : (ended : A) → Run A
