-- ===== src/Errors/Ensures.antt =====
-- What a call ensures of the value that it returns.
use pe_bliss.Errors.{Error, Result, ok, err, ◌>>=◌, rethrow}

abbrev pub Ensures {ℓ κ} : {A : Type ℓ} → (A → Type κ) → Result A → Type κ
Ensures P (ok a) = P a
Ensures P (err e) = Unit

module _ {ℓ κ} {A : Type ℓ} (P : A → Type κ) where
  pub Ensures-bind {ℓ' κ'} :
      {B : Type ℓ'} (Q : B → Type κ') (m : Result A) (f : A → Result B)
      → Ensures P m
      → ((a : A) → P a → Ensures Q (f a))
      → Ensures Q (m >>= f)
  Ensures-bind Q (ok a) f p next = next a p
  Ensures-bind Q (err e) f p next = tt

  pub Ensures-rethrow : (m : Result A) (e : Error) → Ensures P m → Ensures P (rethrow m e)
  Ensures-rethrow (ok a) e p = p
  Ensures-rethrow (err _) e p = tt

-- What follows from what is ensured.
pub Ensures-map {ℓ κ κ'} :
    {A : Type ℓ} {P : A → Type κ} {Q : A → Type κ'} (m : Result A)
    → Ensures P m
    → ((a : A) → P a → Q a)
    → Ensures Q m
Ensures-map (ok a) p next = next a p
Ensures-map (err e) p next = tt

-- A bind of whose first value nothing is needed.
pub Ensures-bind_any {ℓ ℓ' κ'} :
    {A : Type ℓ} {B : Type ℓ'} (Q : B → Type κ') (m : Result A) (f : A → Result B)
    → ((a : A) → Ensures Q (f a))
    → Ensures Q (m >>= f)
Ensures-bind_any Q (ok a) f next = next a
Ensures-bind_any Q (err e) f next = tt

-- What holds of all values.
pub Ensures-all {ℓ κ} : {A : Type ℓ} (P : A → Type κ) (m : Result A) → ((a : A) → P a) → Ensures P m
Ensures-all P (ok a) p = p a
Ensures-all P (err e) p = tt
