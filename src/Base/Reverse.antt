-- ===== src/Base/Reverse.antt =====
-- The elements of a reversed list, and of the parts of a list.
use Prim.Native.Nat.{ℕ, zero, suc, ◌+◌, ◌<◌}
use mathlib.Core.Path.{◌≡◌, refl, ◌∙◌}
use mathlib.Core.Option.{some}
use native.Mathlib.Omega.{arith}
use mathlib.Core.List.{List, [], ◌∷◌, ◌++◌, reverse, reverse-cons}
use pe_bliss.Base.Lists.{get_elem?, length, take, length-append}

module _ {ℓ} {A : Type ℓ} where
  pub length-reverse : (xs : List A) → length (reverse xs) ≡ length xs
  length-reverse [] = refl
  length-reverse (x ∷ xs) =
      rw (reverse-cons x xs, length-append (reverse xs) (x ∷ []), length-reverse xs) (omega arith)

  pub get_elem?-append :
      (xs ys : List A) (i : ℕ) → i < length xs → get_elem? (xs ++ ys) i ≡ get_elem? xs i
  get_elem?-append [] ys i lt = absurd (omega arith)
  get_elem?-append (x ∷ xs) ys zero lt = refl
  get_elem?-append (x ∷ xs) ys (suc i) lt = get_elem?-append xs ys i (omega arith)

  pub get_elem?-append_last :
      (xs : List A) (x : A) (i : ℕ) → i ≡ length xs → get_elem? (xs ++ (x ∷ [])) i ≡ some x
  get_elem?-append_last [] x zero e = refl
  get_elem?-append_last [] x (suc i) e = absurd (omega arith)
  get_elem?-append_last (y ∷ xs) x zero e = absurd (omega arith)
  get_elem?-append_last (y ∷ xs) x (suc i) e = get_elem?-append_last xs x i (omega arith)

  pub get_elem?-reverse :
      (xs : List A) (i j : ℕ) → i + j + 1 ≡ length xs → get_elem? (reverse xs) i ≡ get_elem? xs j
  get_elem?-reverse [] i j e = absurd (omega arith)
  get_elem?-reverse (x ∷ xs) i zero e =
      rw (reverse-cons x xs)
        (get_elem?-append_last (reverse xs) x i (omega (arith, length-reverse xs)))
  get_elem?-reverse (x ∷ xs) i (suc j) e = rw (reverse-cons x xs) (
      get_elem?-append (reverse xs) (x ∷ []) i (omega (arith, length-reverse xs))
      ∙ get_elem?-reverse xs i j (omega arith))

  pub get_elem?-take :
      (n : ℕ) (xs : List A) (i : ℕ) → i < n → get_elem? (take n xs) i ≡ get_elem? xs i
  get_elem?-take zero xs i lt = absurd (omega arith)
  get_elem?-take (suc n) [] i lt = refl
  get_elem?-take (suc n) (x ∷ xs) zero lt = refl
  get_elem?-take (suc n) (x ∷ xs) (suc i) lt = get_elem?-take n xs i (omega arith)

  pub get_elem?-lt : (xs : List A) (i : ℕ) (x : A) → get_elem? xs i ≡ some x → i < length xs
  get_elem?-lt [] i x e = cc
  get_elem?-lt (y ∷ xs) zero x e = omega arith
  get_elem?-lt (y ∷ xs) (suc i) x e = omega (arith, get_elem?-lt xs i x e)
