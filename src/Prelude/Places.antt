-- ===== src/Prelude/Places.antt =====
-- What stands at a place of a list that has grown or in which one place was written.
use Prim.Native.Nat.{ℕ, zero, suc}
use mathlib.Core.Path.{◌≡◌, refl}
use mathlib.Core.Logic.{◌≢◌, ◌⊎◌, inl, inr}
use mathlib.Core.Option.{some}
use mathlib.Core.List.{List, [], ◌∷◌, ◌++◌}
use native.Mathlib.Omega.{arith}
use couchbase_lite_tests.Prelude.Lists.{length, get_elem?}

-- `xs[i] = x` for an `i` in range
unfoldable pub set_at {ℓ} : {A : Type ℓ} → ℕ → A → List A → List A
set_at i x [] = []
set_at zero x (y ∷ xs) = x ∷ xs
set_at (suc i) x (y ∷ xs) = y ∷ set_at i x xs

module _ {ℓ} {A : Type ℓ} where
  -- Writing one place of a list leaves the others.
  pub get-set_at :
      (xs : List A) (i j : ℕ) (x y : A)
      → get_elem? (set_at i x xs) j ≡ some y
      → ((i ≡ j) × (x ≡ y)) ⊎ ((i ≢ j) × (get_elem? xs j ≡ some y))
  unfolding set_at
  get-set_at [] i j x y h = cc
  get-set_at (z ∷ xs) zero zero x y h = inl (refl, cc)
  get-set_at (z ∷ xs) zero (suc j) x y h = inr (omega arith, h)
  get-set_at (z ∷ xs) (suc i) zero x y h = inr (omega arith, h)
  get-set_at (z ∷ xs) (suc i) (suc j) x y h = elim (get-set_at xs i j x y h) [
    | inl (e, v) ↦ inl (omega arith, v)
    | inr (n, v) ↦ inr (omega arith, v)
  ]

  pub length-set_at : (xs : List A) (i : ℕ) (x : A) → length (set_at i x xs) ≡ length xs
  unfolding set_at
  length-set_at [] i x = refl
  length-set_at (z ∷ xs) zero x = refl
  length-set_at (z ∷ xs) (suc i) x = omega (arith, length-set_at xs i x)

  pub get-append :
      (xs : List A) (x y : A) (i : ℕ)
      → get_elem? (xs ++ x ∷ []) i ≡ some y
      → (get_elem? xs i ≡ some y) ⊎ ((i ≡ length xs) × (x ≡ y))
  get-append [] x y zero h = inr (refl, cc)
  get-append [] x y (suc i) h = cc
  get-append (z ∷ xs) x y zero h = inl h
  get-append (z ∷ xs) x y (suc i) h = elim (get-append xs x y i h) [
    | inl e ↦ inl e
    | inr (e, v) ↦ inr (omega arith, v)
  ]

  pub get_old :
      (xs ys : List A) (x : A) (i : ℕ) → get_elem? xs i ≡ some x → get_elem? (xs ++ ys) i ≡ some x
  get_old [] ys x i h = cc
  get_old (z ∷ xs) ys x zero h = h
  get_old (z ∷ xs) ys x (suc i) h = get_old xs ys x i h

  pub get_last : (xs : List A) (x : A) → get_elem? (xs ++ x ∷ []) (length xs) ≡ some x
  get_last [] x = refl
  get_last (z ∷ xs) x = get_last xs x
