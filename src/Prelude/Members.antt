-- ===== src/Prelude/Members.antt =====
-- Membership in lists, by the Boolean test, and the pigeonhole principle.
use Prim.Native.Nat.{suc, ◌≤◌}
use Prim.Native.String.{String}
use mathlib.Core.Path.{◌≡◌, refl}
use mathlib.Core.Logic.{inl, inr}
use mathlib.Core.Bool.{true, false, ◌||◌}
use mathlib.Core.Option.{none, some}
use mathlib.Core.List.{List, [], ◌∷◌}
use native.Mathlib.Omega.{arith}
use text.Mathlib.TextEquality.{eq_iff}
use couchbase_lite_tests.Prelude.Tests.{Eq, ◌==◌, string_eq, contains, if◌then◌else◌, Bool-cases}
use couchbase_lite_tests.Prelude.Lists.{length, All}
use couchbase_lite_tests.Prelude.Dict.{Dict, keys, lookup, insert, update, lookup-insert}

module _ {ℓ} {A : Type ℓ} ⦃e : Eq A⦄ where
  -- No element stands twice.
  abbrev pub Distinct : List A → Type 0
  Distinct [] = Unit
  Distinct (x ∷ xs) = (contains xs x ≡ false) × Distinct xs

  -- The list without the first occurrence of an element.
  remove_first : A → List A → List A
  remove_first x [] = []
  remove_first x (y ∷ ys) = let rest = remove_first x ys in if x == y then ys else y ∷ rest

  length-remove_first :
      (x : A) (ys : List A) → contains ys x ≡ true → length ys ≡ suc (length (remove_first x ys))
  unfolding remove_first
  length-remove_first x [] h = cc
  length-remove_first x (y ∷ ys) h =
      ground (arith, e.beq_iff x y, e.beq_iff y x, length-remove_first x ys)

  contains-remove_first :
      (x a : A) (ys : List A)
      → contains ys a ≡ (if x == a then contains ys a else contains (remove_first x ys) a)
  unfolding remove_first
  contains-remove_first x a [] = ground arith
  contains-remove_first x a (y ∷ ys) =
      ground (arith, e.beq_iff x y, e.beq_iff x a, e.beq_iff y a, contains-remove_first x a ys)

  others_kept :
      (x : A) (xs ys : List A)
      → contains xs x ≡ false
      → (b : A) → contains xs b ≡ true
      → contains ys b ≡ true
      → contains (remove_first x ys) b ≡ true
  others_kept x xs ys fresh b mb mys = elim (Bool-cases (x == b)) [
    | inl equal ↦
        let same : x ≡ b = (e.beq_iff x b).0 equal in
        let here : contains xs x ≡ true = rw same mb in cc (here, fresh)
    | inr n ↦ ground (arith, contains-remove_first x b ys)
  ]

  -- Where no element of the first list stands twice, each stands in the second list, and the second list
  -- is no longer, each element of the second list stands in the first.
  pub pigeonhole :
      (xs ys : List A)
      → Distinct xs
      → ((a : A) → contains xs a ≡ true → contains ys a ≡ true)
      → length ys ≤ length xs
      → (a : A) → contains ys a ≡ true
      → contains xs a ≡ true
  pigeonhole [] [] d sub short a m = m
  pigeonhole [] (y ∷ ys) d sub short a m = absurd (omega arith)
  pigeonhole (x ∷ xs) ys (fresh, d) sub short a m =
      let inside : contains ys x ≡ true = sub x (ground (arith, e.beq_iff x x)) in
      let others : (b : A) → contains xs b ≡ true → contains (remove_first x ys) b ≡ true =
        λ b mb. others_kept x xs ys fresh b mb (sub b (ground arith)) in
      elim (Bool-cases (x == a)) [
        | inl e ↦ rw e refl
        | inr n ↦ rw n (
            pigeonhole xs (remove_first x ys) d others
              (omega (arith, length-remove_first x ys inside)) a
              (ground (arith, contains-remove_first x a ys)))
      ]

-- A predicate of all elements is one of everything that the list contains.
pub All-of_contains {κ} :
    (P : String → Type κ) (xs : List String)
    → ((a : String) → contains xs a ≡ true → P a)
    → All P xs
All-of_contains P [] h = tt
All-of_contains P (x ∷ xs) h =
    (h x (ground (arith, eq_iff x x)), All-of_contains P xs (λ a m. h a (ground arith)))

pub contains_of_All {κ} :
    (P : String → Type κ) (xs : List String) → All P xs → (a : String) → contains xs a ≡ true → P a
contains_of_All P [] h a m = cc
contains_of_All P (x ∷ xs) (here, rest) a m = elim (Bool-cases (x == a)) [
  | inl e ↦ rw (← (eq_iff x a).0 e) here
  | inr n ↦ contains_of_All P xs rest a (rw n at m)
]

pub contains-keys {ℓ} :
    {V : Type ℓ} (a : String) (d : Dict V) → contains (keys d) a ≡ false → lookup a d ≡ none
unfolding lookup
contains-keys a [] h = refl
contains-keys a ((j, v) ∷ d) h = ground (arith, contains-keys a d)

pub contains-keys-insert {ℓ} :
    {V : Type ℓ} (a k : String) (v : V) (d : Dict V)
    → contains (keys (insert k v d)) a ≡ (k == a || contains (keys d) a)
unfolding insert
contains-keys-insert a k v [] = refl
contains-keys-insert a k v ((j, w) ∷ d) =
    ground (arith, eq_iff j k, eq_iff k a, eq_iff j a, contains-keys-insert a k v d)

lookup_of_not_contains {ℓ} :
    {V : Type ℓ} (k : String) (d : Dict V) → contains (keys d) k ≡ false → lookup k d ≡ none
unfolding lookup
lookup_of_not_contains k [] h = refl
lookup_of_not_contains k ((j, v) ∷ d) h = ground (arith, lookup_of_not_contains k d)

-- An entry of `d.update(e)` is that of `e`, or else that of `d`, where `e` has no key twice.
pub lookup-update {ℓ} :
    {V : Type ℓ} (j : String) (d e : Dict V)
    → Distinct (keys e)
    → lookup j (update d e) ≡ elim (lookup j e) [ none ↦ lookup j d | some v ↦ some v ]
unfolding lookup update
lookup-update j d [] h = refl
lookup-update j d ((k, v) ∷ e) h = ground (
  arith,
  lookup-update j (insert k v d) e h.1,
  lookup-insert j k v d,
  eq_iff k j,
  lookup_of_not_contains k e h.0,
)
