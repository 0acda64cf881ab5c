-- ===== src/Json/Equivalent/Preorder.antt =====
-- `json_equivalent` is a preorder: the left value is found again inside the right one.
use mathlib.Core.Option.{some-injective}
use couchbase_lite_tests.Prelude.{
  ◌≡◌, refl, Bool, true, false, Option, none, some, String, ◌∷◌, ◌==◌, arith, nat_eq, string_eq,
  int_beq_iff, eq_iff, Option-cases, inl, inr, of_bool, Bool-cases, &&-left, &&-right, &&-intro,
  nat_beq_trans,
}
use couchbase_lite_tests.Prelude.Dict.{Dict, lookup, has_key}
use couchbase_lite_tests.Json.{
  Value, null, bool, int, str, arr, obj, Items, nil, cons, Fields, end, field, to_dict,
}
use couchbase_lite_tests.Json.Equivalent.{
  scalar_eq, count, equivalent_entry, json_equivalent, equivalent_fields, equivalent_items,
}

-- A value that Python can hold: no `dict` has a key twice, at any depth.
abbrev mutual
  pub IsPython : Value → Type 0
  IsPython (arr xs) = IsPythonItems xs
  IsPython (obj fs) = IsPythonFields fs
  IsPython _ = Unit

  pub IsPythonItems : Items → Type 0
  IsPythonItems nil = Unit
  IsPythonItems (cons x xs) = IsPython x × IsPythonItems xs

  pub IsPythonFields : Fields → Type 0
  IsPythonFields end = Unit
  IsPythonFields (field k v fs) = (has_key k (to_dict fs) ≡ false) × IsPython v × IsPythonFields fs

-- Every entry is what the dictionary holds under its key.
abbrev Agrees : Fields → Dict Value → Type 0
Agrees end d = Unit
Agrees (field k v fs) d = (lookup k d ≡ some v) × Agrees fs d

Agrees-cons :
    (fs : Fields) (d : Dict Value) (k : String) (v : Value)
    → has_key k (to_dict fs) ≡ false
    → Agrees fs d
    → Agrees fs ((k, v) ∷ d)
unfolding lookup has_key
Agrees-cons end d k v absent h = tt
Agrees-cons (field j w fs) d k v absent (here, rest) =
    (ground (arith, eq_iff j k, eq_iff k j), Agrees-cons fs d k v (ground arith) rest)

Agrees-self : (fs : Fields) → IsPythonFields fs → Agrees fs (to_dict fs)
unfolding lookup
Agrees-self end u = tt
Agrees-self (field k v fs) (absent, _, u) =
    (ground (arith, eq_iff k k), Agrees-cons fs (to_dict fs) k v absent (Agrees-self fs u))

count_self : (xs : Items) → (count xs == count xs) ≡ true
count_self xs = ground arith

mutual
  unfolding json_equivalent

  equivalent_self : (v : Value) → IsPython v → json_equivalent v v ≡ true
  equivalent_self null u = refl
  equivalent_self (bool b) u = ground (arith, int_beq_iff (of_bool b) (of_bool b))
  equivalent_self (int n) u = ground (arith, int_beq_iff n n)
  equivalent_self (str s) u = ground (arith, eq_iff s s)
  equivalent_self (arr xs) u = ground (arith, equivalent_items_self xs u)
  equivalent_self (obj fs) u = equivalent_fields_self fs (to_dict fs) u (Agrees-self fs u)

  equivalent_items_self : (xs : Items) → IsPythonItems xs → equivalent_items xs xs ≡ true
  equivalent_items_self nil u = refl
  equivalent_items_self (cons x xs) (ux, us) =
      ground (arith, equivalent_self x ux, equivalent_items_self xs us)

  equivalent_fields_self :
      (fs : Fields) (d : Dict Value)
      → IsPythonFields fs
      → Agrees fs d
      → equivalent_fields fs d ≡ true
  equivalent_fields_self end d u h = refl
  equivalent_fields_self (field k v fs) d (_, uv, us) (here, rest) =
      rw (here, equivalent_self v uv) (equivalent_fields_self fs d us rest)

-- Every value that Python can hold is equivalent to itself.
pub json_equivalent_refl : (v : Value) → IsPython v → json_equivalent v v ≡ true
json_equivalent_refl v u = equivalent_self v u

scalar_eq_trans :
    (a b c : Value) → scalar_eq a b ≡ true → scalar_eq b c ≡ true → scalar_eq a c ≡ true
scalar_eq_trans null null c h k = k
scalar_eq_trans (bool a) (bool b) (bool c) h k = ground arith
scalar_eq_trans (bool a) (bool b) (int c) h k = ground arith
scalar_eq_trans (bool a) (int b) (bool c) h k = ground arith
scalar_eq_trans (bool a) (int b) (int c) h k =
    ground (arith, int_beq_iff b c, int_beq_iff (of_bool a) b)
scalar_eq_trans (int a) (bool b) (bool c) h k = ground arith
scalar_eq_trans (int a) (bool b) (int c) h k =
    ground (arith, int_beq_iff a (of_bool b), int_beq_iff (of_bool b) c)
scalar_eq_trans (int a) (int b) (bool c) h k = ground (arith, int_beq_iff a b)
scalar_eq_trans (int a) (int b) (int c) h k = ground (arith, int_beq_iff a b, int_beq_iff b c)
scalar_eq_trans (str a) (str b) (str c) h k = ground (arith, eq_iff a b, eq_iff b c)
scalar_eq_trans _ _ _ h k = cc

-- What the right side of a `dict` comparison holds under a key of the left side.
entry_of_lookup :
    (fs : Fields) (d : Dict Value) (k : String) (w : Value)
    → equivalent_fields fs d ≡ true
    → lookup k (to_dict fs) ≡ some w
    → equivalent_entry (json_equivalent w) (lookup k d) ≡ true
unfolding json_equivalent lookup
entry_of_lookup end d k w h found = cc
entry_of_lookup (field j v fs) d k w h found = elim (Bool-cases (j == k)) [
  | inl same ↦
      let here : some v ≡ some w = rw same at found in
      rw (← (eq_iff j k).0 same, ← some-injective v w here) (&&-left _ (equivalent_fields fs d) h)
  | inr other ↦
      entry_of_lookup fs d k w (&&-right (equivalent_entry (json_equivalent v) (lookup j d)) _ h)
        (rw other at found)
]

entry_trans :
    (near far : Value → Bool) (o : Option Value)
    → ((u : Value) → far u ≡ true → near u ≡ true)
    → equivalent_entry far o ≡ true
    → equivalent_entry near o ≡ true
entry_trans near far none t h = h
entry_trans near far (some u) t h = t u h

mutual
  unfolding json_equivalent

  equivalent_trans :
      (a b c : Value)
      → json_equivalent a b ≡ true
      → json_equivalent b c ≡ true
      → json_equivalent a c ≡ true
  equivalent_trans (obj fs) (obj gs) (obj hs) h k = equivalent_fields_trans fs gs (to_dict hs) h k
  equivalent_trans (obj fs) (obj gs) c h k = k
  equivalent_trans (obj fs) b c h k = cc
  equivalent_trans (arr xs) (arr ys) (arr zs) h k =
      &&-intro _ _
        (nat_beq_trans (count xs) (count ys) (count zs) (&&-left _ (equivalent_items xs ys) h)
          (&&-left _ (equivalent_items ys zs) k))
        (equivalent_items_trans xs ys zs (&&-right (count xs == count ys) _ h)
          (&&-right (count ys == count zs) _ k))
  equivalent_trans (arr xs) (arr ys) c h k = k
  equivalent_trans (arr xs) b c h k = cc
  equivalent_trans a (obj gs) c h k = ground arith
  equivalent_trans a (arr ys) c h k = ground arith
  equivalent_trans a b c h k = scalar_eq_trans a b c h k

  equivalent_items_trans :
      (xs ys zs : Items)
      → equivalent_items xs ys ≡ true
      → equivalent_items ys zs ≡ true
      → equivalent_items xs zs ≡ true
  equivalent_items_trans nil ys zs h k = refl
  equivalent_items_trans (cons x xs) nil zs h k = cc
  equivalent_items_trans (cons x xs) (cons y ys) nil h k = k
  equivalent_items_trans (cons x xs) (cons y ys) (cons z zs) h k =
      &&-intro _ _
        (equivalent_trans x y z (&&-left _ (equivalent_items xs ys) h)
          (&&-left _ (equivalent_items ys zs) k))
        (equivalent_items_trans xs ys zs (&&-right (json_equivalent x y) _ h)
          (&&-right (json_equivalent y z) _ k))

  equivalent_fields_trans :
      (fs gs : Fields) (d : Dict Value)
      → equivalent_fields fs (to_dict gs) ≡ true
      → equivalent_fields gs d ≡ true
      → equivalent_fields fs d ≡ true
  equivalent_fields_trans end gs d h k = refl
  equivalent_fields_trans (field key v fs) gs d h k =
      elim (Option-cases (lookup key (to_dict gs))) [
        | inl absent ↦
            let here =
              &&-left (equivalent_entry (json_equivalent v) (lookup key (to_dict gs)))
                (equivalent_fields fs (to_dict gs)) h in
            let missing : false ≡ true = rw absent at here in cc
        | inr (w, found) ↦
            let here =
              &&-left (equivalent_entry (json_equivalent v) (lookup key (to_dict gs)))
                (equivalent_fields fs (to_dict gs)) h in
            let same : json_equivalent v w ≡ true = rw found at here in
            &&-intro _ _
              (entry_trans (json_equivalent v) (json_equivalent w) (lookup key d)
                (λ u t. equivalent_trans v w u same t) (entry_of_lookup gs d key w k found))
              (equivalent_fields_trans fs gs d
                (&&-right (equivalent_entry (json_equivalent v) (lookup key (to_dict gs))) _ h) k)
      ]

-- Equivalence passes on from the left to the right: a value that is found inside a second one,
-- which is found inside a third one, is found inside the third one.
pub json_equivalent_trans :
    (a b c : Value)
    → json_equivalent a b ≡ true
    → json_equivalent b c ≡ true
    → json_equivalent a c ≡ true
json_equivalent_trans a b c h k = equivalent_trans a b c h k
