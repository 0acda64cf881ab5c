-- ===== src/Json/Equivalent.antt =====
-- `json_equivalent` of client/src/cbltest/jsonhelper.py. What it logs is not modelled.
pub mod Preorder
use couchbase_lite_tests.Prelude.{
  ℕ, suc, ◌≡◌, refl, Bool, true, false, ◌&&◌, ◌||◌, not, Option, none, some, List, String, ◌==◌,
  arith, int_eq, nat_eq, string_eq, int_beq_iff, of_bool, ℤ, pos, negsuc, int_beq, eq_iff,
  if◌then◌else◌, ap, Option-cases, inl, inr,
}
use couchbase_lite_tests.Prelude.Dict.{Dict, lookup, has_key, lookup_of_not_has_key}
use couchbase_lite_tests.Json.{
  Value, null, bool, int, str, arr, obj, Items, nil, cons, Fields, end, field, to_dict,
}

-- Python's `==` with a scalar on the left.
abbrev pub scalar_eq : Value → Value → Bool
scalar_eq null null = true
scalar_eq (bool a) (bool b) = of_bool a == of_bool b
scalar_eq (bool a) (int n) = of_bool a == n
scalar_eq (int n) (bool b) = n == of_bool b
scalar_eq (int n) (int m) = n == m
scalar_eq (str s) (str t) = s == t
scalar_eq _ _ = false

abbrev pub count : Items → ℕ
count nil = 0
count (cons x xs) = suc (count xs)

-- A key that the right `dict` lacks is a difference.
abbrev pub equivalent_entry : (Value → Bool) → Option Value → Bool
equivalent_entry same none = false
equivalent_entry same (some w) = same w

-- The loop over the keys of the left `dict`, and over the indices of two lists.
unfoldable mutual
  pub json_equivalent : Value → Value → Bool
  json_equivalent (obj fs) (obj gs) = equivalent_fields fs (to_dict gs)
  json_equivalent (obj fs) _ = false
  json_equivalent (arr xs) (arr ys) = count xs == count ys && equivalent_items xs ys
  json_equivalent (arr xs) _ = false
  json_equivalent left right = scalar_eq left right

  pub equivalent_fields : Fields → Dict Value → Bool
  equivalent_fields end right = true
  equivalent_fields (field key v fs) right =
      equivalent_entry (json_equivalent v) (lookup key right) && equivalent_fields fs right

  pub equivalent_items : Items → Items → Bool
  equivalent_items nil ys = true
  equivalent_items (cons x xs) nil = false
  equivalent_items (cons x xs) (cons y ys) = json_equivalent x y && equivalent_items xs ys
