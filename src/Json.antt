-- ===== src/Json.antt =====
-- JSON values as Python reads them, and the typed reads of client/src/cbltest/jsonhelper.py. A number
-- is an `int`: the harness reads no fraction. A `dict` keeps its entries in the order of insertion.
pub mod Equivalent
pub mod Reading
use couchbase_lite_tests.Prelude.{
  ◌≡◌, refl, ap, Bool, true, false, not, pos, List, [], ◌∷◌, Option, none, some, String, ℤ, of_bool,
  ◌==◌, int_eq, string_eq, if◌then◌else◌,
}
use couchbase_lite_tests.Prelude.Dict.{Dict, lookup, has_key}
use couchbase_lite_tests.Prelude.Result.{Result, ok, err, value_error, ◌>>=◌}

mutual
  pub data Value : Type 0 where
    null : Value
    bool : Bool → Value
    int : ℤ → Value
    str : String → Value
    arr : Items → Value
    obj : Fields → Value

  pub data Fields : Type 0 where
    end : Fields
    field : (key : String) → Value → (rest : Fields) → Fields

  pub data Items : Type 0 where
    nil : Items
    cons : Value → Items → Items

-- The elements of a `list`, and the entries of a `dict`.
abbrev pub to_list : Items → List Value
to_list nil = []
to_list (cons x xs) = x ∷ to_list xs

abbrev pub of_list : List Value → Items
of_list [] = nil
of_list (x ∷ xs) = cons x (of_list xs)

pub to_list-of_list : (xs : List Value) → to_list (of_list xs) ≡ xs
to_list-of_list [] = refl
to_list-of_list (x ∷ xs) = ap (◌∷◌ x) (to_list-of_list xs)

abbrev pub to_dict : Fields → Dict Value
to_dict end = []
to_dict (field k v fs) = (k, v) ∷ to_dict fs

abbrev pub of_dict : Dict Value → Fields
of_dict [] = end
of_dict ((k, v) ∷ d) = field k v (of_dict d)

-- Python's truth of a value.
abbrev pub truthy : Value → Bool
truthy null = false
truthy (bool b) = b
truthy (int n) = not (n == pos 0)
truthy (str s) = not (s == "")
truthy (arr vs) = elim vs [ nil ↦ false | _ ↦ true ]
truthy (obj fs) = elim fs [ end ↦ false | _ ↦ true ]

-- A type that `isinstance` is asked about: `cast` gives the value if it is one.
-- The element types of `list[str]` or `dict[str, str]` are not looked at (`get_origin`).
pub record PyType (A : Type 0) : Type 0 where
  pub cast : Value → Option A

abbrev pub str_type : PyType String
str_type = record { cast = λ v. elim v [ str s ↦ some s | _ ↦ none ] }

abbrev pub bool_type : PyType Bool
bool_type = record { cast = λ v. elim v [ bool b ↦ some b | _ ↦ none ] }

-- `bool` is a subclass of `int`.
abbrev pub int_type : PyType ℤ
int_type = record { cast = λ v. elim v [ int n ↦ some n | bool b ↦ some (of_bool b) | _ ↦ none ] }

abbrev pub list_type : PyType (List Value)
list_type = record { cast = λ v. elim v [ arr xs ↦ some (to_list xs) | _ ↦ none ] }

abbrev pub dict_type : PyType (Dict Value)
dict_type = record { cast = λ v. elim v [ obj fs ↦ some (to_dict fs) | _ ↦ none ] }

-- `isinstance`, or `ValueError`
abbrev pub expect : {A : Type 0} → Option A → Result A
expect none = err value_error
expect (some a) = ok a

module _ (d : Dict Value) (key : String) where
  -- The loop over the elements of the list.
  abbrev all_strings : List Value → Result (List String)
  all_strings [] = ok []
  all_strings (x ∷ xs) = do s ← expect (str_type.cast x); rest ← all_strings xs; ok (s ∷ rest)

  unfoldable pub get_string_list : Result (Option (List String))
  unfolding lookup
  get_string_list = elim (lookup key d) [
    | none ↦ ok none
    | some v ↦ do xs ← expect (list_type.cast v); strings ← all_strings xs; ok (some strings)
  ]

  unfoldable pub assert_contains_string_list : Result (List String)
  unfolding get_string_list
  assert_contains_string_list = do found ← get_string_list; expect found

  unfoldable pub assert_string_entry : Result String
  unfolding lookup
  assert_string_entry = do v ← expect (lookup key d); expect (str_type.cast v)

  -- `_get_int_or_default`, `_get_str_or_default` and `_get_bool_or_default`
  unfoldable pub get_or_default : {A : Type 0} → PyType A → A → Result A
  unfolding lookup
  get_or_default type default = elim (lookup key d) [
    | none ↦ ok default
    | some v ↦ expect (type.cast v)
  ]

  abbrev present_typed : {A : Type 0} → PyType A → Value → Result (Option A)
  present_typed type null = ok none
  present_typed type v = do a ← expect (type.cast v); ok (some a)

  unfoldable pub get_typed : {A : Type 0} → PyType A → Result (Option A)
  unfolding lookup
  get_typed type = elim (lookup key d) [ none ↦ ok none | some v ↦ present_typed type v ]

  abbrev or_default : {A : Type 0} → A → Option A → A
  or_default default none = default
  or_default default (some a) = a

  unfoldable pub get_typed_nonnull : {A : Type 0} → PyType A → A → Result A
  unfolding get_typed
  get_typed_nonnull type default = do found ← get_typed type; ok (or_default default found)

  unfoldable pub get_typed_required : {A : Type 0} → PyType A → Result A
  unfolding lookup
  get_typed_required type = do v ← expect (lookup key d); expect (type.cast v)
