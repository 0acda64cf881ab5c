-- ===== src/Json/Reading.antt =====
-- Reading the JSON of a file that has the shapes it is cast to: one `type_error` stands for what Python
-- raises where it has not.
use couchbase_lite_tests.Prelude.{
  Option, none, some, List, [], ◌∷◌, String, codes, ℤ, pos, if◌then◌else◌, parse_int,
}
use couchbase_lite_tests.Prelude.Dict.{Dict, lookup}
use couchbase_lite_tests.Prelude.Result.{Result, ok, err, value_error, type_error, key_error, ◌>>=◌}
use couchbase_lite_tests.Json.{Value, bool, int, str, arr, obj, Items, nil, cons, to_dict}

abbrev pub as_dict : Value → Result (Dict Value)
as_dict (obj fs) = ok (to_dict fs)
as_dict _ = err type_error

-- `int(v)`
unfoldable pub py_int : Value → Result ℤ
unfolding parse_int
py_int (int n) = ok n
py_int (bool b) = ok (if b then pos 1 else pos 0)
py_int (str s) = elim (parse_int (codes s)) [ none ↦ err value_error | some n ↦ ok n ]
py_int _ = err type_error

-- `d[key]`
abbrev pub entry : String → Dict Value → Result Value
entry key d = elim (lookup key d) [ none ↦ err key_error | some v ↦ ok v ]

-- A loop over a list that appends what it reads from each element.
abbrev pub read_all {ℓ} : {A : Type ℓ} → (Value → Result A) → Items → Result (List A)
read_all read nil = ok []
read_all read (cons v vs) = do a ← read v; rest ← read_all read vs; ok (a ∷ rest)

-- Such a loop over the list under a key, if the key is there.
abbrev pub read_list {ℓ} : {A : Type ℓ} → (Value → Result A) → Option Value → Result (List A)
read_list read none = ok []
read_list read (some (arr vs)) = read_all read vs
read_list read (some _) = err type_error
