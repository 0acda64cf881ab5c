-- ===== src/Tests/Values.antt =====
-- JSON values, flags and events at concrete inputs.
use couchbase_lite_tests.Prelude.{
  ◌≡◌, refl, true, false, List, [], ◌∷◌, pos, upper, int_eq, nat_eq, string_eq, text_eq,
}
use couchbase_lite_tests.Prelude.Dict.{lookup, has_key}
use couchbase_lite_tests.Prelude.Result.{ok}
use couchbase_lite_tests.Json.{Value, null, bool, int, str, arr, obj, nil, cons, Fields, end, field}
use couchbase_lite_tests.Json.Equivalent.{json_equivalent}
use couchbase_lite_tests.Json.Equivalent.Preorder.{IsPython}
use couchbase_lite_tests.ReplicatorTypes.Flags.{access_removed_flag, parse, parse_all}

abbrev small_body : Fields
small_body = field "name" (str "a") (field "ids" (arr (cons (int (pos 1)) (cons null nil))) end)

abbrev large_body : Fields
large_body = field "new" (bool true) small_body

-- An unordered body in which a number is written as a `bool`.
abbrev other_body : Fields
other_body =
    field "ids" (arr (cons (bool true) (cons null nil)))
      (field "x" null (field "name" (str "a") end))

small_IsPython : IsPython (obj small_body)
unfolding has_key
small_IsPython = (refl, tt, (refl, (tt, (tt, tt)), tt))

large_IsPython : IsPython (obj large_body)
unfolding has_key
large_IsPython = (refl, tt, small_IsPython)

small_in_large : json_equivalent (obj small_body) (obj large_body) ≡ true
unfolding json_equivalent lookup
small_in_large = refl

small_in_other : json_equivalent (obj small_body) (obj other_body) ≡ true
unfolding json_equivalent lookup
small_in_other = refl

large_not_in_small : json_equivalent (obj large_body) (obj small_body) ≡ false
unfolding json_equivalent lookup
large_not_in_small = refl

abbrev words : List Value
words = str "accessRemoved" ∷ str "none" ∷ []

words_parsed : parse_all words ≡ ok access_removed_flag
unfolding parse_all upper parse
words_parsed = refl
