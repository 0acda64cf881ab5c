-- ===== src/Errors.antt =====
-- client/src/cbltest/api/error_types.py: the error that a test server puts into a response.
use couchbase_lite_tests.Prelude.{
  Bool, false, ◌&&◌, Option, none, some, String, codes, has_text, List, [], ◌∷◌, ◌||◌, ◌==◌, upper,
  Text, text_eq, if◌then◌else◌, string_eq,
}
use couchbase_lite_tests.Prelude.Dict.{lookup}
use couchbase_lite_tests.Prelude.Result.{Result, ok, err, type_error}
use couchbase_lite_tests.Json.{Value, null, bool, int, str, arr, obj, to_list, to_dict}

-- `ErrorDomain.equal`
unfoldable pub domain_equal : Text → Text → Bool
unfolding upper
domain_equal val expected = upper val == expected

-- The values are stored as they come: their types are not looked at.
pub record ErrorResponseBody : Type 0 where
  pub domain : Value
  pub code : Value
  pub message : Value

abbrev is_str : String → Value → Bool
is_str key v = elim v [ str s ↦ s == key | _ ↦ false ]

abbrev pub lists_str : String → List Value → Bool
lists_str key [] = false
lists_str key (v ∷ vs) = is_str key v || lists_str key vs

abbrev all_keys : (String → Bool) → Bool
all_keys has = has "domain" && has "code" && has "message"

-- The three values, if the keys are there.
abbrev of_entries : Option Value → Option Value → Option Value → Option ErrorResponseBody
of_entries (some domain) (some code) (some message) =
    some (record { domain = domain; code = code; message = message })
of_entries _ _ _ = none

-- `ErrorResponseBody.create`. A body that is no `dict` is asked with `in` all the same: a text is
-- searched, a list too, and a number has no `in`. Where all three are found in such a body, the
-- subscript with a text fails.
unfoldable pub create : Value → Result (Option ErrorResponseBody)
unfolding lookup has_text
create null = ok none
create (bool _) = err type_error
create (int _) = err type_error
create (str s) =
    if all_keys (λ key. has_text (codes s) (codes key)) then err type_error else ok none
create (arr xs) = if all_keys (λ key. lists_str key (to_list xs)) then err type_error else ok none
create (obj fs) =
    let body = to_dict fs in
    ok (of_entries (lookup "domain" body) (lookup "code" body) (lookup "message" body))
