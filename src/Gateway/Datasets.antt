-- ===== src/Gateway/Datasets.antt =====
-- client/src/cbltest/api/syncgateway.py: `load_dataset`, which posts the documents of a file in batches.
use Prim.Native.String.{◌++◌ as str_append}
use couchbase_lite_tests.Prelude.{
  Bool, true, false, not, ◌||◌, ◌&&◌, String, Option, none, some, List, [], ◌∷◌, ◌++◌, length,
  if◌then◌else◌, ◌==◌, string_eq, ltb,
}
use couchbase_lite_tests.Prelude.Dict.{Dict, lookup, has_key}
use couchbase_lite_tests.Prelude.Result.{
  Error, Result, ok, err, bad_response, assertion_error, key_error,
}
use couchbase_lite_tests.Json.{Value, arr, obj, end, field, of_list, int_type, dict_type, list_type}
use couchbase_lite_tests.Gateway.{Request, Client, returns, ◌>>=◌, ◌>>◌, send_request}

-- A line of the file as `loads` reads it: not an object, or an object with its scope and its collection
-- where it has them.
pub data Line : Type 0 where
  other : Line
  document : (scope collection : Option String) → (body : Value) → Line

-- An object in a line: its scope, its collection and itself.
pub record Insert : Type 0 where
  pub scope : String
  pub collection : String
  pub body : Value

unfoldable pub read_line : Line → Result Insert
read_line other = err assertion_error
read_line (document none collection body) = err key_error
read_line (document (some scope) none body) = err key_error
read_line (document (some scope) (some collection) body) =
    ok (record { scope = scope; collection = collection; body = body })

-- `/{db_name}.{scope}.{collection}/{rest}`
unfoldable pub keyspace_path : (db scope collection rest : String) → String
keyspace_path db scope collection rest = str_append "/" (
    str_append db (
      str_append "."
        (str_append scope (str_append "." (str_append collection (str_append "/" rest))))))

unfoldable pub bulk_docs : (db scope collection : String) → List Value → Request
bulk_docs db scope collection docs = record {
  method = "post";
  path = keyspace_path db scope collection "_bulk_docs";
  payload = some (obj (field "docs" (arr (of_list docs)) end));
  params = [];
}

-- The code of a failed insert is its entry `status`.
abbrev failed_insert : Option Value → Error
failed_insert none = key_error
failed_insert (some status) = bad_response (int_type.cast status)

abbrev check_item : Dict Value → Result (Unit {0}) → Result (Unit {0})
check_item info rest =
    if has_key "error" info then err (failed_insert (lookup "status" info)) else rest

unfoldable pub analyze_items : List Value → Result (Unit {0})
unfolding has_key lookup
analyze_items [] = ok tt
analyze_items (r ∷ rs) =
    let rest = analyze_items rs in
    elim (dict_type.cast r) [ none ↦ err assertion_error | some info ↦ check_item info rest ]

unfoldable pub analyze_dataset_response : Value → Result (Unit {0})
unfolding analyze_items
analyze_dataset_response response = elim (list_type.cast response) [
  | none ↦ err assertion_error
  | some items ↦ analyze_items items
]

-- `last_scope`, `last_coll` and `collected`
pub record Loading : Type 0 where
  pub last_scope : String
  pub last_coll : String
  pub collected : List Value

abbrev is_named : String → Bool
is_named s = not (s == "")

abbrev nothing_left : List Value → Bool
nothing_left [] = true
nothing_left (v ∷ vs) = false

unfoldable pub is_full : Loading → Insert → Bool
is_full st new =
    (not (st.last_scope == new.scope)
      || (not (st.last_coll == new.collection) || ltb 500 (length st.collected)))
    && (is_named st.last_scope && (is_named st.last_coll && not (nothing_left st.collected)))

module _ (db : String) where
  unfoldable pub post_collected : Loading → Client (Unit {0})
  unfolding bulk_docs
  post_collected st = do
    response ← send_request (bulk_docs db st.last_scope st.last_coll st.collected)
    returns (analyze_dataset_response response)

  -- The documents that are left when a line comes.
  unfoldable pub make_room : Loading → Insert → Client (List Value)
  unfolding post_collected is_full
  make_room st new =
      if is_full st new then (do post_collected st; returns (ok [])) else returns (ok st.collected)

  unfoldable pub load_lines : Loading → List Line → Client (Unit {0})
  unfolding make_room read_line
  load_lines st [] = if nothing_left st.collected then returns (ok tt) else post_collected st
  load_lines st (line ∷ lines) = do
    new ← returns (read_line line)
    left ← make_room st new
    load_lines
        (record {
          last_scope = new.scope;
          last_coll = new.collection;
          collected = left ++ (new.body ∷ []);
        })
        lines

  unfoldable pub load_dataset : List Line → Client (Unit {0})
  unfolding load_lines
  load_dataset lines = load_lines (record { last_scope = ""; last_coll = ""; collected = [] }) lines
