-- ===== src/ReplicatorTypes/Entries.antt =====
-- What a status response tells: `ReplicatorProgress` and `ReplicatorDocumentEntry` of
-- client/src/cbltest/api/replicator_types.py, and `ReplicatorStatusBody` of
-- client/src/cbltest/response_types.py.
use couchbase_lite_tests.Prelude.{
  Bool, Option, none, some, List, [], ◌∷◌, String, ◌==◌, text_eq, upper, codes, if◌then◌else◌,
}
use couchbase_lite_tests.Prelude.Dict.{Dict, lookup}
use couchbase_lite_tests.Prelude.Result.{
  Result, ok, err, assertion_error, key_error, attribute_error, ◌>>=◌,
}
use couchbase_lite_tests.Json.{
  Value, null, bool, str, obj, to_dict, str_type, bool_type, list_type, get_typed,
  get_typed_required,
}
use couchbase_lite_tests.Errors.{ErrorResponseBody, create}
use couchbase_lite_tests.ReplicatorTypes.{
  ReplicatorType, push, pull, ReplicatorActivityLevel, stopped, offline, connecting, idle, busy,
}
use couchbase_lite_tests.ReplicatorTypes.Flags.{ReplicatorDocumentFlags, parse_all}

-- `body.get(key)`
unfoldable pub get_or_null : String → Dict Value → Value
unfolding lookup
get_or_null key body = elim (lookup key body) [ none ↦ null | some v ↦ v ]

-- `assert isinstance(body, dict)`
abbrev pub assert_dict : Value → Result (Dict Value)
assert_dict (obj fs) = ok (to_dict fs)
assert_dict _ = err assertion_error

abbrev pub assert_bool : Value → Result Bool
assert_bool (bool b) = ok b
assert_bool _ = err assertion_error

pub record ReplicatorProgress : Type 0 where
  pub completed : Bool

unfoldable pub replicator_progress : Value → Result ReplicatorProgress
unfolding get_or_null
replicator_progress body = do
  fields ← assert_dict body
  completed ← assert_bool (get_or_null "completed" fields)
  ok (record { completed = completed })

pub record ReplicatorDocumentEntry : Type 0 where
  pub collection : String
  pub document_id : String
  pub is_push : Bool
  pub flags : ReplicatorDocumentFlags
  pub error : Option ErrorResponseBody

abbrev pub direction : ReplicatorDocumentEntry → ReplicatorType
direction e = if e.is_push then push else pull

unfoldable pub document_entry : Value → Result ReplicatorDocumentEntry
unfolding get_typed_required parse_all create get_or_null
document_entry body = do
  fields ← assert_dict body
  collection ← get_typed_required fields "collection" str_type
  document_id ← get_typed_required fields "documentID" str_type
  is_push ← get_typed_required fields "isPush" bool_type
  words ← get_typed_required fields "flags" list_type
  flags ← parse_all words
  error ← create (get_or_null "error" fields)
  ok (record {
    collection = collection;
    document_id = document_id;
    is_push = is_push;
    flags = flags;
    error = error;
  })

-- `ReplicatorActivityLevel[name.upper()]`
unfoldable pub activity_named : Value → Result ReplicatorActivityLevel
unfolding upper
activity_named (str s) =
    let name = upper (codes s) in
    if name == codes "STOPPED"
    then ok stopped
    else if name == codes "OFFLINE"
    then ok offline
    else if name == codes "CONNECTING"
    then ok connecting
    else if name == codes "IDLE"
    then ok idle
    else if name == codes "BUSY"
    then ok busy
    else err key_error
activity_named _ = err attribute_error

pub record ReplicatorStatusBody : Type 0 where
  pub activity : ReplicatorActivityLevel
  pub progress : ReplicatorProgress
  pub replicator_error : Option ErrorResponseBody
  pub documents : List ReplicatorDocumentEntry

-- `[ReplicatorDocumentEntry(d) for d in docs]`
unfoldable pub document_entries : List Value → Result (List ReplicatorDocumentEntry)
unfolding document_entry
document_entries [] = ok []
document_entries (d ∷ docs) = do e ← document_entry d; es ← document_entries docs; ok (e ∷ es)

abbrev docs_of : Option (List Value) → List Value
docs_of none = []
docs_of (some docs) = docs

-- The constructor. Where there is no activity it returns early (`none`), and each of the four
-- properties then fails with an `AttributeError`.
unfoldable pub status_body : Dict Value → Result (Option ReplicatorStatusBody)
unfolding lookup activity_named replicator_progress create get_typed document_entries get_or_null
status_body body = elim (lookup "activity" body) [
  | none ↦ ok none
  | some name ↦ do
    activity ← activity_named name
    progress ← replicator_progress (get_or_null "progress" body)
    error ← create (get_or_null "error" body)
    docs ← get_typed body "documents" list_type
    entries ← document_entries (docs_of docs)
    ok (
        some (record {
          activity = activity;
          progress = progress;
          replicator_error = error;
          documents = entries;
        }))
]
