-- ===== src/Edge.antt =====
-- client/src/cbltest/api/edgeserver.py: the client of an Edge Server, whose methods are trees of requests
-- as those of Gateway are. The configuration file and the sessions of aiohttp are not modelled.
pub mod Idle
pub mod Calls
use Prim.Native.String.{◌++◌ as str_append}
use couchbase_lite_tests.Prelude.{
  ℕ, zero, suc, Bool, true, false, not, ◌&&◌, ◌||◌, String, Option, none, some, List, [], ◌∷◌, ◌++◌,
  map, pos, ℤ, if◌then◌else◌, ◌==◌, string_eq, get_elem?, has_text, codes,
}
use couchbase_lite_tests.Prelude.Dict.{Dict, lookup, has_key, insert}
use couchbase_lite_tests.Prelude.Result.{
  Error, Result, ok, err, bad_response, value_error, key_error, type_error, index_error,
  assertion_error, cbl_test_error, cbl_timeout_error,
}
use couchbase_lite_tests.Json.{
  Value, null, bool, int, str, arr, obj, to_list, to_dict, of_list, of_dict, truthy,
}
use couchbase_lite_tests.Errors.{lists_str}
use couchbase_lite_tests.ReplicatorTypes.{strings, entry_if}
use couchbase_lite_tests.ReplicatorTypes.Entries.{get_or_null}
use couchbase_lite_tests.SyncGateway.{RemoteDocument}
use couchbase_lite_tests.Gateway.{Request, Client, returns, ◌>>=◌, send_request}
use couchbase_lite_tests.Gateway.Entries.{equals_text, row_item}
use couchbase_lite_tests.Gateway.Replies.{read_document}
use couchbase_lite_tests.Gateway.Polls.{
  Judgement, settled, again, poll, get_request, get, delete_request,
}
use couchbase_lite_tests.Gateway.Users.{with_payload}

-- What of the client decides the session of a request.
pub record EdgeServer : Type 0 where
  pub auth : Bool
  pub auth_name : String
  pub auth_password : String

pub data Session : Type 0 where
  anonymous : Session
  admin : (name password : String) → Session

-- The session of a request that is given none.
unfoldable pub default_session : EdgeServer → Session
default_session s = if s.auth then admin s.auth_name s.auth_password else anonymous

unfoldable pub set_auth : Bool → (name password : String) → EdgeServer → EdgeServer
set_auth auth name password s =
    if not auth
    then record s { auth = false }
    else record s { auth_name = name; auth_password = password }

-- An operation of a bulk request; the ID that is made for an update without one is an argument.
pub data OpType : Type 0 where
  create update delete : OpType

abbrev pub id_or_entry : Option String → Dict Value → Value
id_or_entry (some doc_id) body = str doc_id
id_or_entry none body = get_or_null "_id" body

unfoldable pub bulk_doc_operation :
    OpType → (doc_id rev : Option String) → (new_id : String) → Dict Value → Result (Dict Value)
unfolding insert get_or_null
bulk_doc_operation create doc_id rev new_id body = ok (insert "_id" (id_or_entry doc_id body) body)
bulk_doc_operation update doc_id none new_id body = err cbl_test_error
bulk_doc_operation update doc_id (some rev) new_id body =
    let given = id_or_entry doc_id body in
    ok (insert "_id" (elim given [ null ↦ str new_id | v ↦ v ]) (insert "_rev" (str rev) body))
bulk_doc_operation delete doc_id rev new_id body = elim (id_or_entry doc_id body) [
  | null ↦ err cbl_test_error
  | v ↦ elim rev [
    | none ↦ err cbl_test_error
    | some r ↦ ok (insert "_id" v (insert "_rev" (str r) (insert "_deleted" (bool true) body)))
  ]
]

abbrev dotted : String → String
dotted part = if part == "" then "" else str_append "." part

unfoldable pub keyspace_builder : (db scope collection : String) → String
keyspace_builder db scope collection = str_append db (str_append (dotted scope) (dotted collection))

-- A list, or else an error.
abbrev pub list_response : Value → Result (List Value)
list_response (arr items) = ok (to_list items)
list_response _ = err (bad_response (some (pos 500)))

-- An object without an error; the message of the error needs its reason.
unfoldable pub dict_response : Value → Result (Dict Value)
unfolding has_key
dict_response (obj fs) =
    if has_key "error" (to_dict fs)
    then err (if has_key "reason" (to_dict fs) then bad_response (some (pos 500)) else key_error)
    else ok (to_dict fs)
dict_response _ = err value_error

abbrev pub get_list : Request → Client (List Value)
get_list q = do response ← send_request q; returns (list_response response)

abbrev pub get_dict : Request → Client (Dict Value)
get_dict q = do response ← send_request q; returns (dict_response response)

unfoldable pub get_all_dbs : Client (List Value)
get_all_dbs = get_list (get_request "/_all_dbs")

unfoldable pub get_active_tasks : Client (List Value)
get_active_tasks = get_list (get_request "/_active_tasks")

unfoldable pub all_replication_status : Client (List Value)
all_replication_status = get_list (get_request "/_replicate")

unfoldable pub replication_status : String → Client (Dict Value)
unfolding dict_response
replication_status replicator_id = get_dict (get_request (str_append "/_replicate/" replicator_id))

abbrev stopped_response : Value → Result (Unit {0})
stopped_response response = elim (dict_response response) [ err raised ↦ err raised | ok d ↦ ok tt ]

-- An answer that is empty is good.
unfoldable pub stop_replication : String → Client (Unit {0})
unfolding dict_response
stop_replication replicator_id = do
  response ← send_request (delete_request (str_append "/_replicate/" replicator_id))
  returns (if truthy response then stopped_response response else ok tt)

abbrev rev_query : Option String → String
rev_query none = ""
rev_query (some revid) = if revid == "" then "" else str_append "?rev=" revid

abbrev bulk_response : Value → Result (Option (List Value))
bulk_response (arr items) = ok (some (to_list items))
bulk_response (obj fs) = elim (dict_response (obj fs)) [ err raised ↦ err raised | ok d ↦ ok none ]
bulk_response _ = ok none

module _ (db scope collection : String) where
  abbrev keyspace : String
  keyspace = str_append "/" (keyspace_builder db scope collection)

  unfoldable pub get_db_info : Client (Dict Value)
  unfolding dict_response keyspace_builder
  get_db_info = get_dict (get_request keyspace)

  unfoldable pub get_document :
      (doc_id : String) → (revid : Option String) → Client (Option RemoteDocument)
  unfolding read_document keyspace_builder
  get_document doc_id revid = do
    response ←
        send_request
          (get_request (str_append keyspace (str_append "/" (str_append doc_id (rev_query revid)))))
    returns (read_document response)

  unfoldable pub named_query : String → Dict Value → Client (List Value)
  unfolding keyspace_builder
  named_query name parameters =
      get_list (with_payload "post" (str_append keyspace (str_append "/_query/" name)) parameters)

  unfoldable pub adhoc_query : Value → Option (Dict Value) → Client (List Value)
  unfolding keyspace_builder
  adhoc_query query parameters = get_list (
      with_payload "post" (str_append keyspace "/_query")
        (("query", query) ∷ entry_if "params" (λ (d : Dict Value). obj (of_dict d)) parameters))

  -- The response is a list, or `None` is returned for what is no error.
  unfoldable pub bulk_doc_op : List (Dict Value) → Bool → Client (Option (List Value))
  unfolding keyspace_builder dict_response
  bulk_doc_op docs new_edits = do
    response ← send_request (
        with_payload "post" (str_append keyspace "/_bulk_docs") (
          ("docs", arr (of_list (map (λ (d : Dict Value). obj (of_dict d)) docs)))
          ∷ ("new_edits", bool new_edits)
          ∷ []))
    returns (bulk_response response)

-- `in` is asked of what is no object too.
abbrev no_entry : Bool → Error
no_entry names_error = if names_error then assertion_error else type_error

-- The entry of the replicator; an error in it is an assertion.
unfoldable pub judge_entry : Value → Judgement (Unit {0})
unfolding has_key lookup has_text
judge_entry (obj fs) =
    if has_key "error" (to_dict fs)
    then settled (err assertion_error)
    else elim (lookup "status" (to_dict fs)) [
      | none ↦ settled (err key_error)
      | some status ↦ if equals_text status "Idle" then settled (ok tt) else again
    ]
judge_entry (str s) = settled (err (no_entry (has_text (codes s) (codes "error"))))
judge_entry (arr items) = settled (err (no_entry (lists_str "error" (to_list items))))
judge_entry _ = settled (err type_error)

unfoldable pub judge_replications : ℕ → Value → Judgement (Unit {0})
unfolding judge_entry
judge_replications key response = elim (list_response response) [
  | err raised ↦ settled (err raised)
  | ok [] ↦ settled (ok tt)
  | ok (s ∷ statuses) ↦ elim (get_elem? (s ∷ statuses) key) [
    | none ↦ settled (err index_error)
    | some entry ↦ judge_entry entry
  ]
]

-- At most six looks, with a pause after each that finds the replication busy.
unfoldable pub wait_for_idle : (replicator_key timeout : ℕ) → Client (Unit {0})
unfolding poll judge_replications
wait_for_idle replicator_key timeout =
    poll (get_request "/_replicate") (judge_replications replicator_key) timeout
      (err cbl_timeout_error) 6
