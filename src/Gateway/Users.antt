-- ===== src/Gateway/Users.antt =====
-- client/src/cbltest/api/syncgateway.py: users and roles of a database, the histories of channels, and the
-- replications between Sync Gateways.
use Prim.Native.String.{◌++◌ as str_append}
use couchbase_lite_tests.Prelude.{
  Bool, ◌&&◌, String, Option, none, some, List, [], ◌∷◌, ◌++◌, if◌then◌else◌, ℤ,
}
use couchbase_lite_tests.Prelude.Dict.{Dict, lookup}
use couchbase_lite_tests.Prelude.Result.{Error, ok, err, bad_response}
use couchbase_lite_tests.Json.{Value, str, int, arr, obj, nil, end, field, of_dict}
use couchbase_lite_tests.ReplicatorTypes.{strings, entry_if}
use couchbase_lite_tests.ReplicatorTypes.Entries.{assert_dict}
use couchbase_lite_tests.SyncGateway.{IsgrPayload, isgr_json}
use couchbase_lite_tests.Gateway.{Request, Client, returns, ◌>>=◌, ◌>>◌, send_request, catching}
use couchbase_lite_tests.Gateway.Datasets.{keyspace_path}
use couchbase_lite_tests.Gateway.Polls.{get_request, get, is_code, delete_request}

-- `/{db_name}/{rest}`
abbrev pub database_path : (db rest : String) → String
database_path db rest = str_append "/" (str_append db (str_append "/" rest))

abbrev pub user_path : (db name : String) → String
user_path db name = database_path db (str_append "_user/" name)

abbrev pub with_payload : (method path : String) → Dict Value → Request
with_payload method path body = record {
  method = method;
  path = path;
  payload = some (obj (of_dict body));
  params = [];
}

-- A request whose response is not looked at.
abbrev pub tell : Request → Client (Unit {0})
tell q = do response ← send_request q; returns (ok tt)

abbrev pub objects : Dict Value → Value
objects d = obj (of_dict d)

unfoldable pub user_body :
    String
    → (password : Option String) → (collection_access : Option (Dict Value))
    → (admin_roles : Option (List String)) → Dict Value
user_body name password collection_access admin_roles =
    ("name", str name)
    ∷ (entry_if "password" str password
        ++ (entry_if "collection_access" objects collection_access
            ++ entry_if "admin_roles" strings admin_roles))

-- `except CblSyncGatewayBadResponseError`: a bad response is let go, but for a missing replication that
-- is continuous; any other exception goes on.
abbrev pub after_stop : Bool → Error → Client (Unit {0})
after_stop continuous (bad_response code) =
    if is_code 404 (bad_response code) && continuous
    then returns (err (bad_response code))
    else returns (ok tt)
after_stop continuous raised = returns (err raised)

abbrev pub default_access : List String → Dict Value
default_access channels =
    ("_default", obj (field "_default" (obj (field "admin_channels" (strings channels) end)) end))
    ∷ []

module _ (db : String) where
  unfoldable pub add_user :
      String
      → (password : Option String) → (collection_access : Option (Dict Value))
      → (admin_roles : Option (List String)) → Client (Unit {0})
  unfolding user_body
  add_user name password collection_access admin_roles = tell (
      with_payload "put" (user_path db name)
        (user_body name password collection_access admin_roles))

  unfoldable pub delete_user : String → Client (Unit {0})
  delete_user name =
      catching (tell (delete_request (user_path db name)))
        (λ raised. if is_code 404 raised then returns (ok tt) else returns (err raised))

  unfoldable pub reset_user : (username password : String) → List String → Client (Unit {0})
  unfolding delete_user add_user
  reset_user username password channels = do
    delete_user username
    add_user username (some password) (some (default_access channels)) none

  unfoldable pub add_role : String → Dict Value → Client (Unit {0})
  add_role role collection_access = tell (
      with_payload "put" (database_path db (str_append "_role/" role))
        (("collection_access", objects collection_access) ∷ []))

  unfoldable pub start_isgr : IsgrPayload → Client String
  unfolding isgr_json
  start_isgr payload = do
    tell (
        with_payload "put" (database_path db (str_append "_replication/" payload.replication_id))
          (isgr_json payload))
    returns (ok payload.replication_id)

  unfoldable pub stop_isgr : String → Bool → Client (Unit {0})
  stop_isgr replication_id continuous =
      catching
        (tell (delete_request (database_path db (str_append "_replication/" replication_id))))
        (after_stop continuous)

  -- The entry of a response that is asserted to be an object.
  abbrev response_entry : String → Value → Request → Client Value
  response_entry key default q = do
    response ← send_request q
    d ← returns (assert_dict response)
    returns (ok (get key default d))

  unfoldable pub get_user_access_history : String → Client Value
  unfolding lookup
  get_user_access_history name =
      response_entry "channels" (obj end)
        (get_request (str_append (user_path db name) "/_access_history"))

  unfoldable pub compact_user_access_history : String → Value → Client Value
  unfolding lookup
  compact_user_access_history name channels = response_entry "compacted_channels" (obj end) (
      with_payload "post" (str_append (user_path db name) "/_access_history/compact")
        (("channels", channels) ∷ []))

  unfoldable pub get_document_channel_history :
      (doc_id scope collection : String) → Client (Dict Value)
  get_document_channel_history doc_id scope collection = do
    response ←
        send_request
          (get_request (keyspace_path db scope collection (str_append "_channel_history/" doc_id)))
    returns (assert_dict response)

  unfoldable pub compact_document_channel_history :
      (doc_id : String) → ℤ → (scope collection : String) → Client Value
  unfolding lookup
  compact_document_channel_history doc_id seq scope collection =
      response_entry "compacted_channels" (arr nil) (
        with_payload "post"
          (keyspace_path db scope collection
            (str_append "_channel_history/" (str_append doc_id "/compact")))
          (("seq", int seq) ∷ []))
