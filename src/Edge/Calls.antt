-- ===== src/Edge/Calls.antt =====
-- client/src/cbltest/api/edgeserver.py: replications, the feed of changes, parts of documents, and the
-- rules of the firewall.
use Prim.Native.String.{◌++◌ as str_append}
use couchbase_lite_tests.Prelude.{Bool, String, none, [], ◌∷◌, ◌++◌, if◌then◌else◌, string_eq}
use couchbase_lite_tests.Prelude.Dict.{Dict}
use couchbase_lite_tests.Prelude.Result.{Result, ok, err}
use couchbase_lite_tests.Json.{Value, null, bool, str, obj, truthy}
use couchbase_lite_tests.ReplicatorTypes.Entries.{get_or_null}
use couchbase_lite_tests.Gateway.{Client, returns, ◌>>=◌, send_request}
use couchbase_lite_tests.Gateway.Polls.{get_request, delete_request}
use couchbase_lite_tests.Gateway.Users.{with_payload, tell}
use couchbase_lite_tests.Edge.{get_dict, dict_response, keyspace_builder}

-- `if value: payload[key] = value`
abbrev pub if_truthy : String → Value → Dict Value
if_truthy key v = if truthy v then (key, v) ∷ [] else []

-- The settings that are left out where they are not given; the others are sent as `null`.
pub record ReplicationOptions : Type 0 where
  pub source : String
  pub target : String
  pub bidirectional : Bool
  pub continuous : Bool
  pub collections : Value
  pub channels : Value
  pub doc_ids : Value
  pub headers : Value
  pub trusted_root_certs : Value
  pub pinned_cert : Value
  pub user : Value
  pub password : Value
  pub session_cookie : Value
  pub openid_token : Value
  pub tls_client_cert : Value
  pub tls_client_cert_key : Value

unfoldable pub replication_payload : ReplicationOptions → Dict Value
replication_payload o =
    ("source", str o.source)
    ∷ ("target", str o.target)
    ∷ ("bidirectional", bool o.bidirectional)
    ∷ ("continuous", bool o.continuous)
    ∷ ("collections", o.collections)
    ∷ ("channels", o.channels)
    ∷ ("doc_ids", o.doc_ids)
    ∷ ("headers", o.headers)
    ∷ (if_truthy "trusted_root_certs" o.trusted_root_certs
        ++ (if_truthy "pinned_cert" o.pinned_cert
            ++ (if_truthy "user" o.user
                ++ (if_truthy "password" o.password
                    ++ (if_truthy "session_cookie" o.session_cookie
                        ++ (if_truthy "openid_token" o.openid_token
                            ++ (if_truthy "tls_client_cert" o.tls_client_cert
                                ++ if_truthy "tls_client_cert_key" o.tls_client_cert_key)))))))

-- The ID of the session is `None` where the response names none.
unfoldable pub start_replication : ReplicationOptions → Client Value
unfolding replication_payload dict_response get_or_null
start_replication o = do
  d ← get_dict (with_payload "post" "/_replicate" (replication_payload o))
  returns (ok (get_or_null "session_id" d))

abbrev keep_set : String → Value → Dict Value → Dict Value
keep_set key null rest = rest
keep_set key v rest = (key, v) ∷ rest

-- `{k: v for k, v in body.items() if v is not None}`
abbrev pub without_none : Dict Value → Dict Value
without_none [] = []
without_none ((key, v) ∷ d) = keep_set key v (without_none d)

module _ (db scope collection : String) where
  -- The settings come with their names.
  unfoldable pub changes_feed : Dict Value → Client (Dict Value)
  unfolding keyspace_builder dict_response
  changes_feed body = get_dict (
      with_payload "post" (str_append (keyspace_builder db scope collection) "/_changes")
        (without_none body))

  abbrev part_path : (doc_id key : String) → String
  part_path doc_id key =
      str_append (keyspace_builder db scope collection)
        (str_append "/" (str_append doc_id (str_append "/" key)))

  unfoldable pub delete_sub_document : (doc_id revid key : String) → Client (Dict Value)
  unfolding keyspace_builder dict_response
  delete_sub_document doc_id revid key =
      get_dict (delete_request (str_append (part_path doc_id key) (str_append "?rev=" revid)))

  unfoldable pub put_sub_document : (doc_id revid key : String) → Value → Client (Dict Value)
  unfolding keyspace_builder dict_response
  put_sub_document doc_id revid key value = get_dict (
      with_payload "put" (str_append (part_path doc_id key) (str_append "?rev=" revid))
        ((key, value) ∷ []))

  -- What is no object is returned as it is.
  abbrev part_response : Value → Result Value
  part_response (obj fs) = elim (dict_response (obj fs)) [
    | err raised ↦ err raised
    | ok d ↦ ok (obj fs)
  ]
  part_response v = ok v

  unfoldable pub get_sub_document : (doc_id key : String) → Client Value
  unfolding keyspace_builder dict_response
  get_sub_document doc_id key = do
    response ← send_request (get_request (part_path doc_id key))
    returns (part_response response)

unfoldable pub set_firewall_rules : (allow deny : Value) → Client (Unit {0})
set_firewall_rules allow deny =
    tell (with_payload "post" "firewall" (if_truthy "allow" allow ++ if_truthy "deny" deny))

unfoldable pub reset_firewall : Client (Unit {0})
reset_firewall = tell (record { method = "post"; path = "firewall"; payload = none; params = [] })
