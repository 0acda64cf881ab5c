-- ===== src/Tests/Servers.antt =====
-- A configuration of two gateways, a document of Sync Gateway, and an update.
use couchbase_lite_tests.Prelude.{
  ◌≡◌, refl, false, List, [], ◌∷◌, none, some, String, ◌==◌, pos, ℤ, nat_eq, string_eq, text_eq,
  int_eq, if◌then◌else◌,
}
use couchbase_lite_tests.Prelude.Dict.{Dict, lookup}
use couchbase_lite_tests.Prelude.Result.{ok}
use couchbase_lite_tests.Json.{Value, null, int, str, arr, obj, of_dict, of_list}
use couchbase_lite_tests.Config.{
  SyncGatewayInfo, sync_gateway_info, ParsedConfig, parsed_config, greenboard_url,
  greenboard_username, greenboard_password, parsed_config-greenboard,
}
use couchbase_lite_tests.Config.Topology.{
  Marks, runs, check_clusters, gateways, Counted, Enough, pytest_runtest_setup,
  check_clusters-Counted, pytest_runtest_setup_iff,
}
use couchbase_lite_tests.Requests.{DatabaseUpdateEntry, update, update_json}
use couchbase_lite_tests.SyncGateway.{
  RemoteDocument, remote_document, remote_json, remote_json-remote_document,
}
use couchbase_lite_tests.ReplicatorTypes.Entries.{get_or_null}

abbrev gateway : ℤ → Value
gateway index = obj (of_dict (("hostname", str "sg") ∷ ("cluster_index", int index) ∷ []))

abbrev info : ℤ → SyncGatewayInfo
info index = record {
  hostname = "sg";
  port = pos 4984;
  admin_port = pos 4985;
  rbac_user = "admin";
  rbac_password = "password";
  uses_tls = false;
  cluster_index = index;
}

abbrev two_gateways : List Value
two_gateways = gateway (pos 0) ∷ gateway (pos 1) ∷ []

two_described : gateways two_gateways ≡ ok (info (pos 0) ∷ info (pos 1) ∷ [])
unfolding sync_gateway_info couchbase_lite_tests.Config.Topology.gateway_info
two_described = refl

abbrev configuration : Dict Value
configuration =
    ("sync-gateways", arr (of_list two_gateways))
    ∷ (
      "greenboard",
      obj (of_dict (("hostname", str "h") ∷ ("username", str "u") ∷ ("password", str "p") ∷ [])),
    )
    ∷ []

abbrev config_read : ParsedConfig
config_read = record {
  test_servers = [];
  sync_gateways = two_gateways;
  couchbase_servers = [];
  load_balancers = [];
  edge_servers = [];
  greenboard = some (("hostname", str "h") ∷ ("username", str "u") ∷ ("password", str "p") ∷ []);
  logslurp_url = none;
}

is_parsed : parsed_config configuration ≡ ok config_read
unfolding parsed_config
is_parsed = refl

abbrev marks : Marks
marks = record {
  min_test_servers = none;
  min_sync_gateways = some (pos 2);
  min_couchbase_servers = none;
  min_load_balancers = none;
  min_edge_servers = none;
  min_clusters = some (pos 2);
}

abbrev change : DatabaseUpdateEntry
change = record {
  type = update;
  collection = "_default.posts";
  document_id = "post_1";
  updated_properties = some (str "x" ∷ []);
  removed_properties = some [];
  new_blobs = none;
}

abbrev change_json : Dict Value
change_json =
    ("type", str "UPDATE")
    ∷ ("collection", str "_default.posts")
    ∷ ("documentID", str "post_1")
    ∷ ("updatedProperties", arr (of_list (str "x" ∷ [])))
    ∷ []

change_written : update_json change ≡ some change_json
unfolding update_json
change_written = refl

abbrev body : Dict Value
body = ("_id", str "post_1") ∷ ("title", str "t") ∷ ("_rev", str "1-abc") ∷ []

abbrev document : RemoteDocument
document = record {
  id = str "post_1";
  revid = str "1-abc";
  cv = null;
  body = ("title", str "t") ∷ [];
}

document_read : remote_document body ≡ ok document
unfolding remote_document
document_read = refl

remote_json-remote_document_example : lookup "title" (remote_json document) ≡ (
    if ◌==◌ {A = String} "_cv" "title" then some (get_or_null "_cv" body) else lookup "title" body)
remote_json-remote_document_example =
    remote_json-remote_document body document "title" document_read
