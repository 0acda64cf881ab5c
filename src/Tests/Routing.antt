-- ===== src/Tests/Routing.antt =====
-- A router with a request that waits, and a configuration of two clusters.
use couchbase_lite_tests.Prelude.{
  ◌≡◌, refl, true, false, List, [], ◌∷◌, ◌++◌, none, some, String, ℤ, pos, get_elem?, length, All,
  int_leb, int_eq, ◌==◌, if◌then◌else◌,
}
use couchbase_lite_tests.Prelude.IntDict.{find}
use couchbase_lite_tests.Prelude.Result.{Result, ok, err, cbl_test_error}
use couchbase_lite_tests.Json.{Value, int, str, obj, Fields, field, end, of_dict, to_dict}
use couchbase_lite_tests.Router.{
  resolved, WebSocketRouter, new_router, text, continues, register, handle_message, finish_stop,
  message_id, Reachable, made, registers, receives,
}
use couchbase_lite_tests.Router.Waiting.{Answers}
use couchbase_lite_tests.Router.Stopped.{IsDone, Reachable-Answers, finish_stop-IsDone}
use couchbase_lite_tests.Router.Delivery.{handle_message-register}
use couchbase_lite_tests.Config.{CouchbaseServerInfo, ParsedConfig}
use couchbase_lite_tests.Config.Topology.{Marks, runs, pytest_runtest_setup}
use couchbase_lite_tests.Setup.Valid.{InRange}
use couchbase_lite_tests.Clusters.{
  SyncGateway, SyncGatewayCluster, CouchbaseCluster, test_clusters, sync_gateway_cluster,
}
use couchbase_lite_tests.Clusters.Subscripts.{IsBuildError, build-IsBuildError}
use couchbase_lite_tests.Clusters.{ClusterBuilder, build}
use couchbase_lite_tests.Clusters.Build.{
  AreClusters, gateway_entries, server_entries, test_clusters-AreClusters,
}
use couchbase_lite_tests.Clusters.Required.{pytest_runtest_setup-clusters}
use couchbase_lite_tests.Clusters.RoundRobin.{accesses, accesses-round}

abbrev urls : List String
urls = "http://localhost:5173" ∷ []

abbrev response : Fields
response = field "ts_id" (int (pos 7)) end

abbrev two_requests : WebSocketRouter
two_requests = (register (pos 8) (register (pos 7) (new_router urls)).1).1

two_requests-Reachable : Reachable urls two_requests (pos 7 ∷ pos 8 ∷ [])
unfolding find register
two_requests-Reachable = registers (pos 8) (registers (pos 7) made refl) refl

abbrev answered_router : WebSocketRouter
answered_router = (handle_message 0 (text (ok (obj response))) two_requests).0

Reachable-Answers_example :
    (id : ℤ) × (get_elem? (pos 7 ∷ pos 8 ∷ []) 0 ≡ some id) × Answers (to_dict response) id
unfolding handle_message register
Reachable-Answers_example =
    Reachable-Answers urls answered_router (pos 7 ∷ pos 8 ∷ []) 0 (to_dict response)
      (receives 0 (text (ok (obj response))) two_requests-Reachable) refl

finish_stop-IsDone_example :
    All IsDone (finish_stop two_requests).futures
    × (length (finish_stop two_requests).futures ≡ length (pos 7 ∷ pos 8 ∷ []))
    × ((finish_stop two_requests).pending ≡ [])
finish_stop-IsDone_example =
    finish_stop-IsDone urls two_requests (pos 7 ∷ pos 8 ∷ []) two_requests-Reachable

answers_seven : Answers (to_dict response) (pos 7)
unfolding message_id couchbase_lite_tests.ReplicatorTypes.Entries.get_or_null
answers_seven = refl

handle_message-register_example :
    let t =
      (handle_message 3 (text (ok (obj response))) (register (pos 7) (new_router urls)).1).0 in
    ((handle_message 3 (text (ok (obj response))) (register (pos 7) (new_router urls)).1).1
      ≡ continues)
    × (t.futures ≡ [] ++ resolved (to_dict response) ∷ [])
    × (find (pos 8) t.pending ≡ (if pos 7 == pos 8 then none else find (pos 8) []))
handle_message-register_example =
    handle_message-register (pos 7) (pos 8) 3 response (new_router urls) refl answers_seven

abbrev pub node : ℤ → Value
node index = obj (of_dict (("hostname", str "host") ∷ ("cluster_index", int index) ∷ []))

abbrev configuration : ParsedConfig
configuration = record {
  test_servers = [];
  sync_gateways = node (pos 1) ∷ node (pos 0) ∷ node (pos 1) ∷ [];
  couchbase_servers = node (pos 1) ∷ node (pos 0) ∷ [];
  load_balancers = [];
  edge_servers = [];
  greenboard = none;
  logslurp_url = none;
}

abbrev get_config : String → ℤ → Result Value
get_config hostname port =
    ok (obj (of_dict (("bootstrap", obj (of_dict (("server", str "couchbases://cbs") ∷ []))) ∷ [])))

abbrev connect : CouchbaseServerInfo → Result (Unit {0})
connect info = ok tt

abbrev gateway : SyncGateway
gateway = record { url = "host"; port = pos 4985; secure = false; using_rosmar = false }

abbrev server : ℤ → CouchbaseServerInfo
server index = record {
  hostname = "host";
  admin_user = "Administrator";
  admin_password = "password";
  cluster_index = index;
}

abbrev clusters : List CouchbaseCluster
clusters =
    record { sync_gateways = gateway ∷ []; couchbase_servers = server (pos 0) ∷ [] }
    ∷ record { sync_gateways = gateway ∷ gateway ∷ []; couchbase_servers = server (pos 1) ∷ [] }
    ∷ []

clusters_built : test_clusters get_config connect false configuration ≡ ok clusters
unfolding test_clusters
clusters_built = refl

test_clusters-AreClusters_example :
    (gateways : List (ℤ × SyncGateway)) × (servers : List (ℤ × CouchbaseServerInfo))
    × (gateway_entries get_config connect configuration.sync_gateways ≡ ok gateways)
    × (server_entries get_config connect configuration.couchbase_servers ≡ ok servers)
    × AreClusters gateways servers 0 clusters
    × All (λ (e : ℤ × SyncGateway). InRange (length clusters) e.0) gateways
    × All (λ (e : ℤ × CouchbaseServerInfo). InRange (length clusters) e.0) servers
test_clusters-AreClusters_example =
    test_clusters-AreClusters get_config connect configuration clusters clusters_built

-- A gateway of the sixth cluster, and of no other.
abbrev with_gap : ClusterBuilder
with_gap = record { sgw = (pos 5, gateway ∷ []) ∷ []; cbs = [] }

gap_refused : build with_gap ≡ err cbl_test_error
unfolding build
gap_refused = refl

build-IsBuildError_example : IsBuildError cbl_test_error
build-IsBuildError_example = build-IsBuildError with_gap cbl_test_error gap_refused

abbrev marks : Marks
marks = record {
  min_test_servers = none;
  min_sync_gateways = some (pos 3);
  min_couchbase_servers = none;
  min_load_balancers = none;
  min_edge_servers = none;
  min_clusters = some (pos 2);
}

setup_runs : pytest_runtest_setup marks configuration ≡ runs
unfolding pytest_runtest_setup
setup_runs = refl

pytest_runtest_setup-clusters_example : int_leb (pos 2) (pos (length clusters)) ≡ true
pytest_runtest_setup-clusters_example =
    pytest_runtest_setup-clusters get_config connect marks configuration (pos 2) clusters refl
      setup_runs clusters_built

abbrev three_nodes : List SyncGateway
three_nodes = gateway ∷ record gateway { url = "b" } ∷ record gateway { url = "c" } ∷ []

abbrev round_robin : SyncGatewayCluster
round_robin = record { nodes = three_nodes; round_robin_index = 0 }

cluster_made : sync_gateway_cluster three_nodes ≡ ok round_robin
unfolding sync_gateway_cluster
cluster_made = refl

accesses-round_example : accesses (length three_nodes) round_robin ≡ ok (three_nodes, round_robin)
accesses-round_example = accesses-round three_nodes round_robin cluster_made
