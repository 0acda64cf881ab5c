-- ===== src/Clusters.antt =====
-- `_ClusterBuilder` and the clusters of `CBLPyTest` in client/src/cbltest/__init__.py, with the classes
-- `CouchbaseCluster` of client/src/cbltest/api/cluster.py and `SyncGatewayCluster` of
-- client/src/cbltest/api/syncgatewaycluster.py.
--
-- Arguments are what the network gives: a gateway's configuration, and whether a server can be reached.
pub mod Groups
pub mod Build
pub mod Subscripts
pub mod Required
pub mod RoundRobin
use couchbase_lite_tests.Prelude.{
  ℕ, zero, suc, ◌+◌, ◌%◌, ◌≡◌, Bool, true, false, not, Option, none, some, List, [], ◌∷◌, ◌++◌,
  String, codes, starts_with, has_text, ℤ, pos, int_eq, contains, if◌then◌else◌, length, get_elem?,
  ltb, leb,
}
use couchbase_lite_tests.Prelude.Dict.{Dict, lookup}
use couchbase_lite_tests.Prelude.IntDict.{IntDict, int_keys, find, put}
use couchbase_lite_tests.Prelude.Result.{
  Error, Result, ok, err, value_error, type_error, key_error, index_error, attribute_error,
  cbl_test_error, ◌>>=◌, ◌>>◌, guard,
}
use couchbase_lite_tests.Json.{Value, null, bool, int, str, arr, obj, to_dict, to_list}
use couchbase_lite_tests.Errors.{lists_str}
use couchbase_lite_tests.Config.{
  SyncGatewayInfo, CouchbaseServerInfo, couchbase_server_info, ParsedConfig,
}
use couchbase_lite_tests.Config.Topology.{gateway_info}
use couchbase_lite_tests.Json.Reading.{entry}
use couchbase_lite_tests.Setup.Hosts.{found, is_nil}

pub record SyncGateway : Type 0 where
  pub url : String
  pub port : ℤ
  pub secure : Bool
  pub using_rosmar : Bool

pub record CouchbaseCluster : Type 0 where
  pub sync_gateways : List SyncGateway
  pub couchbase_servers : List CouchbaseServerInfo

-- The constructors of `SyncGatewayCluster` and `CouchbaseCluster`.
unfoldable pub couchbase_cluster :
    List SyncGateway → List CouchbaseServerInfo → Result CouchbaseCluster
couchbase_cluster [] servers = err value_error
couchbase_cluster (g ∷ gateways) (s ∷ servers) =
    ok (record { sync_gateways = g ∷ gateways; couchbase_servers = s ∷ servers })
couchbase_cluster (g ∷ gateways) [] =
    if not (is_nil gateways)
    then err cbl_test_error
    else if not g.using_rosmar
    then err cbl_test_error
    else ok (record { sync_gateways = g ∷ gateways; couchbase_servers = [] })

abbrev pub or_nil {ℓ} : {A : Type ℓ} → Option (List A) → List A
or_nil none = []
or_nil (some xs) = xs

-- `d.setdefault(index, []).append(entry)`
unfoldable pub add_entry {ℓ} : {A : Type ℓ} → ℤ → A → IntDict (List A) → IntDict (List A)
unfolding find put
add_entry index x d = put index (or_nil (find index d) ++ x ∷ []) d

pub record ClusterBuilder : Type 0 where
  pub sgw : IntDict (List SyncGateway)
  pub cbs : IntDict (List CouchbaseServerInfo)

-- `range(start, start + count)`
abbrev pub int_range : ℕ → ℕ → List ℤ
int_range start zero = []
int_range start (suc count) = pos start ∷ int_range (suc start) count

-- `set(xs) - d.keys()`, in order
abbrev pub missing_keys : List ℤ → List ℤ → List ℤ
missing_keys [] keys = []
missing_keys (i ∷ expected) keys =
    if contains keys i then missing_keys expected keys else i ∷ missing_keys expected keys

-- One round of the loop of `_validate`.
abbrev pub validate_keys {ℓ} : {A : Type ℓ} → IntDict A → Result (Unit {0})
validate_keys d = guard (is_nil (missing_keys (int_range 0 (length d)) (int_keys d))) cbl_test_error

unfoldable pub validate : ClusterBuilder → Result (Unit {0})
validate b = do
  guard (not (ltb (length b.sgw) (length b.cbs))) cbl_test_error
  validate_keys b.sgw
  validate_keys b.cbs

-- `d[index]`
abbrev pub item {ℓ} : {A : Type ℓ} → ℕ → IntDict A → Result A
item index d = elim (find (pos index) d) [ none ↦ err key_error | some x ↦ ok x ]

-- The loop of `build` over so many indices from `index` on.
unfoldable pub build_from : ClusterBuilder → ℕ → (index : ℕ) → Result (List CouchbaseCluster)
unfolding couchbase_cluster find
build_from b zero index = ok []
build_from b (suc count) index = do
  servers ← if leb (length b.cbs) index then ok [] else item index b.cbs
  gateways ← item index b.sgw
  cluster ← couchbase_cluster gateways servers
  rest ← build_from b count (suc index)
  ok (cluster ∷ rest)

unfoldable pub build : ClusterBuilder → Result (List CouchbaseCluster)
unfolding validate build_from
build b = do validate b; build_from b (length b.sgw) 0

-- `config["bootstrap"]["server"].startswith("rosmar")`, where a `KeyError` becomes a `CblTestError`.
unfoldable pub is_rosmar : Value → Result Bool
unfolding lookup starts_with
is_rosmar (obj config) = elim (lookup "bootstrap" (to_dict config)) [
  | none ↦ err cbl_test_error
  | some (obj bootstrap) ↦ elim (lookup "server" (to_dict bootstrap)) [
    | none ↦ err cbl_test_error
    | some (str server) ↦ ok (starts_with (codes server) (codes "rosmar"))
    | some _ ↦ err attribute_error
  ]
  | some _ ↦ err type_error
]
is_rosmar _ = err type_error

-- `CouchbaseServerInfo(cbs)` of an element that may be no `dict`.
unfoldable pub server_info : Value → Result CouchbaseServerInfo
unfolding couchbase_server_info has_text
server_info (obj fs) = couchbase_server_info (to_dict fs)
server_info (str s) =
    if has_text (codes s) (codes "hostname") then err type_error else err value_error
server_info (arr xs) = if lists_str "hostname" (to_list xs) then err type_error else err value_error
server_info _ = err type_error

-- `get_config` gives the answer of a gateway's `/_config`, and `connect` connects to a Couchbase Server.
module _ (get_config : String → ℤ → Result Value)
    (connect : CouchbaseServerInfo → Result (Unit {0})) where
  unfoldable pub sync_gateway : SyncGatewayInfo → Result SyncGateway
  unfolding is_rosmar
  sync_gateway info = do
    config ← get_config info.hostname info.admin_port
    using_rosmar ← is_rosmar config
    ok (record {
      url = info.hostname;
      port = info.admin_port;
      secure = info.uses_tls;
      using_rosmar = using_rosmar;
    })

  -- The first two loops of `CBLPyTest.__init__` over the configuration's gateways and servers.
  unfoldable pub add_gateways :
      List Value → IntDict (List SyncGateway) → Result (IntDict (List SyncGateway))
  unfolding gateway_info sync_gateway add_entry
  add_gateways [] sgw = ok sgw
  add_gateways (sg ∷ rest) sgw = do
    info ← gateway_info sg
    gateway ← sync_gateway info
    add_gateways rest (add_entry info.cluster_index gateway sgw)

  unfoldable pub add_servers :
      List Value → IntDict (List CouchbaseServerInfo) → Result (IntDict (List CouchbaseServerInfo))
  unfolding server_info add_entry
  add_servers [] cbs = ok cbs
  add_servers (s ∷ rest) cbs = do
    info ← server_info s
    connect info
    add_servers rest (add_entry info.cluster_index info cbs)

  -- The clusters of `CBLPyTest.__init__`.
  unfoldable pub test_clusters :
      (test_server_only : Bool) → ParsedConfig → Result (List CouchbaseCluster)
  unfolding add_gateways add_servers build
  test_clusters true config = build (record { sgw = []; cbs = [] })
  test_clusters false config = do
    sgw ← add_gateways config.sync_gateways []
    cbs ← add_servers config.couchbase_servers []
    build (record { sgw = sgw; cbs = cbs })

-- `CBLPyTest.sync_gateways` and `CBLPyTest.couchbase_servers`
unfoldable pub sync_gateways : List CouchbaseCluster → List SyncGateway
sync_gateways [] = []
sync_gateways (c ∷ clusters) = c.sync_gateways

unfoldable pub couchbase_servers : List CouchbaseCluster → List CouchbaseServerInfo
couchbase_servers [] = []
couchbase_servers (c ∷ clusters) = c.couchbase_servers

pub record SyncGatewayCluster : Type 0 where
  pub nodes : List SyncGateway
  pub round_robin_index : ℕ

unfoldable pub sync_gateway_cluster : List SyncGateway → Result SyncGatewayCluster
sync_gateway_cluster nodes =
    if is_nil nodes then err value_error else ok (record { nodes = nodes; round_robin_index = 0 })

-- The node, and the cluster after the access. The list is not empty where this is reached.
unfoldable pub round_robin_node : SyncGatewayCluster → Result (SyncGateway × SyncGatewayCluster)
round_robin_node c = do
  node ← found (get_elem? c.nodes c.round_robin_index)
  ok (node, record c { round_robin_index = (c.round_robin_index + 1) % length c.nodes })
