-- ===== src/Setup.antt =====
-- environment/aws/topology_setup/setup_topology.py: what a topology file asks for.
--
-- The JSON has the shapes that the code casts it to. Versions and other values that are only stored stay
-- JSON values. The file system is an argument.
pub mod Hosts
pub mod Valid
pub mod Slices
use couchbase_lite_tests.Prelude.{
  ℕ, zero, suc, ◌≡◌, Bool, true, false, not, ◌&&◌, ◌||◌, Option, none, some, List, [], ◌∷◌, ◌++◌,
  String, codes, ℤ, pos, if◌then◌else◌, length, int_ltb, int_leb, parse_int,
}
use couchbase_lite_tests.Json.Reading.{as_dict, py_int, entry, read_list}
use couchbase_lite_tests.Prelude.Dict.{Dict, lookup}
use couchbase_lite_tests.Prelude.Result.{
  Result, ok, err, value_error, type_error, key_error, runtime_error, exception, ◌>>=◌, ◌>>◌, guard,
}
use couchbase_lite_tests.Json.{
  Value, null, bool, int, str, arr, obj, Items, nil, cons, to_dict, int_type,
}
use couchbase_lite_tests.ReplicatorTypes.Entries.{get_or_null}

-- `DefaultProperty`, whose value may be `None`.
pub record DefaultProperty : Type 0 where
  pub default_value : String
  pub value : Value

abbrev pub is_set : DefaultProperty → Bool
is_set p = elim p.value [ null ↦ false | _ ↦ true ]

-- `str(p)`
abbrev pub default_text : DefaultProperty → Result Value
default_text p = elim p.value [
  | null ↦ ok (str p.default_value)
  | str s ↦ ok (str s)
  | _ ↦ err type_error
]

-- `CouchbaseServerDefaults`, `SyncGatewayDefaults` and `EdgeServerDefaults`, which differ in the key and
-- the version.
unfoldable pub server_defaults : (key default : String) → Dict Value → Result DefaultProperty
unfolding lookup get_or_null
server_defaults key default parent = elim (lookup key parent) [
  | none ↦ ok (record { default_value = default; value = null })
  | some v ↦ do
    defaults ← as_dict v
    ok (record { default_value = default; value = get_or_null "version" defaults })
]

pub record ConfigDefaults : Type 0 where
  pub couchbase_server : DefaultProperty
  pub sync_gateway : DefaultProperty
  pub edge_server : DefaultProperty

abbrev defaults_entry : Option Value → Result (Dict Value)
defaults_entry none = ok []
defaults_entry (some v) = as_dict v

unfoldable pub config_defaults : Dict Value → Result ConfigDefaults
unfolding server_defaults
config_defaults parent = do
  defaults ← defaults_entry (lookup "defaults" parent)
  cbs ← server_defaults "cbs" "7.6.7" defaults
  sgw ← server_defaults "sgw" "4.0.0" defaults
  es ← server_defaults "es" "1.0.0" defaults
  ok (record { couchbase_server = cbs; sync_gateway = sgw; edge_server = es })

-- One of the first two parts of `extend`.
abbrev extend_property : (own other : DefaultProperty) → Result DefaultProperty
extend_property own other =
    if not (is_set other)
    then ok own
    else if is_set own
    then err exception
    else ok (record own { value = other.value })

unfoldable pub extend : (own other : ConfigDefaults) → Result ConfigDefaults
extend own other = do
  cbs ← extend_property own.couchbase_server other.couchbase_server
  sgw ← extend_property own.sync_gateway other.sync_gateway
  guard (not (is_set other.edge_server && is_set own.edge_server)) exception
  ok (record { couchbase_server = cbs; sync_gateway = sgw; edge_server = own.edge_server })

pub record ClusterInput : Type 0 where
  pub server_count : ℤ
  pub version : Value

pub record SyncGatewayInput : Type 0 where
  pub cluster_index : ℤ
  pub version : Value

pub record TestServerInput : Type 0 where
  pub location : Value
  pub cbl_version : Value
  pub dataset_version : Value
  pub platform : Value
  pub download : Value
  pub ip_hint : Value

-- What one file and those that it includes ask for. An `EdgeServerInput` is its version, and a
-- `LoadBalancerInput` the list of its gateways' indices.
pub record TopologyInputs : Type 0 where
  pub defaults : ConfigDefaults
  pub clusters : List ClusterInput
  pub sync_gateways : List SyncGatewayInput
  pub edge_servers : List Value
  pub test_servers : List TestServerInput
  pub load_balancers : List (List ℤ)
  pub wants_logslurp : Value
  pub tag : Value

-- The entry's version, or the default.
abbrev pub version_of : DefaultProperty → Dict Value → Result Value
version_of default raw = elim (lookup "version" raw) [ none ↦ default_text default | some v ↦ ok v ]

unfoldable pub cluster_input : DefaultProperty → Value → Result ClusterInput
unfolding py_int
cluster_input default v = do
  raw ← as_dict v
  version ← version_of default raw
  count ← elim (lookup "server_count" raw) [ none ↦ err value_error | some n ↦ py_int n ]
  ok (record { server_count = count; version = version })

-- `index < 0 or index >= n`
abbrev pub out_of_range : ℤ → ℕ → Bool
out_of_range index n = int_ltb index (pos 0) || int_leb (pos n) index

unfoldable pub sync_gateway_input : ℕ → DefaultProperty → Value → Result SyncGatewayInput
unfolding py_int
sync_gateway_input cluster_count default v = do
  raw ← as_dict v
  n ← entry "cluster" raw
  index ← py_int n
  guard (not (out_of_range index cluster_count)) value_error
  version ← version_of default raw
  ok (record { cluster_index = index; version = version })

unfoldable pub edge_server_input : DefaultProperty → Value → Result Value
edge_server_input default v = do raw ← as_dict v; version_of default raw

-- `raw.get(key, False)`
abbrev get_or_false : String → Dict Value → Value
get_or_false key raw = elim (lookup key raw) [ none ↦ bool false | some v ↦ v ]

unfoldable pub test_server_input : Value → Result TestServerInput
unfolding get_or_null
test_server_input v = do
  raw ← as_dict v
  location ← entry "location" raw
  cbl_version ← entry "cbl_version" raw
  platform ← entry "platform" raw
  ok (record {
    location = location;
    cbl_version = cbl_version;
    dataset_version = get_or_null "dataset_version" raw;
    platform = platform;
    download = get_or_false "download" raw;
    ip_hint = get_or_null "ip_hint" raw;
  })

unfoldable pub gateway_index : ℕ → Value → Result ℤ
gateway_index gateway_count v = elim (int_type.cast v) [
  | none ↦ err type_error
  | some index ↦ do guard (not (out_of_range index gateway_count)) value_error; ok index
]

unfoldable pub load_balancer_input : ℕ → Value → Result (List ℤ)
unfolding gateway_index
load_balancer_input gateway_count v = do
  raw ← as_dict v
  indices ← entry "sync_gateways" raw
  read_list (gateway_index gateway_count) (some indices)

abbrev pub extend_by : Option ConfigDefaults → ConfigDefaults → Result ConfigDefaults
extend_by none own = ok own
extend_by (some parent) own = extend own parent

-- The constructor up to the included file.
unfoldable pub read_config : Option ConfigDefaults → Dict Value → Result TopologyInputs
unfolding config_defaults extend cluster_input sync_gateway_input edge_server_input
    test_server_input load_balancer_input
read_config parent_defaults config = do
  own ← config_defaults config
  defaults ← extend_by parent_defaults own
  clusters ← read_list (cluster_input defaults.couchbase_server) (lookup "clusters" config)
  gateways ←
      read_list (sync_gateway_input (length clusters) defaults.sync_gateway)
        (lookup "sync_gateways" config)
  edges ← read_list (edge_server_input defaults.edge_server) (lookup "edge_servers" config)
  servers ← read_list test_server_input (lookup "test_servers" config)
  balancers ← read_list (load_balancer_input (length gateways)) (lookup "load_balancers" config)
  ok (record {
    defaults = defaults;
    clusters = clusters;
    sync_gateways = gateways;
    edge_servers = edges;
    test_servers = servers;
    load_balancers = balancers;
    wants_logslurp = get_or_null "logslurp" config;
    tag = elim (lookup "tag" config) [ none ↦ str "" | some v ↦ v ];
  })

abbrev or_value : Value → Value → Value
or_value null v = v
or_value u v = u

-- The `extend` calls for an included file; the tag is the including file's.
unfoldable pub include_config : (own sub : TopologyInputs) → TopologyInputs
include_config own sub = record {
  defaults = own.defaults;
  clusters = own.clusters ++ sub.clusters;
  sync_gateways = own.sync_gateways ++ sub.sync_gateways;
  edge_servers = own.edge_servers ++ sub.edge_servers;
  test_servers = own.test_servers ++ sub.test_servers;
  load_balancers = own.load_balancers ++ sub.load_balancers;
  wants_logslurp = or_value own.wants_logslurp sub.wants_logslurp;
  tag = own.tag;
}

-- `open_json` reads a file as JSON, and `resolve` gives the path of an included file.
module _ (open_json : String → Result (Dict Value))
    (resolve : (config_file : String) → Value → String) where
  -- The fuel is how deep the files may include each other before Python raises its RecursionError.
  unfoldable pub topology_inputs :
      ℕ → String → Dict Value → Option ConfigDefaults → Result TopologyInputs
  unfolding read_config include_config
  topology_inputs zero config_file config parent = err runtime_error
  topology_inputs (suc depth) config_file config parent = do
    own ← read_config parent config
    elim (lookup "include" config) [
      | none ↦ ok own
      | some path ↦ do
        included ← open_json (resolve config_file path)
        sub ← topology_inputs depth (resolve config_file path) included (some own.defaults)
        ok (include_config own sub)
    ]

  -- The constructor: an empty `config_input` counts as none.
  unfoldable pub topology_config :
      ℕ → (default_file : String) (config_file : Option String) → Dict Value → Result TopologyInputs
  unfolding topology_inputs
  topology_config depth default_file config_file (e ∷ config_input) = elim config_file [
    | some _ ↦ err value_error
    | none ↦ topology_inputs depth "None" (e ∷ config_input) none
  ]
  topology_config depth default_file config_file [] =
      let file : String = elim config_file [ none ↦ default_file | some f ↦ f ] in
      do config ← open_json file; topology_inputs depth file config none
