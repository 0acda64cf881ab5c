-- ===== src/Setup/Hosts.antt =====
-- environment/aws/topology_setup/setup_topology.py: what becomes of the inputs when Terraform has
-- started the machines, and `get_ec2_hostname` of environment/aws/common/io.py.
--
-- A host name is the list of its characters. Terraform's outputs are a record: the keys that are read.
pub mod Resolve
use couchbase_lite_tests.Prelude.{
  ℕ, zero, suc, ◌+◌, ◌-◌, ◌≡◌, Bool, true, false, not, ◌&&◌, Option, none, some, List, [], ◌∷◌,
  ◌++◌, ℤ, pos, negsuc, ◌+ℤ◌, Text, codes, split, starts_with, map, if◌then◌else◌, length, take,
  drop, get_elem?, nat_eq, nat_beq, ◌==◌, ltb,
}
use couchbase_lite_tests.Prelude.Result.{
  Result, ok, err, value_error, index_error, exception, ◌>>=◌, ◌>>◌, guard,
}
use couchbase_lite_tests.Json.{truthy, Value, null, bool, int, str, arr, obj, nil, end}
use couchbase_lite_tests.Setup.{TopologyInputs, ClusterInput, SyncGatewayInput}

unfoldable pub get_ec2_hostname : Text → Result Text
unfolding starts_with split
get_ec2_hostname hostname =
    if starts_with hostname (codes "ec2-")
    then ok hostname
    else if not (length (split b'.' hostname) == 4)
    then err value_error
    else ok (
        codes "ec2-"
        ++ (map (λ c. if nat_beq c b'.' then b'-' else c) hostname
            ++ codes ".compute-1.amazonaws.com"))

-- Where a slice starts or stops: an index below zero counts from the end. An index that is too large
-- needs nothing, since `take` and `drop` stop at the end.
abbrev slice_index : ℕ → ℤ → ℕ
slice_index size (pos k) = k
slice_index size (negsuc k) = size - (k + 1)

-- `xs[i:j]`
abbrev pub slice {ℓ} : {A : Type ℓ} → List A → (i j : ℤ) → List A
slice xs i j = drop (slice_index (length xs) i) (take (slice_index (length xs) j) xs)

abbrev pub found {ℓ} : {A : Type ℓ} → Option A → Result A
found none = err index_error
found (some a) = ok a

-- `xs[i]`
abbrev pub subscript {ℓ} : {A : Type ℓ} → List A → ℤ → Result A
subscript xs (pos k) = found (get_elem? xs k)
subscript xs (negsuc k) =
    if ltb k (length xs) then found (get_elem? xs (length xs - (k + 1))) else err index_error

-- `xs.pop(0)`: the element and what is left
abbrev pub pop_first {ℓ} : {A : Type ℓ} → List A → Result (A × List A)
pop_first [] = err index_error
pop_first (x ∷ xs) = ok (x, xs)

pub record ClusterConfig : Type 0 where
  pub version : Value
  pub public_hostnames : List Text
  pub internal_hostnames : List Text

pub record SyncGatewayConfig : Type 0 where
  pub version : Value
  pub hostname : Text
  pub internal_hostname : Text
  pub cluster_hostname : Text
  pub cluster_index : ℤ

pub record EdgeServerConfig : Type 0 where
  pub version : Value
  pub hostname : Text
  pub internal_hostname : Text

pub record LoadBalancerConfig : Type 0 where
  pub hostname : Text
  pub upstreams : List Text

-- The part of a `TopologyConfig` that `read_from_terraform` fills.
pub record TopologyConfig : Type 0 where
  pub inputs : TopologyInputs
  pub clusters : List ClusterConfig
  pub sync_gateways : List SyncGatewayConfig
  pub edge_servers : List EdgeServerConfig
  pub load_balancers : List LoadBalancerConfig
  pub logslurp : Option Value

abbrev pub new_topology : TopologyInputs → TopologyConfig
new_topology inputs = record {
  inputs = inputs;
  clusters = [];
  sync_gateways = [];
  edge_servers = [];
  load_balancers = [];
  logslurp = none;
}

-- The loop of `apply_server_hostnames` from the index `i` on.
unfoldable pub cluster_configs :
    ℤ → (hostnames internal : List Text) → List ClusterInput → List ClusterConfig
cluster_configs i hostnames internal [] = []
cluster_configs i hostnames internal (c ∷ inputs) =
    record {
      version = c.version;
      public_hostnames = slice hostnames i (i +ℤ c.server_count);
      internal_hostnames = slice internal i (i +ℤ c.server_count);
    }
    ∷ cluster_configs (i +ℤ c.server_count) hostnames internal inputs

unfoldable pub apply_server_hostnames :
    (hostnames internal : List Text) → TopologyConfig → TopologyConfig
unfolding cluster_configs
apply_server_hostnames hostnames internal t = record t {
  clusters = t.clusters ++ cluster_configs (pos 0) hostnames internal t.inputs.clusters;
}

-- The loop of `apply_sgw_hostnames`.
unfoldable pub gateway_configs :
    List ClusterConfig
    → (hostnames internal : List Text) → List SyncGatewayInput
    → Result (List SyncGatewayConfig)
unfolding get_ec2_hostname
gateway_configs clusters hostnames internal [] = ok []
gateway_configs clusters hostnames internal (g ∷ inputs) = do
  cluster ← subscript clusters g.cluster_index
  (ip, hostnames_left) ← pop_first hostnames
  hostname ← get_ec2_hostname ip
  (internal_ip, internal_left) ← pop_first internal
  cluster_hostname ← subscript cluster.internal_hostnames (pos 0)
  rest ← gateway_configs clusters hostnames_left internal_left inputs
  ok (
      record {
        version = g.version;
        hostname = hostname;
        internal_hostname = internal_ip;
        cluster_hostname = cluster_hostname;
        cluster_index = g.cluster_index;
      }
      ∷ rest)

unfoldable pub apply_sgw_hostnames :
    (hostnames internal : List Text) → TopologyConfig → Result TopologyConfig
unfolding gateway_configs
apply_sgw_hostnames hostnames internal t = do
  gateways ← gateway_configs t.clusters hostnames internal t.inputs.sync_gateways
  ok (record t { sync_gateways = t.sync_gateways ++ gateways })

-- The loop of `apply_es_hostnames`.
unfoldable pub edge_configs :
    (hostnames internal : List Text) → List Value → Result (List EdgeServerConfig)
edge_configs hostnames internal [] = ok []
edge_configs hostnames internal (version ∷ inputs) = do
  (hostname, hostnames_left) ← pop_first hostnames
  (internal_ip, internal_left) ← pop_first internal
  rest ← edge_configs hostnames_left internal_left inputs
  ok (record { version = version; hostname = hostname; internal_hostname = internal_ip } ∷ rest)

unfoldable pub apply_es_hostnames :
    (hostnames internal : List Text) → TopologyConfig → Result TopologyConfig
unfolding edge_configs
apply_es_hostnames hostnames internal t = do
  edges ← edge_configs hostnames internal t.inputs.edge_servers
  ok (record t { edge_servers = t.edge_servers ++ edges })

-- The internal host names of the gateways behind a load balancer.
unfoldable pub upstreams_of : List SyncGatewayConfig → List ℤ → Result (List Text)
upstreams_of gateways [] = ok []
upstreams_of gateways (i ∷ indices) = do
  g ← subscript gateways i
  rest ← upstreams_of gateways indices
  ok (g.internal_hostname ∷ rest)

-- The loop of `apply_lb_hostnames`.
unfoldable pub balancer_configs :
    List SyncGatewayConfig → List Text → List (List ℤ) → Result (List LoadBalancerConfig)
unfolding upstreams_of
balancer_configs gateways hostnames [] = ok []
balancer_configs gateways hostnames (b ∷ inputs) = do
  upstreams ← upstreams_of gateways b
  (hostname, hostnames_left) ← pop_first hostnames
  rest ← balancer_configs gateways hostnames_left inputs
  ok (record { hostname = hostname; upstreams = upstreams } ∷ rest)

abbrev pub is_nil {ℓ} : {A : Type ℓ} → List A → Bool
is_nil [] = true
is_nil (x ∷ xs) = false

unfoldable pub apply_lb_hostnames : List Text → TopologyConfig → Result TopologyConfig
unfolding balancer_configs
apply_lb_hostnames hostnames t =
    if is_nil hostnames then ok t else if is_nil t.sync_gateways then err exception else do
      balancers ← balancer_configs t.sync_gateways hostnames t.inputs.load_balancers
      ok (record t { load_balancers = t.load_balancers ++ balancers })

-- The outputs of Terraform that are read; the key material is not.
pub record TerraformOutputs : Type 0 where
  pub cbs_ips : List Text
  pub cbs_internal_ips : List Text
  pub sgw_ips : List Text
  pub sgw_internal_ips : List Text
  pub es_ips : List Text
  pub es_internal_ips : List Text
  pub lb_ips : List Text
  pub logslurp_ip : Result Value

unfoldable pub apply_logslurp : Result Value → TopologyConfig → Result TopologyConfig
apply_logslurp ip t =
    if truthy t.inputs.wants_logslurp
    then (do v ← ip; ok (record t { logslurp = some v }))
    else ok t

unfoldable pub read_from_terraform : TerraformOutputs → TopologyConfig → Result TopologyConfig
unfolding apply_server_hostnames apply_sgw_hostnames apply_es_hostnames apply_lb_hostnames
    apply_logslurp
read_from_terraform info t = do
  gateways ←
      apply_sgw_hostnames info.sgw_ips info.sgw_internal_ips
        (apply_server_hostnames info.cbs_ips info.cbs_internal_ips t)
  edges ← apply_es_hostnames info.es_ips info.es_internal_ips gateways
  balancers ← apply_lb_hostnames info.lb_ips edges
  apply_logslurp info.logslurp_ip balancers
