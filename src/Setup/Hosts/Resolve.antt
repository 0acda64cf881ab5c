-- ===== src/Setup/Hosts/Resolve.antt =====
-- `read_from_terraform` of environment/aws/topology_setup/setup_topology.py gives every input its hosts.
use mathlib.Core.List.{append-nil}
use couchbase_lite_tests.Prelude.{
  ℕ, zero, suc, ◌≤◌, ◌<◌, ◌≡◌, ◌⊎◌, inl, inr, refl, ap, false, List, [], ◌∷◌, ◌++◌, Bool-cases,
  Option, ℤ, pos, negsuc, Text, arith, length, get_elem?, some, none, ◌+ℤ◌, All, map,
}
use couchbase_lite_tests.Prelude.Result.{ok}
use couchbase_lite_tests.Json.{truthy, Value}
use couchbase_lite_tests.Setup.{ClusterInput, SyncGatewayInput, TopologyInputs}
use couchbase_lite_tests.Setup.Valid.{InRange, IsValid, ok_subst}
use couchbase_lite_tests.Setup.Slices.{Counts, total, internals, apply_server_hostnames-deal}
use couchbase_lite_tests.Setup.Hosts.{
  get_ec2_hostname, ClusterConfig, SyncGatewayConfig, EdgeServerConfig, LoadBalancerConfig,
  TopologyConfig, TerraformOutputs, new_topology, is_nil, subscript, found, gateway_configs,
  edge_configs, upstreams_of, balancer_configs, cluster_configs, apply_server_hostnames,
  apply_sgw_hostnames, apply_es_hostnames, apply_lb_hostnames, apply_logslurp, read_from_terraform,
}

subscript-InRange {ℓ} :
    {A : Type ℓ} (xs : List A) (i : ℤ) → InRange (length xs) i → (x : A) × (subscript xs i ≡ ok x)
subscript-InRange xs (negsuc k) h = cc
subscript-InRange [] (pos k) h = absurd (omega arith)
subscript-InRange (x ∷ xs) (pos zero) h = (x, refl)
subscript-InRange (x ∷ xs) (pos (suc k)) h = subscript-InRange xs (pos k) (omega arith)

All-found {ℓ κ} :
    {A : Type ℓ} (P : A → Type κ) (xs : List A) (k : ℕ) (x : A)
    → All P xs
    → found (get_elem? xs k) ≡ ok x
    → P x
All-found P [] k x p e = cc
All-found P (y ∷ xs) zero x (here, p) e = ok_subst P y x e here
All-found P (y ∷ xs) (suc k) x (here, p) e = All-found P xs k x p e

-- The first host of a list that is not empty.
first_host : (xs : List Text) → 0 < length xs → (x : Text) × (subscript xs (pos 0) ≡ ok x)
first_host [] h = absurd (omega arith)
first_host (x ∷ xs) h = (x, refl)

abbrev HasHost : ClusterConfig → Type 0
HasHost c = 0 < length c.internal_hostnames

-- The address can be turned into the name of a host.
abbrev pub IsAddress : Text → Type 0
IsAddress ip = (hostname : Text) × (get_ec2_hostname ip ≡ ok hostname)

-- The gateway is connected to the first host of the cluster that it names.
abbrev pub IsConnected : List ClusterConfig → SyncGatewayConfig → Type 0
IsConnected clusters g =
    (c : ClusterConfig) × (subscript clusters g.cluster_index ≡ ok c)
    × (subscript c.internal_hostnames (pos 0) ≡ ok g.cluster_hostname)

gateway_configs-ok :
    (clusters : List ClusterConfig) (hostnames internal : List Text)
    (inputs : List SyncGatewayInput)
    → All HasHost clusters
    → All (λ (g : SyncGatewayInput). InRange (length clusters) g.cluster_index) inputs
    → length inputs ≤ length hostnames
    → length inputs ≤ length internal
    → All IsAddress hostnames
    → (gateways : List SyncGatewayConfig) × (gateway_configs clusters hostnames internal inputs
        ≡ ok gateways)
      × (length gateways ≡ length inputs)
      × All (IsConnected clusters) gateways
unfolding gateway_configs
gateway_configs-ok clusters hostnames internal [] hosts valid n m a = ([], refl, refl, tt)
gateway_configs-ok clusters [] internal (g ∷ inputs) hosts valid n m a = absurd (omega arith)
gateway_configs-ok clusters (ip ∷ hostnames) [] (g ∷ inputs) hosts valid n m a =
    absurd (omega arith)
gateway_configs-ok clusters (ip ∷ hostnames) (i ∷ internal) (g ∷ inputs) hosts (here, valid) n m
      ((h, address), a) =
    let (c, at) = subscript-InRange clusters g.cluster_index here in
    let (host, first) =
      first_host c.internal_hostnames (All-subscript clusters g.cluster_index c hosts here at) in
    let (rest, e, l, all) =
      gateway_configs-ok clusters hostnames internal inputs hosts valid (omega arith) (omega arith)
        a in
    let config : SyncGatewayConfig = record {
      version = g.version;
      hostname = h;
      internal_hostname = i;
      cluster_hostname = host;
      cluster_index = g.cluster_index;
    } in
    (config ∷ rest, rw (at, address, first, e) refl, ap suc l, ((c, at, first), all))
  where
    All-subscript :
        (clusters : List ClusterConfig) (i : ℤ) (c : ClusterConfig)
        → All HasHost clusters
        → InRange (length clusters) i
        → subscript clusters i ≡ ok c
        → HasHost c
    All-subscript clusters (pos k) c hosts r e = All-found HasHost clusters k c hosts e
    All-subscript clusters (negsuc k) c hosts r e = cc

edge_configs-ok :
    (hostnames internal : List Text) (inputs : List Value)
    → length inputs ≤ length hostnames
    → length inputs ≤ length internal
    → (edges : List EdgeServerConfig) × (edge_configs hostnames internal inputs ≡ ok edges)
      × (length edges ≡ length inputs)
unfolding edge_configs
edge_configs-ok hostnames internal [] n m = ([], refl, refl)
edge_configs-ok [] internal (v ∷ inputs) n m = absurd (omega arith)
edge_configs-ok (h ∷ hostnames) [] (v ∷ inputs) n m = absurd (omega arith)
edge_configs-ok (h ∷ hostnames) (i ∷ internal) (v ∷ inputs) n m =
    let (rest, e, l) = edge_configs-ok hostnames internal inputs (omega arith) (omega arith) in
    (record { version = v; hostname = h; internal_hostname = i } ∷ rest, rw e refl, ap suc l)

upstreams_of-ok :
    (gateways : List SyncGatewayConfig) (indices : List ℤ)
    → All (InRange (length gateways)) indices
    → (upstreams : List Text) × (upstreams_of gateways indices ≡ ok upstreams)
unfolding upstreams_of
upstreams_of-ok gateways [] h = ([], refl)
upstreams_of-ok gateways (i ∷ indices) (here, h) =
    let (g, at) = subscript-InRange gateways i here in
    let (rest, e) = upstreams_of-ok gateways indices h in
    (g.internal_hostname ∷ rest, rw (at, e) refl)

balancer_configs-ok :
    (gateways : List SyncGatewayConfig) (hostnames : List Text) (inputs : List (List ℤ))
    → All (All (InRange (length gateways))) inputs
    → length inputs ≤ length hostnames
    → (balancers : List LoadBalancerConfig) × (balancer_configs gateways hostnames inputs
        ≡ ok balancers)
      × (length balancers ≡ length inputs)
unfolding balancer_configs
balancer_configs-ok gateways hostnames [] h n = ([], refl, refl)
balancer_configs-ok gateways [] (b ∷ inputs) h n = absurd (omega arith)
balancer_configs-ok gateways (name ∷ hostnames) (b ∷ inputs) (here, h) n =
    let (up, e) = upstreams_of-ok gateways b here in
    let (rest, e', l) = balancer_configs-ok gateways hostnames inputs h (omega arith) in
    (record { hostname = name; upstreams = up } ∷ rest, rw (e, e') refl, ap suc l)

-- The clusters of a topology for which enough machines have been started have a host each.
clusters-HasHost :
    (clusters : List ClusterConfig)
    → All (λ n. 0 < n) (map length (internals clusters))
    → All HasHost clusters
clusters-HasHost [] h = tt
clusters-HasHost (c ∷ clusters) (here, h) = (here, clusters-HasHost clusters h)

apply_lb-ok :
    (t : TopologyConfig) (hostnames : List Text)
    → All (All (InRange (length t.sync_gateways))) t.inputs.load_balancers
    → length t.inputs.load_balancers ≤ length hostnames
    → (hostnames ≡ []) ⊎ (0 < length t.sync_gateways)
    → (balancers : List LoadBalancerConfig) × (apply_lb_hostnames hostnames t
        ≡ ok (record t { load_balancers = t.load_balancers ++ balancers }))
      × (length balancers ≡ length t.inputs.load_balancers)
unfolding apply_lb_hostnames
apply_lb-ok t [] valid enough some_gateway = ([], rw append-nil refl, omega arith)
apply_lb-ok t (h ∷ hostnames) valid enough some_gateway =
    let (balancers, e, l) =
      balancer_configs-ok t.sync_gateways (h ∷ hostnames) t.inputs.load_balancers valid enough in
    (balancers, rw (not_nil t.sync_gateways some_gateway, e) refl, l)
  where
    not_nil :
        (gateways : List SyncGatewayConfig)
        → (h ∷ hostnames ≡ []) ⊎ (0 < length gateways)
        → is_nil gateways ≡ false
    not_nil (g ∷ gateways) has = refl
    not_nil [] (inl e) = cc
    not_nil [] (inr l) = absurd (omega arith)

apply_logslurp-ok :
    (ip : Value) (t : TopologyConfig)
    → (logslurp : Option Value) × (apply_logslurp (ok ip) t ≡ ok (record t { logslurp = logslurp }))
unfolding apply_logslurp
apply_logslurp-ok ip t = elim (Bool-cases (truthy t.inputs.wants_logslurp)) [
  | inl wanted ↦ (some ip, rw wanted refl)
  | inr unwanted ↦ (t.logslurp, rw unwanted refl)
]

length-cluster_configs :
    (inputs : List ClusterInput) (i : ℤ) (hostnames internal : List Text)
    → length (cluster_configs i hostnames internal inputs) ≡ length inputs
unfolding cluster_configs
length-cluster_configs [] i hostnames internal = refl
length-cluster_configs (c ∷ inputs) i hostnames internal =
    ap suc (length-cluster_configs inputs (i +ℤ c.server_count) hostnames internal)

-- Terraform has started enough machines: at least one server for each cluster and as many as it asks
-- for, and a machine for each gateway, Edge Server and load balancer; the gateways' public addresses are
-- addresses; and where there are load balancers there is a gateway.
pub record HasEnough (info : TerraformOutputs) (inputs : TopologyInputs) (counts : List ℕ)
    : Type 0 where
  pub counted : Counts inputs.clusters counts
  pub some_server : All (λ n. 0 < n) counts
  pub servers : total counts ≤ length info.cbs_ips
  pub internal_servers : total counts ≤ length info.cbs_internal_ips
  pub gateways : length inputs.sync_gateways ≤ length info.sgw_ips
  pub internal_gateways : length inputs.sync_gateways ≤ length info.sgw_internal_ips
  pub addresses : All IsAddress info.sgw_ips
  pub edges : length inputs.edge_servers ≤ length info.es_ips
  pub internal_edges : length inputs.edge_servers ≤ length info.es_internal_ips
  pub balancers : length inputs.load_balancers ≤ length info.lb_ips
  pub some_gateway : (info.lb_ips ≡ []) ⊎ (0 < length inputs.sync_gateways)

-- Where Terraform has started enough machines for a topology whose indices are valid, reading the
-- hosts from its outputs raises nothing: there are as many gateways, Edge Servers and load balancers as the topology asks
-- for, and each gateway is connected to the first host of the cluster that it names.
pub read_from_terraform-ok :
    (info : TerraformOutputs) (inputs : TopologyInputs) (counts : List ℕ) (logslurp_ip : Value)
    → IsValid inputs
    → HasEnough info inputs counts
    → info.logslurp_ip ≡ ok logslurp_ip
    → (t : TopologyConfig) × (read_from_terraform info (new_topology inputs) ≡ ok t)
      × (length t.sync_gateways ≡ length inputs.sync_gateways)
      × (length t.edge_servers ≡ length inputs.edge_servers)
      × (length t.load_balancers ≡ length inputs.load_balancers)
      × All (IsConnected t.clusters) t.sync_gateways
unfolding read_from_terraform apply_server_hostnames apply_sgw_hostnames apply_es_hostnames
read_from_terraform-ok info inputs counts logslurp_ip (valid, valid_balancers) has logslurp =
    let clusters = cluster_configs (pos 0) info.cbs_ips info.cbs_internal_ips inputs.clusters in
    let (_, lengths, _, _) =
      apply_server_hostnames-deal info.cbs_ips info.cbs_internal_ips inputs counts has.counted
        has.servers has.internal_servers in
    let hosts = clusters-HasHost clusters (rw lengths has.some_server) in
    let number =
      length-cluster_configs inputs.clusters (pos 0) info.cbs_ips info.cbs_internal_ips in
    let (gateways, e, l, connected) =
      gateway_configs-ok clusters info.sgw_ips info.sgw_internal_ips inputs.sync_gateways hosts
        (rw number valid) has.gateways has.internal_gateways has.addresses in
    let (edges, e', l') =
      edge_configs-ok info.es_ips info.es_internal_ips inputs.edge_servers has.edges
        has.internal_edges in
    let t : TopologyConfig = record {
      inputs = inputs;
      clusters = clusters;
      sync_gateways = gateways;
      edge_servers = edges;
      load_balancers = [];
      logslurp = none;
    } in
    let (balancers, b, l'') =
      apply_lb-ok t info.lb_ips (rw l valid_balancers) has.balancers (rw l has.some_gateway) in
    let (found_logslurp, s) =
      apply_logslurp-ok logslurp_ip (record t { load_balancers = balancers }) in
    (
      record t { load_balancers = balancers; logslurp = found_logslurp },
      rw (e, e', b, logslurp) s,
      l,
      l',
      l'',
      connected,
    )
