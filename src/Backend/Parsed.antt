-- ===== src/Backend/Parsed.antt =====
-- What client/src/cbltest/configparser.py reads of a configuration that
-- environment/aws/start_backend.py has written.
use Prim.Native.String.{◌++◌ as str_append}
use couchbase_lite_tests.Prelude.{
  ℕ, suc, ◌≡◌, refl, sym, ap, ◌∙◌, Bool, true, false, not, Option, none, some, List, [], ◌∷◌, ◌++◌,
  String, Text, pos, map, string_eq, ◌==◌, if◌then◌else◌,
}
use couchbase_lite_tests.Prelude.Dict.{Dict, lookup, lookup-insert, lookup-erase}
use couchbase_lite_tests.Prelude.Result.{Result, ok, guard, value_error, ◌>>=◌, >>=-eq-ok}
use couchbase_lite_tests.Json.{
  to_list-of_list, Value, arr, str, str_type, dict_type, list_type, of_list, to_list, get_typed,
  get_typed_nonnull,
}
use couchbase_lite_tests.Config.{
  SyncGatewayInfo, CouchbaseServerInfo, ParsedConfig, parsed_config, is_malformed,
}
use couchbase_lite_tests.Config.Topology.{gateway_info, gateways}
use couchbase_lite_tests.Setup.Hosts.{is_nil, ClusterConfig, SyncGatewayConfig, TopologyConfig}
use couchbase_lite_tests.Setup.Valid.{ok_subst}
use couchbase_lite_tests.Clusters.{server_info}
use couchbase_lite_tests.Backend.{
  TestServerConfig, without_servers, set_list_if, test_server_entry, cbs_instance, cbs_instances,
  sgw_instance, es_instance, lb_instance, set_logslurp, write_config,
}

lookup-set_list_if :
    (j key : String) (test : Bool) (xs : List Value) (config : Dict Value)
    → lookup j (set_list_if test key xs config) ≡ (
        if key == j
        then (if test then some (arr (of_list xs)) else lookup j config)
        else lookup j config)
unfolding set_list_if
lookup-set_list_if j key true xs config = lookup-insert j key (arr (of_list xs)) config
lookup-set_list_if j key false xs config = if_same (key == j)
  where
    if_same : (b : Bool) → lookup j config ≡ (if b then lookup j config else lookup j config)
    if_same true = refl
    if_same false = refl

lookup-set_logslurp :
    (text : Text → String) (shown : Value → String) (j : String) (ip : Option Value)
    (config : Dict Value)
    → ("logslurp" == j) ≡ false
    → lookup j (set_logslurp text shown ip config) ≡ lookup j config
unfolding set_logslurp
lookup-set_logslurp text shown j none config h = refl
lookup-set_logslurp text shown j (some ip) config h =
    lookup-insert j "logslurp" (str (str_append (shown ip) ":8180")) config ∙ rw h refl

-- A list that is read where such an entry was written, or none.
read_written :
    (config : Dict Value) (key : String) (test : Bool) (xs found : List Value)
    → lookup key config ≡ (if test then some (arr (of_list xs)) else none)
    → (test ≡ false → xs ≡ [])
    → get_typed_nonnull config key list_type [] ≡ ok found
    → found ≡ xs
unfolding get_typed_nonnull
read_written config key true xs found e empty h =
    let read : ok (to_list (of_list xs)) ≡ ok found = rw (get_typed, e) at h in
    let same_list : to_list (of_list xs) ≡ found = cc in sym same_list ∙ to_list-of_list xs
read_written config key false xs found e empty h =
    let read : ok [] ≡ ok found = rw (get_typed, e) at h in
    let same_list : [] ≡ found = cc in sym same_list ∙ sym (empty refl)

-- What is read of one gateway that was written.
abbrev pub written_gateway : (Text → String) → SyncGatewayConfig → SyncGatewayInfo
written_gateway text g = record {
  hostname = text g.hostname;
  port = pos 4984;
  admin_port = pos 4985;
  rbac_user = "admin";
  rbac_password = "password";
  uses_tls = true;
  cluster_index = g.cluster_index;
}

abbrev written_server : (Text → String) → ℕ → Text → CouchbaseServerInfo
written_server text index hostname = record {
  hostname = text hostname;
  admin_user = "Administrator";
  admin_password = "password";
  cluster_index = pos index;
}

-- The public host names of the clusters from the index on, each with the index of its cluster.
abbrev pub written_servers : (Text → String) → ℕ → List ClusterConfig → List CouchbaseServerInfo
written_servers text index [] = []
written_servers text index (c ∷ clusters) =
    map (written_server text index) c.public_hostnames ++ written_servers text (suc index) clusters

-- The servers that the list describes, if it describes servers only.
abbrev pub server_infos : List Value → Result (List CouchbaseServerInfo)
server_infos [] = ok []
server_infos (s ∷ raw) = do info ← server_info s; infos ← server_infos raw; ok (info ∷ infos)

not_nil_map {ℓ κ} :
    {A : Type ℓ} {B : Type κ} (f : A → B) (xs : List A) → not (is_nil xs) ≡ false → map f xs ≡ []
not_nil_map f [] h = refl
not_nil_map f (x ∷ xs) h = cc

gateways-written :
    (text : Text → String) (shown : Value → String) (gs : List SyncGatewayConfig)
    → gateways (map (sgw_instance text shown) gs) ≡ ok (map (written_gateway text) gs)
unfolding gateway_info
gateways-written text shown [] = refl
gateways-written text shown (g ∷ gs) = rw (gateways-written text shown gs) refl

server_infos-hosts :
    (text : Text → String) (shown : Value → String) (index : ℕ) (hostnames : List Text)
    (raw : List Value) (infos : List CouchbaseServerInfo)
    → server_infos raw ≡ ok infos
    → server_infos (map (cbs_instance text shown index) hostnames ++ raw)
      ≡ ok (map (written_server text index) hostnames ++ infos)
unfolding server_info
server_infos-hosts text shown index [] raw infos h = h
server_infos-hosts text shown index (n ∷ hostnames) raw infos h =
    rw (server_infos-hosts text shown index hostnames raw infos h) refl

server_infos-written :
    (text : Text → String) (shown : Value → String) (index : ℕ) (clusters : List ClusterConfig)
    → server_infos (cbs_instances text shown index clusters)
      ≡ ok (written_servers text index clusters)
unfolding cbs_instances
server_infos-written text shown index [] = refl
server_infos-written text shown index (c ∷ clusters) =
    server_infos-hosts text shown index c.public_hostnames
      (cbs_instances text shown (suc index) clusters) (written_servers text (suc index) clusters)
      (server_infos-written text shown (suc index) clusters)

-- The five lists that are read of a configuration.
abbrev Lists : Dict Value → ParsedConfig → Type 0
Lists json p =
    (get_typed_nonnull json "test-servers" list_type [] ≡ ok p.test_servers)
    × (get_typed_nonnull json "sync-gateways" list_type [] ≡ ok p.sync_gateways)
    × (get_typed_nonnull json "couchbase-servers" list_type [] ≡ ok p.couchbase_servers)
    × (get_typed_nonnull json "load-balancers" list_type [] ≡ ok p.load_balancers)
    × (get_typed_nonnull json "edge-servers" list_type [] ≡ ok p.edge_servers)

parsed_config-Lists :
    (json : Dict Value) (p : ParsedConfig) → parsed_config json ≡ ok p → Lists json p
unfolding parsed_config
parsed_config-Lists json p h =
    let (ts, e₁, h₁) = >>=-eq-ok (get_typed_nonnull json "test-servers" list_type []) _ h in
    let (sg, e₂, h₂) = >>=-eq-ok (get_typed_nonnull json "sync-gateways" list_type []) _ h₁ in
    let (cbs, e₃, h₃) = >>=-eq-ok (get_typed_nonnull json "couchbase-servers" list_type []) _ h₂ in
    let (lb, e₄, h₄) = >>=-eq-ok (get_typed_nonnull json "load-balancers" list_type []) _ h₃ in
    let (es, e₅, h₅) = >>=-eq-ok (get_typed_nonnull json "edge-servers" list_type []) _ h₄ in
    let (board, _, h₆) = >>=-eq-ok (get_typed json "greenboard" dict_type) _ h₅ in
    let (_, _, h₇) = >>=-eq-ok (guard (not (is_malformed board)) value_error) _ h₆ in
    let (logslurp, _, last) = >>=-eq-ok (get_typed json "logslurp" str_type) _ h₇ in
    ok_subst (Lists json) _ p last (e₁, e₂, e₃, e₄, e₅)

module _ (text : Text → String) (shown : Value → String) (config : Dict Value) (t : TopologyConfig)
    (test_servers : List TestServerConfig) where
  lookup-servers : lookup "couchbase-servers" (write_config text shown config t test_servers) ≡ (
      if not (is_nil t.clusters)
      then some (arr (of_list (cbs_instances text shown 0 t.clusters)))
      else none)
  unfolding write_config without_servers
  lookup-servers = simp (lookup-set_list_if, lookup-set_logslurp, lookup-erase) refl

  lookup-gateways : lookup "sync-gateways" (write_config text shown config t test_servers) ≡ (
      if not (is_nil t.sync_gateways)
      then some (arr (of_list (map (sgw_instance text shown) t.sync_gateways)))
      else none)
  unfolding write_config without_servers
  lookup-gateways = simp (lookup-set_list_if, lookup-set_logslurp, lookup-erase) refl

  lookup-edges : lookup "edge-servers" (write_config text shown config t test_servers) ≡ (
      if not (is_nil t.edge_servers)
      then some (arr (of_list (map (es_instance text shown) t.edge_servers)))
      else none)
  unfolding write_config without_servers
  lookup-edges = simp (lookup-set_list_if, lookup-set_logslurp, lookup-erase) refl

  lookup-tests : lookup "test-servers" (write_config text shown config t test_servers) ≡ (
      if not (is_nil test_servers)
      then some (arr (of_list (map test_server_entry test_servers)))
      else none)
  unfolding write_config without_servers
  lookup-tests = simp (lookup-set_list_if, lookup-set_logslurp, lookup-erase) refl

  lookup-balancers : lookup "load-balancers" (write_config text shown config t test_servers) ≡ (
      if not (is_nil t.load_balancers)
      then some (arr (of_list (map (lb_instance text shown) t.load_balancers)))
      else none)
  unfolding write_config without_servers
  lookup-balancers = simp (lookup-set_list_if, lookup-set_logslurp, lookup-erase) refl

  no_clusters :
      (clusters : List ClusterConfig)
      → not (is_nil clusters) ≡ false
      → cbs_instances text shown 0 clusters ≡ []
  unfolding cbs_instances
  no_clusters [] h = refl
  no_clusters (c ∷ clusters) h = cc

  -- A configuration that was written for a topology, if it is accepted, describes the topology's gateways,
  -- each with its host name, its cluster and TLS, and the public host names of its clusters, each with the
  -- cluster's place as its index; and it lists its Edge Servers, its load balancers and the test servers,
  -- whatever the configuration that it is based on had listed.
  pub parsed_config-write_config :
      (p : ParsedConfig)
      → parsed_config (write_config text shown config t test_servers) ≡ ok p
      → (gateways p.sync_gateways ≡ ok (map (written_gateway text) t.sync_gateways))
        × (server_infos p.couchbase_servers ≡ ok (written_servers text 0 t.clusters))
        × (p.edge_servers ≡ map (es_instance text shown) t.edge_servers)
        × (p.load_balancers ≡ map (lb_instance text shown) t.load_balancers)
        × (p.test_servers ≡ map test_server_entry test_servers)
  parsed_config-write_config p h =
      let json = write_config text shown config t test_servers in
      let (tests, sg, cbs, lb, es) = parsed_config-Lists json p h in
      let sg_read =
        read_written json "sync-gateways" (not (is_nil t.sync_gateways))
          (map (sgw_instance text shown) t.sync_gateways) p.sync_gateways lookup-gateways
          (not_nil_map (sgw_instance text shown) t.sync_gateways) sg in
      let cbs_read =
        read_written json "couchbase-servers" (not (is_nil t.clusters))
          (cbs_instances text shown 0 t.clusters) p.couchbase_servers lookup-servers
          (no_clusters t.clusters) cbs in
      (
        ap gateways sg_read ∙ gateways-written text shown t.sync_gateways,
        ap server_infos cbs_read ∙ server_infos-written text shown 0 t.clusters,
        read_written json "edge-servers" (not (is_nil t.edge_servers))
            (map (es_instance text shown) t.edge_servers) p.edge_servers lookup-edges
            (not_nil_map (es_instance text shown) t.edge_servers) es,
        read_written json "load-balancers" (not (is_nil t.load_balancers))
            (map (lb_instance text shown) t.load_balancers) p.load_balancers lookup-balancers
            (not_nil_map (lb_instance text shown) t.load_balancers) lb,
        read_written json "test-servers" (not (is_nil test_servers))
            (map test_server_entry test_servers) p.test_servers lookup-tests
            (not_nil_map test_server_entry test_servers) tests,
      )
