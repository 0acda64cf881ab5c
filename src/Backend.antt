-- ===== src/Backend.antt =====
-- `write_config` of environment/aws/start_backend.py: the configuration of the harness that is written for
-- a topology whose machines have been started.
--
-- The dictionary that is written is the result. Arguments are `text`, which makes a text of its
-- characters, and `shown`, which is what an f-string shows of a value.
pub mod Parsed
use Prim.Native.String.{◌++◌ as str_append}
use couchbase_lite_tests.Prelude.{
  ℕ, zero, suc, ◌≡◌, Bool, true, false, not, Option, none, some, List, [], ◌∷◌, ◌++◌, String, Text,
  codes, starts_with, ℤ, pos, map, text_eq, ◌==◌, if◌then◌else◌,
}
use couchbase_lite_tests.Prelude.Dict.{Dict, insert, erase}
use couchbase_lite_tests.Json.{Value, bool, int, str, arr, obj, of_list, of_dict}
use couchbase_lite_tests.Setup.Hosts.{
  is_nil, ClusterConfig, SyncGatewayConfig, EdgeServerConfig, LoadBalancerConfig, TopologyConfig,
}

pub record TestServerConfig : Type 0 where
  pub ip_address : String
  pub dataset_version : Option String
  pub platform : Text

-- The keys that are taken out of the given configuration.
unfoldable pub without_servers : Dict Value → Dict Value
unfolding erase
without_servers config = erase "logslurp" (
    erase "load-balancers" (
      erase "test-servers"
        (erase "edge-servers" (erase "sync-gateways" (erase "couchbase-servers" config)))))

-- `if test: config_json[key] = xs`
unfoldable pub set_list_if : Bool → String → List Value → Dict Value → Dict Value
unfolding insert
set_list_if test key xs config = if test then insert key (arr (of_list xs)) config else config

abbrev pub port_of : Text → String
port_of platform =
    if starts_with platform (codes "dotnet")
    then "5555"
    else if platform == codes "js"
    then "5173"
    else "8080"

abbrev pub dataset_entry : Option String → Dict Value
dataset_entry none = []
dataset_entry (some version) =
    if is_nil (codes version) then [] else ("dataset_version", str version) ∷ []

unfoldable pub test_server_entry : TestServerConfig → Value
unfolding starts_with
test_server_entry ts = obj (
    of_dict (
      (
        "url",
        str (
            str_append "http://" (str_append ts.ip_address (str_append ":" (port_of ts.platform)))),
      )
      ∷ (dataset_entry ts.dataset_version
          ++ (if ts.platform == codes "js" then ("transport", str "ws") ∷ [] else []))))

module _ (text : Text → String) (shown : Value → String) where
  abbrev pub cbs_instance : ℕ → Text → Value
  cbs_instance index hostname =
      obj (of_dict (("hostname", str (text hostname)) ∷ ("cluster_index", int (pos index)) ∷ []))

  -- The loop over the clusters from the index on.
  unfoldable pub cbs_instances : ℕ → List ClusterConfig → List Value
  cbs_instances index [] = []
  cbs_instances index (c ∷ clusters) =
      map (cbs_instance index) c.public_hostnames ++ cbs_instances (suc index) clusters

  abbrev pub sgw_instance : SyncGatewayConfig → Value
  sgw_instance g = obj (
      of_dict (
        ("hostname", str (text g.hostname))
        ∷ ("tls", bool true)
        ∷ ("cluster_index", int g.cluster_index)
        ∷ []))

  abbrev pub es_instance : EdgeServerConfig → Value
  es_instance e = obj (of_dict (("hostname", str (text e.hostname)) ∷ ("tls", bool true) ∷ []))

  abbrev pub lb_instance : LoadBalancerConfig → Value
  lb_instance b = str (text b.hostname)

  unfoldable pub set_logslurp : Option Value → Dict Value → Dict Value
  unfolding insert
  set_logslurp none config = config
  set_logslurp (some ip) config = insert "logslurp" (str (str_append (shown ip) ":8180")) config

  unfoldable pub write_config : Dict Value → TopologyConfig → List TestServerConfig → Dict Value
  unfolding without_servers set_list_if cbs_instances test_server_entry set_logslurp
  write_config config t test_servers =
      let cleared = without_servers config in
      let servers =
        set_list_if (not (is_nil t.clusters)) "couchbase-servers" (cbs_instances 0 t.clusters)
          cleared in
      let gateways =
        set_list_if (not (is_nil t.sync_gateways)) "sync-gateways"
          (map sgw_instance t.sync_gateways) servers in
      let edges =
        set_list_if (not (is_nil t.edge_servers)) "edge-servers" (map es_instance t.edge_servers)
          gateways in
      let slurped = set_logslurp t.logslurp edges in
      let tests =
        set_list_if (not (is_nil test_servers)) "test-servers" (map test_server_entry test_servers)
          slurped in
      set_list_if (not (is_nil t.load_balancers)) "load-balancers"
        (map lb_instance t.load_balancers) tests
