-- ===== src/Tests/Topologies.antt =====
-- A topology of two clusters, which comes from two files, and the machines for it.
use couchbase_lite_tests.Prelude.{
  ◌≡◌, refl, ℕ, inr, true, List, [], ◌∷◌, none, some, String, codes, pos, Text, map, take, length,
  arith, All, ◌==◌, string_eq, text_eq, if◌then◌else◌,
}
use couchbase_lite_tests.Prelude.Dict.{Dict}
use couchbase_lite_tests.Prelude.Result.{Result, ok, err, exception}
use couchbase_lite_tests.Json.{Value, null, bool, int, str, arr, obj, of_dict, of_list}
use couchbase_lite_tests.Config.{ParsedConfig, parsed_config}
use couchbase_lite_tests.Config.Topology.{gateways}
use couchbase_lite_tests.Backend.{
  TestServerConfig, test_server_entry, cbs_instances, sgw_instance, es_instance, lb_instance,
  write_config,
}
use couchbase_lite_tests.Backend.Parsed.{
  written_gateway, written_servers, server_infos, parsed_config-write_config,
}
use couchbase_lite_tests.Setup.{DefaultProperty, TopologyInputs, topology_config}
use couchbase_lite_tests.Setup.Valid.{IsValid, topology_config-IsValid}
use couchbase_lite_tests.Setup.Slices.{
  total, publics, internals, concat, apply_server_hostnames-deal,
}
use couchbase_lite_tests.Setup.Hosts.{
  get_ec2_hostname, TerraformOutputs, TopologyConfig, new_topology, apply_server_hostnames,
  read_from_terraform,
}
use couchbase_lite_tests.Setup.Hosts.Resolve.{
  HasEnough, IsConnected, IsAddress, read_from_terraform-ok,
}

abbrev base : Dict Value
base = ("clusters", arr (of_list (obj (of_dict (("server_count", int (pos 1)) ∷ [])) ∷ []))) ∷ []

abbrev main : Dict Value
main =
    ("include", str "base.json")
    ∷ ("clusters", arr (of_list (obj (of_dict (("server_count", int (pos 2)) ∷ [])) ∷ [])))
    ∷ ("sync_gateways", arr (of_list (obj (of_dict (("cluster", int (pos 0)) ∷ [])) ∷ [])))
    ∷ (
      "load_balancers",
      arr (of_list (obj (of_dict (("sync_gateways", arr (of_list (int (pos 0) ∷ []))) ∷ [])) ∷ [])),
    )
    ∷ ("logslurp", bool true)
    ∷ []

abbrev open_json : String → Result (Dict Value)
open_json path =
    if path == "main.json" then ok main else if path == "base.json" then ok base else err exception

abbrev resolve : String → Value → String
resolve config_file (str path) = path
resolve config_file _ = ""

abbrev default_of : String → DefaultProperty
default_of version = record { default_value = version; value = null }

abbrev inputs : TopologyInputs
inputs = record {
  defaults = record {
    couchbase_server = default_of "7.6.7";
    sync_gateway = default_of "4.0.0";
    edge_server = default_of "1.0.0";
  };
  clusters =
      record { server_count = pos 2; version = str "7.6.7" }
      ∷ record { server_count = pos 1; version = str "7.6.7" }
      ∷ [];
  sync_gateways = record { cluster_index = pos 0; version = str "4.0.0" } ∷ [];
  edge_servers = [];
  test_servers = [];
  load_balancers = (pos 0 ∷ []) ∷ [];
  wants_logslurp = bool true;
  tag = str "";
}

inputs_read : topology_config open_json resolve 5 "main.json" none [] ≡ ok inputs
unfolding topology_config
inputs_read = refl

inputs-IsValid : IsValid inputs
inputs-IsValid = ((omega arith, tt), ((omega arith, tt), tt))

topology_config-IsValid_example : IsValid inputs
topology_config-IsValid_example =
    topology_config-IsValid open_json resolve 5 "main.json" none [] inputs inputs_read

abbrev rank : String → ℕ
rank file = if file == "main.json" then 1 else 0

abbrev hosts : List Text
hosts = codes "a" ∷ codes "b" ∷ codes "c" ∷ codes "d" ∷ []

abbrev addresses : List Text
addresses = codes "1.2.3.4" ∷ codes "ec2-1" ∷ []

abbrev outputs : TerraformOutputs
outputs = record {
  cbs_ips = hosts;
  cbs_internal_ips = hosts;
  sgw_ips = addresses;
  sgw_internal_ips = hosts;
  es_ips = [];
  es_internal_ips = [];
  lb_ips = hosts;
  logslurp_ip = ok (str "10.0.0.1");
}

apply_server_hostnames-deal_example :
    let clusters = (apply_server_hostnames hosts hosts (new_topology inputs)).clusters in
    (map length (publics clusters) ≡ 2 ∷ 1 ∷ [])
    × (map length (internals clusters) ≡ 2 ∷ 1 ∷ [])
    × (concat (publics clusters) ≡ take (total (2 ∷ 1 ∷ [])) hosts)
    × (concat (internals clusters) ≡ take (total (2 ∷ 1 ∷ [])) hosts)
apply_server_hostnames-deal_example =
    apply_server_hostnames-deal hosts hosts inputs (2 ∷ 1 ∷ []) (refl, (refl, tt)) (omega arith)
      (omega arith)

addresses-IsAddress : All IsAddress addresses
unfolding get_ec2_hostname
addresses-IsAddress =
    ((codes "ec2-1-2-3-4.compute-1.amazonaws.com", refl), ((codes "ec2-1", refl), tt))

outputs-HasEnough : HasEnough outputs inputs (2 ∷ 1 ∷ [])
outputs-HasEnough = record {
  counted = (refl, (refl, tt));
  some_server = (omega arith, (omega arith, tt));
  servers = omega arith;
  internal_servers = omega arith;
  gateways = omega arith;
  internal_gateways = omega arith;
  addresses = addresses-IsAddress;
  edges = omega arith;
  internal_edges = omega arith;
  balancers = omega arith;
  some_gateway = inr (omega arith);
}

read_from_terraform-ok_example :
    (t : TopologyConfig) × (read_from_terraform outputs (new_topology inputs) ≡ ok t)
    × (length t.sync_gateways ≡ length inputs.sync_gateways)
    × (length t.edge_servers ≡ length inputs.edge_servers)
    × (length t.load_balancers ≡ length inputs.load_balancers)
    × All (IsConnected t.clusters) t.sync_gateways
read_from_terraform-ok_example =
    read_from_terraform-ok outputs inputs (2 ∷ 1 ∷ []) (str "10.0.0.1") inputs-IsValid
      outputs-HasEnough refl

abbrev text : Text → String
text hostname = if hostname == codes "a" then "a" else "other"

abbrev shown : Value → String
shown ip = "10.0.0.1"

abbrev started : TopologyConfig
started = record {
  inputs = inputs;
  clusters =
      record { version = str "7.6.7"; public_hostnames = hosts; internal_hostnames = hosts } ∷ [];
  sync_gateways =
      record {
        version = str "4.0.0";
        hostname = codes "a";
        internal_hostname = codes "b";
        cluster_hostname = codes "c";
        cluster_index = pos 0;
      }
      ∷ [];
  edge_servers = [];
  load_balancers = [];
  logslurp = some (str "10.0.0.1");
}

abbrev template : Dict Value
template = ("edge-servers", arr (of_list (str "old" ∷ []))) ∷ []

abbrev phone : TestServerConfig
phone = record { ip_address = "10.0.0.2"; dataset_version = some "4.0"; platform = codes "js" }

abbrev read_back : ParsedConfig
read_back = record {
  test_servers = test_server_entry phone ∷ [];
  sync_gateways = map (sgw_instance text shown) started.sync_gateways;
  couchbase_servers = cbs_instances text shown 0 started.clusters;
  load_balancers = [];
  edge_servers = [];
  greenboard = none;
  logslurp_url = some "10.0.0.1:8180";
}

is_read : parsed_config (write_config text shown template started (phone ∷ [])) ≡ ok read_back
unfolding parsed_config write_config test_server_entry cbs_instances
is_read = refl

parsed_config-write_config_example :
    (gateways read_back.sync_gateways ≡ ok (map (written_gateway text) started.sync_gateways))
    × (server_infos read_back.couchbase_servers ≡ ok (written_servers text 0 started.clusters))
    × (read_back.edge_servers ≡ map (es_instance text shown) started.edge_servers)
    × (read_back.load_balancers ≡ map (lb_instance text shown) started.load_balancers)
    × (read_back.test_servers ≡ map test_server_entry (phone ∷ []))
parsed_config-write_config_example =
    parsed_config-write_config text shown template started (phone ∷ []) read_back is_read
