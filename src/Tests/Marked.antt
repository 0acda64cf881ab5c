-- ===== src/Tests/Marked.antt =====
-- A test that uses two Edge Servers and the second cluster, and declares so.
use couchbase_lite_tests.Prelude.{◌≡◌, refl, List, [], ◌∷◌, none, some, String, pos, All}
use couchbase_lite_tests.Json.{str}
use couchbase_lite_tests.Config.{ParsedConfig}
use couchbase_lite_tests.Config.Topology.{runs, pytest_runtest_setup}
use couchbase_lite_tests.Syntax.{
  Node, name, attribute, subscript, constant_int, minus, call, assign, other, Nodes, nil, cons,
  walk,
}
use couchbase_lite_tests.Markers.{FunctionDef, Usage, type_env, declared_markers, check_function}
use couchbase_lite_tests.Markers.Covered.{IsCovered, check_function-IsCovered}
use couchbase_lite_tests.Markers.Runs.{marks_of, IsSafe, check_function-IsSafe}
use couchbase_lite_tests.Tests.Routing.{node}

-- `@pytest.mark.<marker>(n)`
abbrev decorator : String → Node → Node
decorator marker n = call (attribute (attribute (name "pytest") "mark") marker) (cons n nil) nil

abbrev decorators : Nodes
decorators = cons (decorator "min_edge_servers" (constant_int 2)) (
    cons (decorator "min_clusters" (constant_int 2))
      (cons (decorator "min_sync_gateways" (constant_int 1)) nil))

-- `cloud = cblpytest.clusters[1]`, `cloud.sync_gateways[0]` and `cblpytest.edge_servers[-2]`
abbrev body : Nodes
body =
    cons
      (assign (cons (name "cloud") nil)
        (subscript (attribute (name "cblpytest") "clusters") (constant_int 1)))
      (cons (subscript (attribute (name "cloud") "sync_gateways") (constant_int 0)) (
        cons (subscript (attribute (name "cblpytest") "edge_servers") (minus (constant_int 2)))
          nil))

abbrev function : FunctionDef
function = record {
  name = "test_edge";
  params = ("self", none) ∷ ("cblpytest", none) ∷ [];
  decorator_list = decorators;
  tree = other (cons (other nil) (cons (other body) (cons (other decorators) nil)));
}

abbrev helpers : Usage
helpers = record { required = ("min_edge_servers", 1) ∷ []; dynamic = "min_sync_gateways" ∷ [] }

nothing_reported : check_function [] helpers function ≡ []
unfolding check_function couchbase_lite_tests.Markers.type_env
nothing_reported = refl

check_function-IsCovered_example :
    All (IsCovered (declared_markers [] function) (type_env function)) (walk function.tree)
unfolding couchbase_lite_tests.Prelude.Codes.starts_with
check_function-IsCovered_example =
    check_function-IsCovered [] helpers function refl nothing_reported

abbrev configuration : ParsedConfig
configuration = record {
  test_servers = [];
  sync_gateways = node (pos 0) ∷ node (pos 1) ∷ [];
  couchbase_servers = [];
  load_balancers = [];
  edge_servers = str "first" ∷ str "second" ∷ [];
  greenboard = none;
  logslurp_url = none;
}

setup_runs : pytest_runtest_setup (marks_of (declared_markers [] function)) configuration ≡ runs
unfolding pytest_runtest_setup declared_markers
setup_runs = refl

check_function-IsSafe_example : All (IsSafe configuration (type_env function)) (walk function.tree)
unfolding couchbase_lite_tests.Prelude.Codes.starts_with
check_function-IsSafe_example =
    check_function-IsSafe [] helpers function configuration refl nothing_reported setup_runs
