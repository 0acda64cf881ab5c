-- ===== src/Markers.antt =====
-- scripts/check_topology_markers.py: whether a test's markers match what it uses of the topology.
--
-- What the helpers that a test calls and the fixtures of its class use is an argument.
pub mod Usages
pub mod Covered
pub mod Runs
use couchbase_lite_tests.Prelude.{
  ℕ, zero, suc, ◌+◌, ◌≡◌, Bool, true, false, not, ◌&&◌, ◌||◌, Option, none, some, List, [], ◌∷◌,
  ◌++◌, String, codes, starts_with, ℤ, pos, negsuc, string_eq, ◌==◌, contains, if◌then◌else◌, ltb,
  leb, length, map,
}
use couchbase_lite_tests.Syntax.{
  Node, name, attribute, subscript, constant_int, minus, call, assign, ann_assign, Nodes, nil, cons,
  Visit, walk, rows, forest,
}
use couchbase_lite_tests.Prelude.Dict.{Dict, lookup, insert, has_key}

abbrev cblpytest_attrs : Dict String
cblpytest_attrs =
    ("test_servers", "min_test_servers")
    ∷ ("sync_gateways", "min_sync_gateways")
    ∷ ("couchbase_servers", "min_couchbase_servers")
    ∷ ("edge_servers", "min_edge_servers")
    ∷ ("load_balancers", "min_load_balancers")
    ∷ ("clusters", "min_clusters")
    ∷ []

abbrev cluster_attrs : Dict String
cluster_attrs =
    ("sync_gateways", "min_sync_gateways") ∷ ("couchbase_servers", "min_couchbase_servers") ∷ []

-- `TOPOLOGY_ATTRS`
abbrev pub topology_attrs : Dict (Dict String)
topology_attrs = ("CBLPyTest", cblpytest_attrs) ∷ ("CouchbaseCluster", cluster_attrs) ∷ []

-- `KNOWN_TYPES`
abbrev pub is_known_type : String → Bool
is_known_type id = contains ("CBLPyTest" ∷ "CouchbaseCluster" ∷ []) id

-- `TOPOLOGY_MARKERS`
abbrev pub is_topology_marker : String → Bool
is_topology_marker marker = contains (map (λ e. e.1) cblpytest_attrs) marker

abbrev pub is_cblpytest : Option String → Bool
is_cblpytest none = false
is_cblpytest (some t) = t == "CBLPyTest"

unfoldable pub infer_type : Node → Dict String → Option String
unfolding lookup
infer_type (name id) env = lookup id env
infer_type (call (name id) args keywords) env = if is_known_type id then some id else none
infer_type (subscript (attribute value attr) slice) env =
    if attr == "clusters" && is_cblpytest (infer_type value env)
    then some "CouchbaseCluster"
    else none
infer_type _ env = none

unfoldable pub member_marker : Option String → String → Option String
unfolding lookup
member_marker none attr = none
member_marker (some receiver) attr = elim (lookup receiver topology_attrs) [
  | none ↦ none
  | some table ↦ lookup attr table
]

-- A parameter and its annotation, if that is a name.
abbrev pub Param : Type 0
Param = String × Option String

pub record FunctionDef : Type 0 where
  pub name : String
  -- those that are positional only, those that are not, and those that are keywords only
  pub params : List Param
  pub decorator_list : Nodes
  pub tree : Node

abbrev seed_param : Param → Dict String → Dict String
seed_param (arg, annotation) env =
    if arg == "cblpytest"
    then insert arg "CBLPyTest" env
    else elim annotation [ none ↦ env | some t ↦ if is_known_type t then insert arg t env else env ]

-- The loop of `_seed_type_env`.
unfoldable pub seed_type_env : List Param → Dict String → Dict String
unfolding insert
seed_type_env [] env = env
seed_type_env (p ∷ params) env = seed_type_env params (seed_param p env)

abbrev pub assign_type : Node → Node → Dict String → Dict String
assign_type (name id) value env = elim (infer_type value env) [
  | none ↦ env
  | some t ↦ insert id t env
]
assign_type _ value env = env

-- One round of the loop of `_collect_assign_types`; an annotation without a value is another node.
abbrev pub collect_assign : Visit → Dict String → Dict String
collect_assign (_, assign (cons target nil) value) env = assign_type target value env
collect_assign (_, ann_assign target annotation value) env = assign_type target value env
collect_assign _ env = env

unfoldable pub collect_assign_types : List Visit → Dict String → Dict String
unfolding infer_type insert
collect_assign_types [] env = env
collect_assign_types (v ∷ visits) env = collect_assign_types visits (collect_assign v env)

unfoldable pub constant_int_index : Node → Option ℤ
constant_int_index (minus (constant_int zero)) = some (pos 0)
constant_int_index (minus (constant_int (suc n))) = some (negsuc n)
constant_int_index (constant_int n) = some (pos n)
constant_int_index _ = none

abbrev pub set_min : String → Nodes → Dict ℕ → Dict ℕ
set_min marker (cons (constant_int n) args) markers =
    if is_topology_marker marker then insert marker n markers else markers
set_min marker _ markers = markers

-- One round of the loop of `_min_markers`, for `@pytest.mark.<marker>(<args>)`.
abbrev pub min_marker : Node → Dict ℕ → Dict ℕ
min_marker (call (attribute (attribute (name id) attr) marker) args keywords) markers =
    if id == "pytest" && attr == "mark" then set_min marker args markers else markers
min_marker _ markers = markers

unfoldable pub min_markers : Nodes → Dict ℕ → Dict ℕ
unfolding insert
min_markers nil markers = markers
min_markers (cons dec decorator_list) markers = min_markers decorator_list (min_marker dec markers)

pub record Usage : Type 0 where
  pub required : Dict ℕ
  pub dynamic : List String

abbrev pub get_or_zero : String → Dict ℕ → ℕ
get_or_zero marker required = elim (lookup marker required) [ none ↦ 0 | some n ↦ n ]

abbrev pub max : ℕ → ℕ → ℕ
max a b = if leb b a then a else b

-- `required[marker] = max(required.get(marker, 0), needed)`
unfoldable pub require : String → ℕ → Dict ℕ → Dict ℕ
unfolding lookup insert
require marker needed required = insert marker (max (get_or_zero marker required) needed) required

-- `abs(index) if index < 0 else index + 1`
abbrev pub needed_for : ℤ → ℕ
needed_for (pos k) = suc k
needed_for (negsuc k) = suc k

abbrev pub add_dynamic : Option String → Usage → Usage
add_dynamic none u = u
add_dynamic (some marker) u = record u {
  dynamic = if contains u.dynamic marker then u.dynamic else marker ∷ u.dynamic;
}

abbrev pub add_index : Option String → Option ℤ → Usage → Usage
add_index none index u = u
add_index (some marker) none u = add_dynamic (some marker) u
add_index (some marker) (some index) u = record u {
  required = require marker (needed_for index) u.required;
}

-- One round of the loop of `_local_usage`.
unfoldable pub add_usage : Dict String → Visit → Usage → Usage
unfolding infer_type member_marker constant_int_index require
add_usage env (_, subscript (attribute value attr) slice) u =
    add_index (member_marker (infer_type value env) attr) (constant_int_index slice) u
add_usage env (false, attribute value attr) u =
    add_dynamic (member_marker (infer_type value env) attr) u
add_usage env _ u = u

unfoldable pub local_usage : Dict String → List Visit → Usage → Usage
unfolding add_usage
local_usage env [] u = u
local_usage env (v ∷ visits) u = local_usage env visits (add_usage env v u)

-- The names that the function binds to classes.
unfoldable pub type_env : FunctionDef → Dict String
unfolding seed_type_env collect_assign_types walk
type_env f = collect_assign_types (walk f.tree) (seed_type_env f.params [])

abbrev no_usage : Usage
no_usage = record { required = []; dynamic = [] }

abbrev pub require_all : Dict ℕ → Dict ℕ → Dict ℕ
require_all [] required = required
require_all ((marker, needed) ∷ more) required = require_all more (require marker needed required)

abbrev add_all_dynamic : List String → Usage → Usage
add_all_dynamic [] u = u
add_all_dynamic (marker ∷ more) u = add_all_dynamic more (add_dynamic (some marker) u)

-- The usage of a function, to which that of its helpers or fixtures is added.
abbrev pub add_helpers : Usage → Usage → Usage
add_helpers helpers u =
    let all = add_all_dynamic helpers.dynamic u in
    record all { required = require_all helpers.required u.required }

pub data Violation : Type 0 where
  missing : (marker : String) → (needed : ℕ) → Violation
  too_low : (marker : String) → (have needed : ℕ) → Violation
  undeclared : (marker : String) → Violation

abbrev pub index_violation : String → ℕ → Option ℕ → List Violation
index_violation marker needed none = missing marker needed ∷ []
index_violation marker needed (some have) =
    if ltb have needed then too_low marker have needed ∷ [] else []

abbrev pub needs_no_marker : String → ℕ → Bool
needs_no_marker marker needed = marker == "min_clusters" && ltb needed 2

-- The loop of `_check_function` over what an index requires.
unfoldable pub index_violations : Dict ℕ → Dict ℕ → List Violation
unfolding lookup
index_violations declared [] = []
index_violations declared ((marker, needed) ∷ required) =
    let rest = index_violations declared required in
    if needs_no_marker marker needed
    then rest
    else index_violation marker needed (lookup marker declared) ++ rest

-- The loop over the lists that are used without a constant index.
unfoldable pub list_violations : Dict ℕ → Dict ℕ → List String → List Violation
unfolding has_key
list_violations declared required [] = []
list_violations declared required (marker ∷ dynamic) =
    let rest = list_violations declared required dynamic in
    if has_key marker required || marker == "min_clusters" || has_key marker declared
    then rest
    else undeclared marker ∷ rest

-- `declared.update(markers)`
abbrev pub update_all : Dict ℕ → Dict ℕ → Dict ℕ
update_all declared [] = declared
update_all declared ((marker, n) ∷ markers) = update_all (insert marker n declared) markers

abbrev pub update_classes : Dict ℕ → List (Dict ℕ) → Dict ℕ
update_classes declared [] = declared
update_classes declared (markers ∷ class_markers) =
    update_classes (update_all declared markers) class_markers

-- The markers of the classes around a function, from the outermost on, and then its own.
unfoldable pub declared_markers : List (Dict ℕ) → FunctionDef → Dict ℕ
unfolding min_markers
declared_markers class_markers f =
    update_all (update_classes [] class_markers) (min_markers f.decorator_list [])

unfoldable pub function_usage : Usage → FunctionDef → Usage
unfolding local_usage type_env require walk
function_usage helpers f = add_helpers helpers (local_usage (type_env f) (walk f.tree) no_usage)

unfoldable pub check_function : List (Dict ℕ) → Usage → FunctionDef → List Violation
unfolding function_usage declared_markers index_violations list_violations starts_with
check_function class_markers helpers f =
    if not (starts_with (codes f.name) (codes "test_"))
    then []
    else let declared = declared_markers class_markers f in
      let used = function_usage helpers f in
      index_violations declared used.required ++ list_violations declared used.required used.dynamic
