-- ===== src/Markers/Runs.antt =====
-- A test of which scripts/check_topology_markers.py reports nothing, where
-- client/src/cbltest/plugins/required_topology.py lets it run.
use mathlib.Core.Path.{subst}
use mathlib.Core.Option
use native.Mathlib.Nat.{le_trans}
use couchbase_lite_tests.Prelude.{
  ℕ, suc, ◌≤◌, ◌<◌, ◌≡◌, inl, inr, refl, Bool, true, false, Option, none, some, List, [], String,
  codes, starts_with, ℤ, pos, negsuc, arith, eq_iff, string_eq, ◌==◌, if◌then◌else◌, length, All,
  All-weaken,
}
use couchbase_lite_tests.Prelude.Dict.{Dict, lookup}
use couchbase_lite_tests.Json.{Value}
use couchbase_lite_tests.Config.{ParsedConfig}
use couchbase_lite_tests.Config.Topology.{
  Marks, runs, Enough, pytest_runtest_setup, pytest_runtest_setup_iff,
}
use couchbase_lite_tests.Syntax.{attribute, subscript, Visit, walk}
use couchbase_lite_tests.Markers.{
  FunctionDef, Usage, is_cblpytest, infer_type, member_marker, constant_int_index, type_env,
  declared_markers, check_function,
}
use couchbase_lite_tests.Markers.Covered.{IndexCovered, IsCovered, check_function-IsCovered}

abbrev mark : String → Dict ℕ → Option ℤ
mark marker declared = Option.map pos (lookup marker declared)

-- The arguments of the markers that are declared.
abbrev pub marks_of : Dict ℕ → Marks
marks_of declared = record {
  min_test_servers = mark "min_test_servers" declared;
  min_sync_gateways = mark "min_sync_gateways" declared;
  min_couchbase_servers = mark "min_couchbase_servers" declared;
  min_load_balancers = mark "min_load_balancers" declared;
  min_edge_servers = mark "min_edge_servers" declared;
  min_clusters = mark "min_clusters" declared;
}

-- The list of the configuration whose elements `CBLPyTest` has one object each for under this name.
abbrev pub list_named : ParsedConfig → String → Option (List Value)
list_named config attr =
    if attr == "test_servers"
    then some config.test_servers
    else if attr == "edge_servers"
    then some config.edge_servers
    else if attr == "load_balancers"
    then some config.load_balancers
    else none

abbrev pub list_of : ParsedConfig → Option String → String → Option (List Value)
list_of config receiver attr = if is_cblpytest receiver then list_named config attr else none

-- The index is one of the list: from the start below its length, and from the end, where -1 is the last
-- (and is `negsuc 0`), no further than its first element.
abbrev pub InList : Option (List Value) → Option ℤ → Type 0
InList (some value) (some (pos k)) = k < length value
InList (some value) (some (negsuc k)) = suc k ≤ length value
InList _ _ = Unit

abbrev pub IsSafe : ParsedConfig → Dict String → Visit → Type 0
IsSafe config env (marked, subscript (attribute value attr) slice) =
    InList (list_of config (infer_type value env) attr) (constant_int_index slice)
IsSafe config env _ = Unit

InList-none : (index : Option ℤ) → InList none index
InList-none none = tt
InList-none (some (pos k)) = tt
InList-none (some (negsuc k)) = tt

Enough-declared :
    (declared : Dict ℕ) (marker : String) (value : List Value) (have needed : ℕ)
    → Enough (mark marker declared) value
    → lookup marker declared ≡ some have
    → needed ≤ have
    → needed ≤ length value
Enough-declared declared marker value have needed enough e l =
    let as_many : Enough (some (pos have)) value =
      subst (λ found. Enough (Option.map pos found) value) e enough in
    le_trans l (ground arith)

declared-InList :
    (declared : Dict ℕ) (marker : String) (value : List Value) (index : Option ℤ)
    → (marker == "min_clusters") ≡ false
    → Enough (mark marker declared) value
    → IndexCovered declared (some marker) index
    → InList (some value) index
declared-InList declared marker value none other enough covered = tt
declared-InList declared marker value (some (pos k)) other enough (inl (clusters, first)) =
    absurd (ground (arith, eq_iff marker "min_clusters"))
declared-InList declared marker value (some (negsuc k)) other enough (inl (clusters, first)) =
    absurd (ground (arith, eq_iff marker "min_clusters"))
declared-InList declared marker value (some (pos k)) other enough (inr (have, e, l)) =
    Enough-declared declared marker value have (suc k) enough e l
declared-InList declared marker value (some (negsuc k)) other enough (inr (have, e, l)) =
    Enough-declared declared marker value have (suc k) enough e l

module _ (config : ParsedConfig) (declared : Dict ℕ)
    (allowed : pytest_runtest_setup (marks_of declared) config ≡ runs) where
  named-InList :
      (attr : String) (index : Option ℤ)
      → IndexCovered declared (member_marker (some "CBLPyTest") attr) index
      → InList (list_named config attr) index
  unfolding member_marker
  named-InList attr index covered =
      by_name (attr == "test_servers") (attr == "edge_servers") (attr == "load_balancers") refl refl
        refl
    where
      at_name :
          (known : String)
          → (attr == known) ≡ true
          → IndexCovered declared (member_marker (some "CBLPyTest") known) index
      at_name known h =
          subst (λ a. IndexCovered declared (member_marker (some "CBLPyTest") a) index)
            ((eq_iff attr known).0 h) covered

      by_name :
          (tests edges balancers : Bool)
          → (attr == "test_servers") ≡ tests
          → (attr == "edge_servers") ≡ edges
          → (attr == "load_balancers") ≡ balancers
          → InList
              (if tests
                then some config.test_servers
                else if edges
                then some config.edge_servers
                else if balancers
                then some config.load_balancers
                else none)
              index
      by_name true edges balancers h h' h'' =
          let (enough, _, _, _, _, _) =
            (pytest_runtest_setup_iff (marks_of declared) config).0 allowed in
          declared-InList declared "min_test_servers" config.test_servers index refl enough
            (at_name "test_servers" h)
      by_name false true balancers h h' h'' =
          let (_, _, _, _, enough, _) =
            (pytest_runtest_setup_iff (marks_of declared) config).0 allowed in
          declared-InList declared "min_edge_servers" config.edge_servers index refl enough
            (at_name "edge_servers" h')
      by_name false false true h h' h'' =
          let (_, _, _, enough, _, _) =
            (pytest_runtest_setup_iff (marks_of declared) config).0 allowed in
          declared-InList declared "min_load_balancers" config.load_balancers index refl enough
            (at_name "load_balancers" h'')
      by_name false false false h h' h'' = InList-none index

  covered-InList :
      (receiver : Option String) (attr : String) (index : Option ℤ)
      → IndexCovered declared (member_marker receiver attr) index
      → InList (list_of config receiver attr) index
  covered-InList none attr index covered = InList-none index
  covered-InList (some t) attr index covered = by_class (t == "CBLPyTest") refl
    where
      by_class :
          (b : Bool)
          → (t == "CBLPyTest") ≡ b
          → InList (if b then list_named config attr else none) index
      by_class true h = named-InList attr index (
          subst (λ c. IndexCovered declared (member_marker (some c) attr) index)
            ((eq_iff t "CBLPyTest").0 h) covered)
      by_class false h = InList-none index

  covered-IsSafe : (env : Dict String) (v : Visit) → IsCovered declared env v → IsSafe config env v
  covered-IsSafe env (marked, subscript (attribute value attr) slice) h =
      covered-InList (infer_type value env) attr (constant_int_index slice) h
  covered-IsSafe env _ h = tt

-- Where nothing is reported of a test, and the setup lets it run with the markers that are declared, each
-- constant index in the test's own body of the test servers, Edge Servers or load balancers of an object
-- that is known to be a `CBLPyTest` is an index of the configuration's list.
pub check_function-IsSafe :
    (class_markers : List (Dict ℕ)) (helpers : Usage) (f : FunctionDef) (config : ParsedConfig)
    → starts_with (codes f.name) (codes "test_") ≡ true
    → check_function class_markers helpers f ≡ []
    → pytest_runtest_setup (marks_of (declared_markers class_markers f)) config ≡ runs
    → All (IsSafe config (type_env f)) (walk f.tree)
check_function-IsSafe class_markers helpers f config is_test nothing allowed =
    let declared = declared_markers class_markers f in
    All-weaken (IsCovered declared (type_env f)) (IsSafe config (type_env f)) (walk f.tree)
      (λ v h. covered-IsSafe config declared allowed (type_env f) v h)
      (check_function-IsCovered class_markers helpers f is_test nothing)
