-- ===== src/Config/Topology.antt =====
-- client/src/cbltest/plugins/required_topology.py: whether the configured servers are enough for a test.
--
-- A marker is its argument. `pytest.skip` ends the setup with the reason that it was given; the reason of
-- the clusters also carries the two numbers that are logged with it.
use mathlib.Core.Path.{subst}
use couchbase_lite_tests.Prelude.{
  Bool, true, false, ◌&&◌, ◌||◌, ◌≡◌, ◌↔◌, ◌⊎◌, inl, inr, refl, Option, none, some, List, [], ◌∷◌,
  String, codes, has_text, ℤ, pos, if◌then◌else◌, arith, length, All, int_leb, int_ltb, int_max,
  plus_one, minus_one, minus_one-leb, int_leb_refl, int_leb_trans, int_leb-max, Bool-cases, int_eq,
}
use couchbase_lite_tests.Prelude.Result.{
  Result, ok, err, Error, type_error, value_error, ◌>>=◌, >>=-eq-ok,
}
use couchbase_lite_tests.Json.{Value, str, arr, obj, to_list, to_dict}
use couchbase_lite_tests.Errors.{lists_str}
use couchbase_lite_tests.Config.{SyncGatewayInfo, sync_gateway_info, ParsedConfig}

pub data Verdict : Type 0 where
  runs : Verdict
  skipped : String → Verdict
  too_few_clusters : (requested max_found : ℤ) → Verdict
  raises : Error → Verdict

abbrev then_check : Verdict → Verdict → Verdict
then_check runs later = later
then_check first later = first

unfoldable pub check : Option ℤ → List Value → String → Verdict
check none value desc = runs
check (some minimum) value desc =
    if int_ltb (pos (length value)) minimum then skipped desc else runs

-- `SyncGatewayInfo(sgw)` of an element that may be no `dict`: a text or a list is searched for the key,
-- and then has no such subscript.
unfoldable pub gateway_info : Value → Result SyncGatewayInfo
unfolding sync_gateway_info has_text
gateway_info (obj fs) = sync_gateway_info (to_dict fs)
gateway_info (str s) =
    if has_text (codes s) (codes "hostname") then err type_error else err value_error
gateway_info (arr xs) =
    if lists_str "hostname" (to_list xs) then err type_error else err value_error
gateway_info _ = err type_error

-- The loop over the gateways.
unfoldable pub check_gateways : (requested max_found : ℤ) → List Value → Verdict
unfolding gateway_info
check_gateways requested max_found [] = too_few_clusters requested max_found
check_gateways requested max_found (sgw ∷ sgw_list) = elim (gateway_info sgw) [
  | err e ↦ raises e
  | ok info ↦
      let rest =
        check_gateways requested (int_max max_found (plus_one info.cluster_index)) sgw_list in
      if int_leb (minus_one requested) info.cluster_index then runs else rest
]

unfoldable pub check_clusters : Option ℤ → List Value → Verdict
unfolding check_gateways
check_clusters none sgw_list = runs
check_clusters (some requested) sgw_list = check_gateways requested (pos 0) sgw_list

-- The arguments of the six markers.
pub record Marks : Type 0 where
  pub min_test_servers : Option ℤ
  pub min_sync_gateways : Option ℤ
  pub min_couchbase_servers : Option ℤ
  pub min_load_balancers : Option ℤ
  pub min_edge_servers : Option ℤ
  pub min_clusters : Option ℤ

abbrev is_none : Option ℤ → Bool
is_none none = true
is_none (some minimum) = false

abbrev no_marks : Marks → Bool
no_marks marks =
    is_none marks.min_test_servers
    && is_none marks.min_sync_gateways
    && is_none marks.min_couchbase_servers
    && is_none marks.min_load_balancers
    && is_none marks.min_edge_servers
    && is_none marks.min_clusters

abbrev all_checks : Marks → ParsedConfig → Verdict
all_checks marks config =
    then_check (check marks.min_test_servers config.test_servers "Test Servers") (
      then_check (check marks.min_sync_gateways config.sync_gateways "Sync Gateways") (
        then_check (check marks.min_couchbase_servers config.couchbase_servers "Couchbase Servers")
          (then_check (check marks.min_load_balancers config.load_balancers "Load Balancers") (
            then_check (check marks.min_edge_servers config.edge_servers "Edge Servers")
              (check_clusters marks.min_clusters config.sync_gateways)))))

unfoldable pub pytest_runtest_setup : Marks → ParsedConfig → Verdict
unfolding check check_clusters
pytest_runtest_setup marks config = if no_marks marks then runs else all_checks marks config

-- The gateways that the list describes, if it describes gateways only.
abbrev pub gateways : List Value → Result (List SyncGatewayInfo)
gateways [] = ok []
gateways (sgw ∷ sgw_list) = do info ← gateway_info sgw; infos ← gateways sgw_list; ok (info ∷ infos)

-- Whether some gateway belongs to a cluster that makes the number of clusters large enough.
abbrev pub has_clusters : ℤ → List SyncGatewayInfo → Bool
has_clusters requested [] = false
has_clusters requested (info ∷ infos) =
    int_leb requested (plus_one info.cluster_index) || has_clusters requested infos

abbrev pub AtMost : ℤ → List SyncGatewayInfo → Type 0
AtMost bound infos =
    All (λ (i : SyncGatewayInfo). int_leb (plus_one i.cluster_index) bound ≡ true) infos

-- What the loop finds: enough clusters, or a number that no gateway exceeds.
abbrev pub Counted : (requested max_found : ℤ) → List SyncGatewayInfo → Verdict → Type 0
Counted requested max_found infos verdict =
    ((has_clusters requested infos ≡ true) × (verdict ≡ runs))
    ⊎ ((has_clusters requested infos ≡ false)
        × ((found : ℤ) × (verdict ≡ too_few_clusters requested found)
            × (int_leb max_found found ≡ true)
            × AtMost found infos))

check_gateways-cons :
    (requested max_found : ℤ) (sgw : Value) (sgw_list : List Value) (info : SyncGatewayInfo)
    → gateway_info sgw ≡ ok info
    → check_gateways requested max_found (sgw ∷ sgw_list) ≡ (
        if int_leb requested (plus_one info.cluster_index)
        then runs
        else check_gateways requested (int_max max_found (plus_one info.cluster_index)) sgw_list)
unfolding check_gateways
check_gateways-cons requested max_found sgw sgw_list info described =
    ground (arith, described, minus_one-leb requested info.cluster_index)

Counted-cons :
    (requested max_found : ℤ) (sgw : Value) (sgw_list : List Value) (info : SyncGatewayInfo)
    (infos : List SyncGatewayInfo)
    → gateway_info sgw ≡ ok info
    → let next = int_max max_found (plus_one info.cluster_index) in
      Counted requested next infos (check_gateways requested next sgw_list)
      → Counted requested max_found
          (info ∷ infos)
          (check_gateways requested max_found (sgw ∷ sgw_list))
Counted-cons requested max_found sgw sgw_list info infos described later =
    let i = plus_one info.cluster_index in
    rw (check_gateways-cons requested max_found sgw sgw_list info described)
      (elim (Bool-cases (int_leb requested i)) [
        | inl enough ↦ rw enough (inl (refl, refl))
        | inr too_few ↦ rw too_few (elim later [
          | inl (has, verdict) ↦ inl (has, verdict)
          | inr (none_left, (found, e, bound, others)) ↦
              let (old, new) = int_leb-max max_found i in
              inr (
                none_left,
                (
                  found,
                  e,
                  int_leb_trans max_found (int_max max_found i) found old bound,
                  (int_leb_trans i (int_max max_found i) found new bound, others),
                ),
              )
        ])
      ])

check_gateways-Counted :
    (requested max_found : ℤ) (sgw_list : List Value) (infos : List SyncGatewayInfo)
    → gateways sgw_list ≡ ok infos
    → Counted requested max_found infos (check_gateways requested max_found sgw_list)
check_gateways-Counted requested max_found [] infos h =
    let nothing : [] ≡ infos = cc in
    unfold check_gateways in
    rw (← nothing) (inr (refl, (max_found, refl, int_leb_refl max_found, tt)))
check_gateways-Counted requested max_found (sgw ∷ sgw_list) infos h =
    let (info, described, later) =
      >>=-eq-ok (gateway_info sgw) (λ info. gateways sgw_list >>= λ infos. ok (info ∷ infos)) h in
    let (rest, others, all) = >>=-eq-ok (gateways sgw_list) (λ infos. ok (info ∷ infos)) later in
    let list : info ∷ rest ≡ infos = cc in
    let next = int_max max_found (plus_one info.cluster_index) in
    subst (λ l. Counted requested max_found l (check_gateways requested max_found (sgw ∷ sgw_list)))
      list
      (Counted-cons requested max_found sgw sgw_list info rest described
        (check_gateways-Counted requested next sgw_list rest others))

-- Where every element describes a gateway, the check of the clusters passes if some gateway's index
-- plus one reaches the requested number; otherwise the test is skipped, and the number that is logged
-- as available is at least zero and at least each gateway's index plus one.
pub check_clusters-Counted :
    (requested : ℤ) (sgw_list : List Value) (infos : List SyncGatewayInfo)
    → gateways sgw_list ≡ ok infos
    → Counted requested (pos 0) infos (check_clusters (some requested) sgw_list)
unfolding check_clusters
check_clusters-Counted requested sgw_list infos h =
    check_gateways-Counted requested (pos 0) sgw_list infos h

abbrev pub Enough : Option ℤ → List Value → Type 0
Enough none value = Unit
Enough (some minimum) value = int_leb minimum (pos (length value)) ≡ true

check-runs :
    (minimum : Option ℤ) (value : List Value) (desc : String)
    → (check minimum value desc ≡ runs) ↔ Enough minimum value
unfolding check
check-runs none value desc = (λ _. tt, λ _. refl)
check-runs (some minimum) value desc = (λ h. ground arith, λ h. ground arith)

then_check-runs : (a b : Verdict) → (then_check a b ≡ runs) ↔ ((a ≡ runs) × (b ≡ runs))
then_check-runs runs b = (λ h. (refl, h), λ h. h.1)
then_check-runs (skipped _) b = (λ h. cc, λ h. h.0)
then_check-runs (too_few_clusters _ _) b = (λ h. cc, λ h. h.0)
then_check-runs (raises _) b = (λ h. cc, λ h. h.0)

-- The early return changes nothing.
no_marks_run :
    (marks : Marks) (config : ParsedConfig) → no_marks marks ≡ true → all_checks marks config ≡ runs
no_marks_run marks config h = unfold check check_clusters in ground arith

-- A test runs exactly if each list that a marker asks about is at least as long as its argument, and
-- the check of the clusters passes.
pub pytest_runtest_setup_iff :
    (marks : Marks) (config : ParsedConfig)
    → (pytest_runtest_setup marks config ≡ runs) ↔ (
        Enough marks.min_test_servers config.test_servers
        × Enough marks.min_sync_gateways config.sync_gateways
        × Enough marks.min_couchbase_servers config.couchbase_servers
        × Enough marks.min_load_balancers config.load_balancers
        × Enough marks.min_edge_servers config.edge_servers
        × (check_clusters marks.min_clusters config.sync_gateways ≡ runs))
unfolding pytest_runtest_setup
pytest_runtest_setup_iff marks config = ground (
  arith,
  no_marks_run marks config,
  check-runs marks.min_test_servers config.test_servers "Test Servers",
  check-runs marks.min_sync_gateways config.sync_gateways "Sync Gateways",
  check-runs marks.min_couchbase_servers config.couchbase_servers "Couchbase Servers",
  check-runs marks.min_load_balancers config.load_balancers "Load Balancers",
  check-runs marks.min_edge_servers config.edge_servers "Edge Servers",
)
