-- ===== src/Clusters/Required.antt =====
-- A test that client/src/cbltest/plugins/required_topology.py lets run finds the clusters it asks for
-- in client/src/cbltest/__init__.py.
use mathlib.Core.Path.{subst}
use couchbase_lite_tests.Prelude.{
  ℕ, ◌≡◌, inl, inr, refl, sym, ◌∙◌, true, false, some, List, [], ◌∷◌, String, ℤ, pos, negsuc,
  int_eq, arith, length, All, Bool-cases, int_leb, int_leb_trans, plus_one,
}
use couchbase_lite_tests.Prelude.Result.{Result, ok, >>=-eq-ok}
use couchbase_lite_tests.Json.{Value}
use couchbase_lite_tests.Config.{SyncGatewayInfo, CouchbaseServerInfo, ParsedConfig}
use couchbase_lite_tests.Config.Topology.{
  gateway_info, gateways, has_clusters, Marks, runs, too_few_clusters, check_clusters,
  check_clusters-Counted, pytest_runtest_setup, pytest_runtest_setup_iff,
}
use couchbase_lite_tests.Setup.Valid.{InRange}
use couchbase_lite_tests.Clusters.{SyncGateway, CouchbaseCluster, sync_gateway, test_clusters}
use couchbase_lite_tests.Clusters.Build.{gateway_entries, test_clusters-AreClusters}

plus_one-InRange : (n : ℕ) (i : ℤ) → InRange n i → int_leb (plus_one i) (pos n) ≡ true
plus_one-InRange n (pos k) h = ground arith
plus_one-InRange n (negsuc k) h = cc

gateways-cons :
    (sg : Value) (raw : List Value) (info : SyncGatewayInfo) (infos : List SyncGatewayInfo)
    → gateway_info sg ≡ ok info
    → gateways raw ≡ ok infos
    → gateways (sg ∷ raw) ≡ ok (info ∷ infos)
gateways-cons sg raw info infos e f = rw (e, f) refl

module _ (get_config : String → ℤ → Result Value)
    (connect : CouchbaseServerInfo → Result (Unit {0})) where
  -- The gateways that are checked are those that are connected to.
  gateways_checked :
      (raw : List Value) (entries : List (ℤ × SyncGateway)) (n : ℕ) (requested : ℤ)
      → gateway_entries get_config connect raw ≡ ok entries
      → All (λ (e : ℤ × SyncGateway). InRange n e.0) entries
      → (infos : List SyncGatewayInfo) × (gateways raw ≡ ok infos)
        × (has_clusters requested infos ≡ true → int_leb requested (pos n) ≡ true)
  gateways_checked [] entries n requested h inside = ([], refl, λ e. cc)
  gateways_checked (sg ∷ raw) entries n requested h inside =
      let (info, e, h₁) = >>=-eq-ok (gateway_info sg) _ h in
      let (gateway, _, h₂) = >>=-eq-ok (sync_gateway get_config connect info) _ h₁ in
      let (rest, e', last) = >>=-eq-ok (gateway_entries get_config connect raw) _ h₂ in
      let same_entries : (info.cluster_index, gateway) ∷ rest ≡ entries = cc in
      let (here, later) : All (λ (e : ℤ × SyncGateway). InRange n e.0)
          ((info.cluster_index, gateway) ∷ rest) =
        subst (λ l. All (λ (e : ℤ × SyncGateway). InRange n e.0) l) (sym same_entries) inside in
      let (infos, f, bound) = gateways_checked raw rest n requested e' later in
      (
        info ∷ infos,
        gateways-cons sg raw info infos e f,
        λ enough. first_or_later info infos here bound enough,
      )
    where
      first_or_later :
          (info : SyncGatewayInfo) (infos : List SyncGatewayInfo)
          → InRange n info.cluster_index
          → (has_clusters requested infos ≡ true → int_leb requested (pos n) ≡ true)
          → has_clusters requested (info ∷ infos) ≡ true
          → int_leb requested (pos n) ≡ true
      first_or_later info infos here bound enough =
          elim (Bool-cases (int_leb requested (plus_one info.cluster_index))) [
            | inl l ↦
                int_leb_trans requested (plus_one info.cluster_index) (pos n) l
                  (plus_one-InRange n info.cluster_index here)
            | inr m ↦ bound (rw m at enough)
          ]

  -- Where a test's markers ask for a number of clusters and the setup lets it run, and the configuration's
  -- clusters can be built, there are at least as many.
  pub pytest_runtest_setup-clusters :
      (marks : Marks) (config : ParsedConfig) (requested : ℤ) (clusters : List CouchbaseCluster)
      → marks.min_clusters ≡ some requested
      → pytest_runtest_setup marks config ≡ runs
      → test_clusters get_config connect false config ≡ ok clusters
      → int_leb requested (pos (length clusters)) ≡ true
  pytest_runtest_setup-clusters marks config requested clusters asked allowed built =
      let (entries, servers, read, _, _, inside, _) =
        test_clusters-AreClusters get_config connect config clusters built in
      let (infos, described, bound) =
        gateways_checked config.sync_gateways entries (length clusters) requested read inside in
      let (_, _, _, _, _, checked) = (pytest_runtest_setup_iff marks config).0 allowed in
      let counted = check_clusters-Counted requested config.sync_gateways infos described in
      elim counted [
        | inl (enough, _) ↦ bound enough
        | inr (_, (found, verdict, _, _)) ↦
            let ran : check_clusters (some requested) config.sync_gateways ≡ runs =
              rw (← asked) checked in
            let never : too_few_clusters requested found ≡ runs = sym verdict ∙ ran in cc
      ]
