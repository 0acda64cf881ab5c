-- ===== src/Clusters/Build.antt =====
-- `build` and the clusters of `CBLPyTest` of client/src/cbltest/__init__.py, against the entries of the
-- configuration sorted by their index.
use couchbase_lite_tests.Prelude.{
  ℕ, zero, suc, ◌<◌, ◌≡◌, inl, inr, refl, sym, ap, ◌∙◌, Bool, true, false, not, Option, none, some,
  List, [], ◌∷◌, String, ℤ, pos, int_eq, arith, contains, if◌then◌else◌, length, All, All-weaken,
  Bool-cases, ltb, leb,
}
use couchbase_lite_tests.Prelude.IntDict.{IntDict, int_keys, find}
use couchbase_lite_tests.Prelude.Result.{
  Result, ok, err, key_error, cbl_test_error, ◌>>=◌, ◌>>◌, guard, >>=-eq-ok,
}
use couchbase_lite_tests.Json.{Value}
use couchbase_lite_tests.Config.{CouchbaseServerInfo, ParsedConfig}
use couchbase_lite_tests.Config.Topology.{gateway_info}
use couchbase_lite_tests.Setup.Hosts.{is_nil}
use couchbase_lite_tests.Setup.Valid.{InRange, InRange-more}
use couchbase_lite_tests.Clusters.{
  SyncGateway, CouchbaseCluster, or_nil, add_entry, validate_keys, validate, item, build_from,
  build, couchbase_cluster, server_info, sync_gateway, add_gateways, add_servers, test_clusters,
}
use couchbase_lite_tests.Clusters.Groups.{
  add_all, with_index, HasKey, or_nil-add_all, keys-find, keys-add_all, guard-true,
  validate_keys-InRange,
}

couchbase_cluster-kept :
    (gateways : List SyncGateway) (servers : List CouchbaseServerInfo) (c : CouchbaseCluster)
    → couchbase_cluster gateways servers ≡ ok c
    → (c.sync_gateways ≡ gateways) × (c.couchbase_servers ≡ servers)
unfolding couchbase_cluster
couchbase_cluster-kept [] servers c h = cc
couchbase_cluster-kept (g ∷ gateways) (s ∷ servers) c h =
    let e : record { sync_gateways = g ∷ gateways; couchbase_servers = s ∷ servers } ≡ c = cc in
    rw (← e) (refl, refl)
couchbase_cluster-kept (g ∷ gateways) [] c h = alone (is_nil gateways) g.using_rosmar h
  where
    alone :
        (one rosmar : Bool)
        → (if not one
            then err cbl_test_error
            else if not rosmar
            then err cbl_test_error
            else ok (record { sync_gateways = g ∷ gateways; couchbase_servers = [] }))
          ≡ ok c
        → (c.sync_gateways ≡ g ∷ gateways) × (c.couchbase_servers ≡ [])
    alone false rosmar e = cc
    alone true false e = cc
    alone true true e =
        let same_cluster : record { sync_gateways = g ∷ gateways; couchbase_servers = [] } ≡ c =
          cc in
        rw (← same_cluster) (refl, refl)

-- Each cluster has the gateways and the servers of its index, in order.
abbrev pub AreClusters :
    List (ℤ × SyncGateway)
    → List (ℤ × CouchbaseServerInfo)
    → (index : ℕ) → List CouchbaseCluster
    → Type 0
AreClusters gateways servers index [] = Unit
AreClusters gateways servers index (c ∷ clusters) =
    (c.sync_gateways ≡ with_index (pos index) gateways)
    × (c.couchbase_servers ≡ with_index (pos index) servers)
    × AreClusters gateways servers (suc index) clusters

item-or_nil {ℓ} :
    {A : Type ℓ} (d : IntDict (List A)) (index : ℕ) (xs : List A)
    → item index d ≡ ok xs
    → or_nil (find (pos index) d) ≡ xs
item-or_nil {A = A} d index xs h = with_found (find (pos index) d) h
  where
    with_found :
        (found : Option (List A))
        → elim found [ none ↦ err key_error | some x ↦ ok x ] ≡ ok xs
        → or_nil found ≡ xs
    with_found none e = cc
    with_found (some x) e = cc

-- The keys are below the length.
abbrev KeysInRange {ℓ} : {A : Type ℓ} → IntDict (List A) → Type 0
KeysInRange d = (i : ℤ) → contains (int_keys d) i ≡ true → InRange (length d) i

no_servers {ℓ} :
    {A : Type ℓ} (d : IntDict (List A)) (index : ℕ)
    → KeysInRange d
    → leb (length d) index ≡ true
    → or_nil (find (pos index) d) ≡ []
no_servers d index keys h = elim (Bool-cases (contains (int_keys d) (pos index))) [
  | inl e ↦ let less : index < length d = keys (pos index) e in absurd (ground arith)
  | inr n ↦ rw (keys-find (pos index) d n) refl
]

servers_at :
    (d : IntDict (List CouchbaseServerInfo)) (index : ℕ) (servers : List CouchbaseServerInfo)
    → KeysInRange d
    → (if leb (length d) index then ok [] else item index d) ≡ ok servers
    → or_nil (find (pos index) d) ≡ servers
servers_at d index servers keys h = elim (Bool-cases (leb (length d) index)) [
  | inl e ↦ no_servers d index keys e ∙ nothing (rw e at h)
  | inr n ↦ item-or_nil d index servers (rw n at h)
]
  where
    nothing : ok [] ≡ ok servers → [] ≡ servers
    nothing e = cc

build_from-AreClusters :
    (gateways : List (ℤ × SyncGateway)) (servers : List (ℤ × CouchbaseServerInfo)) (count index : ℕ)
    (clusters : List CouchbaseCluster)
    → KeysInRange (add_all servers [])
    → build_from (record { sgw = add_all gateways []; cbs = add_all servers [] }) count index
      ≡ ok clusters
    → (length clusters ≡ count) × AreClusters gateways servers index clusters
unfolding build_from find
build_from-AreClusters gateways servers zero index clusters keys h =
    let e : [] ≡ clusters = cc in rw (← e) (refl, tt)
build_from-AreClusters gateways servers (suc count) index clusters keys h =
    let cbs = add_all servers [] in
    let sgw = add_all gateways [] in
    let (ss, at_s, h₁) = >>=-eq-ok (if leb (length cbs) index then ok [] else item index cbs) _ h in
    let (gs, at_g, h₂) = >>=-eq-ok (item index sgw) _ h₁ in
    let (c, made, h₃) = >>=-eq-ok (couchbase_cluster gs ss) _ h₂ in
    let (rest, others, last) =
      >>=-eq-ok (build_from (record { sgw = sgw; cbs = cbs }) count (suc index)) _ h₃ in
    let (same_gateways, same_servers) = couchbase_cluster-kept gs ss c made in
    let (l, all) = build_from-AreClusters gateways servers count (suc index) rest keys others in
    let e : c ∷ rest ≡ clusters = cc in
    rw (← e) (
      ap suc l,
      (
        same_gateways
            ∙ sym (item-or_nil sgw index gs at_g)
            ∙ or_nil-add_all (pos index) gateways [],
        same_servers
            ∙ sym (servers_at cbs index ss keys at_s)
            ∙ or_nil-add_all (pos index) servers [],
        all,
      ),
    )

-- What `build` makes of entries that were added in this order.
build-AreClusters :
    (gateways : List (ℤ × SyncGateway)) (servers : List (ℤ × CouchbaseServerInfo))
    (clusters : List CouchbaseCluster)
    → build (record { sgw = add_all gateways []; cbs = add_all servers [] }) ≡ ok clusters
    → AreClusters gateways servers 0 clusters
      × All (λ (e : ℤ × SyncGateway). InRange (length clusters) e.0) gateways
      × All (λ (e : ℤ × CouchbaseServerInfo). InRange (length clusters) e.0) servers
unfolding build validate
build-AreClusters gateways servers clusters h =
    let sgw = add_all gateways [] in
    let cbs = add_all servers [] in
    let (_, valid, h₁) = >>=-eq-ok (validate (record { sgw = sgw; cbs = cbs })) _ h in
    let (_, shorter, h₂) =
      >>=-eq-ok (guard (not (ltb (length sgw) (length cbs))) cbl_test_error) _ valid in
    let (_, valid_sgw, valid_cbs) = >>=-eq-ok (validate_keys sgw) _ h₂ in
    let (l, all) =
      build_from-AreClusters gateways servers (length sgw) 0 clusters
        (λ i. validate_keys-InRange cbs i valid_cbs) h₁ in
    let enough = guard-true (not (ltb (length sgw) (length cbs))) cbl_test_error shorter in
    let inside_sgw : (i : ℤ) → contains (int_keys sgw) i ≡ true → InRange (length clusters) i =
      λ i m. rw l (validate_keys-InRange sgw i valid_sgw m) in
    (
      all,
      All-weaken (λ (e : ℤ × SyncGateway). HasKey sgw e.0)
          (λ (e : ℤ × SyncGateway). InRange (length clusters) e.0) gateways
          (λ e m. inside_sgw e.0 m) (keys-add_all gateways []),
      All-weaken (λ (e : ℤ × CouchbaseServerInfo). HasKey cbs e.0)
          (λ (e : ℤ × CouchbaseServerInfo). InRange (length clusters) e.0) servers
          (λ e m. rw l (
            InRange-more (length cbs) (length sgw) e.0 (ground arith)
              (validate_keys-InRange cbs e.0 valid_cbs m)))
          (keys-add_all servers []),
    )

module _ (get_config : String → ℤ → Result Value)
    (connect : CouchbaseServerInfo → Result (Unit {0})) where
  -- The configuration's gateways, each with its index.
  abbrev pub gateway_entries : List Value → Result (List (ℤ × SyncGateway))
  gateway_entries [] = ok []
  gateway_entries (sg ∷ rest) = do
    info ← gateway_info sg
    gateway ← sync_gateway get_config connect info
    entries ← gateway_entries rest
    ok ((info.cluster_index, gateway) ∷ entries)

  abbrev pub server_entries : List Value → Result (List (ℤ × CouchbaseServerInfo))
  server_entries [] = ok []
  server_entries (s ∷ rest) = do
    info ← server_info s
    connect info
    entries ← server_entries rest
    ok ((info.cluster_index, info) ∷ entries)

  add_gateways-entries :
      (raw : List Value) (d d' : IntDict (List SyncGateway))
      → add_gateways get_config connect raw d ≡ ok d'
      → (entries : List (ℤ × SyncGateway)) × (gateway_entries raw ≡ ok entries)
        × (d' ≡ add_all entries d)
  unfolding add_gateways
  add_gateways-entries [] d d' h = ([], refl, cc)
  add_gateways-entries (sg ∷ rest) d d' h =
      let (info, e, h₁) = >>=-eq-ok (gateway_info sg) _ h in
      let (gateway, e', h₂) = >>=-eq-ok (sync_gateway get_config connect info) _ h₁ in
      let (entries, found, same_dict) =
        add_gateways-entries rest (add_entry info.cluster_index gateway d) d' h₂ in
      ((info.cluster_index, gateway) ∷ entries, rw (e, e', found) refl, same_dict)

  add_servers-entries :
      (raw : List Value) (d d' : IntDict (List CouchbaseServerInfo))
      → add_servers get_config connect raw d ≡ ok d'
      → (entries : List (ℤ × CouchbaseServerInfo)) × (server_entries raw ≡ ok entries)
        × (d' ≡ add_all entries d)
  unfolding add_servers
  add_servers-entries [] d d' h = ([], refl, cc)
  add_servers-entries (s ∷ rest) d d' h =
      let (info, e, h₁) = >>=-eq-ok (server_info s) _ h in
      let (_, e', h₂) = >>=-eq-ok (connect info) _ h₁ in
      let (entries, found, same_dict) =
        add_servers-entries rest (add_entry info.cluster_index info d) d' h₂ in
      ((info.cluster_index, info) ∷ entries, rw (e, e', found) refl, same_dict)

  -- Where the clusters of a configuration can be built, the cluster at each place has the gateways and
  -- the servers whose index is that place, in the order of the configuration; and no entry has another
  -- index, so that none is lost.
  pub test_clusters-AreClusters :
      (config : ParsedConfig) (clusters : List CouchbaseCluster)
      → test_clusters get_config connect false config ≡ ok clusters
      → (gateways : List (ℤ × SyncGateway)) × (servers : List (ℤ × CouchbaseServerInfo))
        × (gateway_entries config.sync_gateways ≡ ok gateways)
        × (server_entries config.couchbase_servers ≡ ok servers)
        × AreClusters gateways servers 0 clusters
        × All (λ (e : ℤ × SyncGateway). InRange (length clusters) e.0) gateways
        × All (λ (e : ℤ × CouchbaseServerInfo). InRange (length clusters) e.0) servers
  unfolding test_clusters
  test_clusters-AreClusters config clusters h =
      let (sgw, e, h₁) = >>=-eq-ok (add_gateways get_config connect config.sync_gateways []) _ h in
      let (cbs, e', h₂) =
        >>=-eq-ok (add_servers get_config connect config.couchbase_servers []) _ h₁ in
      let (gateways, g, same_sgw) = add_gateways-entries config.sync_gateways [] sgw e in
      let (servers, s, same_cbs) = add_servers-entries config.couchbase_servers [] cbs e' in
      let (all, inside, inside') =
        build-AreClusters gateways servers clusters (rw (← same_sgw, ← same_cbs) h₂) in
      (gateways, servers, g, s, all, inside, inside')
