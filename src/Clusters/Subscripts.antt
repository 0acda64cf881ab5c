-- ===== src/Clusters/Subscripts.antt =====
-- No subscript of `_ClusterBuilder.build` in client/src/cbltest/__init__.py fails.
use couchbase_lite_tests.Prelude.{
  ℕ, zero, suc, ◌+◌, ◌<◌, ◌≡◌, ◌⊎◌, ◌||◌, inl, inr, refl, Bool, true, false, not, none, some, List,
  [], ◌∷◌, pos, int_eq, arith, ◌==◌, contains, if◌then◌else◌, length, Bool-cases, ltb, leb,
}
use couchbase_lite_tests.Prelude.IntDict.{IntDict, int_keys, find}
use couchbase_lite_tests.Prelude.Result.{
  Error, Result, ok, err, value_error, key_error, cbl_test_error, ◌>>=◌, guard, >>=-eq-err,
  >>=-eq-ok,
}
use couchbase_lite_tests.Config.{CouchbaseServerInfo}
use couchbase_lite_tests.Setup.Hosts.{is_nil}
use couchbase_lite_tests.Clusters.{
  SyncGateway, CouchbaseCluster, ClusterBuilder, int_range, missing_keys, validate_keys, validate,
  item, build_from, build, couchbase_cluster,
}
use couchbase_lite_tests.Clusters.Groups.{none_missing, guard-true, contains-range}

-- What `build` may raise.
abbrev pub IsBuildError : Error → Type 0
IsBuildError e = (e ≡ cbl_test_error) ⊎ (e ≡ value_error)

-- The dict has every key below its length.
abbrev HasKeys {ℓ} : {A : Type ℓ} → IntDict A → Type 0
HasKeys d = (k : ℕ) → k < length d → contains (int_keys d) (pos k) ≡ true

item-found {ℓ} :
    {A : Type ℓ} (k : ℕ) (d : IntDict A)
    → contains (int_keys d) (pos k) ≡ true
    → (x : A) × (item k d ≡ ok x)
unfolding find
item-found k [] h = cc
item-found {A = A} k ((j, x) ∷ d) h = by_key (j == pos k) h (item-found k d)
  where
    by_key :
        (b : Bool)
        → (b || contains (int_keys d) (pos k)) ≡ true
        → (contains (int_keys d) (pos k) ≡ true → (y : A) × (item k d ≡ ok y))
        → (y : A) × ((elim (if b then some x else find (pos k) d) [
          | none ↦ err key_error
          | some z ↦ ok z
        ])
            ≡ ok y)
    by_key true m ih = (x, refl)
    by_key false m ih = ih m

couchbase_cluster-error :
    (gateways : List SyncGateway) (servers : List CouchbaseServerInfo) (e : Error)
    → couchbase_cluster gateways servers ≡ err e
    → IsBuildError e
unfolding couchbase_cluster
couchbase_cluster-error [] servers e h = inr cc
couchbase_cluster-error (g ∷ gateways) (s ∷ servers) e h = cc
couchbase_cluster-error (g ∷ gateways) [] e h = alone (is_nil gateways) g.using_rosmar _ h
  where
    alone :
        (one rosmar : Bool) (made : CouchbaseCluster)
        → (if not one
            then err cbl_test_error
            else if not rosmar
            then err cbl_test_error
            else ok made)
          ≡ err e
        → IsBuildError e
    alone false rosmar made m = inl cc
    alone true false made m = inl cc
    alone true true made m = cc

servers_at-ok :
    (d : IntDict (List CouchbaseServerInfo)) (index : ℕ)
    → HasKeys d
    → (servers : List CouchbaseServerInfo) × ((if leb (length d) index then ok [] else item index d)
        ≡ ok servers)
servers_at-ok d index keys = elim (Bool-cases (leb (length d) index)) [
  | inl e ↦ ([], rw e refl)
  | inr n ↦ let (x, there) = item-found index d (keys index (ground arith)) in (x, rw n there)
]

build_from-error :
    (b : ClusterBuilder) (count index : ℕ) (e : Error)
    → HasKeys b.sgw
    → HasKeys b.cbs
    → count + index ≡ length b.sgw
    → build_from b count index ≡ err e
    → IsBuildError e
unfolding build_from
build_from-error b zero index e sgw cbs l h = cc
build_from-error b (suc count) index e sgw cbs l h =
    let (servers, at_servers) = servers_at-ok b.cbs index cbs in
    let (gateways, at_gateways) = item-found index b.sgw (sgw index (omega arith)) in
    after servers gateways (build_from b count (suc index))
      (λ m. build_from-error b count (suc index) e sgw cbs (omega arith) m)
      (rw (at_servers, at_gateways) at h)
  where
    after :
        (servers : List CouchbaseServerInfo) (gateways : List SyncGateway)
        (others : Result (List CouchbaseCluster))
        → (others ≡ err e → IsBuildError e)
        → (do cluster ← couchbase_cluster gateways servers; rest ← others; ok (cluster ∷ rest))
          ≡ err e
        → IsBuildError e
    after servers gateways others ih m =
        elim (>>=-eq-err (couchbase_cluster gateways servers) _ m) [
          | inl n ↦ couchbase_cluster-error gateways servers e n
          | inr (cluster, _, n) ↦ elim (>>=-eq-err others _ n) [
            | inl o ↦ ih o
            | inr (rest, _, o) ↦ cc
          ]
        ]

validate_keys-HasKeys {ℓ} : {A : Type ℓ} (d : IntDict A) → validate_keys d ≡ ok tt → HasKeys d
validate_keys-HasKeys d h = λ k l.
    none_missing (int_range 0 (length d)) (int_keys d)
      (guard-true (is_nil (missing_keys (int_range 0 (length d)) (int_keys d))) cbl_test_error h)
      (pos k) (contains-range 0 (length d) k (omega arith) (omega arith))

guard-error : (test : Bool) (raised e : Error) → guard test raised ≡ err e → e ≡ raised
guard-error true raised e h = cc
guard-error false raised e h = cc

-- Whatever entries were added, `build` raises nothing but the `CblTestError` of a configuration that it
-- refuses, or the `ValueError` of a cluster without a gateway: after the validation no index is missing,
-- so that no subscript raises a `KeyError`.
pub build-IsBuildError : (b : ClusterBuilder) (e : Error) → build b ≡ err e → IsBuildError e
unfolding build validate
build-IsBuildError b e h = elim (>>=-eq-err (validate b) _ h) [
  | inl refused ↦ inl (refused_with refused)
  | inr (_, valid, m) ↦
      let (_, _, keys) =
        >>=-eq-ok (guard (not (ltb (length b.sgw) (length b.cbs))) cbl_test_error) _ valid in
      let (_, sgw, cbs) = >>=-eq-ok (validate_keys b.sgw) _ keys in
      build_from-error b (length b.sgw) 0 e (validate_keys-HasKeys b.sgw sgw)
        (validate_keys-HasKeys b.cbs cbs) (omega arith) m
]
  where
    refused_with : validate b ≡ err e → e ≡ cbl_test_error
    refused_with m =
        elim (>>=-eq-err (guard (not (ltb (length b.sgw) (length b.cbs))) cbl_test_error) _ m) [
          | inl n ↦ guard-error (not (ltb (length b.sgw) (length b.cbs))) cbl_test_error e n
          | inr (_, _, n) ↦ elim (>>=-eq-err (validate_keys b.sgw) _ n) [
            | inl o ↦
                guard-error (is_nil (missing_keys (int_range 0 (length b.sgw)) (int_keys b.sgw)))
                  cbl_test_error e o
            | inr (_, _, o) ↦
                guard-error (is_nil (missing_keys (int_range 0 (length b.cbs)) (int_keys b.cbs)))
                  cbl_test_error e o
          ]
        ]
