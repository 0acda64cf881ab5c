-- ===== src/Setup/Valid.antt =====
-- The indices in what a topology file asks for.
use mathlib.Core.Path.{subst}
use couchbase_lite_tests.Prelude.{
  ℕ, zero, suc, ◌+◌, ◌<◌, ◌≤◌, ◌≡◌, refl, Bool, true, false, not, Option, none, some, List, [], ◌∷◌,
  ◌++◌, String, ℤ, pos, negsuc, arith, length, All, All_of_both, All-weaken, length-append,
}
use couchbase_lite_tests.Prelude.Dict.{Dict, lookup}
use couchbase_lite_tests.Prelude.Result.{
  Error, Result, ok, err, value_error, type_error, ◌>>=◌, ◌>>◌, guard, >>=-eq-ok,
}
use couchbase_lite_tests.Json.{Value, null, bool, int, str, arr, obj, Items, nil, cons, int_type}
use couchbase_lite_tests.Json.Reading.{read_all, read_list, as_dict, entry, py_int}
use couchbase_lite_tests.Setup.{
  ConfigDefaults, SyncGatewayInput, TopologyInputs, DefaultProperty, out_of_range,
  sync_gateway_input, gateway_index, load_balancer_input, read_config, include_config,
  topology_inputs, topology_config, config_defaults, extend_by, cluster_input, version_of,
  edge_server_input, test_server_input,
}

-- An index of a list of `n` elements.
abbrev pub InRange : ℕ → ℤ → Type 0
InRange n (pos k) = k < n
InRange n (negsuc k) = ◌≡◌ {A = Bool} false true

-- Every gateway names a cluster that there is, and every load balancer gateways that there are.
abbrev pub IsValid : TopologyInputs → Type 0
IsValid t =
    All (λ (g : SyncGatewayInput). InRange (length t.clusters) g.cluster_index) t.sync_gateways
    × All (λ indices. All (InRange (length t.sync_gateways)) indices) t.load_balancers

pub InRange-more : (n m : ℕ) (i : ℤ) → n ≤ m → InRange n i → InRange m i
InRange-more n m (pos k) l h = omega arith
InRange-more n m (negsuc k) l h = h

InRange-of_test : (i : ℤ) (n : ℕ) → out_of_range i n ≡ false → InRange n i
InRange-of_test (pos k) n h = ground arith
InRange-of_test (negsuc k) n h = cc

guard-ok : (b : Bool) (raised : Error) → guard (not b) raised ≡ ok tt → b ≡ false
guard-ok true raised h = cc
guard-ok false raised h = refl

pub ok_subst {ℓ κ} : {A : Type ℓ} (P : A → Type κ) (a b : A) → ok a ≡ ok b → P a → P b
ok_subst P a b h = subst P (ok-injective h)
  where
    ok-injective : ok a ≡ ok b → a ≡ b
    ok-injective e = cc

read_all-All {κ} :
    {A : Type 0} (P : A → Type κ) (read : Value → Result A)
    → ((v : Value) (a : A) → read v ≡ ok a → P a)
    → (vs : Items) (xs : List A) → read_all read vs ≡ ok xs
    → All P xs
read_all-All P read each nil xs h = let e : [] ≡ xs = cc in rw (← e) tt
read_all-All P read each (cons v vs) xs h =
    let (a, here, later) = >>=-eq-ok (read v) _ h in
    let (rest, more, last) = >>=-eq-ok (read_all read vs) _ later in
    let e : a ∷ rest ≡ xs = cc in rw (← e) (each v a here, read_all-All P read each vs rest more)

read_list-All {κ} :
    {A : Type 0} (P : A → Type κ) (read : Value → Result A)
    → ((v : Value) (a : A) → read v ≡ ok a → P a)
    → (found : Option Value) (xs : List A) → read_list read found ≡ ok xs
    → All P xs
read_list-All P read each none xs h = let e : [] ≡ xs = cc in rw (← e) tt
read_list-All P read each (some (arr vs)) xs h = read_all-All P read each vs xs h
read_list-All P read each (some null) xs h = cc
read_list-All P read each (some (bool _)) xs h = cc
read_list-All P read each (some (int _)) xs h = cc
read_list-All P read each (some (str _)) xs h = cc
read_list-All P read each (some (obj _)) xs h = cc

sync_gateway_input-InRange :
    (n : ℕ) (default : DefaultProperty) (v : Value) (g : SyncGatewayInput)
    → sync_gateway_input n default v ≡ ok g
    → InRange n g.cluster_index
unfolding sync_gateway_input
sync_gateway_input-InRange n default v g h =
    let (raw, _, h₁) = >>=-eq-ok (as_dict v) _ h in
    let (number, _, h₂) = >>=-eq-ok (entry "cluster" raw) _ h₁ in
    let (index, _, h₃) = >>=-eq-ok (py_int number) _ h₂ in
    let (_, tested, h₄) = >>=-eq-ok (guard (not (out_of_range index n)) value_error) _ h₃ in
    let (version, _, last) = >>=-eq-ok (version_of default raw) _ h₄ in
    let e : index ≡ g.cluster_index = cc in
    rw (← e) (InRange-of_test index n (guard-ok (out_of_range index n) value_error tested))

gateway_index-InRange : (n : ℕ) (v : Value) (i : ℤ) → gateway_index n v ≡ ok i → InRange n i
unfolding gateway_index
gateway_index-InRange n v i h = cast_index (int_type.cast v) h
  where
    cast_index :
        (found : Option ℤ)
        → (elim found [
          | none ↦ err type_error
          | some index ↦ guard (not (out_of_range index n)) value_error >> ok index
        ])
          ≡ ok i
        → InRange n i
    cast_index none h' = cc
    cast_index (some index) h' =
        let (_, tested, last) = >>=-eq-ok (guard (not (out_of_range index n)) value_error) _ h' in
        let e : index ≡ i = cc in
        rw (← e) (InRange-of_test index n (guard-ok (out_of_range index n) value_error tested))

load_balancer_input-InRange :
    (n : ℕ) (v : Value) (indices : List ℤ)
    → load_balancer_input n v ≡ ok indices
    → All (InRange n) indices
unfolding load_balancer_input
load_balancer_input-InRange n v indices h =
    let (raw, _, h₁) = >>=-eq-ok (as_dict v) _ h in
    let (listed, _, last) = >>=-eq-ok (entry "sync_gateways" raw) _ h₁ in
    read_list-All (InRange n) (gateway_index n) (gateway_index-InRange n) (some listed) indices last

read_config-IsValid :
    (parent : Option ConfigDefaults) (config : Dict Value) (t : TopologyInputs)
    → read_config parent config ≡ ok t
    → IsValid t
unfolding read_config
read_config-IsValid parent config t h =
    let (own, _, h₁) = >>=-eq-ok (config_defaults config) _ h in
    let (defaults, _, h₂) = >>=-eq-ok (extend_by parent own) _ h₁ in
    let (clusters, _, h₃) =
      >>=-eq-ok (read_list (cluster_input defaults.couchbase_server) (lookup "clusters" config)) _
        h₂ in
    let read_gateway = sync_gateway_input (length clusters) defaults.sync_gateway in
    let (gateways, g, h₄) =
      >>=-eq-ok (read_list read_gateway (lookup "sync_gateways" config)) _ h₃ in
    let (edges, _, h₅) =
      >>=-eq-ok (read_list (edge_server_input defaults.edge_server) (lookup "edge_servers" config))
        _ h₄ in
    let (servers, _, h₆) =
      >>=-eq-ok (read_list test_server_input (lookup "test_servers" config)) _ h₅ in
    let read_balancer = load_balancer_input (length gateways) in
    let (balancers, b, last) =
      >>=-eq-ok (read_list read_balancer (lookup "load_balancers" config)) _ h₆ in
    let valid_gateways =
      read_list-All (λ (g : SyncGatewayInput). InRange (length clusters) g.cluster_index)
        read_gateway (sync_gateway_input-InRange (length clusters) defaults.sync_gateway)
        (lookup "sync_gateways" config) gateways g in
    let valid_balancers =
      read_list-All (All (InRange (length gateways))) read_balancer
        (load_balancer_input-InRange (length gateways)) (lookup "load_balancers" config) balancers
        b in
    ok_subst IsValid _ t last (valid_gateways, valid_balancers)

include_config-IsValid :
    (own sub : TopologyInputs) → IsValid own → IsValid sub → IsValid (include_config own sub)
unfolding include_config
include_config-IsValid own sub (gateways, balancers) (sub_gateways, sub_balancers) =
    rw (length-append own.clusters sub.clusters, length-append own.sync_gateways sub.sync_gateways)
      (
        gateways_both (length own.clusters + length sub.clusters) (omega arith) (omega arith),
        balancers_both (length own.sync_gateways + length sub.sync_gateways) (omega arith)
            (omega arith),
      )
  where
    gateways_both :
        (n : ℕ)
        → length own.clusters ≤ n
        → length sub.clusters ≤ n
        → All
            (λ (g : SyncGatewayInput). InRange n g.cluster_index)
            (own.sync_gateways ++ sub.sync_gateways)
    gateways_both n l k =
        All_of_both _ own.sync_gateways sub.sync_gateways
          (All-weaken _ _ own.sync_gateways (λ g. InRange-more _ n g.cluster_index l) gateways)
          (All-weaken _ _ sub.sync_gateways (λ g. InRange-more _ n g.cluster_index k) sub_gateways)

    balancers_both :
        (n : ℕ)
        → length own.sync_gateways ≤ n
        → length sub.sync_gateways ≤ n
        → All (All (InRange n)) (own.load_balancers ++ sub.load_balancers)
    balancers_both n l k =
        All_of_both _ own.load_balancers sub.load_balancers
          (All-weaken _ _ own.load_balancers (λ b. All-weaken _ _ b (λ i. InRange-more _ n i l))
            balancers)
          (All-weaken _ _ sub.load_balancers (λ b. All-weaken _ _ b (λ i. InRange-more _ n i k))
            sub_balancers)

module _ (open_json : String → Result (Dict Value))
    (resolve : (config_file : String) → Value → String) where
  topology_inputs-IsValid :
      (depth : ℕ) (config_file : String) (config : Dict Value) (parent : Option ConfigDefaults)
      (t : TopologyInputs)
      → topology_inputs open_json resolve depth config_file config parent ≡ ok t
      → IsValid t
  unfolding topology_inputs
  topology_inputs-IsValid zero config_file config parent t h = cc
  topology_inputs-IsValid (suc depth) config_file config parent t h =
      let (own, read, more) = >>=-eq-ok (read_config parent config) _ h in
      included (topology_inputs-IsValid depth) (lookup "include" config) own
        (read_config-IsValid parent config own read) more
    where
      included :
          ((config_file : String) (config : Dict Value) (parent : Option ConfigDefaults)
              (sub : TopologyInputs)
            → topology_inputs open_json resolve depth config_file config parent ≡ ok sub
            → IsValid sub)
          → (path : Option Value) (own : TopologyInputs) → IsValid own
          → (elim path [
            | none ↦ ok own
            | some p ↦ do
              config ← open_json (resolve config_file p)
              sub ←
                  topology_inputs open_json resolve depth
                    (resolve config_file p)
                    config
                    (some own.defaults)
              ok (include_config own sub)
          ])
            ≡ ok t
          → IsValid t
      included ih none own valid e = ok_subst IsValid own t e valid
      included ih (some p) own valid e =
          let (config, _, e₁) = >>=-eq-ok (open_json (resolve config_file p)) _ e in
          let (sub, built, e₂) =
            >>=-eq-ok
              (topology_inputs open_json resolve depth (resolve config_file p) config
                (some own.defaults))
              _ e₁ in
          ok_subst IsValid (include_config own sub) t e₂ (
            include_config-IsValid own sub valid
              (ih (resolve config_file p) config (some own.defaults) sub built))

  -- Whatever files include each other, a topology that is accepted names only clusters and gateways
  -- that it has: each gateway's cluster index is that of one of its clusters, and each index of a load
  -- balancer that of one of its gateways.
  pub topology_config-IsValid :
      (depth : ℕ) (default_file : String) (config_file : Option String) (config_input : Dict Value)
      (t : TopologyInputs)
      → topology_config open_json resolve depth default_file config_file config_input ≡ ok t
      → IsValid t
  unfolding topology_config
  topology_config-IsValid depth default_file none (e ∷ config_input) t h =
      topology_inputs-IsValid depth "None" (e ∷ config_input) none t h
  topology_config-IsValid depth default_file (some file) (e ∷ config_input) t h = cc
  topology_config-IsValid depth default_file none [] t h =
      let (config, _, built) = >>=-eq-ok (open_json default_file) _ h in
      topology_inputs-IsValid depth default_file config none t built
  topology_config-IsValid depth default_file (some file) [] t h =
      let (config, _, built) = >>=-eq-ok (open_json file) _ h in
      topology_inputs-IsValid depth file config none t built
