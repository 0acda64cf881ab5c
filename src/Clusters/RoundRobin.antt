-- ===== src/Clusters/RoundRobin.antt =====
-- `round_robin_node` of client/src/cbltest/api/syncgatewaycluster.py is fair.
use mathlib.Core.List.{append_assoc}
use native.Mathlib.Nat.{mod-eq_of_lt, mod_self}
use couchbase_lite_tests.Prelude.{
  ℕ, zero, suc, ◌+◌, ◌%◌, ◌<◌, ◌≡◌, refl, some, List, [], ◌∷◌, ◌++◌, arith, length, length-append,
  get_elem?,
}
use couchbase_lite_tests.Prelude.Result.{Result, ok, ◌>>=◌}
use couchbase_lite_tests.Clusters.{
  SyncGateway, SyncGatewayCluster, sync_gateway_cluster, round_robin_node,
}

-- So many accesses, one after the other.
abbrev pub accesses : ℕ → SyncGatewayCluster → Result (List SyncGateway × SyncGatewayCluster)
accesses zero c = ok ([], c)
accesses (suc n) c = do
  (node, later) ← round_robin_node c
  (nodes, last) ← accesses n later
  ok (node ∷ nodes, last)

abbrev at_node : List SyncGateway → ℕ → SyncGatewayCluster
at_node nodes index = record { nodes = nodes; round_robin_index = index }

get_middle {ℓ} :
    {A : Type ℓ} (before after : List A) (x : A)
    → get_elem? (before ++ x ∷ after) (length before) ≡ some x
get_middle [] after x = refl
get_middle (y ∷ before) after x = get_middle before after x

round_robin_node-at :
    (before after : List SyncGateway) (node : SyncGateway)
    → round_robin_node (at_node (before ++ node ∷ after) (length before))
      ≡ ok (
        node,
        at_node (before ++ node ∷ after) ((length before + 1) % length (before ++ node ∷ after)),
      )
unfolding round_robin_node
round_robin_node-at before after node = rw (get_middle before after node) refl

-- The rest of a round that has come past some of the nodes.
rest_of_round :
    (before after : List SyncGateway) (node : SyncGateway)
    → accesses (suc (length after)) (at_node (before ++ node ∷ after) (length before))
      ≡ ok (node ∷ after, at_node (before ++ node ∷ after) 0)
rest_of_round before [] node =
    let last : (length before + 1) % length (before ++ node ∷ []) ≡ 0 =
      rw (length-append before (node ∷ [])) (mod_self (length before + 1)) in
    rw (round_robin_node-at before [] node, last) refl
rest_of_round before (next ∷ after) node =
    let smaller : length before + 1 < length (before ++ node ∷ next ∷ after) =
      omega (arith, length-append before (node ∷ next ∷ after)) in
    let later : accesses (suc (length after))
          (at_node (before ++ node ∷ next ∷ after) (length before + 1))
        ≡ ok (next ∷ after, at_node (before ++ node ∷ next ∷ after) 0) =
      rw (append_assoc before (node ∷ []) (next ∷ after), length-append before (node ∷ [])) at
        (rest_of_round (before ++ node ∷ []) after next) in
    rw (round_robin_node-at before (next ∷ after) node, mod-eq_of_lt smaller, later) refl

-- For every cluster, as many accesses as it has nodes give each node once, in the order of the list, and
-- then the cluster is as it was made: no node is passed over.
pub accesses-round :
    (nodes : List SyncGateway) (c : SyncGatewayCluster)
    → sync_gateway_cluster nodes ≡ ok c
    → accesses (length nodes) c ≡ ok (nodes, c)
unfolding sync_gateway_cluster
accesses-round [] c h = cc
accesses-round (node ∷ nodes) c h =
    let e : at_node (node ∷ nodes) 0 ≡ c = cc in rw (← e) (rest_of_round [] nodes node)
