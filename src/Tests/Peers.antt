-- ===== src/Tests/Peers.antt =====
-- A multipeer replicator whose server first names no peer, and then one that is idle.
use native.Mathlib.Omega.{arith}
use couchbase_lite_tests.Prelude.{
  ℕ, zero, suc, ◌≡◌, refl, true, false, List, [], ◌∷◌, none, some, string_eq, All,
}
use couchbase_lite_tests.Prelude.Result.{Result, ok}
use couchbase_lite_tests.ReplicatorTypes.{idle}
use couchbase_lite_tests.Replicator.{returned, is_empty}
use couchbase_lite_tests.Replicator.Waiting.{IsClock}
use couchbase_lite_tests.Multipeer.{
  MultipeerReplicatorStatusEntry, MultipeerReplicator, wait_for_idle,
}
use couchbase_lite_tests.Multipeer.Idle.{IsIdle, wait_for_idle-result}

abbrev peer : MultipeerReplicatorStatusEntry
peer = record {
  peer_id = "p1";
  status = some (record {
    activity = idle;
    progress = record { completed = true };
    replicator_error = none;
    documents = [];
  });
  transport = record { wifi = true; bluetooth = false };
}

abbrev peers : ℕ → Result (List MultipeerReplicatorStatusEntry)
peers zero = ok []
peers (suc n) = ok (peer ∷ [])

abbrev count_up : ℕ → ℕ
count_up n = n

count_up-IsClock : IsClock count_up
count_up-IsClock = record { forwards = λ n. omega arith; sleeps = λ n. omega arith }

abbrev started : MultipeerReplicator
started = record {
  id = "m1";
  collections = [];
  transports = record { wifi = true; bluetooth = false };
  polls = 0;
  readings = 0;
}

became_idle : (wait_for_idle peers count_up 3 1000 1000 started).0 ≡ returned (peer ∷ [])
unfolding wait_for_idle
became_idle = refl

wait_for_idle-result_example : (is_empty (peer ∷ []) ≡ false) × All IsIdle (peer ∷ [])
wait_for_idle-result_example =
    wait_for_idle-result peers count_up 3 1000 1000 started (peer ∷ []) became_idle
