-- ===== src/Multipeer/Idle.antt =====
-- `wait_for_idle` of client/src/cbltest/api/multipeer_replicator.py: what it returns, and that it ends.
use couchbase_lite_tests.Prelude.{
  ℕ, zero, suc, ◌+◌, ◌-◌, ◌*◌, ◌≤◌, ◌<◌, ◌≡◌, refl, Bool, true, false, Option, none, some, List, [],
  ◌∷◌, string_eq, text_eq, arith, if◌then◌else◌, All,
}
use couchbase_lite_tests.Prelude.Result.{Result, ok, err, attribute_error}
use couchbase_lite_tests.ReplicatorTypes.{idle, activity_beq, activity_beq-eq}
use couchbase_lite_tests.ReplicatorTypes.Entries.{ReplicatorStatusBody}
use couchbase_lite_tests.Replicator.{returned, is_empty}
use couchbase_lite_tests.Replicator.Waiting.{IsClock, is_finished}
use couchbase_lite_tests.Multipeer.{
  MultipeerReplicatorStatusEntry, MultipeerReplicator, all_idle, is_idle, multipeer_status,
  idle_loop, wait_for_idle, after_look,
}

-- The replication with the peer is idle.
abbrev pub IsIdle : MultipeerReplicatorStatusEntry → Type 0
IsIdle r = (body : ReplicatorStatusBody) × (r.status ≡ some body) × (body.activity ≡ idle)

all_idle-All :
    (replicators : List MultipeerReplicatorStatusEntry)
    → all_idle replicators ≡ ok true
    → All IsIdle replicators
unfolding all_idle
all_idle-All [] h = tt
all_idle-All (r ∷ replicators) h =
    let (body, there, level) = first_idle r.status (all_idle replicators) h in
    (
      (body, there, activity_beq-eq body.activity idle level),
      all_idle-All replicators (rest_idle r.status (all_idle replicators) h),
    )
  where
    first_idle :
        (status : Option ReplicatorStatusBody) (rest : Result Bool)
        → (elim status [
          | none ↦ err attribute_error
          | some body ↦ if activity_beq body.activity idle then rest else ok false
        ])
          ≡ ok true
        → (body : ReplicatorStatusBody) × (status ≡ some body)
          × (activity_beq body.activity idle ≡ true)
    first_idle none rest h = cc
    first_idle (some body) rest h = (body, refl, ground arith)

    rest_idle :
        (status : Option ReplicatorStatusBody) (rest : Result Bool)
        → (elim status [
          | none ↦ err attribute_error
          | some body ↦ if activity_beq body.activity idle then rest else ok false
        ])
          ≡ ok true
        → rest ≡ ok true
    rest_idle none rest h = cc
    rest_idle (some body) rest h = ground arith

module _ (answer : ℕ → Result (List MultipeerReplicatorStatusEntry)) (clock : ℕ → ℕ) where
  idle_loop-is_idle :
      (fuel deadline : ℕ) (r : MultipeerReplicator) (found : List MultipeerReplicatorStatusEntry)
      → (idle_loop answer clock fuel deadline r).0 ≡ returned found
      → is_idle found ≡ ok true
  unfolding idle_loop
  idle_loop-is_idle zero deadline r found h = cc
  idle_loop-is_idle (suc fuel) deadline r found h =
      let s = (multipeer_status answer clock (after_look answer clock r)).1 in
      ground (arith, idle_loop-is_idle fuel deadline s found)

  -- A status that `wait_for_idle` returns names at least one peer, and the replication with each peer
  -- that it names is idle.
  pub wait_for_idle-result :
      (fuel interval timeout : ℕ) (r : MultipeerReplicator)
      (found : List MultipeerReplicatorStatusEntry)
      → (wait_for_idle answer clock fuel interval timeout r).0 ≡ returned found
      → (is_empty found ≡ false) × All IsIdle found
  unfolding wait_for_idle
  wait_for_idle-result fuel interval timeout r found h =
      let good : is_idle found ≡ ok true = ground (
        arith,
        idle_loop-is_idle fuel (clock r.readings + timeout) (after_look answer clock r) found,
      ) in
      (nonempty good, all_idle-All found (all_good good))
    where
      nonempty : is_idle found ≡ ok true → is_empty found ≡ false
      nonempty g = unfold is_idle in ground arith

      all_good : is_idle found ≡ ok true → all_idle found ≡ ok true
      all_good g = unfold is_idle in ground arith

  readings-multipeer_status :
      (r : MultipeerReplicator) → (multipeer_status answer clock r).1.readings ≡ r.readings
  unfolding multipeer_status
  readings-multipeer_status r = ground arith

  idle_round :
      (fuel deadline : ℕ) (r : MultipeerReplicator)
      → ((s : MultipeerReplicator)
          → s.readings ≡ r.readings + 1
          → clock r.readings ≤ deadline
          → is_finished (idle_loop answer clock fuel deadline s).0 ≡ true)
      → is_finished (idle_loop answer clock (suc fuel) deadline r).0 ≡ true
  unfolding idle_loop
  idle_round fuel deadline r go =
      let s = (multipeer_status answer clock (after_look answer clock r)).1 in
      ground (arith, go s (readings-multipeer_status (after_look answer clock r)))

  idle_loop_finishes :
      IsClock clock
      → (fuel rounds deadline : ℕ) (r : MultipeerReplicator) → deadline < clock r.readings + rounds
      → 2 * rounds < fuel
      → is_finished (idle_loop answer clock fuel deadline r).0 ≡ true
  idle_loop_finishes c zero rounds deadline r near enough = elim enough [ ]
  idle_loop_finishes c (suc zero) rounds deadline r near enough =
      idle_round zero deadline r (λ s e early. absurd (omega arith))
  idle_loop_finishes c (suc (suc fuel)) rounds deadline r near enough =
      idle_round (suc fuel) deadline r λ s e early. idle_round fuel deadline s λ t e' early'.
        idle_loop_finishes c fuel (rounds - 1) deadline t
          (rw (e', e) (omega (arith, c.sleeps r.readings))) (omega arith)

  -- `wait_for_idle` ends: where the clock never runs backwards and sleeping takes at least a unit of
  -- time, more rounds than twice the timeout and two are never needed, whatever the server answers.
  pub wait_for_idle_finishes :
      IsClock clock
      → (fuel interval timeout : ℕ) (r : MultipeerReplicator) → 2 * timeout + 2 < fuel
      → is_finished (wait_for_idle answer clock fuel interval timeout r).0 ≡ true
  unfolding wait_for_idle
  wait_for_idle_finishes c fuel interval timeout r enough = ground (
    arith,
    idle_loop_finishes c fuel (timeout + 1) (clock r.readings + timeout) (after_look answer clock r)
        (omega (arith, c.forwards r.readings)) (omega arith),
  )
