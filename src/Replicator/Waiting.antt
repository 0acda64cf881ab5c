-- ===== src/Replicator/Waiting.antt =====
-- `get_status` and `wait_for` of client/src/cbltest/api/replicator.py: what they return, and that
-- they end.
use couchbase_lite_tests.Prelude.{
  ℕ, zero, suc, ◌+◌, ◌-◌, ◌*◌, ◌≤◌, ◌<◌, ◌≡◌, Bool, true, false, Option, string_eq, arith,
}
use couchbase_lite_tests.Prelude.Result.{Result}
use couchbase_lite_tests.ReplicatorTypes.{ReplicatorActivityLevel, activity_beq-eq}
use couchbase_lite_tests.ReplicatorTypes.Entries.{ReplicatorStatusBody}
use couchbase_lite_tests.Replicator.{
  Replicator, ReplicatorStatus, Outcome, returned, raised, unfinished, get_status, wait_loop,
  wait_for, after_reading,
}

-- What the time between two readings of the clock is known to be: it never runs backwards, and of
-- three readings in a row two have a sleep of at least one unit between them.
pub record IsClock (clock : ℕ → ℕ) : Type 0 where
  pub forwards : (n : ℕ) → clock n ≤ clock (n + 1)
  pub sleeps : (n : ℕ) → clock n + 1 ≤ clock (n + 1 + 1)

-- Whether a waiting method came to an end.
abbrev pub is_finished : {A : Type 0} → Outcome A → Bool
is_finished (returned a) = true
is_finished (raised e) = true
is_finished unfinished = false

module _ (answer : ℕ → Result (Option ReplicatorStatusBody)) (clock : ℕ → ℕ) where
  pub readings-get_status : (r : Replicator) → (get_status answer clock r).1.readings ≡ r.readings
  unfolding get_status
  readings-get_status r = ground arith

  -- One round of the loop: it ends, or it goes on after one more reading of the clock.
  wait_round :
      (fuel : ℕ) (activity : ReplicatorActivityLevel) (deadline : ℕ) (r : Replicator)
      → ((s : Replicator)
          → s.readings ≡ r.readings + 1
          → clock r.readings ≤ deadline
          → is_finished (wait_loop answer clock fuel activity deadline s).0 ≡ true)
      → is_finished (wait_loop answer clock (suc fuel) activity deadline r).0 ≡ true
  unfolding wait_loop
  wait_round fuel activity deadline r go =
      let s = (get_status answer clock (after_reading r)).1 in
      ground (arith, go s (readings-get_status (after_reading r)))

  -- With `rounds` the number of units that may still pass before the deadline.
  wait_loop_finishes :
      IsClock clock
      → (fuel rounds : ℕ) (activity : ReplicatorActivityLevel) (deadline : ℕ) (r : Replicator)
      → deadline < clock r.readings + rounds
      → 2 * rounds < fuel
      → is_finished (wait_loop answer clock fuel activity deadline r).0 ≡ true
  wait_loop_finishes c zero rounds activity deadline r near enough = elim enough [ ]
  wait_loop_finishes c (suc zero) rounds activity deadline r near enough =
      wait_round zero activity deadline r (λ s e early. absurd (omega arith))
  wait_loop_finishes c (suc (suc fuel)) rounds activity deadline r near enough =
      wait_round (suc fuel) activity deadline r λ s e early.
        wait_round fuel activity deadline s λ t e' early'.
          wait_loop_finishes c fuel (rounds - 1) activity deadline t
            (rw (e', e) (omega (arith, c.sleeps r.readings))) (omega arith)

  -- `wait_for` ends: where the clock never runs backwards and sleeping takes at least a unit of
  -- time, more rounds than twice the timeout and two are never needed, whatever the server answers.
  pub wait_for_finishes :
      IsClock clock
      → (fuel : ℕ) (activity : ReplicatorActivityLevel) (interval timeout : ℕ) (r : Replicator)
      → 2 * timeout + 2 < fuel
      → is_finished (wait_for answer clock fuel activity interval timeout r).0 ≡ true
  unfolding wait_for
  wait_for_finishes c fuel activity interval timeout r enough = ground (
    arith,
    wait_loop_finishes c fuel (timeout + 1) activity (clock r.readings + timeout) (after_reading r)
        (omega (arith, c.forwards r.readings)) (omega arith),
  )

  -- What one round returns is a status of the level that was asked for, or what a later round returns.
  wait_loop-activity :
      (fuel : ℕ) (activity : ReplicatorActivityLevel) (deadline : ℕ) (r : Replicator)
      (status : ReplicatorStatus)
      → (wait_loop answer clock fuel activity deadline r).0 ≡ returned status
      → status.activity ≡ activity
  unfolding wait_loop
  wait_loop-activity zero activity deadline r status h = cc
  wait_loop-activity (suc fuel) activity deadline r status h =
      let s = (get_status answer clock (after_reading r)).1 in
      ground (
        arith,
        wait_loop-activity fuel activity deadline s status,
        activity_beq-eq status.activity activity,
      )

  -- A status that `wait_for` returns has the activity level that was waited for.
  pub wait_for-activity :
      (fuel : ℕ) (activity : ReplicatorActivityLevel) (interval timeout : ℕ) (r : Replicator)
      (status : ReplicatorStatus)
      → (wait_for answer clock fuel activity interval timeout r).0 ≡ returned status
      → status.activity ≡ activity
  unfolding wait_for
  wait_for-activity fuel activity interval timeout r status h = ground (
    arith,
    wait_loop-activity fuel activity (clock r.readings + timeout) (after_reading r) status,
  )
