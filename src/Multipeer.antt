-- ===== src/Multipeer.antt =====
-- client/src/cbltest/api/multipeer_replicator.py: a multipeer replicator of a test server, with the
-- transports of api/multipeer_replicator_types.py.
--
-- As for a replicator, the server's answers and the clock's readings are functions, and the `while`
-- loop takes fuel. An answer lists the replications with the peers.
pub mod Idle
use couchbase_lite_tests.Prelude.{
  ℕ, zero, suc, ◌+◌, Bool, true, false, not, ◌&&◌, ◌||◌, List, [], ◌∷◌, ◌++◌, Option, none, some,
  String, ◌==◌, string_eq, text_eq, Text, codes, upper, if◌then◌else◌, ltb, leb,
}
use couchbase_lite_tests.Prelude.Dict.{Dict, lookup}
use couchbase_lite_tests.Prelude.Result.{
  Result, ok, err, value_error, assertion_error, attribute_error, cbl_test_error, cbl_timeout_error,
}
use couchbase_lite_tests.Errors.{ErrorResponseBody}
use couchbase_lite_tests.ReplicatorTypes.{ReplicatorCollectionEntry, idle, activity_beq}
use couchbase_lite_tests.ReplicatorTypes.Entries.{ReplicatorStatusBody}
use couchbase_lite_tests.Replicator.{
  StartAnswer, start_error, replicator_id, Outcome, returned, raised, unfinished, is_empty,
}

-- The two bits of `MultipeerTransportType`.
pub record MultipeerTransportType : Type 0 where
  pub wifi : Bool
  pub bluetooth : Bool

unfoldable pub from_string : Text → Result MultipeerTransportType
unfolding upper
from_string value =
    if upper value == codes "WIFI"
    then ok (record { wifi = true; bluetooth = false })
    else if upper value == codes "BLUETOOTH"
    then ok (record { wifi = false; bluetooth = true })
    else err value_error

unfoldable pub transports_json : MultipeerTransportType → List String
transports_json t =
    (if t.wifi then "WIFI" ∷ [] else []) ++ (if t.bluetooth then "BLUETOOTH" ∷ [] else [])

-- A body without an activity has no properties that can be read (`none`).
pub record MultipeerReplicatorStatusEntry : Type 0 where
  pub peer_id : String
  pub status : Option ReplicatorStatusBody
  pub transport : MultipeerTransportType

pub record MultipeerReplicator : Type 0 where
  pub id : String
  pub collections : List ReplicatorCollectionEntry
  pub transports : MultipeerTransportType
  pub polls : ℕ
  pub readings : ℕ

-- The constructor's two assertions.
unfoldable pub new_multipeer :
    List ReplicatorCollectionEntry → MultipeerTransportType → Result MultipeerReplicator
new_multipeer collections transports =
    if not (transports.wifi || transports.bluetooth)
    then err assertion_error
    else if is_empty collections
    then err assertion_error
    else ok (record {
      id = "";
      collections = collections;
      transports = transports;
      polls = 0;
      readings = 0;
    })

abbrev has_id : MultipeerReplicator → Bool
has_id r = not (r.id == "")

abbrev with_id : StartAnswer → MultipeerReplicator → MultipeerReplicator
with_id (start_error _) r = r
with_id (replicator_id new) r = record r { id = new }

-- A refused start is logged, and returns as a start does.
unfoldable pub start_multipeer :
    Result StartAnswer → MultipeerReplicator → Result (Unit {0}) × MultipeerReplicator
start_multipeer (err e) r = (err e, r)
start_multipeer (ok response) r = (ok tt, with_id response r)

abbrev stopped_unless :
    Result (Option ErrorResponseBody)
    → MultipeerReplicator
    → Result (Unit {0}) × MultipeerReplicator
stopped_unless (err e) r = (err e, r)
stopped_unless (ok (some _)) r = (ok tt, r)
stopped_unless (ok none) r = (ok tt, record r { id = "" })

-- The answer to the request, which is only sent where the replicator was started, is an error or none.
unfoldable pub stop_multipeer :
    Result (Option ErrorResponseBody)
    → MultipeerReplicator
    → Result (Unit {0}) × MultipeerReplicator
stop_multipeer answer r = if has_id r then stopped_unless answer r else (ok tt, r)

-- `all(r.status.activity == IDLE for r in replicators)`
unfoldable pub all_idle : List MultipeerReplicatorStatusEntry → Result Bool
all_idle [] = ok true
all_idle (r ∷ replicators) = elim r.status [
  | none ↦ err attribute_error
  | some body ↦
      let rest = all_idle replicators in if activity_beq body.activity idle then rest else ok false
]

-- `len(replicators) > 0 and all(...)`
unfoldable pub is_idle : List MultipeerReplicatorStatusEntry → Result Bool
unfolding all_idle
is_idle replicators = if is_empty replicators then ok false else all_idle replicators

module _ (answer : ℕ → Result (List MultipeerReplicatorStatusEntry)) (clock : ℕ → ℕ) where
  unfoldable pub multipeer_status :
      MultipeerReplicator → Result (List MultipeerReplicatorStatusEntry) × MultipeerReplicator
  multipeer_status r =
      if has_id r
      then (answer r.polls, record r { polls = r.polls + 1 })
      else (err cbl_test_error, r)

  abbrev pub after_look : MultipeerReplicator → MultipeerReplicator
  after_look r = record r { readings = r.readings + 1 }

  unfoldable pub idle_loop :
      ℕ
      → ℕ
      → MultipeerReplicator
      → Outcome (List MultipeerReplicatorStatusEntry) × MultipeerReplicator
  idle_loop zero deadline r = (unfinished, r)
  idle_loop (suc fuel) deadline r = elim (ltb deadline (clock r.readings)) [
    | true ↦ (raised cbl_timeout_error, after_look r)
    | false ↦
        let (result, next) = multipeer_status (after_look r) in
        elim result [
          | err e ↦ (raised e, next)
          | ok replicators ↦ elim (is_idle replicators) [
            | err e ↦ (raised e, next)
            | ok true ↦ (returned replicators, next)
            | ok false ↦ idle_loop fuel deadline next
          ]
        ]
  ]

  unfoldable pub wait_for_idle :
      ℕ
      → (interval timeout : ℕ) → MultipeerReplicator
      → Outcome (List MultipeerReplicatorStatusEntry) × MultipeerReplicator
  unfolding idle_loop multipeer_status is_idle
  wait_for_idle fuel interval timeout r =
      if not (ltb 0 interval)
      then (raised assertion_error, r)
      else if not (leb 1000 timeout)
      then (raised assertion_error, r)
      else idle_loop fuel (clock r.readings + timeout) (after_look r)
