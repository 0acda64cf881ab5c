-- ===== src/Replicator.antt =====
-- client/src/cbltest/api/replicator.py: a replicator of a test server, and the loops that wait for it.
--
-- The test server and the clock are arguments: `answer n` is the result of the n-th
-- `getReplicatorStatus` request (an exception, a body without an activity, or a status), and `clock n`
-- is what the n-th call of `time()` reads, in milliseconds. The two `while` loops that nothing but
-- the outside world ends take fuel. A `set` of events is a list in the order in which the set is
-- probed.
pub mod Waiting
pub mod Remaining
pub mod Requested
pub mod DocEvents
pub mod IdleEvents
use couchbase_lite_tests.Prelude.{
  ℕ, zero, suc, ◌+◌, ◌≡◌, Bool, true, false, not, Option, none, some, List, [], ◌∷◌, ◌++◌, String,
  ◌==◌, string_eq, if◌then◌else◌, ltb, leb, drop, length, ◌||◌,
}
use couchbase_lite_tests.Prelude.Result.{
  Error, Result, ok, err, assertion_error, attribute_error, cbl_test_error, cbl_timeout_error,
}
use couchbase_lite_tests.Errors.{ErrorResponseBody}
use couchbase_lite_tests.ReplicatorTypes.{
  ReplicatorType, push_and_pull, ReplicatorCollectionEntry, collection_entry,
  ReplicatorActivityLevel, stopped, idle, activity_beq,
}
use couchbase_lite_tests.ReplicatorTypes.Entries.{
  ReplicatorDocumentEntry, ReplicatorProgress, ReplicatorStatusBody,
}
use couchbase_lite_tests.ReplicatorTypes.Events.{
  WaitForDocumentEventEntry, event_eq, entry_of, entry_without_error,
}

-- The part of the object that its methods read or change, and how often the server and the clock
-- were asked.
pub record Replicator : Type 0 where
  pub id : String
  pub document_updates : List ReplicatorDocumentEntry
  pub continuous : Bool
  pub enable_document_listener : Bool
  pub collections : List ReplicatorCollectionEntry
  pub polls : ℕ
  pub readings : ℕ

-- `__init__`
abbrev pub new_replicator : Bool → Bool → List ReplicatorCollectionEntry → Replicator
new_replicator continuous enable_document_listener collections = record {
  id = "";
  document_updates = [];
  continuous = continuous;
  enable_document_listener = enable_document_listener;
  collections = collections;
  polls = 0;
  readings = 0;
}

abbrev pub is_started : Replicator → Bool
is_started r = not (r.id == "")

unfoldable pub clear_document_updates : Replicator → Replicator
clear_document_updates r = record r { document_updates = [] }

-- What the server answers to `startReplicator`: an error, or the identity of the replicator.
pub data StartAnswer : Type 0 where
  start_error : ErrorResponseBody → StartAnswer
  replicator_id : String → StartAnswer

abbrev take_id : StartAnswer → Replicator → Replicator
take_id (start_error _) r = r
take_id (replicator_id new) r = record r { id = new }

-- A refused start is logged, and returns as a start does.
unfoldable pub start : Result StartAnswer → Replicator → Result (Unit {0}) × Replicator
start (err e) r = (err e, r)
start (ok response) r = (ok tt, take_id response r)

pub record ReplicatorStatus : Type 0 where
  pub progress : ReplicatorProgress
  pub activity : ReplicatorActivityLevel
  pub error : Option ErrorResponseBody

-- How a waiting method ends; `unfinished` where the fuel ran out.
pub data Outcome (A : Type 0) : Type 0 where
  returned : A → Outcome A
  raised : Error → Outcome A
  unfinished : Outcome A

-- `if entry in events: events.remove(entry)`
unfoldable pub remove_entry :
    WaitForDocumentEventEntry → List WaitForDocumentEventEntry → List WaitForDocumentEventEntry
remove_entry entry [] = []
remove_entry entry (e ∷ events) =
    let rest = remove_entry entry events in if event_eq entry e then events else e ∷ rest

-- The inner `for` loop: the events that are still waited for after some updates.
unfoldable pub remaining :
    List WaitForDocumentEventEntry → List ReplicatorDocumentEntry → List WaitForDocumentEventEntry
unfolding remove_entry
remaining events [] = events
remaining events (u ∷ updates) = remaining (remove_entry (entry_of u) events) updates

unfoldable pub is_in : WaitForDocumentEventEntry → List WaitForDocumentEventEntry → Bool
is_in entry [] = false
is_in entry (e ∷ events) = event_eq entry e || is_in entry events

-- The inner `for` loop of `wait_for_any_doc_event`, which returns the first entry that fits.
unfoldable pub first_event :
    List WaitForDocumentEventEntry → List ReplicatorDocumentEntry → Option WaitForDocumentEventEntry
unfolding is_in
first_event events [] = none
first_event events (u ∷ updates) =
    let rest = first_event events updates in
    if is_in (entry_without_error u) events then some (entry_without_error u) else rest

abbrev pub is_empty {ℓ} : {A : Type ℓ} → List A → Bool
is_empty [] = true
is_empty (x ∷ xs) = false

-- `time()`
abbrev pub after_reading : Replicator → Replicator
after_reading r = record r { readings = r.readings + 1 }

module _ (answer : ℕ → Result (Option ReplicatorStatusBody)) (clock : ℕ → ℕ) where
  abbrev status_of : ReplicatorStatusBody → ReplicatorStatus
  status_of body = record {
    progress = body.progress;
    activity = body.activity;
    error = body.replicator_error;
  }

  abbrev take_status :
      Result (Option ReplicatorStatusBody) → Replicator → Result ReplicatorStatus × Replicator
  take_status (err e) r = (err e, r)
  take_status (ok none) r = (err attribute_error, r)
  take_status (ok (some body)) r =
      (ok (status_of body), record r { document_updates = r.document_updates ++ body.documents })

  unfoldable pub get_status : Replicator → Result ReplicatorStatus × Replicator
  get_status r =
      if is_started r
      then take_status (answer r.polls) (record r { polls = r.polls + 1 })
      else (err cbl_test_error, r)

  -- The `while` loop of `wait_for`; times are in milliseconds.
  unfoldable pub wait_loop :
      ℕ → ReplicatorActivityLevel → ℕ → Replicator → Outcome ReplicatorStatus × Replicator
  wait_loop zero activity deadline r = (unfinished, r)
  wait_loop (suc fuel) activity deadline r = elim (ltb deadline (clock r.readings)) [
    | true ↦ (raised cbl_timeout_error, after_reading r)
    | false ↦
        let (result, next) = get_status (after_reading r) in
        elim result [
          | err e ↦ (raised e, next)
          | ok status ↦ elim (activity_beq status.activity activity) [
            | true ↦ (returned status, next)
            | false ↦ wait_loop fuel activity deadline next
          ]
        ]
  ]

  unfoldable pub wait_for :
      ℕ
      → ReplicatorActivityLevel
      → (interval timeout : ℕ) → Replicator
      → Outcome ReplicatorStatus × Replicator
  unfolding wait_loop get_status
  wait_for fuel activity interval timeout r =
      if not (ltb 0 interval)
      then (raised assertion_error, r)
      else if not (leb 1000 timeout)
      then (raised assertion_error, r)
      else wait_loop fuel activity (clock r.readings + timeout) (after_reading r)

  -- The `while True` loop of `wait_for_doc_events`.
  unfoldable pub doc_events_loop :
      ℕ → ℕ → List WaitForDocumentEventEntry → Replicator → Outcome Bool × Replicator
  doc_events_loop zero processed events r = (unfinished, r)
  doc_events_loop (suc fuel) processed events r =
      let (result, next) = get_status r in
      elim result [
        | err e ↦ (raised e, next)
        | ok status ↦ elim status.error [
          | some _ ↦ (raised assertion_error, next)
          | none ↦
              let unseen = drop processed next.document_updates in
              let left = remaining events unseen in
              elim (is_empty left) [
                | true ↦ (returned true, next)
                | false ↦ elim (activity_beq status.activity stopped) [
                  | true ↦ (returned false, next)
                  | false ↦ doc_events_loop fuel (processed + length unseen) left next
                ]
              ]
        ]
      ]

  unfoldable pub wait_for_doc_events :
      ℕ → List WaitForDocumentEventEntry → ℕ → Replicator → Outcome Bool × Replicator
  unfolding doc_events_loop get_status remaining
  wait_for_doc_events fuel events interval r =
      if not (ltb 0 interval)
      then (raised assertion_error, r)
      else if r.continuous
      then (raised assertion_error, r)
      else if not r.enable_document_listener
      then (raised assertion_error, r)
      else doc_events_loop fuel 0 events r

  module _ (fuel ping_interval idle_timeout : ℕ) where
    -- The loop of `wait_for_all_doc_events` over the retries that are left.
    unfoldable pub all_doc_events_loop :
        ℕ → ℕ → List WaitForDocumentEventEntry → Replicator → Outcome ReplicatorStatus × Replicator
    all_doc_events_loop zero processed events r = (raised cbl_timeout_error, r)
    all_doc_events_loop (suc retries) processed events r =
        let (result, next) = wait_for fuel idle ping_interval idle_timeout r in
        elim result [
          | unfinished ↦ (unfinished, next)
          | raised e ↦ (raised e, next)
          | returned status ↦ elim status.error [
            | some _ ↦ (raised assertion_error, next)
            | none ↦
                let unseen = drop processed next.document_updates in
                let left = remaining events unseen in
                elim (is_empty left) [
                  | true ↦ (returned status, next)
                  | false ↦ all_doc_events_loop retries (processed + length unseen) left next
                ]
          ]
        ]

    unfoldable pub wait_for_all_doc_events :
        List WaitForDocumentEventEntry → ℕ → Replicator → Outcome ReplicatorStatus × Replicator
    unfolding all_doc_events_loop wait_for remaining
    wait_for_all_doc_events events max_retries r =
        if not r.continuous
        then (raised assertion_error, r)
        else if not r.enable_document_listener
        then (raised assertion_error, r)
        else all_doc_events_loop max_retries 0 events r

    -- The loop of `wait_for_any_doc_event` over the retries that are left.
    unfoldable pub any_doc_event_loop :
        ℕ
        → ℕ
        → List WaitForDocumentEventEntry
        → Replicator
        → Outcome (Option WaitForDocumentEventEntry) × Replicator
    any_doc_event_loop zero processed events r = (returned none, r)
    any_doc_event_loop (suc retries) processed events r =
        let (result, next) = wait_for fuel idle ping_interval idle_timeout r in
        elim result [
          | unfinished ↦ (unfinished, next)
          | raised e ↦ (raised e, next)
          | returned status ↦ elim status.error [
            | some _ ↦ (raised assertion_error, next)
            | none ↦
                let unseen = drop processed next.document_updates in
                elim (first_event events unseen) [
                  | some entry ↦ (returned (some entry), next)
                  | none ↦ any_doc_event_loop retries (processed + length unseen) events next
                ]
          ]
        ]

    unfoldable pub wait_for_any_doc_event :
        List WaitForDocumentEventEntry
        → ℕ
        → Replicator
        → Outcome (Option WaitForDocumentEventEntry) × Replicator
    unfolding any_doc_event_loop wait_for first_event
    wait_for_any_doc_event events max_retries r =
        if not r.continuous
        then (raised assertion_error, r)
        else if not r.enable_document_listener
        then (raised assertion_error, r)
        else any_doc_event_loop max_retries 0 events r
