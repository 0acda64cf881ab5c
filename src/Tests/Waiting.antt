-- ===== src/Tests/Waiting.antt =====
-- A replicator of a server that answers twice, and the loops that wait for it.
use native.Mathlib.Omega.{arith}
use couchbase_lite_tests.Prelude.{
  ℕ, zero, suc, ◌≡◌, ◌≢◌, ◌⊎◌, refl, true, false, List, [], ◌∷◌, Option, none, some, string_eq,
  nat_eq, int_eq,
}
use couchbase_lite_tests.Prelude.Result.{Result, ok}
use couchbase_lite_tests.Json.{null, str}
use couchbase_lite_tests.Errors.{ErrorResponseBody}
use couchbase_lite_tests.ReplicatorTypes.{ReplicatorActivityLevel, stopped, idle, busy}
use couchbase_lite_tests.ReplicatorTypes.Flags.{no_flags}
use couchbase_lite_tests.ReplicatorTypes.Entries.{ReplicatorDocumentEntry, ReplicatorStatusBody}
use couchbase_lite_tests.ReplicatorTypes.Events.{
  WaitForDocumentEventEntry, entry_of, entry_without_error, event_eq,
}
use couchbase_lite_tests.Replicator.{
  Replicator, new_replicator, ReplicatorStatus, returned, wait_for, wait_for_doc_events,
  wait_for_all_doc_events, wait_for_any_doc_event, remaining,
}
use couchbase_lite_tests.Replicator.Requested.{IsFirst}
use couchbase_lite_tests.Replicator.Waiting.{IsClock, is_finished, wait_for_finishes}
use couchbase_lite_tests.Replicator.Remaining.{AllSeen}
use couchbase_lite_tests.Replicator.DocEvents.{
  reference_loop, wait_for_doc_events-eq-reference, wait_for_doc_events-result,
}
use couchbase_lite_tests.Replicator.IdleEvents.{
  wait_for_all_doc_events-result, wait_for_any_doc_event-result,
}

abbrev post_1 : ReplicatorDocumentEntry
post_1 = record {
  collection = "_default.posts";
  document_id = "post_1";
  is_push = true;
  flags = no_flags;
  error = none;
}

abbrev post_2 : ReplicatorDocumentEntry
post_2 = record post_1 { document_id = "post_2" }

abbrev body_of : ReplicatorActivityLevel → List ReplicatorDocumentEntry → ReplicatorStatusBody
body_of level documents = record {
  activity = level;
  progress = record { completed = false };
  replicator_error = none;
  documents = documents;
}

-- The first answer brings one document, all later ones the other one.
abbrev answers : ReplicatorActivityLevel → ℕ → Result (Option ReplicatorStatusBody)
answers last zero = ok (some (body_of busy (post_1 ∷ [])))
answers last (suc n) = ok (some (body_of last (post_2 ∷ [])))

abbrev tick : ℕ → ℕ
tick n = n

tick-IsClock : IsClock tick
tick-IsClock = record { forwards = λ n. omega arith; sleeps = λ n. omega arith }

abbrev events : List WaitForDocumentEventEntry
events = entry_of post_2 ∷ entry_of post_1 ∷ []

abbrev once : Replicator
once = record (new_replicator false true []) { id = "r1" }

abbrev forever : Replicator
forever = record (new_replicator true true []) { id = "r1" }

abbrev refused : ErrorResponseBody
refused = record { domain = str "CBL"; code = null; message = str "refused" }

wait_for_doc_events-eq-reference_example :
    wait_for_doc_events (answers stopped) tick 3 events 500 once
    ≡ reference_loop (answers stopped) tick 3 events once
wait_for_doc_events-eq-reference_example =
    wait_for_doc_events-eq-reference (answers stopped) tick 3 500 events once (omega arith) refl
      refl

abbrev after_two : Replicator
after_two = record once { document_updates = post_1 ∷ post_2 ∷ []; polls = 2 }

both_seen :
    wait_for_doc_events (answers stopped) tick 3 events 500 once ≡ (returned true, after_two)
unfolding wait_for_doc_events entry_of event_eq
both_seen = refl

wait_for_doc_events-result_example :
    ((true ≡ true) × AllSeen events after_two.document_updates)
    ⊎ ((true ≡ false) × (remaining events after_two.document_updates ≢ []))
wait_for_doc_events-result_example =
    wait_for_doc_events-result (answers stopped) tick 3 500 events once after_two true both_seen

wait_for_finishes_example :
    is_finished (wait_for (answers busy) tick 3000 idle 1000 1000 forever).0 ≡ true
wait_for_finishes_example =
    wait_for_finishes (answers busy) tick tick-IsClock 3000 idle 1000 1000 forever (omega arith)

abbrev idle_status : ReplicatorStatus
idle_status = record { progress = record { completed = false }; activity = idle; error = none }

abbrev after_idle : Replicator
after_idle = record forever { document_updates = post_1 ∷ post_2 ∷ []; polls = 2; readings = 3 }

all_seen :
    wait_for_all_doc_events (answers idle) tick 3 1000 1000 events 2 forever
    ≡ (returned idle_status, after_idle)
unfolding wait_for_all_doc_events entry_of event_eq
all_seen = refl

wait_for_all_doc_events-result_example :
    AllSeen events after_idle.document_updates × (idle_status.activity ≡ idle)
wait_for_all_doc_events-result_example =
    wait_for_all_doc_events-result (answers idle) tick 3 1000 1000 2 events forever after_idle
      idle_status all_seen

any_seen :
    wait_for_any_doc_event (answers idle) tick 3 1000 1000 (entry_of post_2 ∷ []) 2 forever
    ≡ (returned (some (entry_without_error post_2)), after_idle)
unfolding wait_for_any_doc_event entry_of entry_without_error event_eq
any_seen = refl

wait_for_any_doc_event-result_example :
    IsFirst (entry_of post_2 ∷ []) after_idle.document_updates (some (entry_without_error post_2))
wait_for_any_doc_event-result_example =
    wait_for_any_doc_event-result (answers idle) tick 3 1000 1000 2 (entry_of post_2 ∷ []) forever
      after_idle (some (entry_without_error post_2)) (omega arith) any_seen
