-- ===== src/Gateway/Polls.antt =====
-- client/src/cbltest/api/syncgateway.py: the loops that ask Sync Gateway again and again, with a pause
-- after each answer that does not settle the matter. Their loops are on the number of rounds left.
use Prim.Native.String.{◌++◌ as str_append}
use couchbase_lite_tests.Prelude.{
  ℕ, zero, suc, ◌/◌, Bool, true, false, ◌||◌, String, none, some, [], pos, if◌then◌else◌, ◌==◌,
  string_eq, nat_eq, int_eq,
}
use couchbase_lite_tests.Prelude.Dict.{Dict, lookup}
use couchbase_lite_tests.Prelude.Result.{
  Error, Result, ok, err, bad_response, exception, timeout_error, name_error, zero_division_error,
}
use couchbase_lite_tests.Json.{Value, null, str}
use couchbase_lite_tests.ReplicatorTypes.Entries.{assert_dict}
use couchbase_lite_tests.Gateway.{
  Request, Client, returns, ◌>>=◌, ◌>>◌, send_request, pause, catching,
}
use couchbase_lite_tests.Gateway.Entries.{equals_text}

-- What a round makes of an answer: the loop ends, or it goes on.
pub data Judgement (A : Type 0) : Type 0 where
  settled : Result A → Judgement A
  again : Judgement A

module _ {A : Type 0} (q : Request) (judge : Value → Judgement A) (wait : ℕ)
    (exhausted : Result A) where
  unfoldable pub poll : ℕ → Client A
  poll zero = returns exhausted
  poll (suc rounds) = do
    v ← send_request q
    elim (judge v) [ settled r ↦ returns r | again ↦ pause wait >> poll rounds ]

abbrev pub get_request : String → Request
get_request path = record { method = "get"; path = path; payload = none; params = [] }

-- `d.get(key, default)`
abbrev pub get : String → Value → Dict Value → Value
get key default d = elim (lookup key d) [ none ↦ default | some v ↦ v ]

-- A response that is asserted to be an object.
abbrev pub judge_dict : {A : Type 0} → (Dict Value → Judgement A) → Value → Judgement A
judge_dict judge response = elim (assert_dict response) [
  | err raised ↦ settled (err raised)
  | ok d ↦ judge d
]

abbrev collected : Dict Value → Judgement (Unit {0})
collected d =
    let status = get "status" null d in
    if equals_text status "stopped" || equals_text status "completed"
    then settled (ok tt)
    else again

-- The message of the exception names the last status, which is not there if there was no round.
unfoldable pub wait_for_sgcollect_to_complete : (max_attempts wait_time : ℕ) → Client (Unit {0})
unfolding poll lookup
wait_for_sgcollect_to_complete max_attempts wait_time =
    poll (get_request "/_sgcollect_info") (judge_dict collected) wait_time
      (if max_attempts == 0 then err name_error else err exception) max_attempts

unfoldable pub judge_status : String → Dict Value → Judgement (Dict Value)
unfolding lookup
judge_status target d =
    let status = get "status" (str "") d in
    if equals_text status target
    then settled (ok d)
    else if equals_text status "error"
    then settled (err exception)
    else again

abbrev pub status_path : (db replication_id : String) → String
status_path db replication_id =
    str_append "/" (str_append db (str_append "/_replicationStatus/" replication_id))

unfoldable pub wait_for_isgr_status :
    (db replication_id target : String) (timeout poll_interval : ℕ) → Client (Dict Value)
unfolding poll judge_status
wait_for_isgr_status db replication_id target timeout poll_interval =
    if poll_interval == 0
    then returns (err zero_division_error)
    else poll (get_request (status_path db replication_id)) (judge_dict (judge_status target))
        poll_interval (err timeout_error) (timeout / poll_interval)

abbrev pub is_code : ℕ → Error → Bool
is_code code (bad_response (some n)) = n == pos code
is_code code _ = false

abbrev pub delete_request : String → Request
delete_request path = record { method = "delete"; path = path; payload = none; params = [] }

abbrev delete : String → Client (Unit {0})
delete path = do response ← send_request (delete_request path); returns (ok tt)

-- A database that is not there is as good as deleted.
abbrev pub not_retried : Error → Result (Unit {0})
not_retried raised = if is_code 403 raised || is_code 404 raised then ok tt else err raised

-- `_delete_database` with so many retries left: `retry_count` goes up to 3.
unfoldable pub delete_retries : String → ℕ → Client (Unit {0})
delete_retries path zero = catching (delete path) (λ raised. returns (not_retried raised))
delete_retries path (suc left) = catching (delete path) (λ raised. elim (is_code 500 raised) [
  | true ↦ pause 2 >> delete_retries path left
  | false ↦ returns (not_retried raised)
])

unfoldable pub delete_database : String → Client (Unit {0})
unfolding delete_retries
delete_database db = delete_retries (str_append "/" db) 3
