-- ===== src/Tests/Gateways.antt =====
-- The client of Sync Gateway at concrete servers.
use couchbase_lite_tests.Prelude.{
  All, ◌≡◌, refl, ℕ, true, false, String, none, some, List, [], ◌∷◌, ◌++◌, pos, map, string_eq,
}
use couchbase_lite_tests.Prelude.Result.{Result, ok, err, exception}
use couchbase_lite_tests.Json.{Value, null, str, int, arr, obj, nil, cons, end, field}
use couchbase_lite_tests.SyncGateway.{remote_document}
use couchbase_lite_tests.Gateway.{
  Request, Server, Response, json, run, read_response, sent, requests,
}
use couchbase_lite_tests.Gateway.Datasets.{
  Line, document, load_dataset, analyze_dataset_response, bulk_docs,
}
use couchbase_lite_tests.Gateway.Batches.{inserts, Delivers, delivered, IsNamed}
use couchbase_lite_tests.Gateway.Loaded.{load_dataset-Delivers, load_dataset-accepted, IsAccepted}
use couchbase_lite_tests.Gateway.Entries.{DocumentUpdateEntry, id, revised_ids, to_json}
use couchbase_lite_tests.Gateway.Documents.{update_documents, upsert_documents, keys_request}
use couchbase_lite_tests.Gateway.Replies.{read_document}
use couchbase_lite_tests.Gateway.Rewriting.{revised}
use couchbase_lite_tests.Gateway.Updates.{update_documents-ok, HasRows}
use couchbase_lite_tests.Gateway.Upserts.{AreMerged, after_gets, gets, upsert_documents-ok}
use couchbase_lite_tests.Gateway.Polls.{
  get_request, wait_for_isgr_status, status_path, delete_database, delete_request,
}
use couchbase_lite_tests.Gateway.Polling.{wait_for_isgr_status-ok, Waited}
use couchbase_lite_tests.Gateway.Users.{
  reset_user, user_path, with_payload, user_body, default_access,
}
use couchbase_lite_tests.Gateway.Resets.{
  Deletes, delete_database-Deletes, Resets, reset_user-Resets,
}

-- A server that gives these answers, one after the other.
abbrev pub scripted : Server (List (Result Response))
scripted q [] = (err exception, [])
scripted q (o ∷ os) = (o, os)

abbrev pub good : Value → Result Response
good v = ok (record { status = pos 200; is_ok = true; content = json v })

abbrev bad : ℕ → Result Response
bad code = ok (record { status = pos code; is_ok = false; content = json (obj end) })

abbrev dataset : List Line
dataset =
    document (some "travel") (some "airlines") (obj (field "n" (int (pos 1)) end))
    ∷ document (some "travel") (some "airlines") (obj (field "n" (int (pos 2)) end))
    ∷ document (some "travel") (some "hotels") (obj (field "n" (int (pos 3)) end))
    ∷ []

dataset-IsNamed : All IsNamed dataset
dataset-IsNamed = (((λ h. cc), λ h. cc), (((λ h. cc), λ h. cc), (((λ h. cc), λ h. cc), tt)))

-- The second of the two requests is refused.
load_dataset-Delivers_example :
    Delivers
      (inserts "db" dataset)
      (run scripted (good (arr nil) ∷ bad 503 ∷ []) (load_dataset "db" dataset))
load_dataset-Delivers_example =
    load_dataset-Delivers scripted "db" dataset (good (arr nil) ∷ bad 503 ∷ []) dataset-IsNamed

abbrev accepting : Server (Unit {0})
accepting q s = (good (arr nil), s)

accepting-IsAccepted : (s : Unit {0}) (q : Request) → IsAccepted accepting s q
unfolding read_response analyze_dataset_response
accepting-IsAccepted s q = (arr nil, refl, refl)

load_dataset-accepted_example :
    ((run accepting tt (load_dataset "db" dataset)).result ≡ ok tt)
    × (delivered (requests (run accepting tt (load_dataset "db" dataset)).log)
        ≡ inserts "db" dataset)
load_dataset-accepted_example =
    load_dataset-accepted accepting accepting-IsAccepted "db" dataset tt (tt, (tt, (tt, tt)))
      dataset-IsNamed

-- The first document is there with a newer revision; the second is new.
abbrev two_updates : List DocumentUpdateEntry
two_updates =
    record { body = ("_id", str "a") ∷ ("n", int (pos 1)) ∷ ("_rev", str "1-x") ∷ [] }
    ∷ record { body = ("_id", str "b") ∷ [] }
    ∷ []

abbrev two_changed : List DocumentUpdateEntry
two_changed =
    record { body = ("_id", str "a") ∷ ("n", int (pos 1)) ∷ ("_rev", str "2-y") ∷ [] }
    ∷ record { body = ("_id", str "b") ∷ [] }
    ∷ []

abbrev row_of_a : Value
row_of_a = obj (field "id" (str "a") (field "value" (obj (field "rev" (str "2-y") end)) end))

abbrev update_answers : List (Result Response)
update_answers = good (obj (field "rows" (arr (cons row_of_a nil)) end)) ∷ good (arr nil) ∷ []

updates_run :
    (run scripted update_answers (update_documents "db" "s" "c" two_updates)).result
    ≡ ok two_changed
unfolding run update_documents read_response
updates_run = refl

update_documents-ok_example :
    (rows : List Value) × HasRows scripted "db" "s" "c" update_answers two_updates rows
    × (two_changed ≡ map (revised rows) two_updates)
    × ((run scripted update_answers (update_documents "db" "s" "c" two_updates)).log
        ≡ sent (keys_request "db" "s" "c" (revised_ids two_updates))
          ∷ sent (bulk_docs "db" "s" "c" (map to_json two_changed))
          ∷ [])
unfolding id
update_documents-ok_example =
    update_documents-ok scripted "db" "s" "c" update_answers two_updates two_changed
      (refl, (refl, tt)) updates_run

abbrev an_update : DocumentUpdateEntry
an_update = record { body = ("_id", str "a") ∷ ("_rev", str "1-x") ∷ ("n", int (pos 1)) ∷ [] }

abbrev upsert_answers : List (Result Response)
upsert_answers =
    good (obj (field "_id" (str "a") (field "_rev" (str "1-x") (field "m" (int (pos 7)) end))))
    ∷ good (obj (field "rows" (arr (cons row_of_a nil)) end))
    ∷ good null
    ∷ []

abbrev upserted : DocumentUpdateEntry
upserted = record {
  body = ("m", int (pos 7)) ∷ ("_id", str "a") ∷ ("_rev", str "2-y") ∷ ("n", int (pos 1)) ∷ [];
}

upserts_run :
    (run scripted upsert_answers (upsert_documents "db" "s" "c" (an_update ∷ []))).result
    ≡ ok (upserted ∷ [])
unfolding run upsert_documents read_response read_document remote_document
upserts_run = refl

upsert_documents-ok_example :
    (merged : List DocumentUpdateEntry) × (rows : List Value) × AreMerged scripted "db" "s" "c"
      (an_update ∷ [])
      upsert_answers
      merged
    × HasRows scripted "db" "s" "c"
        (after_gets scripted "db" "s" "c" (an_update ∷ []) upsert_answers)
        merged
        rows
    × ((upserted ∷ []) ≡ map (revised rows) merged)
    × ((run scripted upsert_answers (upsert_documents "db" "s" "c" (an_update ∷ []))).log
        ≡ gets scripted "db" "s" "c" (an_update ∷ [])
          ++ (sent (keys_request "db" "s" "c" (revised_ids merged))
              ∷ sent (bulk_docs "db" "s" "c" (map to_json (upserted ∷ [])))
              ∷ []))
unfolding id
upsert_documents-ok_example =
    upsert_documents-ok scripted "db" "s" "c" upsert_answers (an_update ∷ []) (upserted ∷ [])
      (refl, tt) ((refl, (refl, (refl, (refl, tt)))), tt) upserts_run

abbrev pub status_body : String → Value
status_body status = obj (field "status" (str status) end)

abbrev status_answers : List (Result Response)
status_answers = good (status_body "running") ∷ good (status_body "stopped") ∷ []

status_run :
    (run scripted status_answers (wait_for_isgr_status "db" "r" "stopped" 60 2)).result
    ≡ ok (("status", str "stopped") ∷ [])
unfolding run wait_for_isgr_status read_response
status_run = refl

wait_for_isgr_status-ok_example :
    Waited scripted status_answers
      (get_request (status_path "db" "r"))
      "stopped"
      60
      2
      (("status", str "stopped") ∷ [])
      (run scripted status_answers (wait_for_isgr_status "db" "r" "stopped" 60 2))
wait_for_isgr_status-ok_example =
    wait_for_isgr_status-ok scripted status_answers "db" "r" "stopped" 60 2
      (("status", str "stopped") ∷ []) status_run

delete_database-Deletes_example :
    Deletes scripted
      (delete_request "/db")
      3
      (bad 500 ∷ bad 404 ∷ [])
      (run scripted (bad 500 ∷ bad 404 ∷ []) (delete_database "db"))
delete_database-Deletes_example = delete_database-Deletes scripted "db" (bad 500 ∷ bad 404 ∷ [])

reset_user-Resets_example :
    Resets scripted
      (delete_request (user_path "db" "u"))
      (with_payload "put"
        (user_path "db" "u")
        (user_body "u" (some "p") (some (default_access ("c" ∷ []))) none))
      (bad 404 ∷ good null ∷ [])
      (run scripted (bad 404 ∷ good null ∷ []) (reset_user "db" "u" "p" ("c" ∷ [])))
reset_user-Resets_example =
    reset_user-Resets scripted "db" "u" "p" ("c" ∷ []) (bad 404 ∷ good null ∷ [])
