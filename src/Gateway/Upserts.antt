-- ===== src/Gateway/Upserts.antt =====
-- client/src/cbltest/api/syncgateway.py: what `upsert_documents` makes of the updates and posts.
use mathlib.Core.List.{append-nil}
use couchbase_lite_tests.Prelude.{
  ◌≡◌, refl, ap, ◌∙◌, String, Option, List, [], ◌∷◌, ◌++◌, map, All, string_eq,
}
use couchbase_lite_tests.Prelude.Dict.{Dict}
use couchbase_lite_tests.Prelude.Members.{Distinct}
use couchbase_lite_tests.Prelude.Result.{Result, ok, err}
use couchbase_lite_tests.Json.{Value}
use couchbase_lite_tests.SyncGateway.{RemoteDocument}
use couchbase_lite_tests.Gateway.{
  Request, Server, Event, sent, Run, run, after, returns, ◌>>=◌, catching, read_response,
}
use couchbase_lite_tests.Gateway.Running.{
  appended, continued, with_result, go_on, result_or, run->>=, run-catching,
}
use couchbase_lite_tests.Gateway.Replies.{read_document}
use couchbase_lite_tests.Gateway.Datasets.{bulk_docs}
use couchbase_lite_tests.Gateway.Updates.{HasRows, update_documents-ok}
use couchbase_lite_tests.Gateway.Merged.{
  IsEntry, IsMerged, merged_entry, body_from, merged_entry-IsMerged, IsMerged-shown,
}
use couchbase_lite_tests.Gateway.Rewriting.{revised}
use couchbase_lite_tests.Gateway.Entries.{
  DocumentUpdateEntry, id, rev, to_json, revised_ids, document_update_entry,
}
use couchbase_lite_tests.Gateway.Documents.{
  merged_body, get_document, document_request, keys_request, merge_updates, update_documents,
  upsert_documents,
}

module _ {S : Type 0} (serve : Server S) (db scope collection : String) where
  -- The run of `get_document` for an update's document.
  abbrev pub got : S → DocumentUpdateEntry → Run S (Option RemoteDocument)
  got s u = run serve s (get_document db scope collection (id u))

  -- The server after each document was asked for.
  abbrev pub after_gets : List DocumentUpdateEntry → S → S
  after_gets [] s = s
  after_gets (u ∷ us) s = after_gets us (got s u).server

  abbrev pub gets : List DocumentUpdateEntry → List Event
  gets [] = []
  gets (u ∷ us) = sent (document_request db scope collection "get" (id u) []) ∷ gets us

  -- Each entry is its update, merged with the document that `get_document` returned in its turn.
  abbrev pub AreMerged : List DocumentUpdateEntry → S → List DocumentUpdateEntry → Type 0
  AreMerged [] s [] = Unit
  AreMerged (u ∷ us) s (m ∷ ms) = IsMerged u (got s u).result m × AreMerged us (got s u).server ms
  AreMerged _ s _ = ⊥

  abbrev all_merged : List DocumentUpdateEntry → S → List DocumentUpdateEntry
  all_merged [] s = []
  all_merged (u ∷ us) s = merged_entry u (got s u).result ∷ all_merged us (got s u).server

  all_merged-AreMerged :
      (us : List DocumentUpdateEntry) (s : S) → All IsEntry us → AreMerged us s (all_merged us s)
  all_merged-AreMerged [] s entries = tt
  all_merged-AreMerged (u ∷ us) s (entry, entries) = (
    merged_entry-IsMerged u (got s u).result entry,
    all_merged-AreMerged us (got s u).server entries,
  )

  ids-all_merged :
      (us : List DocumentUpdateEntry) (s : S)
      → All IsEntry us
      → map id (all_merged us s) ≡ map id us
  ids-all_merged [] s entries = refl
  ids-all_merged (u ∷ us) s (entry, entries) =
      let m = merged_entry u (got s u).result in
      let shown =
        IsMerged-shown u (got s u).result m entry.0
          (merged_entry-IsMerged u (got s u).result entry) in
      let same : id m ≡ id u = unfold id in (rw shown refl) in
      λ i. same i ∷ ids-all_merged us (got s u).server entries i

  -- `get_document` sends one request.
  log-got : (s : S) (u : DocumentUpdateEntry) → (got s u).log ≡ gets (u ∷ [])
  unfolding get_document run
  log-got s u = by_response (read_response (serve q s).0)
    where
      q : Request
      q = document_request db scope collection "get" (id u) []

      by_response :
          (x : Result Value)
          → (after (sent q) (
              run serve
                (serve q s).1
                (returns x >>= λ response. returns (read_document response)))).log
            ≡ sent q ∷ []
      by_response (err raised) = refl
      by_response (ok v) = refl

  -- The body of the loop over the updates.
  run-body :
      (s : S) (u : DocumentUpdateEntry)
      → run serve s (
          catching
            (get_document db scope collection (id u) >>= λ doc. returns (ok (merged_body u doc)))
            (λ raised. returns (ok u.body)))
        ≡ record {
          log = gets (u ∷ []);
          result = ok (body_from u (got s u).result);
          server = (got s u).server;
        }
  run-body s u =
      run-catching serve s
        (get_document db scope collection (id u) >>= λ doc. returns (ok (merged_body u doc))) u.body
      ∙ ap (λ (r : Run S (Dict Value)). with_result r (result_or serve u.body r.result))
          (run->>= serve s (get_document db scope collection (id u))
            (λ doc. returns (ok (merged_body u doc))))
      ∙ by_result (got s u).log (got s u).result (log-got s u)
    where
      by_result :
          (events : List Event) (x : Result (Option RemoteDocument))
          → events ≡ gets (u ∷ [])
          → (let r =
                go_on serve (λ doc. returns (ok (merged_body u doc))) events (got s u).server x in
              with_result r (result_or serve u.body r.result))
            ≡ record { log = gets (u ∷ []); result = ok (body_from u x); server = (got s u).server }
      by_result events (err raised) e = rw e refl
      by_result events (ok doc) e = unfold run in (rw e refl)

  -- The entry is put before the others.
  run-others :
      (us : List DocumentUpdateEntry) (t : S) (entry : DocumentUpdateEntry)
      → run serve t (merge_updates db scope collection us)
        ≡ record { log = gets us; result = ok (all_merged us t); server = after_gets us t }
      → run serve t
          (merge_updates db scope collection us >>= λ merged. returns (ok (entry ∷ merged)))
        ≡ record { log = gets us; result = ok (entry ∷ all_merged us t); server = after_gets us t }
  run-others us t entry h =
      let next = λ (merged : List DocumentUpdateEntry). returns (ok (entry ∷ merged)) in
      run->>= serve t (merge_updates db scope collection us) next
      ∙ ap (continued serve next) h
      ∙ unfold run in
        (ap
          (λ (events : List Event). record {
            log = events;
            result = ok (entry ∷ all_merged us t);
            server = after_gets us t;
          })
          (append-nil (gets us)))

  run-merge_updates :
      (us : List DocumentUpdateEntry) (s : S)
      → run serve s (merge_updates db scope collection us)
        ≡ record { log = gets us; result = ok (all_merged us s); server = after_gets us s }
  unfolding merge_updates
  run-merge_updates [] s = unfold run in refl
  run-merge_updates (u ∷ us) s =
      let next = λ (body : Dict Value). merge_updates db scope collection us >>= λ merged.
      returns (ok (document_update_entry (id u) (rev u) body ∷ merged)) in
      run->>= serve s
        (catching
          (get_document db scope collection (id u) >>= λ doc. returns (ok (merged_body u doc)))
          (λ raised. returns (ok u.body)))
        next
      ∙ ap (continued serve next) (run-body s u)
      ∙ ap (appended (gets (u ∷ []))) (
          run-others us (got s u).server (merged_entry u (got s u).result)
            (run-merge_updates us (got s u).server))

  -- The run of `upsert_documents` ends as that of `update_documents` for the merged entries.
  run-upsert_documents :
      (us : List DocumentUpdateEntry) (s : S)
      → run serve s (upsert_documents db scope collection us)
        ≡ appended
            (gets us)
            (run serve (after_gets us s) (update_documents db scope collection (all_merged us s)))
  unfolding upsert_documents
  run-upsert_documents us s =
      let next =
        λ (merged : List DocumentUpdateEntry). update_documents db scope collection merged in
      run->>= serve s (merge_updates db scope collection us) next
      ∙ ap (continued serve next) (run-merge_updates us s)

  -- If `upsert_documents` raises nothing, it has asked for each update's document, in order, then for the
  -- revisions, and has then posted an entry for each update. Up to the revision, which is the one that
  -- the rows have for the document, where they have it, the entry keeps the document that was there: it
  -- has the update's value under each key of the update, and the document's under any other; where there
  -- is no document, or it could not be read, it is the update. The updates are taken to be objects whose
  -- keys, and whose IDs among the updates, are all different.
  pub upsert_documents-ok :
      (s : S) (us changed : List DocumentUpdateEntry)
      → Distinct (map id us)
      → All IsEntry us
      → (run serve s (upsert_documents db scope collection us)).result ≡ ok changed
      → (merged : List DocumentUpdateEntry) × (rows : List Value) × AreMerged us s merged
        × HasRows serve db scope collection (after_gets us s) merged rows
        × (changed ≡ map (revised rows) merged)
        × ((run serve s (upsert_documents db scope collection us)).log
            ≡ gets us
              ++ (sent (keys_request db scope collection (revised_ids merged))
                  ∷ sent (bulk_docs db scope collection (map to_json changed))
                  ∷ []))
  upsert_documents-ok s us changed distinct entries h =
      let runs = run-upsert_documents us s in
      let merged = all_merged us s in
      let (rows, has_rows, same, logged) =
        update_documents-ok serve db scope collection (after_gets us s) merged changed
          (rw (ids-all_merged us s entries) distinct) (rw runs at h) in
      (
        merged,
        rows,
        all_merged-AreMerged us s entries,
        has_rows,
        same,
        rw runs (ap (λ (events : List Event). gets us ++ events) logged),
      )
