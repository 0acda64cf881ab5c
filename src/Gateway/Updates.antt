-- ===== src/Gateway/Updates.antt =====
-- client/src/cbltest/api/syncgateway.py: the requests of `update_documents`, and what `upsert_documents`
-- makes of an update.
use couchbase_lite_tests.Prelude.{◌≡◌, refl, ap, sym, ◌∙◌, String, List, [], ◌∷◌, map, string_eq}
use couchbase_lite_tests.Prelude.Members.{Distinct}
use couchbase_lite_tests.Prelude.Result.{Result, ok, err}
use couchbase_lite_tests.Json.{Value}
use couchbase_lite_tests.Gateway.{
  Server, sent, Run, run, returns, Client, ◌>>=◌, read_response, returns-ok, >>=-assoc,
  send_request,
}
use couchbase_lite_tests.Gateway.Datasets.{bulk_docs}
use couchbase_lite_tests.Gateway.Entries.{
  DocumentUpdateEntry, id, to_json, revised_ids, rewrite_rows, response_rows,
}
use couchbase_lite_tests.Gateway.Documents.{rewrite_rev_ids, update_documents, keys_request}
use couchbase_lite_tests.Gateway.Rewriting.{revised, rewrite_rows-revised}

module _ {S : Type 0} (serve : Server S) (db scope collection : String) where
  -- The rows of the response to the request for the revisions.
  abbrev pub HasRows : S → List DocumentUpdateEntry → List Value → Type 0
  HasRows s us rows =
      (v : Value) × (read_response (serve (keys_request db scope collection (revised_ids us)) s).0
        ≡ ok v)
      × (response_rows v ≡ ok rows)

  abbrev post_changed : List DocumentUpdateEntry → Client (List DocumentUpdateEntry)
  post_changed changed = do
    response ← send_request (bulk_docs db scope collection (map to_json changed))
    returns (ok changed)

  -- The changed updates are posted.
  changed-posted :
      (t : S) (z : Result (List DocumentUpdateEntry)) (changed : List DocumentUpdateEntry)
      → (run serve t (returns z >>= post_changed)).result ≡ ok changed
      → (z ≡ ok changed)
        × ((run serve t (returns z >>= post_changed)).log
            ≡ sent (bulk_docs db scope collection (map to_json changed)) ∷ [])
  unfolding run
  changed-posted t (err e) changed h = cc
  changed-posted t (ok c) changed h =
      let (v, got, same) =
        returns-ok serve _
          (read_response (serve (bulk_docs db scope collection (map to_json c)) t).0)
          (λ response. returns (ok c)) h in
      let e : ok c ≡ ok changed =
        sym (ap (λ (r : Run S (List DocumentUpdateEntry)). r.result) same) ∙ h in
      let inner : c ≡ changed = cc in
      (
        e,
        rw same (
            ap
              (λ (cs : List DocumentUpdateEntry).
                sent (bulk_docs db scope collection (map to_json cs)) ∷ [])
              inner),
      )

  -- What comes after the response to the request for the revisions.
  answered :
      (t : S) (x : Result Value) (us changed : List DocumentUpdateEntry)
      → (run serve t (
          returns x >>= λ response. returns (response_rows response) >>= λ rows.
          returns (rewrite_rows rows us) >>= post_changed)).result
        ≡ ok changed
      → (v : Value) × (rows : List Value) × (x ≡ ok v)
        × (response_rows v ≡ ok rows)
        × (rewrite_rows rows us ≡ ok changed)
        × ((run serve t (
              returns x >>= λ response. returns (response_rows response) >>= λ rows.
              returns (rewrite_rows rows us) >>= post_changed)).log
            ≡ sent (bulk_docs db scope collection (map to_json changed)) ∷ [])
  answered t (err e) us changed h = unfold run in cc
  answered t (ok v) us changed h =
      let (rows, read, same) =
        returns-ok serve t (response_rows v)
          (λ rows. returns (rewrite_rows rows us) >>= post_changed) h in
      let (rewritten, posted) = changed-posted t (rewrite_rows rows us) changed (rw same at h) in
      (v, rows, refl, read, rewritten, rw same posted)

  abbrev steps : List DocumentUpdateEntry → Value → Client (List DocumentUpdateEntry)
  steps us response = do rows ← returns (response_rows response); returns (rewrite_rows rows us)

  flat :
      (us : List DocumentUpdateEntry) (x : Result Value)
      → ((returns x >>= steps us) >>= post_changed) ≡ (
          returns x >>= λ response. returns (response_rows response) >>= λ rows.
          returns (rewrite_rows rows us) >>= post_changed)
  flat us (err e) = refl
  flat us (ok v) =
      >>=-assoc (returns (response_rows v)) (λ rows. returns (rewrite_rows rows us)) post_changed

  -- If `update_documents` raises nothing, it has sent two requests: the first asks for the revisions of
  -- the updates that have one, and the second posts the updates, each unchanged but for its revision,
  -- which is the one that the rows of the first response have for its document, where they have it. The
  -- IDs of the updates are taken to be all different.
  pub update_documents-ok :
      (s : S) (us changed : List DocumentUpdateEntry)
      → Distinct (map id us)
      → (run serve s (update_documents db scope collection us)).result ≡ ok changed
      → (rows : List Value) × HasRows s us rows
        × (changed ≡ map (revised rows) us)
        × ((run serve s (update_documents db scope collection us)).log
            ≡ sent (keys_request db scope collection (revised_ids us))
              ∷ sent (bulk_docs db scope collection (map to_json changed))
              ∷ [])
  unfolding update_documents rewrite_rev_ids run
  update_documents-ok s us changed distinct h =
      let q = keys_request db scope collection (revised_ids us) in
      let (v, rows, got, read, rewritten, posted) =
        answered (serve q s).1 (read_response (serve q s).0) us changed
          (rw (flat us (read_response (serve q s).0)) at h) in
      (
        rows,
        (v, got, read),
        rewrite_rows-revised rows us changed distinct rewritten,
        ap (◌∷◌ (sent q)) (rw (flat us (read_response (serve q s).0)) posted),
      )
