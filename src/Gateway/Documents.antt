-- ===== src/Gateway/Documents.antt =====
-- client/src/cbltest/api/syncgateway.py: the requests about documents: updating, upserting, deleting,
-- purging, getting and creating them.
use Prim.Native.String.{◌++◌ as str_append}
use couchbase_lite_tests.Prelude.{
  String, Option, none, some, List, [], ◌∷◌, map, if◌then◌else◌, string_eq, codes, contains, nat_eq,
}
use couchbase_lite_tests.Prelude.Dict.{Dict, insert, update}
use couchbase_lite_tests.Prelude.Result.{ok}
use couchbase_lite_tests.Json.{
  Value, str, arr, obj, nil, cons, end, field, of_list, of_dict, truthy,
}
use couchbase_lite_tests.ReplicatorTypes.Entries.{assert_dict}
use couchbase_lite_tests.SyncGateway.{RemoteDocument}
use couchbase_lite_tests.Gateway.{Request, Client, returns, ◌>>=◌, send_request, catching}
use couchbase_lite_tests.Gateway.Datasets.{keyspace_path, bulk_docs}
use couchbase_lite_tests.Gateway.Replies.{read_document, saved_document, replaced_rev}
use couchbase_lite_tests.Gateway.Entries.{
  DocumentUpdateEntry, id, rev, to_json, document_update_entry, revised_ids, rewrite_rows,
  response_rows,
}

-- What is sent for an update, when the document was found or not.
unfoldable pub merged_body : DocumentUpdateEntry → Option RemoteDocument → Dict Value
unfolding insert update rev id
merged_body u none = u.body
merged_body u (some doc) =
    let body = insert "_id" (str (id u)) (update doc.body u.body) in
    if truthy (rev u) then insert "_rev" (rev u) body else body

module _ (db scope collection : String) where
  abbrev pub keys_request : List Value → Request
  keys_request ids = record {
    method = "post";
    path = keyspace_path db scope collection "_all_docs";
    payload = some (obj (field "keys" (arr (of_list ids)) end));
    params = [];
  }

  -- The entries are changed in place; here the changed ones are the result.
  unfoldable pub rewrite_rev_ids : List DocumentUpdateEntry → Client (List DocumentUpdateEntry)
  unfolding rewrite_rows response_rows rev id
  rewrite_rev_ids updates = do
    response ← send_request (keys_request (revised_ids updates))
    rows ← returns (response_rows response)
    returns (rewrite_rows rows updates)

  unfoldable pub update_documents : List DocumentUpdateEntry → Client (List DocumentUpdateEntry)
  unfolding rewrite_rev_ids bulk_docs to_json
  update_documents updates = do
    changed ← rewrite_rev_ids updates
    response ← send_request (bulk_docs db scope collection (map to_json changed))
    returns (ok changed)

  abbrev pub document_request : (method doc_id : String) → Dict Value → Request
  document_request method doc_id params = record {
    method = method;
    path = keyspace_path db scope collection doc_id;
    payload = none;
    params = params;
  }

  unfoldable pub get_document : String → Client (Option RemoteDocument)
  unfolding read_document
  get_document doc_id = do
    response ← send_request (document_request "get" doc_id [])
    returns (read_document response)

  unfoldable pub merge_updates : List DocumentUpdateEntry → Client (List DocumentUpdateEntry)
  unfolding get_document merged_body document_update_entry id rev
  merge_updates [] = returns (ok [])
  merge_updates (u ∷ updates) = do
    body ←
        catching (do doc ← get_document (id u); returns (ok (merged_body u doc)))
          (λ raised. returns (ok u.body))
    merged ← merge_updates updates
    returns (ok (document_update_entry (id u) (rev u) body ∷ merged))

  unfoldable pub upsert_documents : List DocumentUpdateEntry → Client (List DocumentUpdateEntry)
  unfolding merge_updates update_documents
  upsert_documents updates = do merged ← merge_updates updates; update_documents merged

  -- The revision that replaces a version vector.
  unfoldable pub replaced_revid : (doc_id revid : String) → Client Value
  unfolding replaced_rev
  replaced_revid doc_id revid = do
    response ← send_request (document_request "get" (str_append doc_id "?show_cv=true") [])
    d ← returns (assert_dict response)
    returns (replaced_rev revid d)

  unfoldable pub delete_document : (doc_id revid : String) → Client (Unit {0})
  unfolding replaced_revid
  delete_document doc_id revid = do
    new_rev_id ←
        if contains (codes revid) b'@'
        then replaced_revid doc_id revid
        else returns (ok (str revid))
    response ← send_request (document_request "delete" doc_id (("rev", new_rev_id) ∷ []))
    returns (ok tt)

  unfoldable pub purge_document : String → Client (Unit {0})
  purge_document doc_id = do
    response ← send_request (record {
      method = "post";
      path = keyspace_path db scope collection "_purge";
      payload = some (obj (field doc_id (arr (cons (str "*") nil)) end));
      params = [];
    })
    returns (ok tt)

  abbrev put_request : String → Dict Value → Dict Value → Request
  put_request doc_id body params = record {
    method = "put";
    path = keyspace_path db scope collection doc_id;
    payload = some (obj (of_dict body));
    params = params;
  }

  unfoldable pub create_document : String → Dict Value → Client RemoteDocument
  unfolding insert saved_document
  create_document doc_id document = do
    response ← send_request (put_request doc_id (insert "_id" (str doc_id) document) [])
    returns (saved_document response)

  unfoldable pub update_document : String → Dict Value → String → Client RemoteDocument
  unfolding insert saved_document
  update_document doc_id document revision = do
    response ← send_request (
        put_request doc_id (insert "_rev" (str revision) (insert "_id" (str doc_id) document))
          (("new_edits", str "true") ∷ ("rev", str revision) ∷ []))
    returns (saved_document response)
