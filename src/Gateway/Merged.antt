-- ===== src/Gateway/Merged.antt =====
-- client/src/cbltest/api/syncgateway.py: what `upsert_documents` makes of an update.
use couchbase_lite_tests.Prelude.{◌≡◌, true, String, Option, none, some, arith, eq_iff, string_eq}
use couchbase_lite_tests.Prelude.Dict.{Dict, keys, lookup, insert, update, lookup-insert}
use couchbase_lite_tests.Prelude.Members.{Distinct, lookup-update}
use couchbase_lite_tests.Prelude.Result.{Result, ok, err}
use couchbase_lite_tests.Json.{Value, str, truthy}
use couchbase_lite_tests.ReplicatorTypes.Entries.{get_or_null}
use couchbase_lite_tests.SyncGateway.{RemoteDocument}
use couchbase_lite_tests.Gateway.Entries.{DocumentUpdateEntry, id, rev, document_update_entry}
use couchbase_lite_tests.Gateway.Documents.{merged_body}

-- A `dict` with a text for its ID.
abbrev pub IsEntry : DocumentUpdateEntry → Type 0
IsEntry u = (lookup "_id" u.body ≡ some (str (id u))) × Distinct (keys u.body)

or_else : Option Value → Option Value → Option Value
or_else none other = other
or_else (some v) other = some v

rev-shown : (u : DocumentUpdateEntry) → truthy (rev u) ≡ true → lookup "_rev" u.body ≡ some (rev u)
unfolding rev get_or_null
rev-shown u h = ground arith

lookup-upserted :
    (u : DocumentUpdateEntry) (doc : RemoteDocument) (key : String)
    → IsEntry u
    → lookup key (document_update_entry (id u) (rev u) (merged_body u (some doc))).body
      ≡ elim (lookup key u.body) [ none ↦ lookup key doc.body | some v ↦ some v ]
unfolding document_update_entry merged_body
lookup-upserted u doc key (has_its_id, distinct) =
    let merged = update doc.body u.body in
    let found = lookup-update key doc.body u.body distinct in
    let with_id = insert "_id" (str (id u)) merged in
    let with_rev = insert "_rev" (rev u) with_id in
    ground (
      arith,
      found,
      has_its_id,
      rev-shown u,
      eq_iff "_id" key,
      eq_iff "_rev" key,
      lookup-insert key "_id" (str (id u)) merged,
      lookup-insert key "_rev" (rev u) with_id,
      lookup-insert key "_id" (str (id u)) with_id,
      lookup-insert key "_id" (str (id u)) with_rev,
      lookup-insert key "_rev" (rev u) (insert "_id" (str (id u)) with_id),
      lookup-insert key "_rev" (rev u) (insert "_id" (str (id u)) with_rev),
    )

lookup-plain :
    (u : DocumentUpdateEntry) (key : String)
    → IsEntry u
    → lookup key (document_update_entry (id u) (rev u) u.body).body ≡ lookup key u.body
unfolding document_update_entry
lookup-plain u key (has_its_id, distinct) =
    let with_id = insert "_id" (str (id u)) u.body in
    ground (
      arith,
      has_its_id,
      rev-shown u,
      eq_iff "_id" key,
      eq_iff "_rev" key,
      lookup-insert key "_id" (str (id u)) u.body,
      lookup-insert key "_rev" (rev u) with_id,
    )

-- What an update becomes, by what `get_document` returned or raised.
abbrev pub body_from : DocumentUpdateEntry → Result (Option RemoteDocument) → Dict Value
body_from u (err raised) = u.body
body_from u (ok doc) = merged_body u doc

abbrev pub merged_entry : DocumentUpdateEntry → Result (Option RemoteDocument) → DocumentUpdateEntry
merged_entry u found = document_update_entry (id u) (rev u) (body_from u found)

-- Where there is a document, the entry has the update's value under each key of the update, and the
-- document's under any other. Where there is none, or it could not be read, the entry is the update's.
abbrev pub IsMerged :
    DocumentUpdateEntry → Result (Option RemoteDocument) → DocumentUpdateEntry → Type 0
IsMerged u (ok (some doc)) m =
    (key : String)
    → lookup key m.body ≡ elim (lookup key u.body) [ none ↦ lookup key doc.body | some v ↦ some v ]
IsMerged u _ m = (key : String) → lookup key m.body ≡ lookup key u.body

pub merged_entry-IsMerged :
    (u : DocumentUpdateEntry) (found : Result (Option RemoteDocument))
    → IsEntry u
    → IsMerged u found (merged_entry u found)
merged_entry-IsMerged u (err raised) entry = λ key. lookup-plain u key entry
merged_entry-IsMerged u (ok none) entry = λ key. unfold merged_body in (lookup-plain u key entry)
merged_entry-IsMerged u (ok (some doc)) entry = λ key. lookup-upserted u doc key entry

pub IsMerged-shown :
    (u : DocumentUpdateEntry) (found : Result (Option RemoteDocument)) (m : DocumentUpdateEntry)
    → lookup "_id" u.body ≡ some (str (id u))
    → IsMerged u found m
    → lookup "_id" m.body ≡ lookup "_id" u.body
IsMerged-shown u (err raised) m shown h = h "_id"
IsMerged-shown u (ok none) m shown h = h "_id"
IsMerged-shown u (ok (some doc)) m shown h = ground (arith, shown, h "_id")
