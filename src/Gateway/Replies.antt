-- ===== src/Gateway/Replies.antt =====
-- client/src/cbltest/api/syncgateway.py: what is read from the responses about one document.
use couchbase_lite_tests.Prelude.{◌||◌, String, Option, none, some, pos, if◌then◌else◌}
use couchbase_lite_tests.Prelude.Dict.{Dict, lookup, has_key, insert, erase}
use couchbase_lite_tests.Prelude.Result.{
  Result, ok, err, guard, ◌>>=◌, ◌>>◌, bad_response, assertion_error, key_error, value_error,
}
use couchbase_lite_tests.Json.{Value, obj, to_dict}
use couchbase_lite_tests.SyncGateway.{RemoteDocument, remote_document}
use couchbase_lite_tests.Gateway.Entries.{equals_text}

-- `d[key]`
abbrev pub required_entry : String → Dict Value → Result Value
required_entry key d = elim (lookup key d) [ none ↦ err key_error | some v ↦ ok v ]

-- A document that Sync Gateway reports as missing or deleted is `None`.
abbrev pub missing_document : Value → Result (Option RemoteDocument)
missing_document reason =
    if equals_text reason "missing" || equals_text reason "deleted"
    then ok none
    else err (bad_response (some (pos 500)))

unfoldable pub read_document : Value → Result (Option RemoteDocument)
unfolding has_key lookup
read_document (obj fs) =
    let d = to_dict fs in
    if has_key "error" d
    then (do reason ← required_entry "reason" d; missing_document reason)
    else (do doc ← remote_document d; ok (some doc))
read_document _ = err value_error

-- `if old in d: d[new] = d.pop(old)`
abbrev pub rename_key : (old new : String) → Dict Value → Dict Value
rename_key old new d = elim (lookup old d) [ none ↦ d | some v ↦ insert new v (erase old d) ]

-- The response to a document that was put.
unfoldable pub saved_document : Value → Result RemoteDocument
unfolding has_key lookup insert erase
saved_document (obj fs) =
    if has_key "error" (to_dict fs)
    then err (bad_response (some (pos 500)))
    else remote_document
        (rename_key "cv" "_cv" (rename_key "rev" "_rev" (rename_key "id" "_id" (to_dict fs))))
saved_document _ = err (bad_response (some (pos 500)))

-- The revision of the document whose CV or revision was given.
unfoldable pub replaced_rev : String → Dict Value → Result Value
unfolding lookup
replaced_rev revid d = do
  cv ← required_entry "_cv" d
  rev ← required_entry "_rev" d
  guard (equals_text cv revid || equals_text rev revid) assertion_error
  ok rev
