-- ===== src/Gateway/Entries.antt =====
-- client/src/cbltest/api/syncgateway.py: the updates of documents, and the revisions that are looked up
-- for them.
use couchbase_lite_tests.Prelude.{
  Bool, false, ◌||◌, String, Option, none, some, List, [], ◌∷◌, if◌then◌else◌, ◌==◌, string_eq,
}
use couchbase_lite_tests.Prelude.Dict.{Dict, lookup, insert}
use couchbase_lite_tests.Prelude.Result.{
  Result, ok, err, guard, ◌>>=◌, ◌>>◌, assertion_error, key_error, type_error, value_error,
}
use couchbase_lite_tests.Json.{Value, null, str, arr, obj, to_list, to_dict, of_dict, truthy}
use couchbase_lite_tests.ReplicatorTypes.Entries.{get_or_null}

-- The entry's `__body`.
pub record DocumentUpdateEntry : Type 0 where
  pub body : Dict Value

-- The constructor stores a text at `_id`.
abbrev text_of : Option Value → String
text_of (some (str s)) = s
text_of _ = ""

unfoldable pub id : DocumentUpdateEntry → String
unfolding lookup
id u = text_of (lookup "_id" u.body)

-- `None` is `null`.
unfoldable pub rev : DocumentUpdateEntry → Value
unfolding get_or_null
rev u = get_or_null "_rev" u.body

unfoldable pub swap_rev : Value → DocumentUpdateEntry → DocumentUpdateEntry
unfolding insert
swap_rev revid u = record { body = insert "_rev" revid u.body }

unfoldable pub document_update_entry : String → Value → Dict Value → DocumentUpdateEntry
unfolding insert swap_rev
document_update_entry doc_id revid body =
    let entry : DocumentUpdateEntry = record { body = insert "_id" (str doc_id) body } in
    if truthy revid then swap_rev revid entry else entry

unfoldable pub to_json : DocumentUpdateEntry → Value
to_json u = obj (of_dict u.body)

-- `value[key]` of what `loads` gave, by a text.
unfoldable pub row_item : String → Value → Result Value
unfolding lookup
row_item key (obj fs) = elim (lookup key (to_dict fs)) [ none ↦ err key_error | some v ↦ ok v ]
row_item key _ = err type_error

abbrev pub equals_text : Value → String → Bool
equals_text (str s) t = s == t
equals_text _ t = false

-- The IDs of the updates that have a revision.
abbrev pub revised_ids : List DocumentUpdateEntry → List Value
revised_ids [] = []
revised_ids (u ∷ us) = elim (rev u) [ null ↦ revised_ids us | v ↦ str (id u) ∷ revised_ids us ]

-- `next` finds an entry with the ID.
abbrev pub has_update : Value → List DocumentUpdateEntry → Bool
has_update next_id [] = false
has_update next_id (u ∷ us) = equals_text next_id (id u) || has_update next_id us

-- The entry that `next` finds, the first with the ID, gets the revision.
unfoldable pub swap_first : Value → Value → List DocumentUpdateEntry → List DocumentUpdateEntry
unfolding id swap_rev
swap_first next_id new_rev [] = []
swap_first next_id new_rev (u ∷ us) =
    let rest = swap_first next_id new_rev us in
    if equals_text next_id (id u) then swap_rev new_rev u ∷ us else u ∷ rest

-- The loop over the rows of the response.
unfoldable pub rewrite_rows :
    List Value → List DocumentUpdateEntry → Result (List DocumentUpdateEntry)
unfolding swap_first row_item id
rewrite_rows [] updates = ok updates
rewrite_rows (r ∷ rows) updates = do
  next_id ← row_item "id" r
  guard (has_update next_id updates) assertion_error
  value ← row_item "value" r
  new_rev ← row_item "rev" value
  rewrite_rows rows (swap_first next_id new_rev updates)

-- The checks of the response.
unfoldable pub response_rows : Value → Result (List Value)
unfolding row_item lookup
response_rows (obj fs) = elim (lookup "rows" (to_dict fs)) [
  | none ↦ err key_error
  | some (arr rows) ↦ ok (to_list rows)
  | some _ ↦ err value_error
]
response_rows _ = err value_error
