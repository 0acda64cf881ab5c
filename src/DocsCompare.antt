-- ===== src/DocsCompare.antt =====
-- client/src/cbltest/api/test_functions.py: do the documents of two sides agree?
--
-- Document identities are texts; a revision is the list of its characters, which the comparison looks
-- into. A message names its reason by a constructor.
pub mod Revisions
pub mod Same
pub mod Sides
pub mod Success
pub mod Ids
use couchbase_lite_tests.Prelude.{
  ℕ, suc, ◌+◌, ◌-◌, ◌≡◌, Bool, true, false, not, ◌&&◌, ◌||◌, Option, none, some, List, [], ◌∷◌,
  ◌++◌, String, ◌==◌, nat_eq, string_eq, text_eq, Text, codes, split, find_code, if◌then◌else◌, ltb,
  length, take, drop, contains, map,
}
use couchbase_lite_tests.Prelude.Dict.{Dict, lookup, insert, keys}
use couchbase_lite_tests.Prelude.Result.{
  Result, ok, err, assertion_error, key_error, ◌>>=◌, ◌>>◌, guard,
}
use couchbase_lite_tests.ReplicatorTypes.{ReplicatorType, push, pull, push_and_pull}

-- The `revid` and the `cv` of a document of Sync Gateway.
pub record SgRevision : Type 0 where
  pub revid : Option Text
  pub cv : Option Text

abbrev pub is_text : Text → Option Text → Bool
is_text s none = false
is_text s (some t) = s == t

-- `rev.endswith("@*")`
abbrev pub ends_in_star : Text → Bool
ends_in_star rev = if ltb (length rev) 2 then false else drop (length rev - 2) rev == codes "@*"

abbrev pub matches_cv : Text → Option Text → Bool
matches_cv cbl_rev none = false
matches_cv cbl_rev (some sg_cv) = elim (find_code b'@' sg_cv) [
  | none ↦ false
  | some i ↦ if ltb i 1 then false else take (length cbl_rev - 2) cbl_rev == take i sg_cv
]

unfoldable pub compare_revisions : Text → SgRevision → Bool
unfolding find_code
compare_revisions cbl_rev sg_rev =
    if not (ends_in_star cbl_rev)
    then is_text cbl_rev sg_rev.revid || is_text cbl_rev sg_rev.cv
    else matches_cv cbl_rev sg_rev.cv

-- A `DocsCompareResult`: a success, or the first difference.
pub data DocsCompareResult : Type 0 where
  same : DocsCompareResult
  counts_differ : (local remote : ℕ) → DocsCompareResult
  only_in_source : String → DocsCompareResult
  revisions_differ : String → DocsCompareResult

abbrev pub success : DocsCompareResult → Bool
success same = true
success _ = false

pub record AllDocumentsEntry : Type 0 where
  pub id : String
  pub rev : Text

pub record AllDocumentsResponseRow : Type 0 where
  pub key : String
  pub id : String
  pub revid : Option Text
  pub cv : Option Text

-- The two loops that fill `local_dict` and `remote_dict`.
unfoldable pub local_dict : Dict Text → List AllDocumentsEntry → Dict Text
unfolding insert
local_dict d [] = d
local_dict d (e ∷ entries) = local_dict (insert e.id e.rev d) entries

unfoldable pub remote_dict : Dict SgRevision → List AllDocumentsResponseRow → Dict SgRevision
unfolding insert
remote_dict d [] = d
remote_dict d (e ∷ rows) = remote_dict (insert e.id (record { revid = e.revid; cv = e.cv }) d) rows

-- The body of the loop over `source`. One of the two sides is `source` and has the identity.
abbrev pub compare_entry : String → Option Text → Option SgRevision → DocsCompareResult
compare_entry id (some rev) (some revision) =
    if compare_revisions rev revision then same else revisions_differ id
compare_entry id _ _ = only_in_source id

abbrev pub first_difference : DocsCompareResult → DocsCompareResult → DocsCompareResult
first_difference same rest = rest
first_difference result rest = result

unfoldable pub compare_ids : List String → Dict Text → Dict SgRevision → DocsCompareResult
unfolding lookup compare_revisions
compare_ids [] l r = same
compare_ids (id ∷ ids) l r =
    first_difference (compare_entry id (lookup id l) (lookup id r)) (compare_ids ids l r)

abbrev pub source_ids : ReplicatorType → Dict Text → Dict SgRevision → List String
source_ids push l r = keys l
source_ids _ l r = keys r

abbrev pub checks_counts : ReplicatorType → Bool
checks_counts push_and_pull = true
checks_counts _ = false

unfoldable pub compare_doc_results :
    List AllDocumentsEntry → List AllDocumentsResponseRow → ReplicatorType → DocsCompareResult
unfolding local_dict remote_dict compare_ids
compare_doc_results local remote mode =
    if checks_counts mode && not (length local == length remote)
    then counts_differ (length local) (length remote)
    else let l = local_dict [] local in
      let r = remote_dict [] remote in compare_ids (source_ids mode l r) l r

abbrev as_revid : String × Text → String × SgRevision
as_revid (id, rev) = (id, record { revid = some rev; cv = none })

unfoldable pub compare_doc_results_p2p : (local remote : List AllDocumentsEntry) → DocsCompareResult
unfolding local_dict compare_ids
compare_doc_results_p2p local remote =
    let l = local_dict [] local in compare_ids (keys l) l (map as_revid (local_dict [] remote))

-- `compare_doc_ids`: which side lacks a document of the other.
pub data IdsCompareResult : Type 0 where
  same_ids missing_on_remote missing_on_local : IdsCompareResult

-- Whether the set difference of two lists of identities has an element.
unfoldable pub has_extra : (ids others : List String) → Bool
has_extra [] others = false
has_extra (id ∷ ids) others = not (contains others id) || has_extra ids others

unfoldable pub compare_doc_ids :
    List AllDocumentsEntry → List AllDocumentsResponseRow → IdsCompareResult
unfolding has_extra
compare_doc_ids local remote =
    let local_ids = map (λ (e : AllDocumentsEntry). e.id) local in
    let remote_ids = map (λ (e : AllDocumentsResponseRow). e.id) remote in
    if has_extra local_ids remote_ids
    then missing_on_remote
    else if has_extra remote_ids local_ids
    then missing_on_local
    else same_ids

-- The entries whose identity was asked for; without a list of identities, all.
abbrev pub wanted : {A : Type 0} → (A → String) → Option (List String) → List A → List A
wanted id none entries = entries
wanted id (some doc_ids) [] = []
wanted id (some doc_ids) (e ∷ entries) =
    let rest = wanted id (some doc_ids) entries in
    if contains doc_ids (id e) then e ∷ rest else rest

-- The two sides that are asked for their documents: the Couchbase Lite database with all collections at
-- once, and Sync Gateway with the scope and the name of one collection.
module _ (lite_all_docs : Dict (List AllDocumentsEntry))
    (sg_all_docs : (scope collection : Text) → Result (List AllDocumentsResponseRow))
    (mode : ReplicatorType) (doc_ids : Option (List String)) where
  abbrev parts : List Text → Result (Text × Text)
  parts (scope ∷ collection ∷ []) = ok (scope, collection)
  parts _ = err assertion_error

  abbrev found : {A : Type 0} → Option A → Result A
  found none = err key_error
  found (some a) = ok a

  -- The body of the loop over the collections.
  unfoldable pub compare_collection : String → Result (Unit {0})
  unfolding split lookup compare_doc_results
  compare_collection collection = do
    (scope, name) ← parts (split b'.' (codes collection))
    rows ← sg_all_docs scope name
    docs ← found (lookup collection lite_all_docs)
    guard
        (success (
          compare_doc_results (wanted (λ (e : AllDocumentsEntry). e.id) doc_ids docs)
            (wanted (λ (e : AllDocumentsResponseRow). e.id) doc_ids rows) mode))
        assertion_error

  unfoldable pub compare_local_and_remote : List String → Result (Unit {0})
  unfolding compare_collection
  compare_local_and_remote [] = ok tt
  compare_local_and_remote (c ∷ collections) = do
    compare_collection c
    compare_local_and_remote collections
