-- ===== src/Tests/Compare.antt =====
-- Two sides that hold two documents each, and their comparison.
use couchbase_lite_tests.Prelude.{
  ◌≡◌, ◌⊎◌, false, refl, ◌↔◌, true, List, String, [], ◌∷◌, none, some, Text, codes, contains,
  nat_eq, string_eq, text_eq,
}
use couchbase_lite_tests.Prelude.Dict.{Dict}
use couchbase_lite_tests.Prelude.Result.{Result, ok}
use couchbase_lite_tests.ReplicatorTypes.{push, push_and_pull}
use couchbase_lite_tests.DocsCompare.{
  SgRevision, AllDocumentsEntry, AllDocumentsResponseRow, compare_revisions, success,
  compare_doc_results, compare_local_and_remote, local_dict, remote_dict,
}
use couchbase_lite_tests.DocsCompare.Same.{IsSame, compare_revisions_iff}
use couchbase_lite_tests.DocsCompare.Sides.{agrees, ids_of, local_ids_of}
use couchbase_lite_tests.DocsCompare.Success.{
  CountsAgree, IsReplicated, Agrees, compare_doc_results_iff, compare_doc_results-push_and_pull,
}

abbrev local : List AllDocumentsEntry
local = record { id = "a"; rev = codes "1-abc" } ∷ record { id = "b"; rev = codes "17f@*" } ∷ []

abbrev remote : List AllDocumentsResponseRow
remote =
    record { key = "b"; id = "b"; revid = some (codes "2-x"); cv = some (codes "17f@Q") }
    ∷ record { key = "a"; id = "a"; revid = some (codes "1-abc"); cv = none }
    ∷ []

same_documents : success (compare_doc_results local remote push_and_pull) ≡ true
unfolding compare_doc_results
same_documents = refl

compare_doc_results_iff_example : (success (compare_doc_results local remote push) ≡ true) ↔ (
    CountsAgree push local remote
    × ((id : String)
        → IsReplicated push local remote id
        → Agrees id (local_dict [] local) (remote_dict [] remote)))
compare_doc_results_iff_example = compare_doc_results_iff local remote push

compare_doc_results-push_and_pull_example :
    ((contains (local_ids_of local) "b" ≡ false) × (contains (ids_of remote) "b" ≡ false))
    ⊎ ((contains (local_ids_of local) "b" ≡ true)
        × (contains (ids_of remote) "b" ≡ true)
        × (agrees "b" (local_dict [] local) (remote_dict [] remote) ≡ true))
compare_doc_results-push_and_pull_example =
    compare_doc_results-push_and_pull local remote (refl, (refl, tt)) same_documents "b"

abbrev lite_documents : Dict (List AllDocumentsEntry)
lite_documents = ("_default.posts", local) ∷ []

abbrev sg_documents : Text → Text → Result (List AllDocumentsResponseRow)
sg_documents scope collection = ok remote

all_the_same :
    compare_local_and_remote lite_documents sg_documents push_and_pull none ("_default.posts" ∷ [])
    ≡ ok tt
unfolding compare_local_and_remote
all_the_same = refl

abbrev starred : SgRevision
starred = record { revid = none; cv = some (codes "17f@Q") }

compare_revisions_iff_example :
    (compare_revisions (codes "17f@*") starred ≡ true) ↔ IsSame (codes "17f@*") starred
compare_revisions_iff_example = compare_revisions_iff (codes "17f@*") starred
