-- ===== src/DocsCompare/Ids.antt =====
-- `compare_doc_ids`: what a result says of all documents.
use couchbase_lite_tests.Prelude.{
  ◌≡◌, refl, ◌↔◌, true, false, List, [], ◌∷◌, String, string_eq, arith, contains, All,
}
use couchbase_lite_tests.Prelude.Members.{All-of_contains, contains_of_All}
use couchbase_lite_tests.DocsCompare.{
  AllDocumentsEntry, AllDocumentsResponseRow, same_ids, has_extra, compare_doc_ids,
}
use couchbase_lite_tests.DocsCompare.Sides.{ids_of, local_ids_of}

has_extra-All :
    (ids others : List String)
    → (has_extra ids others ≡ false) ↔ All (λ id. contains others id ≡ true) ids
unfolding has_extra
has_extra-All [] others = (λ h. tt, λ h. refl)
has_extra-All (id ∷ ids) others = (
  λ h. (ground arith, (has_extra-All ids others).0 (ground arith)),
  λ (here, rest). let r = (has_extra-All ids others).1 rest in ground arith,
)

-- The comparison of identities finds no difference exactly if every text is the identity of a local
-- document if and only if it is that of a remote one.
pub compare_doc_ids_iff :
    (local : List AllDocumentsEntry) (remote : List AllDocumentsResponseRow)
    → (compare_doc_ids local remote ≡ same_ids)
      ↔ ((id : String) → contains (local_ids_of local) id ≡ contains (ids_of remote) id)
unfolding compare_doc_ids
compare_doc_ids_iff local remote =
    let ls = local_ids_of local in
    let rs = ids_of remote in
    (
      λ h id.
          let lr =
            contains_of_All (λ id. contains rs id ≡ true) ls
              ((has_extra-All ls rs).0 (ground arith)) id in
          let rl =
            contains_of_All (λ id. contains ls id ≡ true) rs
              ((has_extra-All rs ls).0 (ground arith)) id in
          ground arith,
      λ eq.
          let lr =
            (has_extra-All ls rs).1
              (All-of_contains (λ id. contains rs id ≡ true) ls (λ id m. rw (← eq id) m)) in
          let rl =
            (has_extra-All rs ls).1
              (All-of_contains (λ id. contains ls id ≡ true) rs (λ id m. rw (eq id) m)) in
          ground arith,
    )
