-- ===== src/DocsCompare/Success.antt =====
-- When `compare_doc_results` succeeds.
use mathlib.Core.Path.{subst}
use couchbase_lite_tests.Prelude.{
  not, ◌&&◌, ◌==◌, Bool-cases, inl, inr, ◌≡◌, ◌⊎◌, refl, ◌↔◌, true, false, Option, none, some, List,
  [], String, nat_eq, string_eq, arith, Text, length, contains, length-map,
}
use couchbase_lite_tests.Prelude.Dict.{Dict, lookup, keys}
use couchbase_lite_tests.Prelude.Members.{
  Distinct, contains_of_All, All-of_contains, pigeonhole, contains-keys,
}
use couchbase_lite_tests.ReplicatorTypes.{ReplicatorType, push, pull, push_and_pull}
use couchbase_lite_tests.DocsCompare.Same.{IsSame, compare_revisions_iff}
use couchbase_lite_tests.DocsCompare.{
  SgRevision, success, AllDocumentsEntry, AllDocumentsResponseRow, local_dict, remote_dict,
  compare_revisions, source_ids, checks_counts, compare_doc_results,
}
use couchbase_lite_tests.DocsCompare.Sides.{
  both, agrees, compare_ids-All, ids_of, local_ids_of, contains-local_dict, contains-remote_dict,
}

-- A comparison of both directions needs as many documents on either side.
abbrev pub CountsAgree :
    ReplicatorType → List AllDocumentsEntry → List AllDocumentsResponseRow → Type 0
CountsAgree push_and_pull local remote = length local ≡ length remote
CountsAgree _ local remote = Unit

-- The documents that have been replicated: for PUSH those of the local side, otherwise the remote ones.
abbrev pub IsReplicated :
    ReplicatorType → List AllDocumentsEntry → List AllDocumentsResponseRow → String → Type 0
IsReplicated push local remote id = contains (local_ids_of local) id ≡ true
IsReplicated pull local remote id = contains (ids_of remote) id ≡ true
IsReplicated push_and_pull local remote id = contains (ids_of remote) id ≡ true

-- Both sides hold a document, with revisions that are the same.
abbrev pub Agrees : String → Dict Text → Dict SgRevision → Type 0
Agrees id l r =
    (rev : Text) × (revision : SgRevision) × (lookup id l ≡ some rev)
    × (lookup id r ≡ some revision)
    × IsSame rev revision

agrees-Agrees :
    (id : String) (l : Dict Text) (r : Dict SgRevision) → (agrees id l r ≡ true) ↔ Agrees id l r
unfolding agrees
agrees-Agrees id l r = by_sides (lookup id l) (lookup id r)
  where
    by_sides :
        (x : Option Text) (y : Option SgRevision)
        → (both x y ≡ true) ↔ (
            (rev : Text) × (revision : SgRevision) × (x ≡ some rev)
            × (y ≡ some revision)
            × IsSame rev revision)
    by_sides none y = (λ h. cc, λ (rev, revision, e, f, s). cc)
    by_sides (some rev) none = (λ h. cc, λ (rev', revision, e, f, s). cc)
    by_sides (some rev) (some revision) = (
      λ h. (rev, revision, refl, refl, (compare_revisions_iff rev revision).0 h),
      λ (rev', revision', e, f, s).
          let e' : rev' ≡ rev = cc in
          let f' : revision' ≡ revision = cc in
          subst (λ v. compare_revisions rev v ≡ true) f'
            (subst (λ t. compare_revisions t revision' ≡ true) e'
              ((compare_revisions_iff rev' revision').1 s)),
    )

-- The identities that the loop goes through.
contains-source_ids :
    (mode : ReplicatorType) (local : List AllDocumentsEntry) (remote : List AllDocumentsResponseRow)
    (id : String)
    → (contains (source_ids mode (local_dict [] local) (remote_dict [] remote)) id ≡ true)
      ↔ IsReplicated mode local remote id
contains-source_ids push local remote id = rw (contains-local_dict id [] local) (λ h. h, λ h. h)
contains-source_ids pull local remote id = rw (contains-remote_dict id [] remote) (λ h. h, λ h. h)
contains-source_ids push_and_pull local remote id =
    rw (contains-remote_dict id [] remote) (λ h. h, λ h. h)

counts-CountsAgree :
    (mode : ReplicatorType) (local : List AllDocumentsEntry) (remote : List AllDocumentsResponseRow)
    → ((checks_counts mode && not (length local == length remote)) ≡ false)
      ↔ CountsAgree mode local remote
counts-CountsAgree push local remote = (λ h. tt, λ h. refl)
counts-CountsAgree pull local remote = (λ h. tt, λ h. refl)
counts-CountsAgree push_and_pull local remote = (λ h. ground arith, λ h. ground arith)

-- A comparison succeeds exactly if each document that has been replicated is on both sides, with revisions
-- that are the same, and, for PUSH_AND_PULL, both sides have as many documents. The documents that have
-- been replicated are those of the local side for PUSH, and those of the remote side otherwise.
pub compare_doc_results_iff :
    (local : List AllDocumentsEntry) (remote : List AllDocumentsResponseRow) (mode : ReplicatorType)
    → (success (compare_doc_results local remote mode) ≡ true) ↔ (
        CountsAgree mode local remote
        × ((id : String)
            → IsReplicated mode local remote id
            → Agrees id (local_dict [] local) (remote_dict [] remote)))
unfolding compare_doc_results
compare_doc_results_iff local remote mode =
    let l = local_dict [] local in
    let r = remote_dict [] remote in
    let ids = source_ids mode l r in
    let (all, back) = compare_ids-All ids l r in
    let P : String → Type 0 = λ id. agrees id l r ≡ true in
    (
      λ h. (
        (counts-CountsAgree mode local remote).0 (ground arith),
        λ id m. (agrees-Agrees id l r).0 (
            contains_of_All P ids (all (ground arith)) id
              ((contains-source_ids mode local remote id).1 m)),
      ),
      λ (counts, every).
          let counted = (counts-CountsAgree mode local remote).1 counts in
          let succeeds = back (
            All-of_contains P ids (λ id m.
              (agrees-Agrees id l r).1
                (every id ((contains-source_ids mode local remote id).0 m)))) in
          rw counted succeeds,
    )

agrees-contains :
    (id : String) (l : Dict Text) (r : Dict SgRevision)
    → agrees id l r ≡ true
    → contains (keys l) id ≡ true
unfolding agrees
agrees-contains id l r h = ground (arith, contains-keys id l)

push_and_pull-source :
    (local : List AllDocumentsEntry) (remote : List AllDocumentsResponseRow)
    → success (compare_doc_results local remote push_and_pull) ≡ true
    → (length local ≡ length remote)
      × ((a : String)
          → contains (ids_of remote) a ≡ true
          → agrees a (local_dict [] local) (remote_dict [] remote) ≡ true)
push_and_pull-source local remote h =
    let (counts, every) = (compare_doc_results_iff local remote push_and_pull).0 h in
    (counts, λ a m. (agrees-Agrees a (local_dict [] local) (remote_dict [] remote)).1 (every a m))

-- After a successful comparison for PUSH_AND_PULL, where no identity stands twice among the remote
-- documents, a document is on neither side, or it is on both sides with revisions that compare as the
-- same: the comparison of one direction and the counts settle the other direction.
pub compare_doc_results-push_and_pull :
    (local : List AllDocumentsEntry) (remote : List AllDocumentsResponseRow)
    → Distinct (ids_of remote)
    → success (compare_doc_results local remote push_and_pull) ≡ true
    → (id : String)
    → ((contains (local_ids_of local) id ≡ false) × (contains (ids_of remote) id ≡ false))
      ⊎ ((contains (local_ids_of local) id ≡ true)
          × (contains (ids_of remote) id ≡ true)
          × (agrees id (local_dict [] local) (remote_dict [] remote) ≡ true))
compare_doc_results-push_and_pull local remote distinct h id =
    let l = local_dict [] local in
    let r = remote_dict [] remote in
    let (counts, agreed) = push_and_pull-source local remote h in
    let there : (a : String)
        → contains (ids_of remote) a ≡ true
        → contains (local_ids_of local) a ≡ true =
      λ a m. rw (contains-local_dict a [] local) at (agrees-contains a l r (agreed a m)) in
    let back = pigeonhole (ids_of remote) (local_ids_of local) distinct there (
      omega (
        arith,
        counts,
        length-map local (λ (e : AllDocumentsEntry). e.id),
        length-map remote (λ (e : AllDocumentsResponseRow). e.id),
      )) in
    elim (Bool-cases (contains (ids_of remote) id)) [
      | inl on ↦ inr (there id on, on, agreed id on)
      | inr off ↦ inl (ground (arith, back id), off)
    ]
