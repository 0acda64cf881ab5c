-- ===== src/DocsCompare/Sides.antt =====
-- The two sides of a comparison, and when the loop over one of them finds no difference.
use couchbase_lite_tests.Prelude.{
  ◌≡◌, refl, ◌↔◌, Bool, true, false, ◌||◌, Option, some, List, [], ◌∷◌, String, nat_eq, string_eq,
  arith, Text, contains, map, All,
}
use couchbase_lite_tests.Prelude.Dict.{Dict, lookup, insert, keys}
use couchbase_lite_tests.Prelude.Members.{contains-keys-insert}
use couchbase_lite_tests.DocsCompare.{
  SgRevision, DocsCompareResult, same, counts_differ, only_in_source, revisions_differ, success,
  AllDocumentsEntry, AllDocumentsResponseRow, local_dict, remote_dict, compare_revisions,
  compare_entry, first_difference, compare_ids,
}

abbrev pub both : Option Text → Option SgRevision → Bool
both (some rev) (some revision) = compare_revisions rev revision
both _ _ = false

-- Whether both sides hold a document, with revisions that compare as the same.
unfoldable pub agrees : String → Dict Text → Dict SgRevision → Bool
unfolding lookup
agrees id l r = both (lookup id l) (lookup id r)

compare_entry-agrees :
    (id : String) (l : Dict Text) (r : Dict SgRevision)
    → success (compare_entry id (lookup id l) (lookup id r)) ≡ agrees id l r
unfolding agrees
compare_entry-agrees id l r = ground arith

both_succeed :
    (a b : DocsCompareResult)
    → success (first_difference a b) ≡ true
    → (success a ≡ true) × (success b ≡ true)
both_succeed same b h = (refl, h)
both_succeed (counts_differ _ _) b h = cc
both_succeed (only_in_source _) b h = cc
both_succeed (revisions_differ _) b h = cc

both_success :
    (a b : DocsCompareResult)
    → success a ≡ true
    → success b ≡ true
    → success (first_difference a b) ≡ true
both_success same b h k = k
both_success (counts_differ _ _) b h k = h
both_success (only_in_source _) b h k = h
both_success (revisions_differ _) b h k = h

pub compare_ids-All :
    (ids : List String) (l : Dict Text) (r : Dict SgRevision)
    → (success (compare_ids ids l r) ≡ true) ↔ All (λ id. agrees id l r ≡ true) ids
unfolding compare_ids
compare_ids-All [] l r = (λ h. tt, λ h. refl)
compare_ids-All (id ∷ ids) l r = (
  λ h.
      let (here, rest) =
        both_succeed (compare_entry id (lookup id l) (lookup id r)) (compare_ids ids l r) h in
      (rw (← compare_entry-agrees id l r) here, (compare_ids-All ids l r).0 rest),
  λ (here, rest).
      both_success (compare_entry id (lookup id l) (lookup id r)) (compare_ids ids l r)
        (rw (compare_entry-agrees id l r) here) ((compare_ids-All ids l r).1 rest),
)

abbrev pub ids_of : List AllDocumentsResponseRow → List String
ids_of rows = map (λ (e : AllDocumentsResponseRow). e.id) rows

abbrev pub local_ids_of : List AllDocumentsEntry → List String
local_ids_of entries = map (λ (e : AllDocumentsEntry). e.id) entries

pub contains-local_dict :
    (a : String) (d : Dict Text) (entries : List AllDocumentsEntry)
    → contains (keys (local_dict d entries)) a
      ≡ (contains (keys d) a || contains (local_ids_of entries) a)
unfolding local_dict
contains-local_dict a d [] = ground arith
contains-local_dict a d (e ∷ entries) = ground (
  arith,
  contains-local_dict a (insert e.id e.rev d) entries,
  contains-keys-insert a e.id e.rev d,
)

pub contains-remote_dict :
    (a : String) (d : Dict SgRevision) (rows : List AllDocumentsResponseRow)
    → contains (keys (remote_dict d rows)) a ≡ (contains (keys d) a || contains (ids_of rows) a)
unfolding remote_dict
contains-remote_dict a d [] = ground arith
contains-remote_dict a d (e ∷ rows) =
    let rev : SgRevision = record { revid = e.revid; cv = e.cv } in
    ground
      (arith, contains-remote_dict a (insert e.id rev d) rows, contains-keys-insert a e.id rev d)
