-- ===== src/Gateway/Rewriting.antt =====
-- client/src/cbltest/api/syncgateway.py: what the rewriting of the revisions makes of the updates.
use couchbase_lite_tests.Prelude.{
  ◌≡◌, refl, ap, sym, ◌∙◌, true, false, String, Option, none, some, List, [], ◌∷◌, map,
  if◌then◌else◌, arith, eq_iff, string_eq, Bool-cases, Option-cases, contains, inl, inr,
}
use couchbase_lite_tests.Prelude.Dict.{Dict, lookup-insert, insert_twice}
use couchbase_lite_tests.Prelude.Members.{Distinct}
use couchbase_lite_tests.Prelude.Result.{ok, err}
use couchbase_lite_tests.Json.{Value, null, str}
use couchbase_lite_tests.Gateway.Entries.{
  DocumentUpdateEntry, id, swap_rev, row_item, equals_text, swap_first, rewrite_rows,
}

abbrev part : String → Value → Value
part key r = elim (row_item key r) [ ok v ↦ v | err raised ↦ null ]

-- The revision in the last of the rows that are about a document.
abbrev pub current_rev : List Value → String → Option Value
current_rev [] doc_id = none
current_rev (r ∷ rows) doc_id = elim (current_rev rows doc_id) [
  | some v ↦ some v
  | none ↦ if equals_text (part "id" r) doc_id then some (part "rev" (part "value" r)) else none
]

-- An update with the revision that Sync Gateway has, where it has the document.
abbrev pub revised : List Value → DocumentUpdateEntry → DocumentUpdateEntry
revised rows u = elim (current_rev rows (id u)) [ none ↦ u | some v ↦ swap_rev v u ]

abbrev swap_if : Value → Value → DocumentUpdateEntry → DocumentUpdateEntry
swap_if next_id new_rev u = if equals_text next_id (id u) then swap_rev new_rev u else u

id-swap_rev : (v : Value) (u : DocumentUpdateEntry) → id (swap_rev v u) ≡ id u
unfolding id swap_rev
id-swap_rev v u = rw (lookup-insert "_id" "_rev" v u.body) refl

swap_rev_twice : (v w : Value) (u : DocumentUpdateEntry) → swap_rev w (swap_rev v u) ≡ swap_rev w u
unfolding swap_rev
swap_rev_twice v w u = ap (λ (b : Dict Value). record { body = b }) (insert_twice "_rev" v w u.body)

equals_text_unique :
    (v : Value) (s t : String) → equals_text v s ≡ true → equals_text v t ≡ true → s ≡ t
equals_text_unique (str r) s t h k = ground (arith, eq_iff r s, eq_iff r t)
equals_text_unique _ s t h k = cc

swap_none :
    (next_id new_rev : Value) (t : String) (us : List DocumentUpdateEntry)
    → equals_text next_id t ≡ true
    → contains (map id us) t ≡ false
    → map (swap_if next_id new_rev) us ≡ us
swap_none next_id new_rev t [] this absent = refl
swap_none next_id new_rev t (u ∷ us) this absent = ground (
  arith,
  swap_none next_id new_rev t us this,
  equals_text_unique next_id t (id u) this,
  eq_iff (id u) t,
)

swap_first-map :
    (next_id new_rev : Value) (us : List DocumentUpdateEntry)
    → Distinct (map id us)
    → swap_first next_id new_rev us ≡ map (swap_if next_id new_rev) us
unfolding swap_first
swap_first-map next_id new_rev [] distinct = refl
swap_first-map next_id new_rev (u ∷ us) distinct = elim (Bool-cases (equals_text next_id (id u))) [
  | inl this ↦
      rw this
        (ap (◌∷◌ (swap_rev new_rev u)) (sym (swap_none next_id new_rev (id u) us this distinct.0)))
  | inr not_this ↦ rw not_this (ap (◌∷◌ u) (swap_first-map next_id new_rev us distinct.1))
]

-- The row's revision, and then those of the rows after it.
revised-swap_if :
    (r : Value) (rows : List Value) (u : DocumentUpdateEntry)
    → revised rows (swap_if (part "id" r) (part "rev" (part "value" r)) u) ≡ revised (r ∷ rows) u
revised-swap_if r rows u = elim (Option-cases (current_rev rows (id u))) [
  | inl not_there ↦ ground (arith, not_there, id-swap_rev (part "rev" (part "value" r)) u)
  | inr (w, there) ↦ ground (
    arith,
    there,
    id-swap_rev (part "rev" (part "value" r)) u,
    swap_rev_twice (part "rev" (part "value" r)) w u,
  )
]

map_ids :
    (next_id new_rev : Value) (us : List DocumentUpdateEntry)
    → map id (map (swap_if next_id new_rev) us) ≡ map id us
map_ids next_id new_rev [] = refl
map_ids next_id new_rev (u ∷ us) = ground (arith, map_ids next_id new_rev us, id-swap_rev new_rev u)

map-revised :
    (r : Value) (rows : List Value) (us : List DocumentUpdateEntry)
    → map (revised rows) (map (swap_if (part "id" r) (part "rev" (part "value" r))) us)
      ≡ map (revised (r ∷ rows)) us
map-revised r rows [] = refl
map-revised r rows (u ∷ us) = λ i. revised-swap_if r rows u i ∷ map-revised r rows us i

revised-none : (us : List DocumentUpdateEntry) → map (revised []) us ≡ us
revised-none [] = refl
revised-none (u ∷ us) = ap (◌∷◌ u) (revised-none us)

rewrite_rows-cons :
    (r : Value) (rows : List Value) (us changed : List DocumentUpdateEntry)
    → rewrite_rows (r ∷ rows) us ≡ ok changed
    → rewrite_rows rows (swap_first (part "id" r) (part "rev" (part "value" r)) us) ≡ ok changed
unfolding rewrite_rows
rewrite_rows-cons r rows us changed h = ground arith

-- With the IDs of the updates all different, each update gets the revision that the rows have for it.
pub rewrite_rows-revised :
    (rows : List Value) (us changed : List DocumentUpdateEntry)
    → Distinct (map id us)
    → rewrite_rows rows us ≡ ok changed
    → changed ≡ map (revised rows) us
rewrite_rows-revised [] us changed distinct h =
    let same : changed ≡ us = unfold rewrite_rows in cc in same ∙ sym (revised-none us)
rewrite_rows-revised (r ∷ rows) us changed distinct h =
    let next_id = part "id" r in
    let new_rev = part "rev" (part "value" r) in
    let swapped = swap_first-map next_id new_rev us distinct in
    rewrite_rows-revised rows (map (swap_if next_id new_rev) us) changed
      (rw (map_ids next_id new_rev us) distinct)
      (rw swapped at (rewrite_rows-cons r rows us changed h))
    ∙ map-revised r rows us
