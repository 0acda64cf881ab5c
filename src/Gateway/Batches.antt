-- ===== src/Gateway/Batches.antt =====
-- client/src/cbltest/api/syncgateway.py: what `load_dataset` posts, whatever the server answers.
use mathlib.Core.List.{append-nil}
use couchbase_lite_tests.Prelude.{
  ◌≡◌, ◌≢◌, refl, ap, sym, ◌∙◌, ◌≤◌, true, false, String, Option, some, List, [], ◌∷◌, ◌++◌, map,
  length, All, string_eq, arith, eq_iff, length-append, inl, inr, ◌⊎◌,
}
use couchbase_lite_tests.Prelude.Result.{Error, ok, err}
use couchbase_lite_tests.Json.{Value, arr, obj, end, field, to_list}
use couchbase_lite_tests.Gateway.{Request, returns, ◌>>=◌, Run, requests, >>=-returns}
use couchbase_lite_tests.Gateway.Datasets.{
  Line, document, Insert, keyspace_path, Loading, is_full, post_collected, load_lines,
}

-- The path of a request with each document in its payload.
abbrev pub posted_docs : Option Value → List Value
posted_docs (some (obj (field key (arr docs) end))) = to_list docs
posted_docs _ = []

abbrev pub at_path : String → List Value → List (String × Value)
at_path path = map (λ doc. (path, doc))

abbrev pub delivered : List Request → List (String × Value)
delivered [] = []
delivered (q ∷ qs) = at_path q.path (posted_docs q.payload) ++ delivered qs

-- The objects of the file with the paths of the collections that they name.
abbrev pub inserts : String → List Line → List (String × Value)
inserts db [] = []
inserts db (document (some scope) (some collection) body ∷ lines) =
    (keyspace_path db scope collection "_bulk_docs", body) ∷ inserts db lines
inserts db (_ ∷ lines) = inserts db lines

abbrev pub IsNamed : Line → Type 0
IsNamed (document (some scope) (some collection) body) = (scope ≢ "") × (collection ≢ "")
IsNamed _ = Unit

abbrev pub HasBatch : Request → Type 0
HasBatch q = (1 ≤ length (posted_docs q.payload)) × (length (posted_docs q.payload) ≤ 501)

-- The requests of the run hold the first of the wanted documents, in order, and all of them unless it
-- raises; each holds some, and at most 501.
abbrev pub Delivers : {S : Type 0} → List (String × Value) → Run S (Unit {0}) → Type 0
Delivers wanted r =
    (rest : List (String × Value)) × (delivered (requests r.log) ++ rest ≡ wanted)
    × (((raised : Error) × (r.result ≡ err raised)) ⊎ (rest ≡ []))
    × All HasBatch (requests r.log)

-- What the loop keeps: what is collected has a collection, and there is not more than a batch of it.
abbrev pub IsLoading : Loading → Type 0
IsLoading st =
    (length st.collected ≤ 501) × (st.collected ≢ [] → (st.last_scope ≢ "") × (st.last_coll ≢ ""))

abbrev pub pending : String → Loading → List (String × Value)
pending db st = at_path (keyspace_path db st.last_scope st.last_coll "_bulk_docs") st.collected

pub not-is_full :
    (st : Loading) (new : Insert)
    → IsLoading st
    → is_full st new ≡ false
    → (st.collected ≡ [])
      ⊎ ((st.last_scope ≡ new.scope)
          × (st.last_coll ≡ new.collection)
          × (length st.collected ≤ 500))
unfolding is_full
not-is_full st new h e = not-full st.last_scope st.last_coll st.collected h e
  where
    not-full :
        (scope coll : String) (collected : List Value)
        → IsLoading (record { last_scope = scope; last_coll = coll; collected = collected })
        → is_full (record { last_scope = scope; last_coll = coll; collected = collected }) new
          ≡ false
        → (collected ≡ [])
          ⊎ ((scope ≡ new.scope) × (coll ≡ new.collection) × (length collected ≤ 500))
    not-full scope coll [] h e = inl refl
    not-full scope coll (v ∷ vs) (few, named) e =
        let (a, b) = named (λ q. cc) in
        inr (
          ground (
            arith,
            eq_iff scope new.scope,
            eq_iff coll new.collection,
            eq_iff scope "",
            eq_iff coll "",
            a,
            b,
            e,
          ))

pub is_full-some : (st : Loading) (new : Insert) → is_full st new ≡ true → 1 ≤ length st.collected
unfolding is_full
is_full-some st new e = full-some st.last_scope st.last_coll st.collected e
  where
    full-some :
        (scope coll : String) (collected : List Value)
        → is_full (record { last_scope = scope; last_coll = coll; collected = collected }) new
          ≡ true
        → 1 ≤ length collected
    full-some scope coll [] e = ground arith
    full-some scope coll (v ∷ vs) e = omega arith

pub at_path-append :
    (path : String) (docs : List Value) (doc : Value) (more : List (String × Value))
    → at_path path (docs ++ (doc ∷ [])) ++ more ≡ at_path path docs ++ ((path, doc) ∷ more)
at_path-append path [] doc more = refl
at_path-append path (d ∷ docs) doc more = ap (◌∷◌ (path, d)) (at_path-append path docs doc more)

abbrev pub added : Loading → (scope collection : String) → List Value → Loading
added st scope collection docs = record {
  last_scope = scope;
  last_coll = collection;
  collected = docs;
}

pub pending-added :
    (db : String) (st : Loading) (sc c : String) (body : Value) (more : List (String × Value))
    → (st.collected ≡ [])
      ⊎ ((st.last_scope ≡ sc) × (st.last_coll ≡ c) × (length st.collected ≤ 500))
    → pending db (added st sc c (st.collected ++ (body ∷ []))) ++ more
      ≡ pending db st ++ ((keyspace_path db sc c "_bulk_docs", body) ∷ more)
pending-added db st sc c body more (inl none_left) = simp none_left refl
pending-added db st sc c body more (inr (scope, coll, few)) =
    simp (scope, coll) (at_path-append (keyspace_path db sc c "_bulk_docs") st.collected body more)

pub length-added :
    (st : Loading) (sc c : String) (body : Value)
    → (st.collected ≡ [])
      ⊎ ((st.last_scope ≡ sc) × (st.last_coll ≡ c) × (length st.collected ≤ 500))
    → length (st.collected ++ (body ∷ [])) ≤ 501
length-added st sc c body (inl none_left) = rw none_left (omega arith)
length-added st sc c body (inr (scope, coll, few)) =
    omega (arith, length-append st.collected (body ∷ []))

pub load_lines-last :
    (db : String) (st : Loading) (v : Value) (vs : List Value)
    → load_lines db (added st st.last_scope st.last_coll (v ∷ vs)) []
      ≡ (post_collected db (added st st.last_scope st.last_coll (v ∷ vs)) >>= λ _. returns (ok tt))
unfolding load_lines
load_lines-last db st v vs =
    sym (>>=-returns (post_collected db (added st st.last_scope st.last_coll (v ∷ vs))))

-- Where nothing was raised, nothing is left.
pub Delivers-all :
    {S : Type 0} (wanted : List (String × Value)) (r : Run S (Unit {0}))
    → r.result ≡ ok tt
    → Delivers wanted r
    → delivered (requests r.log) ≡ wanted
Delivers-all wanted r h (rest, same, inl (e, failed), sizes) = absurd (cc)
Delivers-all wanted r h (rest, same, inr empty, sizes) =
    sym (append-nil _) ∙ ap (◌++◌ (delivered (requests r.log))) (sym empty) ∙ same
