-- ===== src/Gateway/Loaded.antt =====
-- client/src/cbltest/api/syncgateway.py: what a run of `load_dataset` posts.
use mathlib.Core.List.{append_assoc}
use mathlib.Core.Path.{subst}
use couchbase_lite_tests.Prelude.{
  ◌≡◌, refl, ap, sym, ◌∙◌, ◌≤◌, true, false, String, none, some, List, [], ◌∷◌, ◌++◌, length, All,
  string_eq, arith, Bool-cases, inl, inr,
}
use couchbase_lite_tests.Prelude.Result.{Error, Result, ok, err, assertion_error, key_error}
use couchbase_lite_tests.Json.{Value, to_list-of_list}
use couchbase_lite_tests.Gateway.{
  Request, Client, returns, ◌>>=◌, sent, Run, Server, run, read_response, requests, after,
  >>=-assoc,
}
use couchbase_lite_tests.Gateway.Datasets.{
  Line, other, document, read_line, keyspace_path, bulk_docs, analyze_dataset_response, Loading,
  is_full, post_collected, make_room, load_lines, load_dataset,
}
use couchbase_lite_tests.Gateway.Batches.{
  at_path, delivered, inserts, IsNamed, Delivers, IsLoading, pending, not-is_full, is_full-some,
  added, pending-added, length-added, load_lines-last, Delivers-all,
}

module _ {S : Type 0} (serve : Server S) (db : String) where
  Delivers-failed :
      (wanted : List (String × Value)) (s : S) (e : Error)
      → Delivers wanted (run serve s (returns (err e)))
  unfolding run
  Delivers-failed wanted s e = (wanted, refl, inl (e, refl), tt)

  Delivers-checked :
      (wanted : List (String × Value)) (s : S) (x : Result (Unit {0})) (rest : Client (Unit {0}))
      → Delivers wanted (run serve s rest)
      → Delivers wanted (run serve s (returns x >>= λ _. rest))
  Delivers-checked wanted s (err e) rest h = Delivers-failed wanted s e
  Delivers-checked wanted s (ok u) rest h = h

  Delivers-answered :
      (wanted : List (String × Value)) (s : S) (x : Result Value) (rest : Client (Unit {0}))
      → Delivers wanted (run serve s rest)
      → Delivers wanted
          (run serve s (returns x >>= (λ v. returns (analyze_dataset_response v)) >>= λ _. rest))
  Delivers-answered wanted s (err e) rest h = Delivers-failed wanted s e
  Delivers-answered wanted s (ok v) rest h =
      Delivers-checked wanted s (analyze_dataset_response v) rest h

  Delivers-after :
      (scope collection : String) (docs : List Value) (wanted : List (String × Value))
      (r : Run S (Unit {0}))
      → 1 ≤ length docs
      → length docs ≤ 501
      → Delivers wanted r
      → Delivers
          (at_path (keyspace_path db scope collection "_bulk_docs") docs ++ wanted)
          (after (sent (bulk_docs db scope collection docs)) r)
  unfolding bulk_docs
  Delivers-after scope collection docs wanted r some_docs few (rest, same, all, sizes) = (
    rest,
    rw to_list-of_list (
        append_assoc (at_path (keyspace_path db scope collection "_bulk_docs") docs)
          (delivered (requests r.log)) rest
        ∙ ap (◌++◌ (at_path (keyspace_path db scope collection "_bulk_docs") docs)) same),
    all,
    (rw to_list-of_list (some_docs, few), sizes),
  )

  -- Posting what is collected, and then what follows.
  Delivers-posted :
      (wanted : List (String × Value)) (s : S) (st : Loading) (rest : Client (Unit {0}))
      → 1 ≤ length st.collected
      → length st.collected ≤ 501
      → ((t : S) → Delivers wanted (run serve t rest))
      → Delivers (pending db st ++ wanted) (run serve s (post_collected db st >>= λ _. rest))
  unfolding post_collected run
  Delivers-posted wanted s st rest some_docs few h =
      let q = bulk_docs db st.last_scope st.last_coll st.collected in
      let answered = run serve (serve q s).1 (
        returns (read_response (serve q s).0)
        >>= (λ v. returns (analyze_dataset_response v))
        >>= λ _. rest) in
      Delivers-after st.last_scope st.last_coll st.collected wanted answered some_docs few (
        Delivers-answered wanted (serve q s).1 (read_response (serve q s).0) rest (h (serve q s).1))

  load_lines-full :
      (st : Loading) (sc c : String) (body : Value) (lines : List Line)
      → is_full st (record { scope = sc; collection = c; body = body }) ≡ true
      → load_lines db st (document (some sc) (some c) body ∷ lines)
        ≡ (post_collected db st >>= λ _. load_lines db (added st sc c (body ∷ [])) lines)
  unfolding load_lines make_room read_line
  load_lines-full st sc c body lines full = rw full (
      >>=-assoc (post_collected db st) (λ _. returns (ok []))
        (λ left. load_lines db (added st sc c (left ++ (body ∷ []))) lines))

  load_lines-room :
      (st : Loading) (sc c : String) (body : Value) (lines : List Line)
      → is_full st (record { scope = sc; collection = c; body = body }) ≡ false
      → load_lines db st (document (some sc) (some c) body ∷ lines)
        ≡ load_lines db (added st sc c (st.collected ++ (body ∷ []))) lines
  unfolding load_lines make_room read_line
  load_lines-room st sc c body lines room = rw room refl

  load_lines-end :
      (s : S) (st : Loading)
      → IsLoading st
      → Delivers (pending db st ++ []) (run serve s (load_lines db st []))
  unfolding load_lines
  load_lines-end s st h = at_end st.collected h
    where
      at_end :
          (collected : List Value)
          → IsLoading (added st st.last_scope st.last_coll collected)
          → Delivers
              (pending db (added st st.last_scope st.last_coll collected) ++ [])
              (run serve s (load_lines db (added st st.last_scope st.last_coll collected) []))
      at_end [] h = unfold run in ([], refl, inr refl, tt)
      at_end (v ∷ vs) h =
          subst
            (λ call.
              Delivers (pending db (added st st.last_scope st.last_coll (v ∷ vs)) ++ [])
                (run serve s call))
            (sym (load_lines-last db st v vs))
            (Delivers-posted [] s (added st st.last_scope st.last_coll (v ∷ vs)) (returns (ok tt))
              (omega arith) h.0 (λ t. unfold run in ([], refl, inr refl, tt)))

  load_lines-Delivers :
      (lines : List Line) (s : S) (st : Loading)
      → All IsNamed lines
      → IsLoading st
      → Delivers (pending db st ++ inserts db lines) (run serve s (load_lines db st lines))
  load_lines-Delivers [] s st named h = load_lines-end s st h
  load_lines-Delivers (other ∷ lines) s st named h =
      unfold load_lines read_line in
      Delivers-failed (pending db st ++ inserts db lines) s assertion_error
  load_lines-Delivers (document none c body ∷ lines) s st named h =
      unfold load_lines read_line in Delivers-failed (pending db st ++ inserts db lines) s key_error
  load_lines-Delivers (document (some sc) none body ∷ lines) s st named h =
      unfold load_lines read_line in Delivers-failed (pending db st ++ inserts db lines) s key_error
  load_lines-Delivers (document (some sc) (some c) body ∷ lines) s st (named, rest) h =
      elim (Bool-cases (is_full st (record { scope = sc; collection = c; body = body }))) [
        | inl full ↦ rw (load_lines-full st sc c body lines full) (
            Delivers-posted ((keyspace_path db sc c "_bulk_docs", body) ∷ inserts db lines) s st
              (load_lines db (added st sc c (body ∷ [])) lines) (is_full-some st _ full) h.0
              (λ t.
                load_lines-Delivers lines t (added st sc c (body ∷ [])) rest
                  (omega arith, λ _. named)))
        | inr room ↦
            let split =
              not-is_full st (record { scope = sc; collection = c; body = body }) h room in
            rw (load_lines-room st sc c body lines room) (
              subst
                (λ wanted.
                  Delivers wanted (
                    run serve s
                      (load_lines db (added st sc c (st.collected ++ (body ∷ []))) lines)))
                (pending-added db st sc c body (inserts db lines) split)
                (load_lines-Delivers lines s (added st sc c (st.collected ++ (body ∷ []))) rest
                  (length-added st sc c body split, λ _. named)))
      ]

-- Whatever the server answers, the documents that `load_dataset` posts are, in order, the first of the
-- objects in the file's lines, each to the collection that its line names, in requests of 1 to 501
-- documents; they are all of them unless `load_dataset` raises. The scope and the collection of
-- every object are taken to be non-empty texts where they are there.
pub load_dataset-Delivers :
    {S : Type 0} (serve : Server S) (db : String) (lines : List Line) (s : S)
    → All IsNamed lines
    → Delivers (inserts db lines) (run serve s (load_dataset db lines))
unfolding load_dataset
load_dataset-Delivers serve db lines s named =
    load_lines-Delivers serve db lines s _ named (omega arith, λ h. absurd (h refl))

abbrev pub IsDocument : Line → Type 0
IsDocument (document (some scope) (some collection) body) = Unit
IsDocument _ = ⊥

-- The server's answer to the request is a list in which no insert failed.
abbrev pub IsAccepted : {S : Type 0} → Server S → S → Request → Type 0
IsAccepted serve s q =
    (v : Value) × (read_response (serve q s).0 ≡ ok v) × (analyze_dataset_response v ≡ ok tt)

module _ {S : Type 0} (serve : Server S)
    (accepted : (s : S) (q : Request) → IsAccepted serve s q) where
  result-posted :
      (db : String) (s : S) (st : Loading) (rest : Client (Unit {0}))
      → ((t : S) → (run serve t rest).result ≡ ok tt)
      → (run serve s (post_collected db st >>= λ _. rest)).result ≡ ok tt
  unfolding post_collected run
  result-posted db s st rest h =
      let q = bulk_docs db st.last_scope st.last_coll st.collected in
      let (v, answered, checked) = accepted s q in rw (answered, checked) (h (serve q s).1)

  load_lines-ok :
      (db : String) (lines : List Line) (s : S) (st : Loading)
      → All IsDocument lines
      → (run serve s (load_lines db st lines)).result ≡ ok tt
  load_lines-ok db [] s st h = at_end st.collected
    where
      at_end :
          (collected : List Value)
          → (run serve s (load_lines db (added st st.last_scope st.last_coll collected) [])).result
            ≡ ok tt
      at_end [] = unfold run load_lines in refl
      at_end (v ∷ vs) =
          subst (λ call. (run serve s call).result ≡ ok tt) (sym (load_lines-last db st v vs))
            (result-posted db s (added st st.last_scope st.last_coll (v ∷ vs)) (returns (ok tt))
              (λ t. unfold run in refl))
  load_lines-ok db (other ∷ lines) s st h = absurd h.0
  load_lines-ok db (document none c body ∷ lines) s st h = absurd h.0
  load_lines-ok db (document (some sc) none body ∷ lines) s st h = absurd h.0
  load_lines-ok db (document (some sc) (some c) body ∷ lines) s st h =
      elim (Bool-cases (is_full st (record { scope = sc; collection = c; body = body }))) [
        | inl full ↦ rw (load_lines-full serve db st sc c body lines full) (
            result-posted db s st (load_lines db (added st sc c (body ∷ [])) lines)
              (λ t. load_lines-ok db lines t (added st sc c (body ∷ [])) h.1))
        | inr room ↦
            rw (load_lines-room serve db st sc c body lines room)
              (load_lines-ok db lines s (added st sc c (st.collected ++ (body ∷ []))) h.1)
      ]

  -- If the server accepts every request and each line is an object with its scope and its collection,
  -- `load_dataset` raises nothing, and it posts every object of the file, in order, to the collection
  -- that its line names. The scopes and collections are taken to be non-empty.
  pub load_dataset-accepted :
      (db : String) (lines : List Line) (s : S)
      → All IsDocument lines
      → All IsNamed lines
      → ((run serve s (load_dataset db lines)).result ≡ ok tt)
        × (delivered (requests (run serve s (load_dataset db lines)).log) ≡ inserts db lines)
  load_dataset-accepted db lines s all_documents named =
      let answered : (run serve s (load_dataset db lines)).result ≡ ok tt =
        unfold load_dataset in
        load_lines-ok db lines s (record { last_scope = ""; last_coll = ""; collected = [] })
          all_documents in
      (
        answered,
        Delivers-all (inserts db lines) (run serve s (load_dataset db lines)) answered
            (load_dataset-Delivers serve db lines s named),
      )
