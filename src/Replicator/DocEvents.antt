-- ===== src/Replicator/DocEvents.antt =====
-- `wait_for_doc_events` of client/src/cbltest/api/replicator.py: its shortcut of skipping the updates
-- that it looked at before, and what its result says.
use mathlib.Core.List.{append-nil, append_assoc}
use native.Mathlib.Nat.{add-zero}
use couchbase_lite_tests.Prelude.{
  ℕ, zero, suc, ◌+◌, ◌<◌, ◌≡◌, refl, sym, ◌∙◌, Bool, true, false, Option, none, some, List, [], ◌∷◌,
  ◌++◌, string_eq, arith, if◌then◌else◌, ap, length, drop, drop-length_append, length-append, ◌≢◌,
  ◌⊎◌, inl, inr, Bool-cases,
}
use couchbase_lite_tests.Prelude.Result.{Result, ok, err, assertion_error}
use couchbase_lite_tests.ReplicatorTypes.{stopped, activity_beq}
use couchbase_lite_tests.ReplicatorTypes.Entries.{ReplicatorStatusBody, ReplicatorDocumentEntry}
use couchbase_lite_tests.ReplicatorTypes.Events.{WaitForDocumentEventEntry}
use couchbase_lite_tests.Replicator.{
  Replicator, Outcome, returned, raised, unfinished, get_status, remaining, is_empty,
  doc_events_loop, wait_for_doc_events, is_started,
}
use couchbase_lite_tests.Replicator.Remaining.{remaining-append, AllSeen, AllSeen-of_remaining}
use couchbase_lite_tests.Replicator.Waiting.{is_finished}

pub is_empty-eq {ℓ} : {A : Type ℓ} (xs : List A) → is_empty xs ≡ true → xs ≡ []
is_empty-eq [] h = refl
is_empty-eq (x ∷ xs) h = cc

polls_shift : (n k : ℕ) → n + suc k ≡ n + 1 + k
polls_shift n k = omega arith

module _ (answer : ℕ → Result (Option ReplicatorStatusBody)) (clock : ℕ → ℕ) where
  abbrev documents_of : Result (Option ReplicatorStatusBody) → List ReplicatorDocumentEntry
  documents_of (ok (some body)) = body.documents
  documents_of _ = []

  -- The updates that the next status request brings.
  pub new_documents : Replicator → List ReplicatorDocumentEntry
  new_documents r = if is_started r then documents_of (answer r.polls) else []

  -- A status request adds what it brings to the cached updates, and takes none of them away.
  pub updates-get_status :
      (r : Replicator)
      → (get_status answer clock r).1.document_updates ≡ r.document_updates ++ new_documents r
  unfolding get_status new_documents
  updates-get_status r = ground (arith, append-nil r.document_updates)

  -- The method without its shortcut: after each request it looks at all updates again, with all the
  -- events that it was given.
  pub reference_loop : ℕ → List WaitForDocumentEventEntry → Replicator → Outcome Bool × Replicator
  reference_loop zero events r = (unfinished, r)
  reference_loop (suc fuel) events r =
      let (result, next) = get_status answer clock r in
      elim result [
        | err e ↦ (raised e, next)
        | ok status ↦ elim status.error [
          | some _ ↦ (raised assertion_error, next)
          | none ↦ elim (is_empty (remaining events next.document_updates)) [
            | true ↦ (returned true, next)
            | false ↦ elim (activity_beq status.activity stopped) [
              | true ↦ (returned false, next)
              | false ↦ reference_loop fuel events next
            ]
          ]
        ]
      ]

  -- After a request, what is left of the events by the updates not looked at before is what is left
  -- of all events by all updates.
  left_eq :
      (events : List WaitForDocumentEventEntry) (seen rest : List ReplicatorDocumentEntry)
      (r : Replicator)
      → r.document_updates ≡ seen ++ rest
      → let updates = (get_status answer clock r).1.document_updates in
        remaining (remaining events seen) (drop (length seen) updates) ≡ remaining events updates
  left_eq events seen rest r e =
      rw (updates-get_status r, e, append_assoc, drop-length_append, remaining-append events seen)
        refl

  looked_at :
      (seen rest : List ReplicatorDocumentEntry) (r : Replicator)
      → r.document_updates ≡ seen ++ rest
      → let updates = (get_status answer clock r).1.document_updates in
        length seen + length (drop (length seen) updates) ≡ length updates
  looked_at seen rest r e =
      rw (updates-get_status r, e, append_assoc, drop-length_append) (sym (length-append seen _))

  loop-eq-reference :
      (fuel processed : ℕ) (events left : List WaitForDocumentEventEntry)
      (seen rest : List ReplicatorDocumentEntry) (r : Replicator)
      → processed ≡ length seen
      → left ≡ remaining events seen
      → r.document_updates ≡ seen ++ rest
      → doc_events_loop answer clock fuel processed left r ≡ reference_loop fuel events r
  unfolding doc_events_loop reference_loop
  loop-eq-reference zero processed events left seen rest r p l e = refl
  loop-eq-reference (suc fuel) processed events left seen rest r p l e =
      let next = (get_status answer clock r).1 in
      let unseen = drop processed next.document_updates in
      let here : remaining left unseen ≡ remaining events next.document_updates =
        rw (p, l) (left_eq events seen rest r e) in
      ground (
        arith,
        here,
        loop-eq-reference fuel (processed + length unseen) events (remaining left unseen)
            next.document_updates [] next (rw p (looked_at seen rest r e)) here
            (sym (append-nil next.document_updates)),
      )

  -- On a replicator that is not continuous and has a document listener, and with a positive interval,
  -- `wait_for_doc_events` returns, raises and polls exactly as the method that looks at all updates again
  -- after each request.
  pub wait_for_doc_events-eq-reference :
      (fuel interval : ℕ) (events : List WaitForDocumentEventEntry) (r : Replicator)
      → 0 < interval
      → r.continuous ≡ false
      → r.enable_document_listener ≡ true
      → wait_for_doc_events answer clock fuel events interval r ≡ reference_loop fuel events r
  unfolding wait_for_doc_events
  wait_for_doc_events-eq-reference fuel interval events r positive once listens =
      ground (arith, loop-eq-reference fuel 0 events events [] r.document_updates r)

  reference_result :
      (fuel : ℕ) (events : List WaitForDocumentEventEntry) (r s : Replicator) (found : Bool)
      → reference_loop fuel events r ≡ (returned found, s)
      → is_empty (remaining events s.document_updates) ≡ found
  unfolding reference_loop
  reference_result zero events r s found h = cc (ap (λ (p : Outcome Bool × Replicator). p.0) h)
  reference_result (suc fuel) events r s found h =
      ground (arith, reference_result fuel events (get_status answer clock r).1 s found)

  -- A result of `wait_for_doc_events` is true only if every requested event is among the updates that
  -- the replicator has cached by then, and false only if something is still waited for after them.
  pub wait_for_doc_events-result :
      (fuel interval : ℕ) (events : List WaitForDocumentEventEntry) (r s : Replicator)
      (found : Bool)
      → wait_for_doc_events answer clock fuel events interval r ≡ (returned found, s)
      → ((found ≡ true) × AllSeen events s.document_updates)
        ⊎ ((found ≡ false) × (remaining events s.document_updates ≢ []))
  unfolding wait_for_doc_events
  wait_for_doc_events-result fuel interval events r s found h =
      let e = reference_result fuel events r s found (from_reference h) in
      elim (Bool-cases found) [
        | inl t ↦ inl (t, AllSeen-of_remaining events s.document_updates (is_empty-eq _ (e ∙ t)))
        | inr f ↦ inr (f, λ z. cc (e, f, ap is_empty z))
      ]
    where
      from_reference :
          wait_for_doc_events answer clock fuel events interval r ≡ (returned found, s)
          → reference_loop fuel events r ≡ (returned found, s)
      from_reference k =
          ground
            (arith, loop-eq-reference fuel 0 events events [] r.document_updates r refl refl refl)

  loop_finishes :
      (k fuel processed : ℕ) (events : List WaitForDocumentEventEntry) (r : Replicator)
      (body : ReplicatorStatusBody)
      → answer (r.polls + k) ≡ ok (some body)
      → body.activity ≡ stopped
      → k < fuel
      → is_finished (doc_events_loop answer clock fuel processed events r).0 ≡ true
  unfolding doc_events_loop get_status
  loop_finishes k zero processed events r body reply is_stopped enough = elim enough [ ]
  loop_finishes zero (suc fuel) processed events r body reply is_stopped enough =
      let now : answer r.polls ≡ ok (some body) = rw add-zero at reply in ground arith
  loop_finishes (suc k) (suc fuel) processed events r body reply is_stopped enough =
      let later : answer (r.polls + 1 + k) ≡ ok (some body) = rw (← polls_shift r.polls k) reply in
      let next = (get_status answer clock r).1 in
      let unseen = drop processed next.document_updates in
      ground (
        arith,
        loop_finishes k fuel (processed + length unseen) (remaining events unseen) next body,
      )

  -- `wait_for_doc_events` ends with the first answer that says that the replicator has stopped, at the
  -- latest: if the k-th answer from now does, more than k rounds are never needed.
  pub wait_for_doc_events_finishes :
      (k fuel interval : ℕ) (events : List WaitForDocumentEventEntry) (r : Replicator)
      (body : ReplicatorStatusBody)
      → answer (r.polls + k) ≡ ok (some body)
      → body.activity ≡ stopped
      → k < fuel
      → is_finished (wait_for_doc_events answer clock fuel events interval r).0 ≡ true
  unfolding wait_for_doc_events
  wait_for_doc_events_finishes k fuel interval events r body reply is_stopped enough =
      ground (arith, loop_finishes k fuel 0 events r body reply is_stopped enough)
