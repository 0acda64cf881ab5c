-- ===== src/Replicator/IdleEvents.antt =====
-- `wait_for_all_doc_events` and `wait_for_any_doc_event` of client/src/cbltest/api/replicator.py.
use mathlib.Core.Path.{subst}
use mathlib.Core.List.{append-nil, append_assoc}
use couchbase_lite_tests.Prelude.{
  ℕ, zero, suc, ◌+◌, ◌*◌, ◌<◌, ◌≡◌, refl, sym, ◌∙◌, ◌⊎◌, true, Option, none, List, [], ◌++◌,
  string_eq, arith, inl, inr, ap, length, drop, drop-length_append, length-append,
}
use couchbase_lite_tests.Prelude.Result.{Result}
use couchbase_lite_tests.ReplicatorTypes.{ReplicatorActivityLevel, idle}
use couchbase_lite_tests.ReplicatorTypes.Entries.{ReplicatorStatusBody, ReplicatorDocumentEntry}
use couchbase_lite_tests.ReplicatorTypes.Events.{WaitForDocumentEventEntry}
use couchbase_lite_tests.Replicator.{
  Replicator, ReplicatorStatus, Outcome, returned, get_status, wait_loop, wait_for, after_reading,
  remaining, is_empty, first_event, all_doc_events_loop, wait_for_all_doc_events,
  any_doc_event_loop, wait_for_any_doc_event,
}
use couchbase_lite_tests.Replicator.Remaining.{
  remaining-append, AllSeen, AllSeen-of_remaining, first_event-append,
}
use couchbase_lite_tests.Replicator.Requested.{IsFirst, first_event-IsFirst}
use couchbase_lite_tests.Replicator.Waiting.{
  IsClock, is_finished, wait_for_finishes, wait_for-activity,
}
use couchbase_lite_tests.Replicator.DocEvents.{is_empty-eq, new_documents, updates-get_status}

-- The second list begins with the first.
abbrev Extends : (a b : List ReplicatorDocumentEntry) → Type 0
Extends a b = a ++ drop (length a) b ≡ b

Extends-append : (a d : List ReplicatorDocumentEntry) → Extends a (a ++ d)
Extends-append a d = ap (◌++◌ a) (drop-length_append a d)

Extends-self : (a : List ReplicatorDocumentEntry) → Extends a a
Extends-self a = rw append-nil at (Extends-append a [])

Extends-trans : (a b c : List ReplicatorDocumentEntry) → Extends a b → Extends b c → Extends a c
Extends-trans a b c h k =
    let y = drop (length a) b in
    let x = drop (length b) c in
    let e : a ++ (y ++ x) ≡ c = sym (append_assoc a y x) ∙ ap (λ t. t ++ x) h ∙ k in
    rw (← e) (Extends-append a (y ++ x))

module _ (answer : ℕ → Result (Option ReplicatorStatusBody)) (clock : ℕ → ℕ) where
  get_status-Extends :
      (r : Replicator) → Extends r.document_updates (get_status answer clock r).1.document_updates
  get_status-Extends r =
      rw (updates-get_status answer clock r)
        (Extends-append r.document_updates (new_documents answer clock r))

  -- One round of `wait_for` leaves the updates alone, adds those of one request, or goes on.
  wait_loop-updates :
      (fuel : ℕ) (activity : ReplicatorActivityLevel) (deadline : ℕ) (r : Replicator)
      → let s = (get_status answer clock (after_reading r)).1 in
        let final = (wait_loop answer clock (suc fuel) activity deadline r).1.document_updates in
        (final ≡ r.document_updates)
        ⊎ (final ≡ s.document_updates)
        ⊎ (final ≡ (wait_loop answer clock fuel activity deadline s).1.document_updates)
  unfolding wait_loop
  wait_loop-updates fuel activity deadline r = ground arith

  wait_loop-Extends :
      (fuel : ℕ) (activity : ReplicatorActivityLevel) (deadline : ℕ) (r : Replicator)
      → Extends r.document_updates
          (wait_loop answer clock fuel activity deadline r).1.document_updates
  unfolding wait_loop
  wait_loop-Extends zero activity deadline r = Extends-self r.document_updates
  wait_loop-Extends (suc fuel) activity deadline r =
      let s = (get_status answer clock (after_reading r)).1 in
      let t = (wait_loop answer clock fuel activity deadline s).1 in
      elim (wait_loop-updates fuel activity deadline r) [
        | inl same ↦ rw same (Extends-self r.document_updates)
        | inr (inl one) ↦ rw one (get_status-Extends (after_reading r))
        | inr (inr more) ↦ rw more (
            Extends-trans r.document_updates s.document_updates t.document_updates
              (get_status-Extends (after_reading r)) (wait_loop-Extends fuel activity deadline s))
      ]

  pub wait_for-Extends :
      (fuel : ℕ) (activity : ReplicatorActivityLevel) (interval timeout : ℕ) (r : Replicator)
      → Extends r.document_updates
          (wait_for answer clock fuel activity interval timeout r).1.document_updates
  wait_for-Extends fuel activity interval timeout r =
      elim (wait_for-updates fuel activity interval timeout r) [
        | inl same ↦ rw same (Extends-self r.document_updates)
        | inr more ↦
            rw more (wait_loop-Extends fuel activity (clock r.readings + timeout) (after_reading r))
      ]
    where
      wait_for-updates :
          (fuel : ℕ) (activity : ReplicatorActivityLevel) (interval timeout : ℕ) (r : Replicator)
          → let final =
              (wait_for answer clock fuel activity interval timeout r).1.document_updates in
            (final ≡ r.document_updates)
            ⊎ (final
                ≡ (wait_loop answer clock fuel activity
                    (clock r.readings + timeout)
                    (after_reading r)).1.document_updates)
      wait_for-updates fuel activity interval timeout r = unfold wait_for in ground arith

  module _ (fuel ping_interval idle_timeout : ℕ) where
    -- After a wait, what is left of the events by the updates not looked at before is what is left of
    -- all events by all updates.
    waited_left :
        (events : List WaitForDocumentEventEntry) (seen rest : List ReplicatorDocumentEntry)
        (r : Replicator)
        → r.document_updates ≡ seen ++ rest
        → let updates =
            (wait_for answer clock fuel idle ping_interval idle_timeout r).1.document_updates in
          (remaining (remaining events seen) (drop (length seen) updates)
            ≡ remaining events updates)
          × (length seen + length (drop (length seen) updates) ≡ length updates)
          × (first_event events seen ≡ none
              → first_event events (drop (length seen) updates) ≡ first_event events updates)
    waited_left events seen rest r e =
        let updates =
          (wait_for answer clock fuel idle ping_interval idle_timeout r).1.document_updates in
        let more = rest ++ drop (length r.document_updates) updates in
        let all : updates ≡ seen ++ more =
          sym (wait_for-Extends fuel idle ping_interval idle_timeout r)
          ∙ ap (λ t. t ++ drop (length r.document_updates) updates) e
          ∙ append_assoc seen rest _ in
        split updates more all
      where
        split :
            (updates more : List ReplicatorDocumentEntry)
            → updates ≡ seen ++ more
            → (remaining (remaining events seen) (drop (length seen) updates)
                ≡ remaining events updates)
              × (length seen + length (drop (length seen) updates) ≡ length updates)
              × (first_event events seen ≡ none
                  → first_event events (drop (length seen) updates) ≡ first_event events updates)
        split updates more all =
            rw (all, drop-length_append)
              (
                sym (remaining-append events seen more),
                sym (length-append seen more),
                λ none_seen. sym (first_event-append events seen more none_seen),
              )

    all_loop_result :
        (retries processed : ℕ) (events left : List WaitForDocumentEventEntry)
        (seen rest : List ReplicatorDocumentEntry) (r s : Replicator) (status : ReplicatorStatus)
        → processed ≡ length seen
        → left ≡ remaining events seen
        → r.document_updates ≡ seen ++ rest
        → all_doc_events_loop answer clock fuel ping_interval idle_timeout retries processed left r
          ≡ (returned status, s)
        → (is_empty (remaining events s.document_updates) ≡ true) × (status.activity ≡ idle)
    unfolding all_doc_events_loop
    all_loop_result zero processed events left seen rest r s status p l e h =
        cc (ap (λ (t : Outcome ReplicatorStatus × Replicator). t.0) h)
    all_loop_result (suc retries) processed events left seen rest r s status p l e h =
        let next = (wait_for answer clock fuel idle ping_interval idle_timeout r).1 in
        let unseen = drop processed next.document_updates in
        let (here, looked_at, _) = waited_left events seen rest r e in
        let left_now : remaining left unseen ≡ remaining events next.document_updates =
          rw (p, l) here in
        ground (
          arith,
          left_now,
          wait_for-activity answer clock fuel idle ping_interval idle_timeout r status,
          all_loop_result retries (processed + length unseen) events (remaining left unseen)
              next.document_updates [] next s status (rw p looked_at) left_now
              (sym (append-nil next.document_updates)),
        )

    -- A status that `wait_for_all_doc_events` returns is that of an idle replicator, and every requested
    -- event is then among the updates that the replicator has cached.
    pub wait_for_all_doc_events-result :
        (max_retries : ℕ) (events : List WaitForDocumentEventEntry) (r s : Replicator)
        (status : ReplicatorStatus)
        → wait_for_all_doc_events answer clock fuel ping_interval idle_timeout events max_retries r
          ≡ (returned status, s)
        → AllSeen events s.document_updates × (status.activity ≡ idle)
    unfolding wait_for_all_doc_events
    wait_for_all_doc_events-result max_retries events r s status h =
        let (none_left, is_idle) : (is_empty (remaining events s.document_updates) ≡ true)
            × (status.activity ≡ idle) =
          ground (
            arith,
            all_loop_result max_retries 0 events events [] r.document_updates r s status refl refl
                refl,
          ) in
        (AllSeen-of_remaining events s.document_updates (is_empty-eq _ none_left), is_idle)

    all_loop_finishes :
        IsClock clock
        → 2 * idle_timeout + 2 < fuel
        → (retries processed : ℕ) (events : List WaitForDocumentEventEntry) (r : Replicator)
        → is_finished
            (all_doc_events_loop answer clock fuel ping_interval idle_timeout retries processed
              events r).0
          ≡ true
    unfolding all_doc_events_loop
    all_loop_finishes c enough zero processed events r = refl
    all_loop_finishes c enough (suc retries) processed events r =
        let next = (wait_for answer clock fuel idle ping_interval idle_timeout r).1 in
        let unseen = drop processed next.document_updates in
        ground (
          arith,
          wait_for_finishes answer clock c fuel idle ping_interval idle_timeout r enough,
          all_loop_finishes c enough retries (processed + length unseen) (remaining events unseen)
              next,
        )

    -- `wait_for_all_doc_events` ends, whatever the server answers.
    pub wait_for_all_doc_events_finishes :
        IsClock clock
        → 2 * idle_timeout + 2 < fuel
        → (max_retries : ℕ) (events : List WaitForDocumentEventEntry) (r : Replicator)
        → is_finished
            (wait_for_all_doc_events answer clock fuel ping_interval idle_timeout events max_retries
              r).0
          ≡ true
    unfolding wait_for_all_doc_events
    wait_for_all_doc_events_finishes c enough max_retries events r =
        ground (arith, all_loop_finishes c enough max_retries 0 events r)

    any_loop_result :
        (retries processed : ℕ) (events : List WaitForDocumentEventEntry)
        (seen rest : List ReplicatorDocumentEntry) (r s : Replicator)
        (found : Option WaitForDocumentEventEntry)
        → processed ≡ length seen
        → first_event events seen ≡ none
        → r.document_updates ≡ seen ++ rest
        → (retries ≡ 0 → rest ≡ [])
        → any_doc_event_loop answer clock fuel ping_interval idle_timeout retries processed events r
          ≡ (returned found, s)
        → first_event events s.document_updates ≡ found
    unfolding any_doc_event_loop
    any_loop_result zero processed events seen rest r s found p none_seen e last h =
        let all : r.document_updates ≡ seen = e ∙ ap (◌++◌ seen) (last refl) ∙ append-nil seen in
        let same : r ≡ s =
          ap (λ (t : Outcome (Option WaitForDocumentEventEntry) × Replicator). t.1) h in
        let outcome : returned none ≡ returned found =
          ap (λ (t : Outcome (Option WaitForDocumentEventEntry) × Replicator). t.0) h in
        let nothing : none ≡ found = cc in
        rw (← same) (ap (first_event events) all ∙ none_seen ∙ nothing)
    any_loop_result (suc retries) processed events seen rest r s found p none_seen e last h =
        let next = (wait_for answer clock fuel idle ping_interval idle_timeout r).1 in
        let unseen = drop processed next.document_updates in
        let (_, looked_at, same) = waited_left events seen rest r e in
        let now : first_event events unseen ≡ first_event events next.document_updates =
          rw p (same none_seen) in
        ground (
          arith,
          now,
          λ (n : first_event events next.document_updates ≡ none).
              any_loop_result retries (processed + length unseen) events next.document_updates []
                next s found (rw p looked_at) n (sym (append-nil next.document_updates))
                (λ _. refl),
        )

    -- Where it may retry at all, what `wait_for_any_doc_event` returns is about the first of the updates
    -- cached by then that is requested, and `None` if none is. An update is requested by an event for its
    -- document that names no error, and has its direction and its flags where the event has any. What is
    -- returned has no error, whether the update has one or not.
    pub wait_for_any_doc_event-result :
        (max_retries : ℕ) (events : List WaitForDocumentEventEntry) (r s : Replicator)
        (found : Option WaitForDocumentEventEntry)
        → 0 < max_retries
        → wait_for_any_doc_event answer clock fuel ping_interval idle_timeout events max_retries r
          ≡ (returned found, s)
        → IsFirst events s.document_updates found
    unfolding wait_for_any_doc_event
    wait_for_any_doc_event-result max_retries events r s found some_retries h =
        let first : first_event events s.document_updates ≡ found = ground (
          arith,
          any_loop_result max_retries 0 events [] r.document_updates r s found refl refl refl
              (λ z. absurd (omega arith)),
        ) in
        subst (λ o. IsFirst events s.document_updates o) first
          (first_event-IsFirst events s.document_updates)
