-- ===== src/Replicator/Remaining.antt =====
-- The inner `for` loops of the waiting methods, over any list of updates.
use couchbase_lite_tests.Prelude.{
  ◌≡◌, refl, Bool, true, false, ◌||◌, none, List, [], ◌∷◌, ◌++◌, arith, All, Bool-cases, inl, inr,
}
use couchbase_lite_tests.ReplicatorTypes.Entries.{ReplicatorDocumentEntry}
use couchbase_lite_tests.ReplicatorTypes.Events.{WaitForDocumentEventEntry, event_eq, entry_of}
use couchbase_lite_tests.Replicator.{remove_entry, remaining, first_event}

-- Looking at one list of updates after another is looking at both at once.
pub remaining-append :
    (events : List WaitForDocumentEventEntry) (us vs : List ReplicatorDocumentEntry)
    → remaining events (us ++ vs) ≡ remaining (remaining events us) vs
unfolding remaining
remaining-append events [] vs = refl
remaining-append events (u ∷ us) vs = remaining-append (remove_entry (entry_of u) events) us vs

-- Whether some update is the event.
pub is_seen : List ReplicatorDocumentEntry → WaitForDocumentEventEntry → Bool
is_seen [] e = false
is_seen (u ∷ us) e = event_eq (entry_of u) e || is_seen us e

abbrev pub AllSeen : List WaitForDocumentEventEntry → List ReplicatorDocumentEntry → Type 0
AllSeen events updates = All (λ e. is_seen updates e ≡ true) events

AllSeen-remove_entry :
    (u : ReplicatorDocumentEntry) (events : List WaitForDocumentEventEntry)
    (us : List ReplicatorDocumentEntry)
    → AllSeen (remove_entry (entry_of u) events) us
    → AllSeen events (u ∷ us)
unfolding remove_entry is_seen
AllSeen-remove_entry u [] us h = tt
AllSeen-remove_entry u (e ∷ events) us h = elim (Bool-cases (event_eq (entry_of u) e)) [
  | inl same ↦ (rw same refl, seen_later events (rw same at h))
  | inr other ↦
      let (here, rest) : AllSeen (e ∷ remove_entry (entry_of u) events) us = rw other at h in
      (rw other here, AllSeen-remove_entry u events us rest)
]
  where
    seen_later : (l : List WaitForDocumentEventEntry) → AllSeen l us → AllSeen l (u ∷ us)
    seen_later [] k = tt
    seen_later (x ∷ l) (k, ks) = (ground arith, seen_later l ks)

-- Where nothing is left to wait for, each event is one of the updates.
pub AllSeen-of_remaining :
    (events : List WaitForDocumentEventEntry) (updates : List ReplicatorDocumentEntry)
    → remaining events updates ≡ []
    → AllSeen events updates
unfolding remaining
AllSeen-of_remaining [] updates h = tt
AllSeen-of_remaining (e ∷ events) [] h = cc
AllSeen-of_remaining (e ∷ events) (u ∷ us) h =
    AllSeen-remove_entry u (e ∷ events) us
      (AllSeen-of_remaining (remove_entry (entry_of u) (e ∷ events)) us h)

pub first_event-append :
    (events : List WaitForDocumentEventEntry) (us vs : List ReplicatorDocumentEntry)
    → first_event events us ≡ none
    → first_event events (us ++ vs) ≡ first_event events vs
unfolding first_event
first_event-append events [] vs h = refl
first_event-append events (u ∷ us) vs h = ground (arith, first_event-append events us vs)
