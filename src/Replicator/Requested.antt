-- ===== src/Replicator/Requested.antt =====
-- The first event that `wait_for_any_doc_event` of client/src/cbltest/api/replicator.py asks for, described
-- without its loop.
use couchbase_lite_tests.Prelude.{
  ◌≡◌, ◌↔◌, ◌⊎◌, refl, ap, inl, inr, Bool, true, false, Option, none, some, List, [], ◌∷◌, ◌++◌,
  string_eq, eq_iff, arith, All, Bool-cases, if◌then◌else◌,
}
use couchbase_lite_tests.Json.{Value, null}
use couchbase_lite_tests.Json.Equivalent.{scalar_eq}
use couchbase_lite_tests.ReplicatorTypes.{ReplicatorType, push, pull, push_and_pull}
use couchbase_lite_tests.ReplicatorTypes.Flags.{ReplicatorDocumentFlags, bool_beq}
use couchbase_lite_tests.ReplicatorTypes.Entries.{ReplicatorDocumentEntry, direction}
use couchbase_lite_tests.ReplicatorTypes.Events.{
  WaitForDocumentEventEntry, event_eq, entry_without_error, directions_agree, flags_agree,
}
use couchbase_lite_tests.Replicator.{is_in, first_event}

-- The update is about the document of the event, in its direction and with its flags, where the event
-- says these, and the event names no error.
abbrev pub Fits : ReplicatorDocumentEntry → WaitForDocumentEventEntry → Type 0
Fits u e =
    (u.collection ≡ e.collection)
    × (u.document_id ≡ e.id)
    × (e.err_domain ≡ null)
    × (e.err_code ≡ null)
    × ((e.direction ≡ direction u) ⊎ (e.direction ≡ push_and_pull))
    × ((e.flags ≡ none) ⊎ (e.flags ≡ some u.flags))

abbrev pub IsRequested : List WaitForDocumentEventEntry → ReplicatorDocumentEntry → Type 0
IsRequested [] u = ⊥
IsRequested (e ∷ events) u = Fits u e ⊎ IsRequested events u

-- The entry is about the update, and has no error, whether the update has one or not.
abbrev pub IsAbout : ReplicatorDocumentEntry → WaitForDocumentEventEntry → Type 0
IsAbout u x =
    (x.collection ≡ u.collection)
    × (x.id ≡ u.document_id)
    × (x.direction ≡ direction u)
    × (x.flags ≡ some u.flags)
    × (x.err_domain ≡ null)
    × (x.err_code ≡ null)

abbrev pub NoneRequested : List WaitForDocumentEventEntry → List ReplicatorDocumentEntry → Type 0
NoneRequested events updates = All (λ u. ¬ IsRequested events u) updates

-- The first of the updates that is requested, if one is.
abbrev pub IsFirst :
    List WaitForDocumentEventEntry
    → List ReplicatorDocumentEntry
    → Option WaitForDocumentEventEntry
    → Type 0
IsFirst events updates none = NoneRequested events updates
IsFirst events updates (some x) =
    (before : List ReplicatorDocumentEntry) × (u : ReplicatorDocumentEntry) × (later : List
      ReplicatorDocumentEntry)
    × (updates ≡ before ++ (u ∷ later))
    × NoneRequested events before
    × IsRequested events u
    × IsAbout u x

directions_fit :
    (is_push : Bool) (b : ReplicatorType)
    → (directions_agree (if is_push then push else pull) b ≡ true)
      ↔ ((b ≡ (if is_push then push else pull)) ⊎ (b ≡ push_and_pull))
directions_fit true push = (λ h. inl refl, λ h. refl)
directions_fit true pull = (λ h. cc, λ h. elim h [ inl e ↦ cc | inr e ↦ cc ])
directions_fit true push_and_pull = (λ h. inr refl, λ h. refl)
directions_fit false push = (λ h. cc, λ h. elim h [ inl e ↦ cc | inr e ↦ cc ])
directions_fit false pull = (λ h. inl refl, λ h. refl)
directions_fit false push_and_pull = (λ h. inr refl, λ h. refl)

bool_beq-eq : (a b : Bool) → bool_beq a b ≡ true → b ≡ a
bool_beq-eq true b h = h
bool_beq-eq false true h = cc
bool_beq-eq false false h = refl

bool_beq-same : (a : Bool) → bool_beq a a ≡ true
bool_beq-same true = refl
bool_beq-same false = refl

flags_fit :
    (f : ReplicatorDocumentFlags) (o : Option ReplicatorDocumentFlags)
    → (flags_agree (some f) o ≡ true) ↔ ((o ≡ none) ⊎ (o ≡ some f))
flags_fit f none = (λ h. inl refl, λ h. refl)
flags_fit f (some g) = (
  λ h. inr (λ i. some (record {
    deleted = bool_beq-eq f.deleted g.deleted (ground arith) i;
    access_removed = bool_beq-eq f.access_removed g.access_removed (ground arith) i;
  })),
  λ h. elim h [
    | inl e ↦ cc
    | inr e ↦
        let same : g ≡ f = cc in
        rw same (ground (arith, bool_beq-same f.deleted, bool_beq-same f.access_removed))
  ],
)

scalar_eq-null : (v : Value) → (scalar_eq null v ≡ true) ↔ (v ≡ null)
scalar_eq-null null = (λ h. refl, λ h. refl)
scalar_eq-null _ = (λ h. cc, λ h. cc)

event_eq-Fits :
    (u : ReplicatorDocumentEntry) (e : WaitForDocumentEventEntry)
    → (event_eq (entry_without_error u) e ≡ true) ↔ Fits u e
unfolding event_eq entry_without_error
event_eq-Fits u e = (
  λ h. (
    (eq_iff u.collection e.collection).0 (ground arith),
    (eq_iff u.document_id e.id).0 (ground arith),
    (scalar_eq-null e.err_domain).0 (ground arith),
    (scalar_eq-null e.err_code).0 (ground arith),
    (directions_fit u.is_push e.direction).0 (ground arith),
    (flags_fit u.flags e.flags).0 (ground arith),
  ),
  λ (collection, id, domain, code, way, flags).
      let a = (eq_iff u.collection e.collection).1 collection in
      let b = (eq_iff u.document_id e.id).1 id in
      let c = (scalar_eq-null e.err_domain).1 domain in
      let d = (scalar_eq-null e.err_code).1 code in
      let f = (directions_fit u.is_push e.direction).1 way in
      let g = (flags_fit u.flags e.flags).1 flags in ground (arith, a, b, c, d, f, g),
)

is_in-IsRequested :
    (events : List WaitForDocumentEventEntry) (u : ReplicatorDocumentEntry)
    → (is_in (entry_without_error u) events ≡ true) ↔ IsRequested events u
unfolding is_in
is_in-IsRequested [] u = (λ h. cc, λ h. elim h [ ])
is_in-IsRequested (e ∷ events) u =
    let (fits, back) = event_eq-Fits u e in
    let (more, more_back) = is_in-IsRequested events u in
    (
      λ h. elim (Bool-cases (event_eq (entry_without_error u) e)) [
        | inl this ↦ inl (fits this)
        | inr other ↦ inr (more (ground arith))
      ],
      λ h. elim h [
        | inl this ↦ let b = back this in rw b refl
        | inr later ↦ let b = more_back later in ground (arith, b)
      ],
    )

pub first_event-IsFirst :
    (events : List WaitForDocumentEventEntry) (updates : List ReplicatorDocumentEntry)
    → IsFirst events updates (first_event events updates)
unfolding first_event
first_event-IsFirst events [] = tt
first_event-IsFirst events (u ∷ updates) =
    at_update (is_in (entry_without_error u) events) (first_event events updates) refl
      (first_event-IsFirst events updates)
  where
    not_this :
        (found : Option WaitForDocumentEventEntry)
        → ¬ IsRequested events u
        → IsFirst events updates found
        → IsFirst events (u ∷ updates) found
    not_this none other rest = (other, rest)
    not_this (some x) other (before, v, later, e, clear, requested, about) =
        (u ∷ before, v, later, ap (◌∷◌ u) e, (other, clear), requested, about)

    at_update :
        (this : Bool) (found : Option WaitForDocumentEventEntry)
        → is_in (entry_without_error u) events ≡ this
        → IsFirst events updates found
        → IsFirst events (u ∷ updates) (if this then some (entry_without_error u) else found)
    at_update true found h rest = (
      [],
      u,
      updates,
      refl,
      tt,
      (is_in-IsRequested events u).0 h,
      unfold entry_without_error in (refl, refl, refl, refl, refl, refl),
    )
    at_update false found h rest =
        not_this found (λ r. cc (h, (is_in-IsRequested events u).1 r)) rest
