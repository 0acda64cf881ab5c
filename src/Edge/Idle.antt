-- ===== src/Edge/Idle.antt =====
-- client/src/cbltest/api/edgeserver.py: the sessions of requests, and what an idle Edge Server answered.
use couchbase_lite_tests.Prelude.{
  ◌≡◌, ◌≢◌, refl, ap, ◌∙◌, ℕ, ◌<◌, Bool, true, false, String, Option, none, some, List, [], ◌∷◌,
  ◌++◌, arith, inl, inr, ◌⊎◌, get_elem?, eq_iff, Option-cases, Bool-cases, string_eq,
}
use couchbase_lite_tests.Prelude.Dict.{has_key, lookup}
use couchbase_lite_tests.Prelude.Result.{Result, ok, err, cbl_timeout_error, index_error}
use couchbase_lite_tests.Json.{Value, str, obj, Fields, to_dict}
use couchbase_lite_tests.Gateway.{Server, run, sent}
use couchbase_lite_tests.Gateway.Entries.{equals_text}
use couchbase_lite_tests.Gateway.Polls.{settled, again, get_request}
use couchbase_lite_tests.Gateway.Rounds.{
  AllEarlier, GoesOn-AllEarlier, asked, answer, rounds, poll-Ends,
}
use couchbase_lite_tests.Edge.{
  EdgeServer, anonymous, default_session, set_auth, list_response, judge_entry, judge_replications,
  wait_for_idle,
}

-- Calls of `set_auth`, one after the other.
abbrev pub set_auths : List (Bool × (String × String)) → EdgeServer → EdgeServer
set_auths [] s = s
set_auths ((auth, (name, password)) ∷ calls) s = set_auths calls (set_auth auth name password s)

set_auths-off :
    (calls : List (Bool × (String × String))) (s : EdgeServer)
    → s.auth ≡ false
    → (set_auths calls s).auth ≡ false
unfolding set_auth
set_auths-off [] s off = off
set_auths-off ((true, (name, password)) ∷ calls) s off = set_auths-off calls _ off
set_auths-off ((false, (name, password)) ∷ calls) s off = set_auths-off calls _ refl

-- Once the authentication of an Edge Server's client was turned off, its requests are anonymous for good,
-- whatever calls of `set_auth` follow, those that turn it on included.
pub set_auth-anonymous :
    (calls : List (Bool × (String × String))) (name password : String) (s : EdgeServer)
    → default_session (set_auths calls (set_auth false name password s)) ≡ anonymous
unfolding default_session
set_auth-anonymous calls name password s =
    let off = set_auths-off calls (set_auth false name password s) (unfold set_auth in refl) in
    rw off refl

-- No replication is there, or the one that was asked about is idle and has no error.
abbrev pub IsIdle : ℕ → Value → Type 0
IsIdle key v =
    (statuses : List Value) × (list_response v ≡ ok statuses)
    × ((statuses ≡ [])
        ⊎ ((fs : Fields) × (get_elem? statuses key ≡ some (obj fs))
            × (has_key "error" (to_dict fs) ≡ false)
            × (lookup "status" (to_dict fs) ≡ some (str "Idle"))))

-- The replication that was asked about has no error, and is not idle.
abbrev pub IsBusy : ℕ → Value → Type 0
IsBusy key v =
    (statuses : List Value) × (fs : Fields) × (status : Value) × (list_response v ≡ ok statuses)
    × (get_elem? statuses key ≡ some (obj fs))
    × (has_key "error" (to_dict fs) ≡ false)
    × (lookup "status" (to_dict fs) ≡ some status)
    × (status ≢ str "Idle")

equals_text-eq : (v : Value) (s : String) → equals_text v s ≡ true → v ≡ str s
equals_text-eq (str r) s h = let e : r ≡ s = (eq_iff r s).0 h in rw e refl
equals_text-eq _ s h = cc

judge_entry-ok :
    (v : Value)
    → judge_entry v ≡ settled (ok tt)
    → (fs : Fields) × (v ≡ obj fs)
      × (has_key "error" (to_dict fs) ≡ false)
      × (lookup "status" (to_dict fs) ≡ some (str "Idle"))
unfolding judge_entry
judge_entry-ok (obj fs) h = elim (Bool-cases (has_key "error" (to_dict fs))) [
  | inl has_error ↦ ground (arith, has_error)
  | inr no_error ↦ elim (Option-cases (lookup "status" (to_dict fs))) [
    | inl missing ↦ ground (arith, no_error, missing)
    | inr (status, found) ↦ elim (Bool-cases (equals_text status "Idle")) [
      | inl idle ↦ (fs, refl, no_error, found ∙ ap some (equals_text-eq status "Idle" idle))
      | inr other ↦ ground (arith, no_error, found, other)
    ]
  ]
]
judge_entry-ok _ h = cc

judge_replications-ok :
    (key : ℕ) (v : Value) → judge_replications key v ≡ settled (ok tt) → IsIdle key v
unfolding judge_replications
judge_replications-ok key v h = with_list (list_response v) refl h
  where
    with_entry :
        (s : Value) (statuses : List Value) (x : Option Value)
        → list_response v ≡ ok (s ∷ statuses)
        → get_elem? (s ∷ statuses) key ≡ x
        → (elim x [ none ↦ settled (err index_error) | some entry ↦ judge_entry entry ])
          ≡ settled (ok tt)
        → IsIdle key v
    with_entry s statuses none read there judged = cc
    with_entry s statuses (some entry) read there judged =
        let (fs, same, no_error, idle) = judge_entry-ok entry judged in
        (s ∷ statuses, read, inr (fs, there ∙ ap some same, no_error, idle))

    with_list :
        (x : Result (List Value))
        → list_response v ≡ x
        → (elim x [
          | err raised ↦ settled (err raised)
          | ok [] ↦ settled (ok tt)
          | ok (s ∷ statuses) ↦ elim (get_elem? (s ∷ statuses) key) [
            | none ↦ settled (err index_error)
            | some entry ↦ judge_entry entry
          ]
        ])
          ≡ settled (ok tt)
        → IsIdle key v
    with_list (err e) read judged = cc
    with_list (ok []) read judged = ([], read, inl refl)
    with_list (ok (s ∷ statuses)) read judged =
        with_entry s statuses (get_elem? (s ∷ statuses) key) read refl judged

judge_entry-again :
    (v : Value)
    → judge_entry v ≡ again
    → (fs : Fields) × (status : Value) × (v ≡ obj fs)
      × (has_key "error" (to_dict fs) ≡ false)
      × (lookup "status" (to_dict fs) ≡ some status)
      × (status ≢ str "Idle")
unfolding judge_entry
judge_entry-again (obj fs) h = elim (Bool-cases (has_key "error" (to_dict fs))) [
  | inl has_error ↦ ground (arith, has_error)
  | inr no_error ↦ elim (Option-cases (lookup "status" (to_dict fs))) [
    | inl missing ↦ ground (arith, no_error, missing)
    | inr (status, found) ↦ (
      fs,
      status,
      refl,
      no_error,
      found,
      λ idle. ground (arith, no_error, found, idle, eq_iff "Idle" "Idle"),
    )
  ]
]
judge_entry-again _ h = cc

judge_replications-again : (key : ℕ) (v : Value) → judge_replications key v ≡ again → IsBusy key v
unfolding judge_replications
judge_replications-again key v h = with_list (list_response v) refl h
  where
    with_entry :
        (s : Value) (statuses : List Value) (x : Option Value)
        → list_response v ≡ ok (s ∷ statuses)
        → get_elem? (s ∷ statuses) key ≡ x
        → (elim x [ none ↦ settled (err index_error) | some entry ↦ judge_entry entry ]) ≡ again
        → IsBusy key v
    with_entry s statuses none read there judged = cc
    with_entry s statuses (some entry) read there judged =
        let (fs, status, same, no_error, found, busy) = judge_entry-again entry judged in
        (s ∷ statuses, fs, status, read, there ∙ ap some same, no_error, found, busy)

    with_list :
        (x : Result (List Value))
        → list_response v ≡ x
        → (elim x [
          | err raised ↦ settled (err raised)
          | ok [] ↦ settled (ok tt)
          | ok (s ∷ statuses) ↦ elim (get_elem? (s ∷ statuses) key) [
            | none ↦ settled (err index_error)
            | some entry ↦ judge_entry entry
          ]
        ])
          ≡ again
        → IsBusy key v
    with_list (err e) read judged = cc
    with_list (ok []) read judged = cc
    with_list (ok (s ∷ statuses)) read judged =
        with_entry s statuses (get_elem? (s ∷ statuses) key) read refl judged

-- If `wait_for_idle` of an Edge Server raises nothing, it has looked at most six times, with a pause after
-- each look but the last. At the looks before the last, the replication that was asked about was there
-- without an error, and was not idle. At the last there was no replication at all, or the one that was
-- asked about was idle and had no error.
pub wait_for_idle-IsIdle :
    {S : Type 0} (serve : Server S) (s : S) (key timeout : ℕ)
    → (run serve s (wait_for_idle key timeout)).result ≡ ok tt
    → let q = get_request "/_replicate" in
      (i : ℕ) × (v : Value) × (i < 6)
      × AllEarlier (IsBusy key) serve q i s
      × (answer serve q (asked serve q i s) ≡ ok v)
      × IsIdle key v
      × ((run serve s (wait_for_idle key timeout)).log ≡ rounds q timeout i ++ (sent q ∷ []))
unfolding wait_for_idle
wait_for_idle-IsIdle serve s key timeout h =
    elim (poll-Ends serve (get_request "/_replicate") (judge_replications key) timeout
      (err cbl_timeout_error) 6 s) [
        | inl (i, below, before, inl (raised, read, result), logged) ↦ absurd (cc)
        | inl (i, below, before, inr (v, read, judged), logged) ↦ (
          i,
          v,
          below,
          GoesOn-AllEarlier (IsBusy key) serve (get_request "/_replicate") (judge_replications key)
              timeout (err cbl_timeout_error) (judge_replications-again key) i s before,
          read,
          judge_replications-ok key v (rw h at judged),
          logged,
        )
        | inr (before, result, logged) ↦ absurd (cc)
      ]
