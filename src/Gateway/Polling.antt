-- ===== src/Gateway/Polling.antt =====
-- client/src/cbltest/api/syncgateway.py: how the wait for a replication's status ends.
use native.Mathlib.Nat.{le-div_iff_mul-le}
use couchbase_lite_tests.Prelude.{
  ◌≡◌, ◌≢◌, refl, ℕ, zero, suc, ◌*◌, ◌/◌, ◌<◌, ◌≤◌, true, false, String, some, [], ◌∷◌, ◌++◌, inl,
  inr, ◌⊎◌, arith, ◌==◌, nat_eq, eq_iff, string_eq,
}
use couchbase_lite_tests.Prelude.Dict.{Dict, lookup}
use couchbase_lite_tests.Prelude.Result.{Result, ok, err, timeout_error}
use couchbase_lite_tests.Json.{Value, str}
use couchbase_lite_tests.ReplicatorTypes.Entries.{assert_dict}
use couchbase_lite_tests.Gateway.Entries.{equals_text}
use couchbase_lite_tests.Gateway.{Request, Server, sent, Run, run}
use couchbase_lite_tests.Gateway.Polls.{
  settled, again, poll, get_request, get, judge_dict, judge_status, wait_for_isgr_status,
  status_path,
}
use couchbase_lite_tests.Gateway.Rounds.{
  asked, answer, rounds, poll-Ends, AllEarlier, GoesOn-AllEarlier,
}

-- A status that is neither the wanted one nor that of an error.
abbrev pub IsUnsettled : String → Value → Type 0
IsUnsettled target v =
    (d : Dict Value) × (assert_dict v ≡ ok d)
    × (lookup "status" d ≢ some (str target))
    × (lookup "status" d ≢ some (str "error"))

unsettled_status :
    (target known : String) (d : Dict Value)
    → judge_status target d ≡ again
    → (known ≡ target) ⊎ (known ≡ "error")
    → lookup "status" d ≢ some (str known)
unfolding judge_status
unsettled_status target known d undecided (inl wanted) e =
    ground (arith, e, wanted, eq_iff known target)
unsettled_status target known d undecided (inr error) e =
    ground (arith, e, error, eq_iff known "error")

judge_status-IsUnsettled :
    (target : String) (v : Value)
    → judge_dict (judge_status target) v ≡ again
    → IsUnsettled target v
judge_status-IsUnsettled target v h = by_dict (assert_dict v) refl h
  where
    by_dict :
        (x : Result (Dict Value))
        → assert_dict v ≡ x
        → (elim x [ err raised ↦ settled (err raised) | ok d ↦ judge_status target d ]) ≡ again
        → IsUnsettled target v
    by_dict (err raised) read undecided = cc
    by_dict (ok d) read undecided = (
      d,
      read,
      unsettled_status target target d undecided (inl refl),
      unsettled_status target "error" d undecided (inr refl),
    )

-- What it takes for a status to be the wanted one.
judge_status-ok :
    (target : String) (v : Value) (status : Dict Value)
    → judge_dict (judge_status target) v ≡ settled (ok status)
    → (assert_dict v ≡ ok status) × (equals_text (get "status" (str "") status) target ≡ true)
unfolding judge_status
judge_status-ok target v status h = ground arith

rounds_time :
    (i timeout interval : ℕ) → 0 < interval → i < timeout / interval → i * interval < timeout
rounds_time i timeout interval positive below =
    let whole : suc i * interval ≤ timeout =
      (le-div_iff_mul-le {k = interval} {x = suc i} {y = timeout} positive).0 (omega arith) in
    omega (arith, whole)

-- The wait has ended in the answer after some rounds, with the wanted status.
abbrev pub Waited :
    {S : Type 0}
    → Server S
    → S
    → Request
    → String
    → (timeout interval : ℕ) → Dict Value
    → Run S (Dict Value)
    → Type 0
Waited serve s q target timeout interval status r =
    (i : ℕ) × (v : Value) × (i * interval < timeout)
    × AllEarlier (IsUnsettled target) serve q i s
    × (answer serve q (asked serve q i s) ≡ ok v)
    × (assert_dict v ≡ ok status)
    × (equals_text (get "status" (str "") status) target ≡ true)
    × (r.log ≡ rounds q interval i ++ (sent q ∷ []))

poll-Waited :
    {S : Type 0} (serve : Server S) (s : S) (q : Request) (target : String) (timeout interval : ℕ)
    (status : Dict Value)
    → 0 < interval
    → (run serve s (
        poll q
          (judge_dict (judge_status target))
          interval
          (err timeout_error)
          (timeout / interval))).result
      ≡ ok status
    → Waited serve s q target timeout interval status (
        run serve s (
          poll q
            (judge_dict (judge_status target))
            interval
            (err timeout_error)
            (timeout / interval)))
poll-Waited serve s q target timeout interval status positive h =
    elim (poll-Ends serve q (judge_dict (judge_status target)) interval (err timeout_error)
      (timeout / interval) s) [
        | inl (i, below, before, inl (raised, read, result), logged) ↦ absurd (cc)
        | inl (i, below, before, inr (v, read, judged), logged) ↦
            let (object, wanted) = judge_status-ok target v status (rw h at judged) in
            (
              i,
              v,
              rounds_time i timeout interval positive below,
              GoesOn-AllEarlier (IsUnsettled target) serve q (judge_dict (judge_status target))
                  interval (err timeout_error) (judge_status-IsUnsettled target) i s before,
              read,
              object,
              wanted,
              logged,
            )
        | inr (before, result, logged) ↦ absurd (cc)
      ]

isgr-poll :
    (db replication_id target : String) (timeout k : ℕ)
    → wait_for_isgr_status db replication_id target timeout (suc k)
      ≡ poll
          (get_request (status_path db replication_id))
          (judge_dict (judge_status target))
          (suc k)
          (err timeout_error)
          (timeout / suc k)
unfolding wait_for_isgr_status
isgr-poll db replication_id target timeout k =
    let e : (suc k == 0) ≡ false = ground arith in rw e refl

-- If `wait_for_isgr_status` raises nothing, it has asked once more than it has paused, all the pauses
-- together are shorter than the timeout, every answer before the last was an object whose status was
-- neither the wanted one nor `error`, and what it returns is the last answer, whose status is the wanted one.
pub wait_for_isgr_status-ok :
    {S : Type 0} (serve : Server S) (s : S) (db replication_id target : String)
    (timeout poll_interval : ℕ) (status : Dict Value)
    → (run serve s (wait_for_isgr_status db replication_id target timeout poll_interval)).result
      ≡ ok status
    → Waited serve s
        (get_request (status_path db replication_id))
        target
        timeout
        poll_interval
        status
        (run serve s (wait_for_isgr_status db replication_id target timeout poll_interval))
unfolding wait_for_isgr_status
wait_for_isgr_status-ok serve s db replication_id target timeout zero status h = unfold run in cc
wait_for_isgr_status-ok serve s db replication_id target timeout (suc k) status h =
    let polls = isgr-poll db replication_id target timeout k in
    rw polls (
      poll-Waited serve s (get_request (status_path db replication_id)) target timeout (suc k)
        status (omega arith) (rw polls at h))
