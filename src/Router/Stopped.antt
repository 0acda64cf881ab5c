-- ===== src/Router/Stopped.antt =====
-- What every history of client/src/cbltest/websocket_router.py has in common, and what `stop` leaves.
use couchbase_lite_tests.Prelude.{
  ℕ, zero, suc, ◌≡◌, ◌≢◌, refl, ap, ◌∙◌, Bool, true, false, none, some, List, [], ◌∷◌, String, ℤ,
  int_eq, arith, ◌==◌, if◌then◌else◌, length, get_elem?, All,
}
use couchbase_lite_tests.Prelude.IntDict.{find}
use couchbase_lite_tests.Prelude.Dict.{Dict}
use couchbase_lite_tests.Json.{Value}
use couchbase_lite_tests.Setup.Hosts.{is_nil}
use couchbase_lite_tests.Router.{
  FutureState, waiting, resolved, failed, cancelled, done, Pending, WebSocketRouter, begin_start,
  begin_stop, acquire, fail_at, fail_all, finish_stop, Reachable, made, starts, acquires, registers,
  receives, cancels, peer_closes, begins_stop, finishes_stop,
}
use couchbase_lite_tests.Router.Waiting.{
  InvOf, Answers, register-Inv, handle_message-Inv, cancel-Inv,
}

-- `future.done()`
abbrev pub IsDone : FutureState → Type 0
IsDone f = done f ≡ true

length-fail_at : (i : ℕ) (futures : List FutureState) → length (fail_at i futures) ≡ length futures
length-fail_at i [] = refl
length-fail_at zero (f ∷ futures) = refl
length-fail_at (suc i) (f ∷ futures) = ap suc (length-fail_at i futures)

length-fail_all :
    (p : Pending) (futures : List FutureState) → length (fail_all p futures) ≡ length futures
unfolding fail_all
length-fail_all [] futures = refl
length-fail_all ((id, i) ∷ p) futures =
    length-fail_all p (fail_at i futures) ∙ length-fail_at i futures

fail_at-waiting :
    (i j : ℕ) (futures : List FutureState)
    → get_elem? (fail_at i futures) j ≡ some waiting
    → (get_elem? futures j ≡ some waiting) × (i ≢ j)
fail_at-waiting i j [] h = cc
fail_at-waiting zero zero (waiting ∷ futures) h = cc
fail_at-waiting zero zero (resolved _ ∷ futures) h = cc
fail_at-waiting zero zero (failed _ ∷ futures) h = cc
fail_at-waiting zero zero (cancelled ∷ futures) h = cc
fail_at-waiting zero (suc j) (f ∷ futures) h = (h, omega arith)
fail_at-waiting (suc i) zero (f ∷ futures) h = (h, omega arith)
fail_at-waiting (suc i) (suc j) (f ∷ futures) h =
    let (e, n) = fail_at-waiting i j futures h in (e, omega arith)

fail_at-resolved :
    (i j : ℕ) (futures : List FutureState) (response : Dict Value)
    → get_elem? (fail_at i futures) j ≡ some (resolved response)
    → get_elem? futures j ≡ some (resolved response)
fail_at-resolved i j [] response h = cc
fail_at-resolved zero zero (waiting ∷ futures) response h = cc
fail_at-resolved zero zero (resolved _ ∷ futures) response h = h
fail_at-resolved zero zero (failed _ ∷ futures) response h = cc
fail_at-resolved zero zero (cancelled ∷ futures) response h = cc
fail_at-resolved zero (suc j) (f ∷ futures) response h = h
fail_at-resolved (suc i) zero (f ∷ futures) response h = h
fail_at-resolved (suc i) (suc j) (f ∷ futures) response h = fail_at-resolved i j futures response h

-- A future that waits after the loop has waited before, and was not pending.
fail_all-waiting :
    (p : Pending) (futures : List FutureState) (i : ℕ)
    → get_elem? (fail_all p futures) i ≡ some waiting
    → (get_elem? futures i ≡ some waiting) × ((id : ℤ) → find id p ≢ some i)
unfolding fail_all find
fail_all-waiting [] futures i h = (h, λ id e. cc)
fail_all-waiting ((j, k) ∷ p) futures i h =
    let (later, others) = fail_all-waiting p (fail_at k futures) i h in
    let (before, n) = fail_at-waiting k i futures later in
    (before, λ id e. not_found id (j == id) (others id) n e)
  where
    not_found :
        (id : ℤ) (here : Bool)
        → find id p ≢ some i
        → k ≢ i
        → (if here then some k else find id p) ≢ some i
    not_found id true others n e = let same_future : k ≡ i = cc in n same_future
    not_found id false others n e = others e

-- A future that is resolved after the loop was resolved before.
fail_all-resolved :
    (p : Pending) (futures : List FutureState) (i : ℕ) (response : Dict Value)
    → get_elem? (fail_all p futures) i ≡ some (resolved response)
    → get_elem? futures i ≡ some (resolved response)
unfolding fail_all
fail_all-resolved [] futures i response h = h
fail_all-resolved ((_, k) ∷ p) futures i response h =
    fail_at-resolved k i futures response (fail_all-resolved p (fail_at k futures) i response h)

finish_stop-Inv :
    (r : WebSocketRouter) (issued : List ℤ) → InvOf r issued → InvOf (finish_stop r) issued
unfolding finish_stop find
finish_stop-Inv r issued inv = record {
  size = length-fail_all r.pending r.futures ∙ inv.size;
  tracked = λ i h.
      let (w, n) = fail_all-waiting r.pending r.futures i h in
      let (id, e) = inv.tracked i w in absurd (n id e);
  owned = λ id i h. cc;
  answered =
      λ i response h. inv.answered i response (fail_all-resolved r.pending r.futures i response h);
}

begin_start-Inv :
    (r : WebSocketRouter) (issued : List ℤ) → InvOf r issued → InvOf (begin_start r) issued
begin_start-Inv r issued inv = with_test (is_nil r.server_urls)
  where
    with_test : (b : Bool) → InvOf (if b then r else record r { stopping = false }) issued
    with_test true = inv
    with_test false = inv

acquire-Inv :
    (r s : WebSocketRouter) (issued : List ℤ) → acquire r ≡ some s → InvOf r issued → InvOf s issued
acquire-Inv r s issued h inv = with_permits r.permits h
  where
    with_permits :
        (permits : ℕ)
        → (elim permits [ zero ↦ none | suc n ↦ some (record r { permits = n }) ]) ≡ some s
        → InvOf s issued
    with_permits zero e = cc
    with_permits (suc n) e =
        let same_router : record r { permits = n } ≡ s = cc in rw (← same_router) inv

pub Reachable-Inv :
    (server_urls : List String) (r : WebSocketRouter) (issued : List ℤ)
    → Reachable server_urls r issued
    → InvOf r issued
unfolding find begin_stop
Reachable-Inv server_urls r issued made = record {
  size = refl;
  tracked = λ i h. cc;
  owned = λ id i h. cc;
  answered = λ i response h. cc;
}
Reachable-Inv server_urls r issued (starts {r = s} h) =
    begin_start-Inv s issued (Reachable-Inv server_urls s issued h)
Reachable-Inv server_urls r issued (acquires {r = s} _ h e) =
    acquire-Inv s r issued e (Reachable-Inv server_urls s issued h)
Reachable-Inv server_urls r issued (registers {r = s} {issued = before} id h fresh) =
    register-Inv id s before fresh (Reachable-Inv server_urls s before h)
Reachable-Inv server_urls r issued (receives {r = s} ws message h) =
    handle_message-Inv ws message s issued (Reachable-Inv server_urls s issued h)
Reachable-Inv server_urls r issued (cancels {r = s} i h) =
    cancel-Inv i s issued (Reachable-Inv server_urls s issued h)
Reachable-Inv server_urls r issued (peer_closes {r = s} ws h) = Reachable-Inv server_urls s issued h
Reachable-Inv server_urls r issued (begins_stop {r = s} h) = Reachable-Inv server_urls s issued h
Reachable-Inv server_urls r issued (finishes_stop {r = s} h) =
    finish_stop-Inv s issued (Reachable-Inv server_urls s issued h)

-- After any history of a router, in which no id is registered again while it is pending, each future that
-- is resolved holds a response whose `ts_id` is the id that this future was registered under.
pub Reachable-Answers :
    (server_urls : List String) (r : WebSocketRouter) (issued : List ℤ) (i : ℕ)
    (response : Dict Value)
    → Reachable server_urls r issued
    → get_elem? r.futures i ≡ some (resolved response)
    → (id : ℤ) × (get_elem? issued i ≡ some id) × Answers response id
Reachable-Answers server_urls r issued i response h e =
    let inv = Reachable-Inv server_urls r issued h in inv.answered i response e

all-IsDone :
    (futures : List FutureState)
    → ((i : ℕ) → get_elem? futures i ≢ some waiting)
    → All IsDone futures
all-IsDone [] n = tt
all-IsDone (waiting ∷ futures) n = absurd (n 0 refl)
all-IsDone (resolved _ ∷ futures) n = (refl, all-IsDone futures (λ i. n (suc i)))
all-IsDone (failed _ ∷ futures) n = (refl, all-IsDone futures (λ i. n (suc i)))
all-IsDone (cancelled ∷ futures) n = (refl, all-IsDone futures (λ i. n (suc i)))

-- When a router has stopped, after any history in which no id is registered again while it is pending,
-- every future that `register` ever gave out is done, and none is pending: no request waits for ever.
pub finish_stop-IsDone :
    (server_urls : List String) (r : WebSocketRouter) (issued : List ℤ)
    → Reachable server_urls r issued
    → All IsDone (finish_stop r).futures
      × (length (finish_stop r).futures ≡ length issued)
      × ((finish_stop r).pending ≡ [])
unfolding finish_stop find
finish_stop-IsDone server_urls r issued h =
    let inv = Reachable-Inv server_urls r issued h in
    let after = finish_stop-Inv r issued inv in
    (
      all-IsDone (finish_stop r).futures (λ i w. let (id, e) = after.tracked i w in cc),
      after.size,
      refl,
    )
