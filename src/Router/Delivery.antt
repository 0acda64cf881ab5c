-- ===== src/Router/Delivery.antt =====
-- A request and its response in client/src/cbltest/websocket_router.py.
use couchbase_lite_tests.Prelude.{
  ℕ, ◌≡◌, refl, ap, ◌∙◌, Bool, false, none, some, List, [], ◌∷◌, ◌++◌, ℤ, int_eq, int_beq_iff,
  arith, ◌==◌, if◌then◌else◌, length,
}
use couchbase_lite_tests.Prelude.IntDict.{find, put, remove, find-put, find-remove}
use couchbase_lite_tests.Prelude.Places.{get_last, set_at}
use couchbase_lite_tests.Prelude.Dict.{Dict}
use couchbase_lite_tests.Prelude.Result.{ok}
use couchbase_lite_tests.Json.{Value, Fields, to_dict, obj}
use couchbase_lite_tests.Router.{
  FutureState, Pending, waiting, resolved, WebSocketRouter, text, breaks, continues, register,
  set_result, handle_data, handle_message,
}
use couchbase_lite_tests.Router.Waiting.{Answers}

set_last :
    (futures : List FutureState) (f g : FutureState)
    → set_at (length futures) g (futures ++ f ∷ []) ≡ futures ++ g ∷ []
unfolding set_at
set_last [] f g = refl
set_last (x ∷ futures) f g = ap (◌∷◌ x) (set_last futures f g)

find_registered :
    (id : ℤ) (r : WebSocketRouter) → find id (register id r).1.pending ≡ some (length r.futures)
unfolding register
find_registered id r = grind (arith, find-put id id (length r.futures) r.pending, int_beq_iff id id)

-- The router after the request and its response.
abbrev answered : ℤ → Dict Value → WebSocketRouter → WebSocketRouter
answered id response r = record r {
  pending = remove id (put id (length r.futures) r.pending);
  futures = r.futures ++ resolved response ∷ [];
}

set_result-register :
    (id : ℤ) (response : Dict Value) (r : WebSocketRouter)
    → let s = (register id r).1 in
      set_result (length r.futures) response (record s { pending = remove id s.pending })
      ≡ (answered id response r, continues)
unfolding set_result register
set_result-register id response r =
    rw (set_result, get_last r.futures waiting, set_last r.futures waiting (resolved response)) refl

handle_data-register :
    (id : ℤ) (ws : ℕ) (response : Dict Value) (r : WebSocketRouter)
    → Answers response id
    → handle_data ws response (register id r).1 ≡ (answered id response r, continues)
unfolding handle_data
handle_data-register id ws response r answers =
    rw (handle_data, answers, find_registered id r) (set_result-register id response r)

handle_message-eq :
    (id : ℤ) (ws : ℕ) (response : Fields) (r : WebSocketRouter)
    → r.stopping ≡ false
    → Answers (to_dict response) id
    → handle_message ws (text (ok (obj response))) (register id r).1
      ≡ (answered id (to_dict response) r, continues)
unfolding handle_message register
handle_message-eq id ws response r goes answers =
    if_stopping r.stopping goes ∙ handle_data-register id ws (to_dict response) r answers
  where
    if_stopping :
        (stopping : Bool)
        → stopping ≡ false
        → (if stopping
            then ((register id r).1, breaks)
            else handle_data ws (to_dict response) (register id r).1)
          ≡ handle_data ws (to_dict response) (register id r).1
    if_stopping b h = rw h refl

-- After a request has been registered, a response with its id, from any socket and while the router is
-- not stopping, resolves the request's new future and changes no other one, and takes the id out of those
-- that are pending; every other id keeps its future.
pub handle_message-register :
    (id other : ℤ) (ws : ℕ) (response : Fields) (r : WebSocketRouter)
    → r.stopping ≡ false
    → Answers (to_dict response) id
    → let t = (handle_message ws (text (ok (obj response))) (register id r).1).0 in
      ((handle_message ws (text (ok (obj response))) (register id r).1).1 ≡ continues)
      × (t.futures ≡ r.futures ++ resolved (to_dict response) ∷ [])
      × (find other t.pending ≡ (if id == other then none else find other r.pending))
handle_message-register id other ws response r goes answers =
    rw (handle_message-eq id ws response r goes answers) (refl, refl, others (id == other) refl)
  where
    p : Pending
    p = put id (length r.futures) r.pending

    others :
        (b : Bool)
        → (id == other) ≡ b
        → find other (remove id p) ≡ (if b then none else find other r.pending)
    others b h =
        rw (find-remove other id p, find-put other id (length r.futures) r.pending, h)
          (ground arith)
