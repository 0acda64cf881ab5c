-- ===== src/Router/Waiting.antt =====
-- Which futures of client/src/cbltest/websocket_router.py wait, and what they are resolved with.
use couchbase_lite_tests.Prelude.{
  ℕ, ◌≡◌, ◌≢◌, inl, inr, refl, Bool, true, false, Option, none, some, List, [], ◌∷◌, ◌++◌, String,
  ℤ, int_eq, int_beq_iff, arith, ◌==◌, if◌then◌else◌, length, length-append, drop, codes, parse_int,
  get_elem?, Bool-cases,
}
use couchbase_lite_tests.Prelude.Places.{
  set_at, get-set_at, length-set_at, get-append, get_old, get_last,
}
use couchbase_lite_tests.Prelude.IntDict.{find, remove, find-put, find-remove}
use couchbase_lite_tests.Prelude.Dict.{Dict}
use couchbase_lite_tests.Prelude.Result.{Result, ok, err}
use couchbase_lite_tests.Json.{Value, null, bool, int, str, arr, obj, to_dict}
use couchbase_lite_tests.Setup.Hosts.{subscript}
use couchbase_lite_tests.ReplicatorTypes.Entries.{get_or_null}
use couchbase_lite_tests.Router.{
  FutureState, waiting, resolved, failed, cancelled, Pending, set_at, WebSocketRouter, WsMessage,
  breaks, text, error, other, connect, connect_to, connect_at, receive, handle_message, register,
  message_id, set_result, handle_data, cancel,
}

-- The response is to the request with the id.
abbrev pub Answers : Dict Value → ℤ → Type 0
Answers response id = message_id (get_or_null "ts_id" response) ≡ ok (some id)

-- The futures that wait are pending; those that are pending are so under the id that they were registered
-- under; and those that are resolved hold a response to that id.
pub record Inv (p : Pending) (futures : List FutureState) (issued : List ℤ) : Type 0 where
  pub size : length futures ≡ length issued
  pub tracked : (i : ℕ) → get_elem? futures i ≡ some waiting → (id : ℤ) × (find id p ≡ some i)
  pub owned : (id : ℤ) (i : ℕ) → find id p ≡ some i → get_elem? issued i ≡ some id
  pub answered :
      (i : ℕ) (response : Dict Value)
      → get_elem? futures i ≡ some (resolved response)
      → (id : ℤ) × (get_elem? issued i ≡ some id) × Answers response id

abbrev pub InvOf : WebSocketRouter → List ℤ → Type 0
InvOf r issued = Inv r.pending r.futures issued

pub register-Inv :
    (id : ℤ) (r : WebSocketRouter) (issued : List ℤ)
    → find id r.pending ≡ none
    → InvOf r issued
    → InvOf (register id r).1 (issued ++ id ∷ [])
unfolding register
register-Inv id r issued fresh inv = record {
  size =
      omega
        (arith, inv.size, length-append r.futures (waiting ∷ []), length-append issued (id ∷ []));
  tracked = λ i w. elim (get-append r.futures waiting waiting i w) [
    | inl old ↦
        let (j, e) = inv.tracked i old in
        (j, grind (arith, find-put j id (length r.futures) r.pending, int_beq_iff id j))
    | inr (e, _) ↦
        (id, grind (arith, find-put id id (length r.futures) r.pending, int_beq_iff id id))
  ];
  owned = λ j i h. elim (Bool-cases (id == j)) [
    | inl e ↦
        let same_id : id ≡ j = (int_beq_iff id j).0 e in
        let here : length issued ≡ i =
          grind (arith, inv.size, find-put j id (length r.futures) r.pending) in
        rw (← same_id, ← here) (get_last issued id)
    | inr n ↦
        get_old issued (id ∷ []) j i
          (inv.owned j i (grind (arith, find-put j id (length r.futures) r.pending)))
  ];
  answered = λ i response h. elim (get-append r.futures waiting (resolved response) i h) [
    | inl old ↦
        let (j, e, a) = inv.answered i response old in (j, get_old issued (id ∷ []) j i e, a)
    | inr (_, e) ↦ cc
  ];
}

-- One future that was waiting is done.
pub set_at-Inv :
    (p q : Pending) (futures : List FutureState) (issued : List ℤ) (i : ℕ) (f : FutureState)
    → Inv p futures issued
    → f ≢ waiting
    → ((id : ℤ) (j : ℕ) → find id q ≡ some j → find id p ≡ some j)
    → ((id : ℤ) (j : ℕ) → i ≢ j → find id p ≡ some j → find id q ≡ some j)
    → ((response : Dict Value)
        → f ≡ resolved response
        → (id : ℤ) × (get_elem? issued i ≡ some id) × Answers response id)
    → Inv q (set_at i f futures) issued
set_at-Inv p q futures issued i f inv not_waiting fewer others right = record {
  size = omega (arith, length-set_at futures i f, inv.size);
  tracked = λ j w. elim (get-set_at futures i j f waiting w) [
    | inl (_, e) ↦ absurd (not_waiting e)
    | inr (n, old) ↦ let (id, e) = inv.tracked j old in (id, others id j n e)
  ];
  owned = λ id j h. inv.owned id j (fewer id j h);
  answered = λ j response h. elim (get-set_at futures i j f (resolved response) h) [
    | inl (e, v) ↦ let (id, at, a) = right response v in (id, rw (← e) at, a)
    | inr (_, old) ↦ inv.answered j response old
  ];
}

set_result-Inv :
    (id : ℤ) (i : ℕ) (response : Dict Value) (r : WebSocketRouter) (issued : List ℤ)
    → find id r.pending ≡ some i
    → Answers response id
    → InvOf r issued
    → InvOf (set_result i response (record r { pending = remove id r.pending })).0 issued
unfolding set_result
set_result-Inv id i response r issued there answers inv = with_state (get_elem? r.futures i) refl
  where
    fewer : (j : ℤ) (k : ℕ) → find j (remove id r.pending) ≡ some k → find j r.pending ≡ some k
    fewer j k h = grind (arith, find-remove j id r.pending)

    others :
        (j : ℤ) (k : ℕ) → i ≢ k → find j r.pending ≡ some k → find j (remove id r.pending) ≡ some k
    others j k n h = elim (Bool-cases (id == j)) [
      | inl e ↦
          let same_id : id ≡ j = (int_beq_iff id j).0 e in
          let h' : find id r.pending ≡ some k = rw same_id h in
          let same_future : i ≡ k = cc in absurd (n same_future)
      | inr e ↦ grind (arith, find-remove j id r.pending)
    ]

    -- The future that has been taken out is done already.
    unchanged : get_elem? r.futures i ≢ some waiting → Inv (remove id r.pending) r.futures issued
    unchanged was_done = record {
      size = inv.size;
      tracked = λ k w. let (j, e) = inv.tracked k w in (j, others j k (λ e'. was_done (rw e' w)) e);
      owned = λ j k h. inv.owned j k (fewer j k h);
      answered = inv.answered;
    }

    with_state :
        (state : Option FutureState)
        → get_elem? r.futures i ≡ state
        → InvOf (set_result i response (record r { pending = remove id r.pending })).0 issued
    with_state none h = rw (set_result, h) (unchanged (λ e. cc))
    with_state (some waiting) h =
        rw (set_result, h)
          (set_at-Inv r.pending (remove id r.pending) r.futures issued i (resolved response) inv
            (λ e. cc) fewer others
            (λ response' e.
              let same_response : response ≡ response' = cc in
              (id, inv.owned id i there, rw (← same_response) answers)))
    with_state (some (resolved _)) h = rw (set_result, h) (unchanged (λ e. cc))
    with_state (some (failed _)) h = rw (set_result, h) (unchanged (λ e. cc))
    with_state (some cancelled) h = rw (set_result, h) (unchanged (λ e. cc))

connect-Inv :
    (ws : ℕ) (device : Value) (r : WebSocketRouter) (issued : List ℤ)
    → InvOf r issued
    → InvOf (connect ws device r).0 issued
unfolding connect
connect-Inv ws (str device) r issued inv = at_index (parse_int (drop 2 (codes device)))
  where
    at_url : (url : Result String) → InvOf (connect_to ws url r).0 issued
    at_url (err e) = inv
    at_url (ok url) = inv

    at_index : (index : Option ℤ) → InvOf (connect_at ws index r).0 issued
    at_index none = inv
    at_index (some index) = at_url (subscript r.server_urls index)
connect-Inv ws null r issued inv = inv
connect-Inv ws (bool _) r issued inv = inv
connect-Inv ws (int _) r issued inv = inv
connect-Inv ws (arr _) r issued inv = inv
connect-Inv ws (obj _) r issued inv = inv

handle_data-Inv :
    (ws : ℕ) (response : Dict Value) (r : WebSocketRouter) (issued : List ℤ)
    → InvOf r issued
    → InvOf (handle_data ws response r).0 issued
unfolding handle_data
handle_data-Inv ws response r issued inv = with_id (message_id (get_or_null "ts_id" response)) refl
  where
    connected : InvOf (connect ws (get_or_null "device" response) r).0 issued
    connected = connect-Inv ws (get_or_null "device" response) r issued inv

    with_future :
        (id : ℤ) (found : Option ℕ)
        → message_id (get_or_null "ts_id" response) ≡ ok (some id)
        → find id r.pending ≡ found
        → InvOf (handle_data ws response r).0 issued
    with_future id none answers there = rw (handle_data, answers, there) connected
    with_future id (some i) answers there =
        rw (handle_data, answers, there) (set_result-Inv id i response r issued there answers inv)

    with_id :
        (id : Result (Option ℤ))
        → message_id (get_or_null "ts_id" response) ≡ id
        → InvOf (handle_data ws response r).0 issued
    with_id (err e) h = rw (handle_data, h) inv
    with_id (ok none) h = rw (handle_data, h) connected
    with_id (ok (some id)) h = with_future id (find id r.pending) h refl

pub handle_message-Inv :
    (ws : ℕ) (message : WsMessage) (r : WebSocketRouter) (issued : List ℤ)
    → InvOf r issued
    → InvOf (handle_message ws message r).0 issued
unfolding handle_message
handle_message-Inv ws message r issued inv = if_stopping r.stopping
  where
    received : (message : WsMessage) → InvOf (receive ws message r).0 issued
    received (text (err e)) = inv
    received (text (ok (obj fs))) = handle_data-Inv ws (to_dict fs) r issued inv
    received (text (ok null)) = inv
    received (text (ok (bool _))) = inv
    received (text (ok (int _))) = inv
    received (text (ok (str _))) = inv
    received (text (ok (arr _))) = inv
    received error = inv
    received other = inv

    if_stopping :
        (stopping : Bool) → InvOf (if stopping then (r, breaks) else receive ws message r).0 issued
    if_stopping true = inv
    if_stopping false = received message

pub cancel-Inv :
    (i : ℕ) (r : WebSocketRouter) (issued : List ℤ) → InvOf r issued → InvOf (cancel i r) issued
unfolding cancel
cancel-Inv i r issued inv = with_state (get_elem? r.futures i) refl
  where
    with_state :
        (state : Option FutureState) → get_elem? r.futures i ≡ state → InvOf (cancel i r) issued
    with_state none h = rw (cancel, h) inv
    with_state (some waiting) h =
        rw (cancel, h)
          (set_at-Inv r.pending r.pending r.futures issued i cancelled inv (λ e. cc) (λ _ _ e. e)
            (λ _ _ _ e. e) (λ response e. cc))
    with_state (some (resolved _)) h = rw (cancel, h) inv
    with_state (some (failed _)) h = rw (cancel, h) inv
    with_state (some cancelled) h = rw (cancel, h) inv
