-- ===== src/Router.antt =====
-- client/src/cbltest/websocket_router.py: requests that wait for a test server's response.
--
-- A future is its place in the list of all futures that `register` has made. A socket is a number, and the
-- router keeps the sockets that are closed. The JSON of a message comes as what `json.loads` makes of its
-- text. An operation with an `await` in it is cut there into two, between which others may run.
pub mod Waiting
pub mod Stopped
pub mod Delivery
use couchbase_lite_tests.Prelude.{
  ℕ, zero, suc, ◌-◌, ◌+◌, ◌≡◌, Bool, true, false, not, ◌&&◌, Option, none, some, List, [], ◌∷◌,
  ◌++◌, String, codes, ℤ, pos, of_bool, int_eq, nat_eq, ◌==◌, contains, if◌then◌else◌, length, drop,
  get_elem?, parse_int,
}
use couchbase_lite_tests.Prelude.Dict.{Dict, lookup, insert, has_key}
use couchbase_lite_tests.Prelude.Places.{set_at}
use couchbase_lite_tests.Prelude.IntDict.{IntDict, find, put, remove}
use couchbase_lite_tests.Prelude.Result.{
  Error, Result, ok, err, type_error, attribute_error, index_error, runtime_error, exception,
}
use couchbase_lite_tests.Json.{Value, null, bool, int, str, arr, obj, to_dict}
use couchbase_lite_tests.ReplicatorTypes.Entries.{get_or_null}
use couchbase_lite_tests.Setup.Hosts.{subscript, is_nil}

-- A future of asyncio.
pub data FutureState : Type 0 where
  waiting : FutureState
  resolved : Dict Value → FutureState
  failed : Error → FutureState
  cancelled : FutureState

-- `future.done()`
abbrev pub done : FutureState → Bool
done waiting = false
done _ = true

-- The `dict` from the id of a request to its future.
abbrev pub Pending : Type 0
Pending = IntDict ℕ

pub record WebSocketRouter : Type 0 where
  pub server_urls : List String
  pub pending : Pending
  pub futures : List FutureState
  pub connections : Dict ℕ
  -- the value of the semaphore
  pub permits : ℕ
  pub stopping : Bool
  pub closed : List ℕ

abbrev pub new_router : List String → WebSocketRouter
new_router server_urls = record {
  server_urls = server_urls;
  pending = [];
  futures = [];
  connections = [];
  permits = 0;
  stopping = false;
  closed = [];
}

-- `start` up to the loop over the servers.
abbrev pub begin_start : WebSocketRouter → WebSocketRouter
begin_start r = if is_nil r.server_urls then r else record r { stopping = false }

-- The `acquire` in the loop of `start`; it waits while there is no permit.
abbrev pub acquire : WebSocketRouter → Option WebSocketRouter
acquire r = elim r.permits [ zero ↦ none | suc n ↦ some (record r { permits = n }) ]

-- A new future under the id.
unfoldable pub register : ℤ → WebSocketRouter → ℕ × WebSocketRouter
unfolding put
register id r = (
  length r.futures,
  record r { pending = put id (length r.futures) r.pending; futures = r.futures ++ waiting ∷ [] },
)

abbrev pub close_socket : ℕ → List ℕ → List ℕ
close_socket ws closed = if contains closed ws then closed else ws ∷ closed

-- The loop of `stop` over the connections.
abbrev pub close_all : Dict ℕ → List ℕ → List ℕ
close_all [] closed = closed
close_all ((_, ws) ∷ connections) closed = close_all connections (close_socket ws closed)

-- `stop` up to the cleanup of the runner, during which other tasks run.
unfoldable pub begin_stop : WebSocketRouter → WebSocketRouter
begin_stop r = record r { stopping = true; closed = close_all r.connections r.closed }

abbrev pub stopped_future : FutureState → FutureState
stopped_future f = if done f then f else failed runtime_error

abbrev pub fail_at : ℕ → List FutureState → List FutureState
fail_at i [] = []
fail_at zero (f ∷ futures) = stopped_future f ∷ futures
fail_at (suc i) (f ∷ futures) = f ∷ fail_at i futures

-- The loop of `stop` over the futures.
unfoldable pub fail_all : Pending → List FutureState → List FutureState
fail_all [] futures = futures
fail_all ((_, i) ∷ p) futures = fail_all p (fail_at i futures)

-- The rest of `stop`.
unfoldable pub finish_stop : WebSocketRouter → WebSocketRouter
unfolding fail_all
finish_stop r = record r { futures = fail_all r.pending r.futures; pending = [] }

unfoldable pub is_known_ws_url : String → WebSocketRouter → Bool
unfolding has_key
is_known_ws_url url r = has_key url r.connections

unfoldable pub get_websocket_for_write : String → WebSocketRouter → Result ℕ
unfolding is_known_ws_url lookup
get_websocket_for_write url r =
    if not (is_known_ws_url url r)
    then err index_error
    else elim (lookup url r.connections) [ none ↦ err index_error | some ws ↦ ok ws ]

-- What a message is to the router.
pub data WsMessage : Type 0 where
  text : (parsed : Result Value) → WsMessage
  error : WsMessage
  other : WsMessage

-- How the loop over a socket's messages goes on after one.
pub data Outcome : Type 0 where
  continues breaks : Outcome
  raises : Error → Outcome

-- The key that `ts_id` is in a `dict` with integer keys, if it can be one; a list or a `dict` has no hash.
unfoldable pub message_id : Value → Result (Option ℤ)
message_id (int n) = ok (some n)
message_id (bool b) = ok (some (of_bool b))
message_id null = ok none
message_id (str s) = ok none
message_id _ = err type_error

-- `future.set_result(data)` on the future that has been taken out.
unfoldable pub set_result : ℕ → Dict Value → WebSocketRouter → WebSocketRouter × Outcome
unfolding set_at
set_result i response r = elim (get_elem? r.futures i) [
  | some waiting ↦ (record r { futures = set_at i (resolved response) r.futures }, continues)
  | _ ↦ (r, raises exception)
]

abbrev pub reject : ℕ → WebSocketRouter → WebSocketRouter × Outcome
reject ws r = (record r { closed = close_socket ws r.closed }, continues)

-- The socket is the server's from now on, if there is such a server.
abbrev pub connect_to : ℕ → Result String → WebSocketRouter → WebSocketRouter × Outcome
connect_to ws (err _) r = reject ws r
connect_to ws (ok url) r =
    (record r { connections = insert url ws r.connections; permits = suc r.permits }, continues)

abbrev pub connect_at : ℕ → Option ℤ → WebSocketRouter → WebSocketRouter × Outcome
connect_at ws none r = reject ws r
connect_at ws (some index) r = connect_to ws (subscript r.server_urls index) r

-- A device's number is the index of its server. A device that is no text has no slice that is a number.
unfoldable pub connect : ℕ → Value → WebSocketRouter → WebSocketRouter × Outcome
unfolding insert
connect ws null r = (r, continues)
connect ws (str device) r = connect_at ws (parse_int (drop 2 (codes device))) r
connect ws _ r = (r, raises type_error)

abbrev pub pending_future : Option ℤ → Pending → Option ℕ
pending_future none p = none
pending_future (some id) p = find id p

abbrev pub without : Option ℤ → Pending → Pending
without none p = p
without (some id) p = remove id p

unfoldable pub handle_data : ℕ → Dict Value → WebSocketRouter → WebSocketRouter × Outcome
unfolding message_id set_result connect find remove get_or_null
handle_data ws response r = elim (message_id (get_or_null "ts_id" response)) [
  | err e ↦ (r, raises e)
  | ok id ↦ elim (pending_future id r.pending) [
    | some i ↦ set_result i response (record r { pending = without id r.pending })
    | none ↦ connect ws (get_or_null "device" response) r
  ]
]

-- One message of a socket, while the router is not stopping.
abbrev pub receive : ℕ → WsMessage → WebSocketRouter → WebSocketRouter × Outcome
receive ws (text (err e)) r = (r, raises e)
receive ws (text (ok (obj fs))) r = handle_data ws (to_dict fs) r
receive ws (text (ok _)) r = (r, raises attribute_error)
receive ws _ r = (r, continues)

-- The body of the loop of `_websocket_handler`.
unfoldable pub handle_message : ℕ → WsMessage → WebSocketRouter → WebSocketRouter × Outcome
unfolding handle_data
handle_message ws message r = if r.stopping then (r, breaks) else receive ws message r

-- The task that awaits a future is cancelled.
unfoldable pub cancel : ℕ → WebSocketRouter → WebSocketRouter
unfolding set_at
cancel i r = elim (get_elem? r.futures i) [
  | some waiting ↦ record r { futures = set_at i cancelled r.futures }
  | _ ↦ r
]

-- What can have happened since the router was made. The list holds the id that each future was
-- registered under; an id is not registered again while it is pending, since message numbers are not
-- used twice.
pub data Reachable (server_urls : List String) : WebSocketRouter → List ℤ → Type 0 where
  made : Reachable server_urls (new_router server_urls) []
  starts :
      {r : WebSocketRouter} {issued : List ℤ}
      → Reachable server_urls r issued
      → Reachable server_urls (begin_start r) issued
  acquires :
      {r : WebSocketRouter} {issued : List ℤ} (s : WebSocketRouter)
      → Reachable server_urls r issued
      → acquire r ≡ some s
      → Reachable server_urls s issued
  registers :
      {r : WebSocketRouter} {issued : List ℤ} (id : ℤ)
      → Reachable server_urls r issued
      → find id r.pending ≡ none
      → Reachable server_urls (register id r).1 (issued ++ id ∷ [])
  receives :
      {r : WebSocketRouter} {issued : List ℤ} (ws : ℕ) (message : WsMessage)
      → Reachable server_urls r issued
      → Reachable server_urls (handle_message ws message r).0 issued
  cancels :
      {r : WebSocketRouter} {issued : List ℤ} (i : ℕ)
      → Reachable server_urls r issued
      → Reachable server_urls (cancel i r) issued
  peer_closes :
      {r : WebSocketRouter} {issued : List ℤ} (ws : ℕ)
      → Reachable server_urls r issued
      → Reachable server_urls (record r { closed = close_socket ws r.closed }) issued
  begins_stop :
      {r : WebSocketRouter} {issued : List ℤ}
      → Reachable server_urls r issued
      → Reachable server_urls (begin_stop r) issued
  finishes_stop :
      {r : WebSocketRouter} {issued : List ℤ}
      → Reachable server_urls r issued
      → Reachable server_urls (finish_stop r) issued
