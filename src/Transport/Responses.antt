-- ===== src/Transport/Responses.antt =====
-- client/src/cbltest/requests_transport.py: which response a request gets, and what it is read as.
use Prim.Native.String.{◌++◌ as str_append}
use mathlib.Core.Path.{subst}
use couchbase_lite_tests.Prelude.{
  ℕ, ◌≡◌, ◌≢◌, refl, ap, sym, ◌∙◌, Bool, true, false, Option, none, some, List, [], ◌∷◌, ◌++◌,
  String, Bool-cases, Option-cases, inl, inr, ℤ, pos, int_eq, int_beq_iff, ◌==◌, if◌then◌else◌,
  length, get_elem?, arith, ltb, string_eq,
}
use couchbase_lite_tests.Prelude.Dict.{Dict, lookup, insert, lookup-insert}
use couchbase_lite_tests.Prelude.Result.{Result, ok, err, test_server_error, ◌>>=◌, >>=-eq-ok}
use couchbase_lite_tests.Json.{Value, to_dict, int, obj, of_dict, int_type, null, str}
use couchbase_lite_tests.ReplicatorTypes.Entries.{get_or_null}
use couchbase_lite_tests.Router.{
  WebSocketRouter, resolved, get_websocket_for_write, message_id, register, Reachable,
}
use couchbase_lite_tests.Router.Waiting.{Answers}
use couchbase_lite_tests.Router.Stopped.{Reachable-Answers, Reachable-Inv}
use couchbase_lite_tests.Transport.{
  TestServerRequest, ws_data, ws_begin_send, ws_finish_send, class_of, some_uuid, good_status,
  version_entry, error_status, registered, response_version, payload_or_empty, insert_if,
  insert_name,
}

-- What is handed to a socket names the number.
abbrev pub IsNumbered : ℤ → Result (ℕ × Dict Value) → Type 0
IsNumbered n (err raised) = Unit
IsNumbered n (ok (ws, message)) = lookup "ts_id" message ≡ some (int n)

lookup-insert_if :
    (test : Bool) (key j : String) (v : Value) (d : Dict Value)
    → (key == j) ≡ false
    → lookup j (insert_if test key v d) ≡ lookup j d
lookup-insert_if true key j v d other = ground (arith, lookup-insert j key v d)
lookup-insert_if false key j v d other = refl

lookup-insert_name :
    (name : Option String) (d : Dict Value) → lookup "ts_id" (insert_name name d) ≡ lookup "ts_id" d
lookup-insert_name none d = refl
lookup-insert_name (some name) d = ground (arith, lookup-insert "ts_id" "ts_testName" (str name) d)

-- The message that is sent names its number, whatever its payload has.
ts_id-ws_data :
    {T : Type 0} (request : TestServerRequest T) (n : ℤ) (request_id : String)
    (test_name : Option String)
    → lookup "ts_id" (ws_data request n request_id test_name) ≡ some (int n)
unfolding ws_data
ts_id-ws_data request n request_id test_name =
    let versioned = ltb 0 request.version in
    let data_0 = insert "ts_id" (int n) (payload_or_empty request.payload) in
    let data_1 = insert "ts_command" (str (str_append "/" request.http_name)) data_0 in
    let data_2 = insert_if versioned "ts_clientID" (str request.uuid) data_1 in
    let data_3 = insert_if versioned "ts_apiVersion" (int (pos request.version)) data_2 in
    let data_4 = insert_if versioned "ts_requestID" (str request_id) data_3 in
    lookup-insert_name test_name data_4
    ∙ lookup-insert_if versioned "ts_requestID" "ts_id" (str request_id) data_3 refl
    ∙ lookup-insert_if versioned "ts_apiVersion" "ts_id" (int (pos request.version)) data_2 refl
    ∙ lookup-insert_if versioned "ts_clientID" "ts_id" (str request.uuid) data_1 refl
    ∙ lookup-insert "ts_id" "ts_command" (str (str_append "/" request.http_name)) data_0
    ∙ lookup-insert "ts_id" "ts_id" (int n) (payload_or_empty request.payload)

numbered :
    (n : ℤ) (message : Dict Value) (x : Result ℕ)
    → lookup "ts_id" message ≡ some (int n)
    → IsNumbered n (x >>= λ ws. ok (ws, message))
numbered n message (err raised) h = tt
numbered n message (ok ws) h = h

issued_at :
    (issued more : List ℤ) (n : ℤ) → get_elem? (issued ++ (n ∷ more)) (length issued) ≡ some n
issued_at [] more n = refl
issued_at (x ∷ issued) more n = issued_at issued more n

-- A request over a web socket gets no other request's response. Where, after some history of the router,
-- a request is sent with a number that is not pending, then after any further history, in which no number
-- is used again while it is pending, the response that its future is resolved with names that number. The
-- message for the server, where it has connected, names it too, whatever the payload has.
pub ws_begin_send-answered :
    {T : Type 0} (server_urls : List String) (r t : WebSocketRouter) (issued more : List ℤ)
    (url : String) (request : TestServerRequest T) (n : ℤ) (request_id : String)
    (test_name : Option String) (response : Dict Value)
    → Reachable server_urls r issued
    → Reachable server_urls t (issued ++ (n ∷ more))
    → get_elem? t.futures (ws_begin_send url request n request_id test_name r).0.0
      ≡ some (resolved response)
    → Answers response n × IsNumbered n (ws_begin_send url request n request_id test_name r).0.1
unfolding ws_begin_send register
ws_begin_send-answered server_urls r t issued more url request n request_id test_name response
      before later found =
    let size = (Reachable-Inv server_urls r issued before).size in
    let (id, own, answers) =
      Reachable-Answers server_urls t (issued ++ (n ∷ more)) (length r.futures) response later
        found in
    let same : some id ≡ some n = sym own ∙ (rw size (issued_at issued more n)) in
    (
      answers ∙ ap (λ (o : Option ℤ). ok o) same,
      numbered n (ws_data request n request_id test_name)
          (get_websocket_for_write url (register n r).1)
          (ts_id-ws_data request n request_id test_name),
    )

some_uuid-ok : (x uuid : Value) → some_uuid x ≡ ok uuid → (x ≡ uuid) × (uuid ≢ null)
some_uuid-ok null uuid h = cc
some_uuid-ok (str s) uuid h = (cc, λ e. cc)
some_uuid-ok _ uuid h = (cc, λ e. cc)

abbrev by_code : {R : Type 0} → R → Option ℤ → Result R
by_code response code = elim code [
  | none ↦ err (test_server_error none)
  | some n ↦ if n == pos 200 then ok response else err (test_server_error (some n))
]

good_code :
    {R : Type 0} (response made : R) (code : Option ℤ)
    → by_code response code ≡ ok made
    → (response ≡ made) × (code ≡ some (pos 200))
good_code response made none h = cc
good_code response made (some n) h = ground (arith, int_beq_iff n (pos 200))

good_status-ok :
    {R : Type 0} (status_code : R → Value) (response made : R)
    → good_status status_code response ≡ ok made
    → (response ≡ made) × (int_type.cast (status_code response) ≡ some (pos 200))
good_status-ok status_code response made h =
    good_code response made (int_type.cast (status_code response)) h

-- There is no error, or its code is 200.
abbrev pub IsGood : Value → Type 0
IsGood null = Unit
IsGood (obj error) =
    (code : Value) × (lookup "code" (to_dict error) ≡ some code)
    × (int_type.cast code ≡ some (pos 200))
IsGood _ = ⊥

registered-ok : {A : Type 0} (x : Option A) (a : A) → registered x ≡ ok a → x ≡ some a
registered-ok none a h = cc
registered-ok (some b) a h = cc

error_status-IsGood :
    (error status : Value)
    → error_status error ≡ ok status
    → int_type.cast status ≡ some (pos 200)
    → IsGood error
error_status-IsGood null status h good = tt
error_status-IsGood (obj error) status h good =
    elim (Option-cases (lookup "code" (to_dict error))) [
      | inl missing ↦
          let same : status ≡ int (pos 500) = ground (arith, missing) in
          absurd (ground (arith, rw same at good))
      | inr (code, found) ↦
          let same : status ≡ code = ground (arith, found) in (code, found, rw same at good)
    ]
error_status-IsGood _ status h good = absurd (cc)

module _ {T R : Type 0} (status_code : R → Value)
    (response_class : T → Option ℤ → Option (Value → Value → Value → Result R))
    (root_response : Value → Value → Value → Result R) where
  -- The class of a response keeps the status that it is given.
  abbrev pub KeepsStatus : (Value → Value → Value → Result R) → Type 0
  KeepsStatus read =
      (status uuid content : Value) (made : R)
      → read status uuid content ≡ ok made
      → status_code made ≡ status

  class_of-KeepsStatus :
      (request : TestServerRequest T) (version : Value) (read : Value → Value → Value → Result R)
      → KeepsStatus root_response
      → ((request_type : T) (number : Option ℤ) (other : Value → Value → Value → Result R)
          → response_class request_type number ≡ some other
          → KeepsStatus other)
      → class_of response_class root_response request version ≡ ok read
      → KeepsStatus read
  unfolding class_of
  class_of-KeepsStatus request version read root classes h = elim (Bool-cases request.is_root) [
    | inl is_root ↦
        let same : root_response ≡ read = ground (arith, is_root) in
        subst (λ r. KeepsStatus r) same root
    | inr not_root ↦
        let (number, _, found) =
          >>=-eq-ok (message_id version)
            (λ number.
              registered
                (response_class request.request_type (response_version request.version number)))
            (rw not_root at h) in
        classes request.request_type (response_version request.version number) read
          (registered-ok _ read found)
  ]

  -- Where every class of a response keeps the status that it is given, `send` over a web socket returns a
  -- response only if its status is 200, the server has named its ID, and `ts_error` is not there or is an
  -- object whose code is 200: an error with another code or with none is raised.
  pub ws_finish_send-IsGood :
      (request : TestServerRequest T) (response : Dict Value) (made : R)
      → KeepsStatus root_response
      → ((request_type : T) (number : Option ℤ) (other : Value → Value → Value → Result R)
          → response_class request_type number ≡ some other
          → KeepsStatus other)
      → ws_finish_send status_code response_class root_response request response ≡ ok made
      → (int_type.cast (status_code made) ≡ some (pos 200))
        × (get_or_null "ts_serverID" response ≢ null)
        × IsGood (get_or_null "ts_error" response)
  unfolding ws_finish_send
  ws_finish_send-IsGood request response made root classes h =
      let (uuid, h_uuid, h1) = >>=-eq-ok (some_uuid (get_or_null "ts_serverID" response)) _ h in
      let (read, h_read, h2) =
        >>=-eq-ok (class_of response_class root_response request (version_entry response)) _ h1 in
      let (status, h_status, h3) =
        >>=-eq-ok (error_status (get_or_null "ts_error" response)) _ h2 in
      let (m, h_made, h4) = >>=-eq-ok (read status uuid (obj (of_dict response))) _ h3 in
      let (same_uuid, present) = some_uuid-ok (get_or_null "ts_serverID" response) uuid h_uuid in
      let (same, good) = good_status-ok status_code m made h4 in
      let kept : status_code m ≡ status =
        class_of-KeepsStatus request (version_entry response) read root classes h_read status uuid
          (obj (of_dict response)) m h_made in
      (
        subst (λ x. int_type.cast (status_code x) ≡ some (pos 200)) same good,
        λ e. present (sym same_uuid ∙ e),
        error_status-IsGood (get_or_null "ts_error" response) status h_status (rw kept at good),
      )
