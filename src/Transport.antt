-- ===== src/Transport.antt =====
-- client/src/cbltest/requests_transport.py: a request to a test server over a web socket or HTTP, and what
-- is made of its response; with the registries of requests.py and responses.py as parameters.
pub mod Responses
pub mod Bodies
pub mod Factory
pub mod Registered
use Prim.Native.String.{◌++◌ as str_append}
use couchbase_lite_tests.Prelude.{
  ℕ, zero, suc, ◌<◌, ◌≡◌, Bool, true, false, not, ◌&&◌, Option, none, some, List, [], ◌∷◌, String,
  ℤ, pos, ltb, int_eq, nat_eq, ◌==◌, if◌then◌else◌, codes, parse_int, Text, string_eq, has_text,
}
use couchbase_lite_tests.Prelude.Dict.{Dict, lookup, insert}
use couchbase_lite_tests.Prelude.Result.{
  Error, Result, ok, err, ◌>>=◌, ◌>>◌, guard, attribute_error, value_error, key_error,
  cbl_test_error, test_server_error,
}
use couchbase_lite_tests.Json.{Value, null, int, str, obj, end, to_dict, of_dict, int_type}
use couchbase_lite_tests.ReplicatorTypes.Entries.{get_or_null}
use couchbase_lite_tests.Router.{WebSocketRouter, register, get_websocket_for_write, message_id}

-- A request: its class, and what the base class keeps of it.
pub record TestServerRequest (T : Type 0) : Type 0 where
  pub request_type : T
  pub is_root : Bool
  pub version : ℕ
  pub uuid : String
  pub http_name : String
  pub payload : Option (Dict Value)

abbrev pub payload_or_empty : Option (Dict Value) → Dict Value
payload_or_empty none = []
payload_or_empty (some d) = d

abbrev insert_if : Bool → String → Value → Dict Value → Dict Value
insert_if test key v d = if test then insert key v d else d

abbrev insert_name : Option String → Dict Value → Dict Value
insert_name none d = d
insert_name (some name) d = insert "ts_testName" (str name) d

module _ {T : Type 0} where
  -- The object that is sent: the payload, and what a header says over HTTP.
  unfoldable pub ws_data :
      TestServerRequest T → ℤ → (request_id : String) → (test_name : Option String) → Dict Value
  unfolding insert
  ws_data request message_no request_id test_name =
      let data_0 = insert "ts_id" (int message_no) (payload_or_empty request.payload) in
      let data_1 = insert "ts_command" (str (str_append "/" request.http_name)) data_0 in
      let versioned = ltb 0 request.version in
      let data_2 = insert_if versioned "ts_clientID" (str request.uuid) data_1 in
      let data_3 = insert_if versioned "ts_apiVersion" (int (pos request.version)) data_2 in
      let data_4 = insert_if versioned "ts_requestID" (str request_id) data_3 in
      insert_name test_name data_4

  -- `send` over a web socket up to the sending: the place of the future, and the socket with the message
  -- for it, where the server has connected.
  unfoldable pub ws_begin_send :
      String
      → TestServerRequest T
      → ℤ
      → String
      → Option String
      → WebSocketRouter
      → (ℕ × Result (ℕ × Dict Value)) × WebSocketRouter
  unfolding register get_websocket_for_write ws_data
  ws_begin_send url request message_no request_id test_name r =
      let (future, s) = register message_no r in
      (
        (
          future,
          do
            ws ← get_websocket_for_write url s
            ok (ws, ws_data request message_no request_id test_name),
        ),
        s,
      )

-- The version of the response: a response that has none has the request's.
abbrev pub response_version : (request_version : ℕ) → Option ℤ → Option ℤ
response_version request_version none = none
response_version request_version (some version) =
    if version == pos 0 then some (pos request_version) else some version

-- The status of a response over a web socket.
abbrev pub error_status : Value → Result Value
error_status null = ok (int (pos 200))
error_status (obj error) =
    ok (elim (lookup "code" (to_dict error)) [ none ↦ int (pos 500) | some code ↦ code ])
error_status _ = err attribute_error

-- `response.get("ts_apiVersion", 0)`
abbrev pub version_entry : Dict Value → Value
version_entry response = elim (lookup "ts_apiVersion" response) [ none ↦ int (pos 0) | some v ↦ v ]

abbrev some_uuid : Value → Result Value
some_uuid null = err cbl_test_error
some_uuid v = ok v

abbrev pub registered : {A : Type 0} → Option A → Result A
registered none = err value_error
registered (some a) = ok a

-- A response over HTTP: the headers that are looked at, and what its `json()` gives or raises.
pub record HttpResponse : Type 0 where
  pub status : ℤ
  pub is_ok : Bool
  pub api_version : Option String
  pub server_id : Option String
  pub content_type : Option String
  pub content_length : Option ℕ
  pub json : Result Value

abbrev required_header : Error → Option String → Result String
required_header raised none = err raised
required_header raised (some s) = ok s

-- `int(header)`, or 0 where there is none
unfoldable pub header_version : Option String → Result ℤ
unfolding parse_int
header_version none = ok (pos 0)
header_version (some header) = elim (parse_int (codes header)) [
  | none ↦ err value_error
  | some n ↦ ok n
]

abbrev is_empty_body : Option ℕ → Bool
is_empty_body none = false
is_empty_body (some n) = n == 0

-- A body that is not JSON is left out.
unfoldable pub response_content : HttpResponse → Result Value
unfolding has_text
response_content response = if is_empty_body response.content_length then ok (obj end) else (do
  content_type ← required_header key_error response.content_type
  if has_text (codes content_type) (codes "application/json") then response.json else ok (obj end))

-- A response whose status is not 200 is raised with it.
abbrev pub good_status : {R : Type 0} → (R → Value) → R → Result R
good_status status_code response = elim (int_type.cast (status_code response)) [
  | none ↦ err (test_server_error none)
  | some code ↦ if code == pos 200 then ok response else err (test_server_error (some code))
]

-- The class that is registered for the responses to a class of requests in a version, and the class of the
-- responses to the one request that has no version.
module _ {T R : Type 0} (response_class : T → Option ℤ → Option (Value → Value → Value → Result R))
    (root_response : Value → Value → Value → Result R) where
  -- The class that reads the response.
  unfoldable pub class_of : TestServerRequest T → Value → Result (Value → Value → Value → Result R)
  unfolding message_id
  class_of request version = if request.is_root then ok root_response else (do
    number ← message_id version
    registered (response_class request.request_type (response_version request.version number)))

module _ {T R : Type 0} (status_code : R → Value)
    (response_class : T → Option ℤ → Option (Value → Value → Value → Result R))
    (root_response : Value → Value → Value → Result R) where
  -- `send` over a web socket, after the response.
  unfoldable pub ws_finish_send : TestServerRequest T → Dict Value → Result R
  unfolding get_or_null lookup class_of
  ws_finish_send request response = do
    uuid ← some_uuid (get_or_null "ts_serverID" response)
    read ← class_of response_class root_response request (version_entry response)
    status ← error_status (get_or_null "ts_error" response)
    made ← read status uuid (obj (of_dict response))
    good_status status_code made

  -- `send` over HTTP, after the response.
  unfoldable pub http_finish_send : TestServerRequest T → HttpResponse → Result R
  unfolding class_of response_content header_version
  http_finish_send request response = do
    uuid ← required_header cbl_test_error response.server_id
    version ← header_version response.api_version
    read ← class_of response_class root_response request (int version)
    content ← if request.is_root then response.json else response_content response
    made ← read (int response.status) (str uuid) content
    guard response.is_ok (test_server_error (some response.status))
    ok made
