-- ===== src/Tests/Requests.antt =====
-- A factory with one class of requests, and a router to one server.
use mathlib.Core.Path.{subst}
use couchbase_lite_tests.Prelude.{
  ℕ, ◌≡◌, ◌≢◌, refl, true, false, none, some, List, [], ◌∷◌, String, Option, ℤ, pos, negsuc,
  string_eq, inr, arith,
}
use couchbase_lite_tests.Prelude.IntDict.{find}
use couchbase_lite_tests.Prelude.Dict.{Dict}
use couchbase_lite_tests.Prelude.Result.{Result, ok}
use couchbase_lite_tests.Json.{Value, null, int, str, obj, Fields, field, end, to_dict, int_type}
use couchbase_lite_tests.ReplicatorTypes.Entries.{get_or_null}
use couchbase_lite_tests.Router.{
  WebSocketRouter, new_router, register, handle_message, text, Reachable, made, registers, receives,
}
use couchbase_lite_tests.Router.Waiting.{Answers}
use couchbase_lite_tests.Transport.{TestServerRequest, ws_begin_send, ws_finish_send, class_of}
use couchbase_lite_tests.Transport.Responses.{
  IsNumbered, ws_begin_send-answered, KeepsStatus, IsGood, ws_finish_send-IsGood,
}
use couchbase_lite_tests.Transport.Bodies.{TestServerResponse, test_server_response}
use couchbase_lite_tests.Transport.Factory.{
  RequestClass, RequestFactory, set_version, create_request,
}
use couchbase_lite_tests.Transport.Registered.{response_in, create_request-class_of}

abbrev server_urls : List String
server_urls = "ws://localhost:5173" ∷ []

abbrev reset : TestServerRequest String
reset = record {
  request_type = "PostResetRequest";
  is_root = false;
  version = 1;
  uuid = "u";
  http_name = "reset";
  payload = some (("ts_id", int (pos 9)) ∷ []);
}

abbrev reply : Fields
reply = field "ts_id" (int (pos 4)) (field "ts_serverID" (str "s") end)

abbrev sent_router : WebSocketRouter
sent_router = (register (pos 4) (new_router server_urls)).1

abbrev replied_router : WebSocketRouter
replied_router = (handle_message 0 (text (ok (obj reply))) sent_router).0

sent-Reachable : Reachable server_urls sent_router (pos 4 ∷ [])
unfolding find
sent-Reachable = registers (pos 4) made refl

ws_begin_send-answered_example :
    Answers (to_dict reply) (pos 4)
    × IsNumbered
        (pos 4)
        (ws_begin_send "ws://localhost:5173" reset (pos 4) "r" none (new_router server_urls)).0.1
unfolding ws_begin_send handle_message register
ws_begin_send-answered_example =
    ws_begin_send-answered server_urls (new_router server_urls) replied_router [] []
      "ws://localhost:5173" reset (pos 4) "r" none (to_dict reply) made
      (receives 0 (text (ok (obj reply))) sent-Reachable) refl

abbrev status_of : TestServerResponse → Value
status_of r = r.status_code

abbrev responses : List ((String × ℕ) × (Value → Value → Value → Result TestServerResponse))
responses = (("PostResetRequest", 1), test_server_response) ∷ []

abbrev reset_response : TestServerResponse
reset_response = record {
  status_code = int (pos 200);
  uuid = str "s";
  error = none;
  payload = obj reply;
}

reset_read :
    ws_finish_send status_of (response_in responses) test_server_response reset (to_dict reply)
    ≡ ok reset_response
unfolding ws_finish_send test_server_response
reset_read = refl

reset_keeps :
    (status uuid content : Value) (response : TestServerResponse)
    → test_server_response status uuid content ≡ ok response
    → status_of response ≡ status
unfolding test_server_response
reset_keeps status uuid content response h = ground arith

responses_keep :
    (request_type : String) (number : Option ℤ)
    (other : Value → Value → Value → Result TestServerResponse)
    → response_in responses request_type number ≡ some other
    → (status uuid content : Value) (response : TestServerResponse)
    → other status uuid content ≡ ok response
    → status_of response ≡ status
responses_keep request_type none other found = cc
responses_keep request_type (some (negsuc n)) other found = cc
responses_keep request_type (some (pos version)) other found =
    let same : test_server_response ≡ other = ground arith in
    subst (λ read. KeepsStatus status_of (response_in responses) test_server_response read) same
      reset_keeps

ws_finish_send-IsGood_example :
    (int_type.cast (status_of reset_response) ≡ some (pos 200))
    × (get_or_null "ts_serverID" (to_dict reply) ≢ null)
    × IsGood (get_or_null "ts_error" (to_dict reply))
ws_finish_send-IsGood_example =
    ws_finish_send-IsGood status_of (response_in responses) test_server_response reset
      (to_dict reply) reset_response reset_keeps responses_keep reset_read

abbrev request_classes : List ((String × ℕ) × RequestClass String (Dict Value))
request_classes =
    (
      ("RESET", 1),
      record { name = "PostResetRequest"; http_name = "reset"; accepts = λ payload. true },
    )
    ∷ []

abbrev body_classes : List ((String × ℕ) × (Dict Value → Result (Dict Value)))
body_classes = (("RESET", 1), λ arguments. ok arguments) ∷ []

abbrev new_factory : RequestFactory
new_factory = record { version = 0; uuid = "u" }

abbrev made_request : TestServerRequest String
made_request = record {
  request_type = "PostResetRequest";
  is_root = false;
  version = 1;
  uuid = "u";
  http_name = "reset";
  payload = some [];
}

reset_made :
    create_request "ROOT" "GetRootRequest"
      (λ (d : Dict Value). d)
      request_classes
      body_classes
      "RESET"
      []
      (set_version request_classes responses 1 new_factory).1
    ≡ ok made_request
unfolding create_request set_version
reset_made = refl

create_request-class_of_example :
    (read : Value → Value → Value → Result TestServerResponse) × (class_of
        (response_in responses)
        test_server_response
        made_request
        (int (pos 1))
      ≡ ok read)
unfolding set_version
create_request-class_of_example =
    create_request-class_of "ROOT" "GetRootRequest" (λ (d : Dict Value). d) request_classes
      body_classes responses test_server_response 1 new_factory "RESET" [] made_request 1 refl
      reset_made (inr refl)
