-- ===== src/Transport/Bodies.antt =====
-- client/src/cbltest/responses.py: the base class of the responses, and the response to GET /.
use couchbase_lite_tests.Prelude.{Option, String, ℤ, ◌==◌, string_eq, if◌then◌else◌}
use couchbase_lite_tests.Prelude.Dict.{Dict}
use couchbase_lite_tests.Prelude.Result.{Result, ok, err, ◌>>=◌, value_error, attribute_error}
use couchbase_lite_tests.Json.{
  Value, obj, to_dict, str_type, int_type, dict_type, get_typed_required, get_typed,
}
use couchbase_lite_tests.Errors.{ErrorResponseBody, create}

pub record TestServerResponse : Type 0 where
  pub status_code : Value
  pub uuid : Value
  pub error : Option ErrorResponseBody
  pub payload : Value

unfoldable pub test_server_response : Value → Value → Value → Result TestServerResponse
unfolding create
test_server_response status_code uuid body = do
  error ← create body
  ok (record { status_code = status_code; uuid = uuid; error = error; payload = body })

pub record GetRootResponse : Type 0 where
  pub base : TestServerResponse
  pub library_version : String
  pub version : ℤ
  pub cbl : String
  pub device : Dict Value
  pub additional_info : Option String

-- The typed reads take a `dict`.
unfoldable pub get_root_response : Value → Value → Value → Result GetRootResponse
unfolding test_server_response get_typed_required get_typed
get_root_response status_code uuid (obj fs) = do
  let json = to_dict fs
  library_version ← get_typed_required json "version" str_type
  version ← get_typed_required json "apiVersion" int_type
  cbl ← get_typed_required json "cbl" str_type
  device ← get_typed_required json "device" dict_type
  additional_info ← get_typed json "additionalInfo" str_type
  base ← test_server_response status_code uuid (obj fs)
  ok (record {
    base = base;
    library_version = library_version;
    version = version;
    cbl = cbl;
    device = device;
    additional_info = additional_info;
  })
get_root_response status_code uuid _ = err attribute_error

pub data ServerVariant : Type 0 where
  android c dotnet ios jvm js : ServerVariant

unfoldable pub variant : GetRootResponse → Result ServerVariant
variant response =
    let cbl = response.cbl in
    if cbl == "couchbase-lite-android"
    then ok android
    else if cbl == "couchbase-lite-c"
    then ok c
    else if cbl == "couchbase-lite-net"
    then ok dotnet
    else if cbl == "couchbase-lite-ios"
    then ok ios
    else if cbl == "couchbase-lite-java"
    then ok jvm
    else if cbl == "couchbase-lite-swift"
    then ok ios
    else if cbl == "couchbase-lite-js"
    then ok js
    else err value_error
