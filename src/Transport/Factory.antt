-- ===== src/Transport/Factory.antt =====
-- client/src/cbltest/requests.py: the factory of requests, with the registries that the modules of an API
-- version fill as parameters.
use couchbase_lite_tests.Prelude.{
  ℕ, Bool, true, false, ◌&&◌, Option, none, some, List, [], ◌∷◌, String, int_eq, nat_eq, ◌==◌,
  if◌then◌else◌, Eq, ltb,
}
use couchbase_lite_tests.Prelude.Dict.{Dict}
use couchbase_lite_tests.Prelude.Result.{
  Result, ok, err, ◌>>=◌, ◌>>◌, guard, runtime_error, value_error, assertion_error,
}
use couchbase_lite_tests.Json.{Value}
use couchbase_lite_tests.Transport.{TestServerRequest}

-- `registry[(key, version)]`, the last that was registered.
abbrev pub registered_for : {K A : Type 0} ⦃e : Eq K⦄ → List ((K × ℕ) × A) → K → ℕ → Option A
registered_for [] key version = none
registered_for (((k, v), a) ∷ registry) key version = elim (registered_for registry key version) [
  | some b ↦ some b
  | none ↦ if k == key && v == version then some a else none
]

-- A class of requests: its endpoint, and which payloads its constructor's assertion lets pass.
pub record RequestClass (C P : Type 0) : Type 0 where
  pub name : C
  pub http_name : String
  pub accepts : P → Bool

pub record RequestFactory : Type 0 where
  pub version : ℕ
  pub uuid : String

-- A version that does not exist is a NotImplementedError, which is a RuntimeError.
abbrev pub available_api_version : ℕ → Result ℕ
available_api_version version = if ltb version 3 then ok version else err runtime_error

abbrev pub is_there : {B : Type 0} → Option B → Bool
is_there none = false
is_there (some b) = true

abbrev pub registered_or_error : {B : Type 0} → Option B → Result B
registered_or_error none = err value_error
registered_or_error (some b) = ok b

-- The loop of the setter over the request registry, in which no pair of a key and a version stands twice.
abbrev pub have_responses :
    {K C P A : Type 0} ⦃e : Eq C⦄ → List ((K × ℕ) × RequestClass C P) → List ((C × ℕ) × A) → Bool
have_responses [] responses = true
have_responses (((k, version), request_class) ∷ rest) responses =
    is_there (registered_for responses request_class.name version) && have_responses rest responses

-- The setter of `version`. What it raises leaves the version set.
unfoldable pub set_version :
    {K C P A : Type 0} ⦃e : Eq C⦄
    → List ((K × ℕ) × RequestClass C P)
    → List ((C × ℕ) × A)
    → ℕ
    → RequestFactory
    → Result (Unit {0}) × RequestFactory
set_version requests responses value f =
    if f.version == 0
    then (guard (have_responses requests responses) value_error, record f { version = value })
    else (err assertion_error, f)

module _ {K C P : Type 0} ⦃key_eq : Eq K⦄ (root : K) (root_class : C) (to_json : P → Dict Value)
    (requests : List ((K × ℕ) × RequestClass C P))
    (bodies : List ((K × ℕ) × (Dict Value → Result P))) where
  -- The arguments of the body's constructor come by their names.
  unfoldable pub create_body : K → Dict Value → RequestFactory → Result (Option P)
  create_body k arguments f = if k == root then ok none else (do
    body_class ← registered_or_error (registered_for bodies k f.version)
    payload ← body_class arguments
    ok (some payload))

  abbrev passes : RequestClass C P → Option P → Bool
  passes request_class none = true
  passes request_class (some payload) = request_class.accepts payload

  abbrev json_of : Option P → Option (Dict Value)
  json_of none = none
  json_of (some payload) = some (to_json payload)

  unfoldable pub versioned_request : K → Dict Value → RequestFactory → Result (TestServerRequest C)
  unfolding create_body
  versioned_request k arguments f = do
    request_class ← registered_or_error (registered_for requests k f.version)
    payload ← create_body k arguments f
    guard (passes request_class payload) assertion_error
    version ← available_api_version f.version
    ok (record {
      request_type = request_class.name;
      is_root = false;
      version = version;
      uuid = f.uuid;
      http_name = request_class.http_name;
      payload = json_of payload;
    })

  unfoldable pub create_request : K → Dict Value → RequestFactory → Result (TestServerRequest C)
  unfolding versioned_request
  create_request k arguments f =
      if k == root
      then ok (record {
        request_type = root_class;
        is_root = true;
        version = 0;
        uuid = f.uuid;
        http_name = "";
        payload = none;
      })
      else versioned_request k arguments f
