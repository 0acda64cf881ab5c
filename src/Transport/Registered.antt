-- ===== src/Transport/Registered.antt =====
-- client/src/cbltest/requests.py and requests_transport.py: a class for the response to every request.
use couchbase_lite_tests.Prelude.{
  ℕ, ◌≡◌, refl, true, false, Option, none, some, List, [], ◌∷◌, ℤ, pos, int_eq, nat_eq, ◌==◌, arith,
  Eq, Bool-cases, inl, inr, nat_beq_iff, Option-cases, ◌⊎◌,
}
use couchbase_lite_tests.Prelude.Dict.{Dict}
use couchbase_lite_tests.Prelude.Result.{Result, ok}
use couchbase_lite_tests.Json.{Value, int}
use couchbase_lite_tests.Router.{message_id}
use couchbase_lite_tests.Transport.{TestServerRequest, class_of}
use couchbase_lite_tests.Transport.Factory.{
  registered_for, RequestClass, RequestFactory, have_responses, set_version, create_request,
  versioned_request, is_there,
}

-- The class of a version that is a number.
abbrev pub response_in : {C A : Type 0} ⦃e : Eq C⦄ → List ((C × ℕ) × A) → C → Option ℤ → Option A
response_in responses c (some (pos version)) = registered_for responses c version
response_in responses c _ = none

have_responses-registered :
    {K C P A : Type 0} ⦃key_eq : Eq K⦄ ⦃e : Eq C⦄ (requests : List ((K × ℕ) × RequestClass C P))
    (responses : List ((C × ℕ) × A)) (k : K) (version : ℕ) (request_class : RequestClass C P)
    → have_responses requests responses ≡ true
    → registered_for requests k version ≡ some request_class
    → is_there (registered_for responses request_class.name version) ≡ true
have_responses-registered [] responses k version request_class all found = cc
have_responses-registered (((j, v), a) ∷ requests) responses k version request_class all found =
    ground (
      arith,
      have_responses-registered requests responses k version request_class,
      nat_beq_iff v version,
    )

versioned_request-class :
    {K C P : Type 0} ⦃key_eq : Eq K⦄ (root : K) (root_class : C) (to_json : P → Dict Value)
    (requests : List ((K × ℕ) × RequestClass C P))
    (bodies : List ((K × ℕ) × (Dict Value → Result P))) (k : K) (arguments : Dict Value)
    (f : RequestFactory) (request : TestServerRequest C)
    → versioned_request root root_class to_json requests bodies k arguments f ≡ ok request
    → (request_class : RequestClass C P) × (registered_for requests k f.version
        ≡ some request_class)
      × (request.request_type ≡ request_class.name)
      × (request.version ≡ f.version)
      × (request.is_root ≡ false)
unfolding versioned_request
versioned_request-class root root_class to_json requests bodies k arguments f request h =
    elim (Option-cases (registered_for requests k f.version)) [
      | inl missing ↦ ground (arith, missing)
      | inr (request_class, found) ↦ (
        request_class,
        found,
        ground (arith, found),
        ground (arith, found),
        ground (arith, found),
      )
    ]

class_of-root :
    {T R : Type 0} (response_class : T → Option ℤ → Option (Value → Value → Value → Result R))
    (root_response : Value → Value → Value → Result R) (request : TestServerRequest T)
    (version : Value)
    → request.is_root ≡ true
    → class_of response_class root_response request version ≡ ok root_response
unfolding class_of
class_of-root response_class root_response request version is_root = rw is_root refl

class_of-registered :
    {T R : Type 0} ⦃e : Eq T⦄ (responses : List ((T × ℕ) × (Value → Value → Value → Result R)))
    (root_response read : Value → Value → Value → Result R) (request : TestServerRequest T) (n : ℕ)
    → request.is_root ≡ false
    → (n ≡ 0) ⊎ (n ≡ request.version)
    → registered_for responses request.request_type request.version ≡ some read
    → class_of (response_in responses) root_response request (int (pos n)) ≡ ok read
unfolding class_of message_id
class_of-registered responses root_response read request n not_root (inl none_set) found =
    rw (not_root, none_set) (rw found refl)
class_of-registered responses root_response read request n not_root (inr same) found =
    elim (Bool-cases (n == 0)) [
      | inl none_set ↦ rw (not_root, none_set) (rw found refl)
      | inr set ↦ rw (not_root, set, same) (rw found refl)
    ]

set_version-responses :
    {K C P A : Type 0} ⦃class_eq : Eq C⦄ (requests : List ((K × ℕ) × RequestClass C P))
    (responses : List ((C × ℕ) × A)) (version : ℕ) (f : RequestFactory)
    → (set_version requests responses version f).0 ≡ ok tt
    → have_responses requests responses ≡ true
unfolding set_version
set_version-responses requests responses version f set = ground arith

create_request-made :
    {K C P : Type 0} ⦃key_eq : Eq K⦄ (root : K) (root_class : C) (to_json : P → Dict Value)
    (requests : List ((K × ℕ) × RequestClass C P))
    (bodies : List ((K × ℕ) × (Dict Value → Result P))) (k : K) (arguments : Dict Value)
    (f : RequestFactory) (request : TestServerRequest C)
    → create_request root root_class to_json requests bodies k arguments f ≡ ok request
    → (request.is_root ≡ true)
      ⊎ (versioned_request root root_class to_json requests bodies k arguments f ≡ ok request)
unfolding create_request
create_request-made root root_class to_json requests bodies k arguments f request made =
    elim (Bool-cases (k == root)) [
      | inl is_root ↦ inl (ground (arith, is_root))
      | inr other ↦ inr (ground (arith, other))
    ]

is_there-some : {B : Type 0} (o : Option B) → is_there o ≡ true → (b : B) × (o ≡ some b)
is_there-some none h = cc
is_there-some (some b) h = (b, refl)

-- After the version of a factory was set without an exception, the response to every request that the
-- factory makes has a class that reads it, if the response names the request's version or no version.
pub create_request-class_of :
    {K C P R : Type 0} ⦃key_eq : Eq K⦄ ⦃class_eq : Eq C⦄ (root : K) (root_class : C)
    (to_json : P → Dict Value) (requests : List ((K × ℕ) × RequestClass C P))
    (bodies : List ((K × ℕ) × (Dict Value → Result P)))
    (responses : List ((C × ℕ) × (Value → Value → Value → Result R)))
    (root_response : Value → Value → Value → Result R) (version : ℕ) (f : RequestFactory) (k : K)
    (arguments : Dict Value) (request : TestServerRequest C) (n : ℕ)
    → (set_version requests responses version f).0 ≡ ok tt
    → create_request root root_class to_json requests bodies k arguments
        (set_version requests responses version f).1
      ≡ ok request
    → (n ≡ 0) ⊎ (n ≡ request.version)
    → (read : Value → Value → Value → Result R) × (class_of
          (response_in responses)
          root_response
          request
          (int (pos n))
        ≡ ok read)
create_request-class_of root root_class to_json requests bodies responses root_response version f k
      arguments request n set made names =
    let g = (set_version requests responses version f).1 in
    elim (create_request-made root root_class to_json requests bodies k arguments g request made) [
      | inl is_root ↦ (
        root_response,
        class_of-root (response_in responses) root_response request (int (pos n)) is_root,
      )
      | inr versioned ↦
          let (request_class, found, its_type, its_version, not_root) =
            versioned_request-class root root_class to_json requests bodies k arguments g request
              versioned in
          let there =
            have_responses-registered requests responses k g.version request_class
              (set_version-responses requests responses version f set) found in
          let (read, e) =
            is_there-some (registered_for responses request_class.name g.version) there in
          (
            read,
            class_of-registered responses root_response read request n not_root names
                (rw (its_type, its_version) e),
          )
    ]
