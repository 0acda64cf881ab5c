-- ===== src/Prelude/Result.antt =====
-- Python's exceptions as values. The class of an exception is kept and its message is not: no code
-- of the harness reads a message back.
use mathlib.Core.Path.{◌≡◌, refl}
use mathlib.Core.Logic.{◌⊎◌, inl, inr}
use mathlib.Core.Bool.{Bool, true, false}
use mathlib.Core.Option.{Option}
use couchbase_lite_tests.Prelude.Int.{ℤ}

-- The exception classes that the modelled code raises (an `assert` raises `assertion_error`).
pub data Error : Type 0 where
  value_error type_error key_error index_error assertion_error attribute_error : Error
  runtime_error timeout_error name_error zero_division_error exception : Error
  cbl_test_error cbl_timeout_error : Error
  -- `CblSyncGatewayBadResponseError` or `CblEdgeServerBadResponseError`, as the server is, with the code,
  -- which is `none` where it is not a number.
  bad_response : Option ℤ → Error
  -- `CblTestServerBadResponseError` with its code.
  test_server_error : Option ℤ → Error

pub data Result {ℓ} (A : Type ℓ) : Type ℓ where
  err : Error → Result A
  ok : A → Result A

-- `if not test: raise e`
abbrev pub guard : Bool → Error → Result (Unit {0})
guard false raised = err raised
guard true raised = ok tt

-- A call, and what is done with its value if it raises nothing.
infixl 5 ◌>>=◌
abbrev pub ◌>>=◌ {ℓ κ} : {A : Type ℓ} {B : Type κ} → Result A → (A → Result B) → Result B
err raised >>= next = err raised
ok value >>= next = next value

infixl 5 ◌>>◌
abbrev pub ◌>>◌ {κ} : {B : Type κ} → Result (Unit {0}) → Result B → Result B
first >> second = first >>= λ _. second

pub >>=-eq-ok {ℓ κ} :
    {A : Type ℓ} {B : Type κ} (call : Result A) (next : A → Result B) {b : B}
    → (call >>= next) ≡ ok b
    → (value : A) × (call ≡ ok value) × (next value ≡ ok b)
>>=-eq-ok (err raised) next h = cc
>>=-eq-ok (ok value) next h = (value, refl, h)

pub >>=-eq-err {ℓ κ} :
    {A : Type ℓ} {B : Type κ} (call : Result A) (next : A → Result B) {raised : Error}
    → (call >>= next) ≡ err raised
    → (call ≡ err raised) ⊎ ((value : A) × (call ≡ ok value) × (next value ≡ err raised))
>>=-eq-err (err e) next h = inl cc
>>=-eq-err (ok value) next h = inr (value, refl, h)
