-- ===== src/Gateway.antt =====
-- client/src/cbltest/api/syncgateway.py: how the client of a Sync Gateway calls it. A method of the client
-- is the tree of the requests that it sends, which goes on by the answers and ends in its result or in
-- what it raises. The server is a parameter: a state, and what it answers in it to a request.
pub mod Datasets
pub mod Batches
pub mod Loaded
pub mod Entries
pub mod Replies
pub mod Documents
pub mod Rewriting
pub mod Updates
pub mod Running
pub mod Merged
pub mod Upserts
pub mod Polls
pub mod Rounds
pub mod Polling
pub mod Users
pub mod Resets
use couchbase_lite_tests.Prelude.{
  ◌≡◌, refl, ap, ℕ, Bool, String, Option, none, some, List, [], ◌∷◌, ◌++◌, ℤ, if◌then◌else◌,
}
use couchbase_lite_tests.Prelude.Dict.{Dict}
use couchbase_lite_tests.Prelude.Result.{Error, Result, ok, err, bad_response}
use couchbase_lite_tests.Json.{Value, str}

pub record Request : Type 0 where
  pub method : String
  pub path : String
  pub payload : Option Value
  pub params : Dict Value

-- The body is read as JSON where its content type says so, or else as text.
pub data Content : Type 0 where
  json : Value → Content
  text : String → Content

-- `is_ok` is the response's own `ok`.
pub record Response : Type 0 where
  pub status : ℤ
  pub is_ok : Bool
  pub content : Content

abbrev pub content_value : Content → Value
content_value (json v) = v
content_value (text t) = str t

-- What `_send_request` makes of a response, or of what the session raises.
unfoldable pub read_response : Result Response → Result Value
read_response (err raised) = err raised
read_response (ok r) =
    if r.is_ok then ok (content_value r.content) else err (bad_response (some r.status))

pub data Client (A : Type 0) : Type 0 where
  returns : Result A → Client A
  sends : Request → (Result Response → Client A) → Client A
  sleeps : ℕ → Client A → Client A

infixl 5 ◌>>=◌
abbrev pub ◌>>=◌ : {A B : Type 0} → Client A → (A → Client B) → Client B
returns (err raised) >>= next = returns (err raised)
returns (ok a) >>= next = next a
sends q answered >>= next = sends q (λ o. answered o >>= next)
sleeps n call >>= next = sleeps n (call >>= next)

infixl 5 ◌>>◌
abbrev pub ◌>>◌ : {B : Type 0} → Client (Unit {0}) → Client B → Client B
first >> second = first >>= λ _. second

pub >>=-assoc :
    {A B C : Type 0} (call : Client A) (next : A → Client B) (last : B → Client C)
    → (call >>= next >>= last) ≡ (call >>= λ a. next a >>= last)
>>=-assoc (returns (err raised)) next last = refl
>>=-assoc (returns (ok a)) next last = refl
>>=-assoc (sends q answered) next last = λ i. sends q (λ o. >>=-assoc (answered o) next last i)
>>=-assoc (sleeps n call) next last = ap (sleeps n) (>>=-assoc call next last)

pub >>=-returns : {A : Type 0} (call : Client A) → (call >>= λ a. returns (ok a)) ≡ call
>>=-returns (returns (err raised)) = refl
>>=-returns (returns (ok a)) = refl
>>=-returns (sends q answered) = λ i. sends q (λ o. >>=-returns (answered o) i)
>>=-returns (sleeps n call) = ap (sleeps n) (>>=-returns call)

-- `except` of the exceptions that `handler` takes.
abbrev pub catching : {A : Type 0} → Client A → (Error → Client A) → Client A
catching (returns (err raised)) handler = handler raised
catching (returns (ok a)) handler = returns (ok a)
catching (sends q answered) handler = sends q (λ o. catching (answered o) handler)
catching (sleeps n call) handler = sleeps n (catching call handler)

abbrev pub send_request : Request → Client Value
send_request q = sends q (λ o. returns (read_response o))

abbrev pub pause : ℕ → Client (Unit {0})
pause n = sleeps n (returns (ok tt))

-- What the client did, in order.
pub data Event : Type 0 where
  sent : Request → Event
  slept : ℕ → Event

pub record Run (S : Type 0) (A : Type 0) : Type 0 where
  pub log : List Event
  pub result : Result A
  pub server : S

abbrev pub Server : Type 0 → Type 0
Server S = Request → S → Result Response × S

abbrev pub after : {S A : Type 0} → Event → Run S A → Run S A
after e r = record { log = e ∷ r.log; result = r.result; server = r.server }

unfoldable pub run : {S A : Type 0} → Server S → S → Client A → Run S A
run serve s (returns r) = record { log = []; result = r; server = s }
run serve s (sends q answered) = after (sent q) (run serve (serve q s).1 (answered (serve q s).0))
run serve s (sleeps n call) = after (slept n) (run serve s call)

-- A call that raises nothing has got past its first result.
pub returns-ok :
    {S A B : Type 0} (serve : Server S) (s : S) (x : Result A) (next : A → Client B) {b : B}
    → (run serve s (returns x >>= next)).result ≡ ok b
    → (a : A) × (x ≡ ok a) × (run serve s (returns x >>= next) ≡ run serve s (next a))
unfolding run
returns-ok serve s (err raised) next h = cc
returns-ok serve s (ok a) next h = (a, refl, refl)

-- The requests that were sent.
abbrev pub requests : List Event → List Request
requests [] = []
requests (sent q ∷ events) = q ∷ requests events
requests (slept n ∷ events) = requests events
