-- ===== src/Gateway/Rounds.antt =====
-- How the loops that ask a server again and again end.
use couchbase_lite_tests.Prelude.{
  ◌≡◌, refl, ap, ℕ, zero, suc, ◌<◌, List, [], ◌∷◌, ◌++◌, inl, inr, ◌⊎◌, arith, nat_eq, string_eq,
}
use couchbase_lite_tests.Prelude.Result.{Error, Result, ok, err}
use couchbase_lite_tests.Json.{Value}
use couchbase_lite_tests.Gateway.{
  Request, Client, Server, Event, sent, slept, Run, run, after, returns, read_response, pause,
  ◌>>=◌, ◌>>◌,
}
use couchbase_lite_tests.Gateway.Polls.{Judgement, settled, again, poll}

-- The server after it has been sent the same request so many times.
abbrev pub asked : {S : Type 0} → Server S → Request → ℕ → S → S
asked serve q zero s = s
asked serve q (suc n) s = asked serve q n (serve q s).1

-- What the client reads from the server's next answer.
abbrev pub answer : {S : Type 0} → Server S → Request → S → Result Value
answer serve q s = read_response (serve q s).0

-- So many rounds, each of a request and a pause.
abbrev pub rounds : Request → ℕ → ℕ → List Event
rounds q wait zero = []
rounds q wait (suc n) = sent q ∷ slept wait ∷ rounds q wait n

module _ {S A : Type 0} (serve : Server S) (q : Request) (judge : Value → Judgement A) (wait : ℕ)
    (exhausted : Result A) where
  -- The first answers, so many of them, settle nothing.
  abbrev pub GoesOn : ℕ → S → Type 0
  GoesOn zero s = Unit
  GoesOn (suc n) s =
      (v : Value) × (answer serve q s ≡ ok v) × (judge v ≡ again) × GoesOn n (serve q s).1

  -- The loop ends at the answer after these, in what that answer is read or judged to be.
  abbrev pub EndsAt : ℕ → S → Result A → Type 0
  EndsAt i s result =
      ((raised : Error) × (answer serve q (asked serve q i s) ≡ err raised) × (result ≡ err raised))
      ⊎ ((v : Value) × (answer serve q (asked serve q i s) ≡ ok v) × (judge v ≡ settled result))

  abbrev pub Ends : ℕ → S → Run S A → Type 0
  Ends n s r =
      ((i : ℕ) × (i < n)
        × GoesOn i s
        × EndsAt i s r.result
        × (r.log ≡ rounds q wait i ++ (sent q ∷ [])))
      ⊎ (GoesOn n s × (r.result ≡ exhausted) × (r.log ≡ rounds q wait n))

  abbrev by_verdict : ℕ → Judgement A → Client A
  by_verdict n y = elim y [
    | settled r ↦ returns r
    | again ↦ pause wait >> poll q judge wait exhausted n
  ]

  Ends-suc :
      (n : ℕ) (s : S) (v : Value) (r : Run S A)
      → answer serve q s ≡ ok v
      → judge v ≡ again
      → Ends n (serve q s).1 r
      → Ends (suc n) s (after (sent q) (after (slept wait) r))
  Ends-suc n s v r read undecided (inl (i, below, before, at_last, logged)) = inl (
    suc i,
    omega arith,
    (v, read, undecided, before),
    at_last,
    ap (λ (log : List Event). sent q ∷ slept wait ∷ log) logged,
  )
  Ends-suc n s v r read undecided (inr (before, result, logged)) = inr (
    (v, read, undecided, before),
    result,
    ap (λ (log : List Event). sent q ∷ slept wait ∷ log) logged,
  )

  judged-Ends :
      (n : ℕ) (s : S) (v : Value) (y : Judgement A)
      → answer serve q s ≡ ok v
      → judge v ≡ y
      → Ends n (serve q s).1 (run serve (serve q s).1 (poll q judge wait exhausted n))
      → Ends (suc n) s (after (sent q) (run serve (serve q s).1 (by_verdict n y)))
  unfolding run
  judged-Ends n s v (settled r) read judged rest =
      inl (0, omega arith, tt, inr (v, read, judged), refl)
  judged-Ends n s v again read judged rest =
      Ends-suc n s v (run serve (serve q s).1 (poll q judge wait exhausted n)) read judged rest

  answered-Ends :
      (n : ℕ) (s : S) (x : Result Value)
      → answer serve q s ≡ x
      → Ends n (serve q s).1 (run serve (serve q s).1 (poll q judge wait exhausted n))
      → Ends
          (suc n)
          s
          (after (sent q) (run serve (serve q s).1 (returns x >>= λ v. by_verdict n (judge v))))
  unfolding run
  answered-Ends n s (err raised) read rest =
      inl (0, omega arith, tt, inl (raised, read, refl), refl)
  answered-Ends n s (ok v) read rest = judged-Ends n s v (judge v) read refl rest

  -- A loop ends before its rounds are over, in an answer, or in the exception for that they are over.
  pub poll-Ends : (n : ℕ) (s : S) → Ends n s (run serve s (poll q judge wait exhausted n))
  unfolding poll run
  poll-Ends zero s = inr (tt, refl, refl)
  poll-Ends (suc n) s = answered-Ends n s (answer serve q s) refl (poll-Ends n (serve q s).1)

-- The first answers, so many of them, have the property.
abbrev pub AllEarlier : {S : Type 0} → (Value → Type 0) → Server S → Request → ℕ → S → Type 0
AllEarlier P serve q zero s = Unit
AllEarlier P serve q (suc n) s =
    (v : Value) × (answer serve q s ≡ ok v) × P v × AllEarlier P serve q n (serve q s).1

pub GoesOn-AllEarlier :
    {S A : Type 0} (P : Value → Type 0) (serve : Server S) (q : Request)
    (judge : Value → Judgement A) (wait : ℕ) (exhausted : Result A)
    → ((v : Value) → judge v ≡ again → P v)
    → (n : ℕ) (s : S) → GoesOn serve q judge wait exhausted n s
    → AllEarlier P serve q n s
GoesOn-AllEarlier P serve q judge wait exhausted each zero s h = tt
GoesOn-AllEarlier P serve q judge wait exhausted each (suc n) s (v, read, undecided, more) = (
  v,
  read,
  each v undecided,
  GoesOn-AllEarlier P serve q judge wait exhausted each n (serve q s).1 more,
)
