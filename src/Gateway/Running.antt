-- ===== src/Gateway/Running.antt =====
-- What a run of the client of Sync Gateway does, in terms of the runs of its parts.
use couchbase_lite_tests.Prelude.{◌≡◌, refl, ap, ◌∙◌, List, ◌∷◌, ◌++◌}
use couchbase_lite_tests.Prelude.Result.{Result, ok, err}
use couchbase_lite_tests.Gateway.{
  Client, Server, Event, sent, slept, Run, run, after, returns, sends, sleeps, ◌>>=◌, catching,
}

-- A run with what was done before it.
abbrev pub appended : {S A : Type 0} → List Event → Run S A → Run S A
appended events r = record { log = events ++ r.log; result = r.result; server = r.server }

abbrev pub with_result : {S A B : Type 0} → Run S A → Result B → Run S B
with_result r result = record { log = r.log; result = result; server = r.server }

module _ {S A B : Type 0} (serve : Server S) where
  -- A call that raises ends the run, and what follows runs on from the server that it leaves.
  abbrev pub go_on : (A → Client B) → List Event → S → Result A → Run S B
  go_on next events t (err raised) = record { log = events; result = err raised; server = t }
  go_on next events t (ok a) = appended events (run serve t (next a))

  abbrev pub continued : (A → Client B) → Run S A → Run S B
  continued next r = go_on next r.log r.server r.result

  after-go_on :
      (next : A → Client B) (e : Event) (events : List Event) (t : S) (x : Result A)
      → after e (go_on next events t x) ≡ go_on next (e ∷ events) t x
  after-go_on next e events t (err raised) = refl
  after-go_on next e events t (ok a) = refl

  pub run->>= :
      (s : S) (call : Client A) (next : A → Client B)
      → run serve s (call >>= next) ≡ continued next (run serve s call)
  unfolding run
  run->>= s (returns (err raised)) next = refl
  run->>= s (returns (ok a)) next = refl
  run->>= s (sends q answered) next =
      ap (after (sent q)) (run->>= (serve q s).1 (answered (serve q s).0) next)
      ∙ (let r = run serve (serve q s).1 (answered (serve q s).0) in
          after-go_on next (sent q) r.log r.server r.result)
  run->>= s (sleeps n call) next =
      ap (after (slept n)) (run->>= s call next)
      ∙ (let r = run serve s call in after-go_on next (slept n) r.log r.server r.result)

module _ {S A : Type 0} (serve : Server S) where
  -- A result with what is put for an exception.
  abbrev pub result_or : A → Result A → Result A
  result_or instead (err raised) = ok instead
  result_or instead (ok a) = ok a

  pub run-catching :
      (s : S) (call : Client A) (instead : A)
      → run serve s (catching call (λ raised. returns (ok instead)))
        ≡ with_result (run serve s call) (result_or instead (run serve s call).result)
  unfolding run
  run-catching s (returns (err raised)) instead = refl
  run-catching s (returns (ok a)) instead = refl
  run-catching s (sends q answered) instead =
      ap (after (sent q)) (run-catching (serve q s).1 (answered (serve q s).0) instead)
  run-catching s (sleeps n call) instead = ap (after (slept n)) (run-catching s call instead)
