-- ===== src/Gateway/Resets.antt =====
-- client/src/cbltest/api/syncgateway.py: how the deletion of a database and the reset of a user end.
use Prim.Native.String.{◌++◌ as str_append}
use couchbase_lite_tests.Prelude.{
  ◌||◌, ◌≡◌, refl, ap, ℕ, zero, suc, ◌≤◌, Bool, true, false, String, none, some, List, [], ◌∷◌,
  ◌++◌, inl, inr, ◌⊎◌, arith, if◌then◌else◌,
}
use couchbase_lite_tests.Prelude.Result.{Error, Result, ok, err}
use couchbase_lite_tests.Json.{Value}
use couchbase_lite_tests.Gateway.{
  Request, Client, Server, Event, sent, slept, Run, run, after, returns, pause, ◌>>=◌, ◌>>◌,
  catching,
}
use couchbase_lite_tests.Gateway.Polls.{
  is_code, not_retried, delete_request, delete_retries, delete_database,
}
use couchbase_lite_tests.Gateway.Rounds.{asked, answer, rounds}
use couchbase_lite_tests.Gateway.Users.{
  user_path, with_payload, user_body, default_access, add_user, tell, delete_user, reset_user,
}

-- A status 403 or 404 is as good as a deletion, and anything else is raised.
abbrev pub LetsGo : Error → Result (Unit {0}) → Type 0
LetsGo raised result =
    (((is_code 403 raised ≡ true) ⊎ (is_code 404 raised ≡ true)) × (result ≡ ok tt))
    ⊎ ((is_code 403 raised ≡ false) × (is_code 404 raised ≡ false) × (result ≡ err raised))

not_retried-LetsGo : (raised : Error) → LetsGo raised (not_retried raised)
not_retried-LetsGo raised = with_tests (is_code 403 raised) (is_code 404 raised) refl refl
  where
    with_tests :
        (b c : Bool)
        → is_code 403 raised ≡ b
        → is_code 404 raised ≡ c
        → LetsGo raised (if b || c then ok tt else err raised)
    with_tests true c forbidden missing = inl (inl forbidden, refl)
    with_tests false true forbidden missing = inl (inr missing, refl)
    with_tests false false forbidden missing = inr (forbidden, missing, refl)

module _ {S : Type 0} (serve : Server S) (q : Request) where
  -- The first answers, so many of them, are the status 500.
  abbrev pub Fails : ℕ → S → Type 0
  Fails zero s = Unit
  Fails (suc n) s =
      (raised : Error) × (answer serve q s ≡ err raised)
      × (is_code 500 raised ≡ true)
      × Fails n (serve q s).1

  -- The answer after these ends the deletion: it is good, or it is not 500, or no retry is left.
  abbrev pub Settles : (left i : ℕ) → S → Result (Unit {0}) → Type 0
  Settles left i s result =
      ((v : Value) × (answer serve q (asked serve q i s) ≡ ok v) × (result ≡ ok tt))
      ⊎ ((raised : Error) × (answer serve q (asked serve q i s) ≡ err raised)
          × ((i ≡ left) ⊎ (is_code 500 raised ≡ false))
          × LetsGo raised result)

  abbrev pub Deletes : ℕ → S → Run S (Unit {0}) → Type 0
  Deletes left s r =
      (i : ℕ) × (i ≤ left)
      × Fails i s
      × Settles left i s r.result
      × (r.log ≡ rounds q 2 i ++ (sent q ∷ []))

module _ {S : Type 0} (serve : Server S) (path : String) where
  abbrev q : Request
  q = delete_request path

  abbrev next_try : ℕ → Error → Client (Unit {0})
  next_try left raised = elim (is_code 500 raised) [
    | true ↦ pause 2 >> delete_retries path left
    | false ↦ returns (not_retried raised)
  ]

  Settles-suc :
      (left i : ℕ) (s : S) (result : Result (Unit {0}))
      → Settles serve q left i (serve q s).1 result
      → Settles serve q (suc left) (suc i) s result
  Settles-suc left i s result (inl good) = inl good
  Settles-suc left i s result (inr (raised, read, inl last, same)) =
      inr (raised, read, inl (ap suc last), same)
  Settles-suc left i s result (inr (raised, read, inr other, same)) =
      inr (raised, read, inr other, same)

  Deletes-coded :
      (left : ℕ) (s : S) (raised : Error) (b : Bool)
      → answer serve q s ≡ err raised
      → is_code 500 raised ≡ b
      → Deletes serve q left (serve q s).1 (run serve (serve q s).1 (delete_retries path left))
      → Deletes serve q (suc left) s (
          after (sent q) (
            run serve (serve q s).1 (elim b [
              | true ↦ pause 2 >> delete_retries path left
              | false ↦ returns (not_retried raised)
            ])))
  unfolding run
  Deletes-coded left s raised true read code (i, below, fails, at_last, logged) = (
    suc i,
    omega arith,
    (raised, read, code, fails),
    Settles-suc left i s _ at_last,
    ap (λ (log : List Event). sent q ∷ slept 2 ∷ log) logged,
  )
  Deletes-coded left s raised false read code rest =
      (0, omega arith, tt, inr (raised, read, inr code, not_retried-LetsGo raised), refl)

  Deletes-last :
      (s : S) (x : Result Value)
      → answer serve q s ≡ x
      → Deletes serve q 0 s (
          after (sent q) (
            run serve (serve q s).1 (
              catching
                (returns x >>= λ v. returns (ok tt))
                (λ raised. returns (not_retried raised)))))
  unfolding run
  Deletes-last s (ok v) read = (0, omega arith, tt, inl (v, read, refl), refl)
  Deletes-last s (err raised) read =
      (0, omega arith, tt, inr (raised, read, inl refl, not_retried-LetsGo raised), refl)

  Deletes-answered :
      (left : ℕ) (s : S) (x : Result Value)
      → answer serve q s ≡ x
      → Deletes serve q left (serve q s).1 (run serve (serve q s).1 (delete_retries path left))
      → Deletes serve q (suc left) s (
          after (sent q) (
            run serve
              (serve q s).1
              (catching (returns x >>= λ v. returns (ok tt)) (next_try left))))
  Deletes-answered left s (ok v) read ih =
      unfold run in (0, omega arith, tt, inl (v, read, refl), refl)
  Deletes-answered left s (err raised) read ih =
      Deletes-coded left s raised (is_code 500 raised) read refl ih

  delete_retries-Deletes :
      (left : ℕ) (s : S) → Deletes serve q left s (run serve s (delete_retries path left))
  unfolding delete_retries run
  delete_retries-Deletes zero s = Deletes-last s (answer serve q s) refl
  delete_retries-Deletes (suc left) s =
      Deletes-answered left s (answer serve q s) refl (delete_retries-Deletes left (serve q s).1)

-- Whatever Sync Gateway answers, `delete_database` sends its request at most four times, two seconds
-- apart, and again only after a status 500. It ends at the first answer that is not, or at the fourth: it
-- raises what that answer raises, unless this is a status 403 or 404.
pub delete_database-Deletes :
    {S : Type 0} (serve : Server S) (db : String) (s : S)
    → Deletes serve (delete_request (str_append "/" db)) 3 s (run serve s (delete_database db))
unfolding delete_database
delete_database-Deletes serve db s = delete_retries-Deletes serve (str_append "/" db) 3 s

module _ {S : Type 0} (serve : Server S) where
  -- A request whose response is not looked at ends in what it raises, if anything.
  abbrev pub Told : Request → S → Result (Unit {0}) → Type 0
  Told q s result =
      ((v : Value) × (answer serve q s ≡ ok v) × (result ≡ ok tt))
      ⊎ ((raised : Error) × (answer serve q s ≡ err raised) × (result ≡ err raised))

  -- The deletion of the user failed, or it is followed by the request that puts it.
  abbrev pub Resets : (delete put : Request) → S → Run S (Unit {0}) → Type 0
  Resets delete put s r =
      ((raised : Error) × (answer serve delete s ≡ err raised)
        × (is_code 404 raised ≡ false)
        × (r.result ≡ err raised)
        × (r.log ≡ sent delete ∷ []))
      ⊎ ((((v : Value) × (answer serve delete s ≡ ok v))
            ⊎ ((raised : Error) × (answer serve delete s ≡ err raised)
                × (is_code 404 raised ≡ true)))
          × Told put (serve delete s).1 r.result
          × (r.log ≡ sent delete ∷ sent put ∷ []))

  answered-Told :
      (q : Request) (s t : S) (x : Result Value)
      → answer serve q s ≡ x
      → Told q s (run serve t (returns x >>= λ v. returns (ok tt))).result
        × ((run serve t (returns x >>= λ v. returns (ok tt))).log ≡ [])
  unfolding run
  answered-Told q s t (ok v) read = (inl (v, read, refl), refl)
  answered-Told q s t (err raised) read = (inr (raised, read, refl), refl)

  tell-Told :
      (q : Request) (s : S)
      → Told q s (run serve s (tell q)).result × ((run serve s (tell q)).log ≡ sent q ∷ [])
  unfolding run
  tell-Told q s =
      let (told, logged) = answered-Told q s (serve q s).1 (answer serve q s) refl in
      (told, ap (◌∷◌ (sent q)) logged)

  abbrev let_404_go : Error → Client (Unit {0})
  let_404_go raised = if is_code 404 raised then returns (ok tt) else returns (err raised)

  Resets-answered :
      (delete put : Request) (s : S) (x : Result Value)
      → answer serve delete s ≡ x
      → Resets delete put s (
          after (sent delete) (
            run serve
              (serve delete s).1
              (catching (returns x >>= λ v. returns (ok tt)) let_404_go >>= λ _. tell put)))
  Resets-answered delete put s (ok v) read =
      let (told, logged) = tell-Told put (serve delete s).1 in
      inr (inl (v, read), told, ap (◌∷◌ (sent delete)) logged)
  Resets-answered delete put s (err raised) read = at_code (is_code 404 raised) refl
    where
      at_code :
          (b : Bool)
          → is_code 404 raised ≡ b
          → Resets delete put s (
              after (sent delete) (
                run serve
                  (serve delete s).1
                  ((if b then returns (ok tt) else returns (err raised)) >>= λ _. tell put)))
      at_code true code =
          let (told, logged) = tell-Told put (serve delete s).1 in
          inr (inr (raised, read, code), told, ap (◌∷◌ (sent delete)) logged)
      at_code false code = unfold run in inl (raised, read, code, refl, refl)

-- `reset_user` deletes the user, and puts it with its password and channels exactly if the deletion is
-- answered well or by a status 404; what else a request raises, it raises.
pub reset_user-Resets :
    {S : Type 0} (serve : Server S) (db username password : String) (channels : List String) (s : S)
    → Resets serve
        (delete_request (user_path db username))
        (with_payload "put"
          (user_path db username)
          (user_body username (some password) (some (default_access channels)) none))
        s
        (run serve s (reset_user db username password channels))
unfolding reset_user delete_user add_user run
reset_user-Resets serve db username password channels s =
    let delete = delete_request (user_path db username) in
    Resets-answered serve delete
      (with_payload "put" (user_path db username)
        (user_body username (some password) (some (default_access channels)) none))
      s (answer serve delete s) refl
