-- ===== src/Tests/Edges.antt =====
-- The client of an Edge Server at a server with a script of answers.
use couchbase_lite_tests.Prelude.{ℕ, ◌≡◌, refl, ◌<◌, true, false, List, [], ◌∷◌, ◌++◌}
use couchbase_lite_tests.Prelude.Result.{Result, ok}
use couchbase_lite_tests.Json.{Value, arr, nil, cons}
use couchbase_lite_tests.Gateway.{Response, run, read_response, sent}
use couchbase_lite_tests.Gateway.Polls.{get_request}
use couchbase_lite_tests.Gateway.Rounds.{AllEarlier, answer, asked, rounds}
use couchbase_lite_tests.Edge.{EdgeServer, anonymous, default_session, set_auth, wait_for_idle}
use couchbase_lite_tests.Edge.Idle.{
  set_auths, set_auth-anonymous, IsIdle, IsBusy, wait_for_idle-IsIdle,
}
use couchbase_lite_tests.Tests.Gateways.{scripted, good, status_body}

abbrev edge_client : EdgeServer
edge_client = record { auth = true; auth_name = "admin_user"; auth_password = "password" }

set_auth-anonymous_example :
    default_session (
      set_auths
        ((true, ("admin_user", "password")) ∷ [])
        (set_auth false "admin_user" "password" edge_client))
    ≡ anonymous
set_auth-anonymous_example =
    set_auth-anonymous ((true, ("admin_user", "password")) ∷ []) "admin_user" "password" edge_client

abbrev looks : List (Result Response)
looks =
    good (arr (cons (status_body "Active") nil)) ∷ good (arr (cons (status_body "Idle") nil)) ∷ []

became_idle : (run scripted looks (wait_for_idle 0 30)).result ≡ ok tt
unfolding run wait_for_idle read_response
became_idle = refl

wait_for_idle-IsIdle_example :
    (i : ℕ) × (v : Value) × (i < 6)
    × AllEarlier (IsBusy 0) scripted (get_request "/_replicate") i looks
    × (answer scripted
          (get_request "/_replicate")
          (asked scripted (get_request "/_replicate") i looks)
        ≡ ok v)
    × IsIdle 0 v
    × ((run scripted looks (wait_for_idle 0 30)).log
        ≡ rounds (get_request "/_replicate") 30 i ++ (sent (get_request "/_replicate") ∷ []))
wait_for_idle-IsIdle_example = wait_for_idle-IsIdle scripted looks 0 30 became_idle
