-- ===== src/Hub/Tests.antt =====
-- Tests of the client of the hub.
use aenvironment.Common.{
  ◌≡◌, ◌≢◌, refl, ◌↔◌, ℕ, true, false, Option, none, some, List, [], ◌∷◌, is_some, ◌||◌,
}
use aenvironment.Common.Text.{Str, lit, str_eq}
use aenvironment.Common.Json.{Json, bool, text, object, end, field}
use aenvironment.Effect.{ok, err}
use aenvironment.Effect.Exceptions.{Exn}
use aenvironment.Config.{fresh}
use aenvironment.Hub.{
  Reply, responded, HubRequest, make_request, request_of, check_env, parse_state, EnvStatus,
}
use aenvironment.Hub.Errors.{Grants, make_request-ok}
use aenvironment.Hub.Singleton.{Client, Hub, load_client}
use aenvironment.Hub.Singleton.Shared.{load_client-single, load_all}
use aenvironment.Hub.Singleton.Lock.{starts, loads, Reached-Good}

abbrev found : Json
found = object (
    field (lit "success") (bool true)
      (field (lit "data") (object (field (lit "exists") (bool true) end)) end))

abbrev answer : ℕ → Option Json → HubRequest → ℕ → Reply × ℕ
answer status json request n =
    (responded record { status_code = status; body = lit "text"; json = json }, n)

test_check_env : check_env (answer 200 (some found)) (lit "swe") (lit "1.0") 0 ≡ (ok (bool true), 0)
unfolding check_env str_eq
test_check_env = refl

test_not_found :
    check_env (answer 404 none) (lit "swe") (lit "1.0") 0 ≡ (err Exn.hub_not_found_error, 0)
unfolding check_env str_eq
test_not_found = refl

test_refused : check_env (answer 200 none) (lit "swe") (lit "1.0") 0 ≡ (err Exn.hub_error, 0)
unfolding check_env str_eq
test_refused = refl

test_parse_state : parse_state (lit "Ready") ≡ EnvStatus.unknown
unfolding parse_state
test_parse_state = refl

make_request-ok_example :
    ((make_request (answer 204 none) (lit "DELETE") (lit "/env/swe") none [] 0).0 ≡ ok (object end))
    ↔ Grants (answer 204 none (request_of (lit "DELETE") (lit "/env/swe") none []) 0).0 (object end)
make_request-ok_example =
    make_request-ok (answer 204 none) (lit "DELETE") (lit "/env/swe") none [] 0 (object end)

abbrev start : Hub
start = record { instance = none; lock = false; manager = fresh; hub_backend = none; next_id = 5 }

abbrev fresh_client : Client
fresh_client = record {
  id = 5;
  base_url = lit "https://localhost:8080";
  api_key = text [];
  timeout = Json.number (lit "30");
}

abbrev calls : List (Option Str × Option Str)
calls = (some (lit "http://hub/"), none) ∷ (none, none) ∷ []

test_shared : (load_client none none start).0 ≡ ok fresh_client
unfolding load_client str_eq
test_shared = refl

load_client-single_example :
    load_client none none (load_all calls (load_client none none start).1)
    ≡ (ok fresh_client, load_all calls (load_client none none start).1)
load_client-single_example = load_client-single start fresh_client calls test_shared

Reached-Good_example :
    ((load_client none none start).1.lock ≡ false)
    × ((base_url api_key : Option Str)
        → (load_client base_url api_key (load_client none none start).1).0 ≢ err Exn.runtime_error)
    × ((base_url api_key : Option Str) (c d : Client)
        → (is_some base_url || is_some api_key) ≡ true
        → (load_client none none start).1.instance ≡ some c
        → (load_client base_url api_key (load_client none none start).1).0 ≡ ok d
        → d.id ≢ c.id)
Reached-Good_example =
    Reached-Good (load_client none none start).1 (loads none none start (starts fresh none 5))
