-- ===== src/Environment/Function.antt =====
-- `_call_function` of environment.py without its first step, and `_wait_for_healthy`: the calls
-- over HTTP to the functions inside the instance.
use aenvironment.Common.{
  ℕ, ◌+◌, ◌-◌, ◌/◌, Bool, false, not, ◌||◌, Option, none, some, [], ◌∷◌, ltb, if◌then◌else◌,
}
use aenvironment.Common.Text.{Str, lit, str_eq}
use aenvironment.Common.Dict.{Dict}
use aenvironment.Common.Json.{Json, null, bool, text, array, object, end, truthy, field?}
use aenvironment.Effect.{Result, ok, err, pure, raise, gets, lift, ◌>>=◌, ◌>>◌, try_except, when}
use aenvironment.Effect.Exceptions.{Exn, is_exception}
use aenvironment.Effect.Poll.{poll_loop}
use aenvironment.Models.{EnvInstance}
use aenvironment.World.{
  Oracle, Request, Body, Method, QueryValue, dumped, plain, FunctionReply, function_sent,
}
use aenvironment.Url.{make_mcp_url}
use aenvironment.Environment.{Act, update, perform_out, sleep_out}

abbrev query_value : Json → QueryValue
query_value (array js) = dumped (array js)
query_value (object fs) = dumped (object fs)
query_value j = plain j

abbrev query_params : Dict Json → Dict QueryValue
query_params [] = []
query_params ((k, v) ∷ d) = (k, query_value v) ∷ query_params d

-- `result.get(k, default)`, on what must be an object
abbrev pub get_field : Str → Json → Json → Result Json
get_field k (object fs) d = elim (field? k fs) [ none ↦ ok d | some v ↦ ok v ]
get_field k _ d = err Exn.attribute_error

-- the request by its method; no caller passes a method that the code refuses
abbrev function_request : Method → Str → Dict Json → Dict Str → Request
function_request Method.get url args headers = record {
  method = Method.get;
  url = url;
  params = [];
  headers = headers;
  body = Body.query (query_params args);
}
function_request m url args headers = record {
  method = m;
  url = url;
  params = [];
  headers = headers;
  body = Body.json_body args;
}

-- the query of `check_health`, with its values as they are
abbrev pub raw_params : Dict Json → Dict QueryValue
raw_params [] = []
raw_params ((k, v) ∷ d) = (k, plain v) ∷ raw_params d

-- the reading of a reply: `raise_for_status`, `json`, and the fields `success` and `data`
abbrev pub checked_then : Result (Unit {0}) → Result Json → Result Json
checked_then (ok _) r = r
checked_then (err e) r = err e

abbrev on_success : Json → Result Json → Result Json
on_success reply (ok s) =
    if truthy s then get_field (lit "data") reply (object end) else err Exn.environment_error
on_success reply (err e) = err e

unfoldable read_reply : FunctionReply → Result Json
read_reply r = elim (checked_then r.checked r.json) [
  | ok reply ↦ on_success reply (get_field (lit "success") reply (bool false))
  | err e ↦ err e
]

module _ (o : Oracle) where
  -- Every `Exception` comes out as an `EnvironmentError`.
  unfoldable pub function_call : Method → Str → Dict Json → Act Json
  unfolding perform_out read_reply
  function_call m url args =
      try_except
        (do
          headers ← gets (λ s. s.env.proxy_headers)
          let r = function_request m url args headers
          reply ← perform_out o (function_sent r) (o.function r)
          lift (read_reply reply))
        is_exception (λ _. raise Exn.environment_error)

  -- `result.get("status") == "success" or result.get("status") == "healthy"`
  unfoldable is_healthy : Json → Result Bool
  is_healthy result = elim (get_field (lit "status") result null) [
    | ok (text s) ↦ ok (str_eq s (lit "success") || str_eq s (lit "healthy"))
    | ok _ ↦ ok false
    | err e ↦ err e
  ]

  -- `make_mcp_url(self._instance.ip, 8081)`, and the headers with it
  abbrev proxy_headers_of : Option EnvInstance → Result (Dict Str)
  proxy_headers_of none = err Exn.attribute_error
  proxy_headers_of (some i) = elim i.ip [
    | none ↦ err Exn.type_error
    | some ip ↦ elim (make_mcp_url ip (lit "8081") []) [
      | ok url ↦
          ok ((lit "AEnvCore-MCPProxy-URL", url) ∷ (lit "AEnvCore-EnvInstance-ID", i.id) ∷ [])
      | err e ↦ err e
    ]
  ]

  unfoldable pub set_proxy_headers : Act (Unit {0})
  unfolding update
  set_proxy_headers = do
    found ← gets (λ s. s.env.instance_of)
    headers ← lift (proxy_headers_of found)
    update (λ e. record e { proxy_headers = headers })

  -- one health check; every `Exception` counts as not healthy
  unfoldable pub check_once : Act Bool
  unfolding function_call is_healthy
  check_once =
      try_except
        (do
          url ← gets (λ s. s.env.aenv_health_url)
          result ← function_call Method.get url []
          lift (is_healthy result))
        is_exception (λ _. pure false)

  -- what a round of the loop makes of its check at time `now`: `none` where the loop goes on
  unfoldable pub health_verdict : ℕ → ℕ → ℕ → Bool → Result (Option (Unit {0}))
  health_verdict timeout start now healthy =
      if healthy
      then ok (some tt)
      else if ltb timeout (now - start)
      then err Exn.environment_error
      else ok none

  unfoldable pub health_round : ℕ → ℕ → Act (Option (Unit {0}))
  unfolding check_once health_verdict
  health_round timeout start = do
    healthy ← check_once
    now ← gets (λ s. s.world.clock)
    lift (health_verdict timeout start now healthy)

  -- The fuel: one round for each two seconds of the timeout, and two more.
  unfoldable pub health_loop : ℕ → Act (Option (Unit {0}))
  unfolding health_round sleep_out
  health_loop timeout = do
    start ← gets (λ s. s.world.clock)
    poll_loop (health_round timeout start) (sleep_out o 2000) (timeout / 2000 + 2)

  unfoldable pub wait_for_healthy : ℕ → Act (Unit {0})
  unfolding set_proxy_headers health_loop
  wait_for_healthy timeout = do
    skip ← gets (λ s. s.env.skip_for_healthy)
    when (not skip) (
        try_except (do set_proxy_headers; health_loop timeout; pure tt) is_exception
          (λ _. raise Exn.environment_error))
