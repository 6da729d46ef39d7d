-- ===== src/Environment/Tool.antt =====
-- `call_tool`, `list_tools`, `get_env_info`, `_call_function` and the methods over it.
use aenvironment.Common.{
  ℕ, zero, suc, Bool, false, Option, none, some, List, [], ◌∷◌, ◌++◌, ltb, leb, map, if◌then◌else◌,
}
use aenvironment.Common.Text.{Str, lit, str_eq, cut_at}
use aenvironment.Common.Dict.{Dict}
use aenvironment.Common.Json.{Json, object}
use aenvironment.Effect.{
  Result, ok, err, pure, raise, gets, lift, ◌>>=◌, ◌>>◌, try_except, raise_if,
}
use aenvironment.Effect.Exceptions.{Exn, is_exception, is_any, is_client_error}
use aenvironment.Models.{EnvInstance}
use aenvironment.World.{
  Oracle, Method, Item, CallResult, ToolInfo, tool_invoked, tools_listed, function_sent, Request,
  Body,
}
use aenvironment.Scheduler.Wait.{or_raise}
use aenvironment.Environment.{Act, update, circuit_breaker_threshold, perform_out, backoff}
use aenvironment.Environment.Session.{rebuild_mcp_client, ensure_mcp_session, set_active}
use aenvironment.Environment.Function.{function_call, get_field, checked_then, raw_params}
use aenvironment.Environment.Lifecycle.{ensure_initialized}

-- An entry of `ToolResult.content`: `{"type": ..., "text": ...}` or `{"type": ..., "data": ...}`.
pub data Content : Type 0 where
  text_content : Str → Content
  data_content : Str → Str → Content

pub record ToolResult : Type 0 where
  pub content : List Content
  pub is_error : Bool

abbrev typed_content : Option (Str × Str) → Str → Content
typed_content none shown = text_content shown
typed_content (some (type_name, body)) shown = data_content type_name body

unfoldable content_of : Item → Content
content_of i = elim i.text [
  | none ↦ typed_content i.typed i.shown
  | some [] ↦ typed_content i.typed i.shown
  | some (c ∷ s) ↦ text_content (c ∷ s)
]

unfoldable pub to_tool_result : CallResult → ToolResult
unfolding content_of
to_tool_result r = record { content = map content_of r.content; is_error = r.is_error }

-- `env_name/tool` or `tool`: the name behind the first `/`, if the part before it is this
-- environment's name
unfoldable pub parse_tool_name : Str → Str → Result Str
parse_tool_name env_name tool_name = elim (cut_at (lit "/") tool_name) [
  | none ↦ ok tool_name
  | some (owner, tool) ↦ if str_eq owner env_name then ok tool else err Exn.tool_error
]

unfoldable pub set_errors : (ℕ → ℕ) → Act (Unit {0})
unfolding update
set_errors f = update (λ e. record e { consecutive_tool_errors = f e.consecutive_tool_errors })

-- a tool under its full name
abbrev pub full_name : Str → ToolInfo → ToolInfo
full_name env_name t = record t { name = env_name ++ (lit "/" ++ t.name) }

abbrev health_request : Str → Dict Json → Dict Str → Request
health_request url args headers = record {
  method = Method.get;
  url = url;
  params = [];
  headers = headers;
  body = Body.query (raw_params args);
}

module _ (o : Oracle) where
  -- the handler of a failed attempt to establish the session, where `again` is the rest of the loop
  unfoldable pub on_session_error : ℕ → Act (Unit {0}) → Exn → Act (Unit {0})
  unfolding backoff rebuild_mcp_client
  on_session_error attempt again e =
      if is_client_error e
      then raise Exn.environment_error
      else if ltb attempt 2
      then (do backoff o 3 2 attempt; rebuild_mcp_client o; again)
      else raise Exn.environment_error

  -- The attempts that are left of the three, from number `attempt` on.
  unfoldable pub establish_session : ℕ → ℕ → Act (Unit {0})
  unfolding ensure_mcp_session on_session_error
  establish_session zero attempt = pure tt
  establish_session (suc left) attempt =
      let again = establish_session left (suc attempt) in
      try_except (ensure_mcp_session o) is_any (on_session_error attempt again)

  unfoldable pub on_tool_error : Act ToolResult
  unfolding set_active set_errors rebuild_mcp_client
  on_tool_error = do set_active false; set_errors suc; rebuild_mcp_client o; raise Exn.tool_error

  -- The invocation, which is made once: the tool may have run although the call failed.
  unfoldable pub invoke_tool : Str → Dict Json → Act ToolResult
  unfolding perform_out set_errors to_tool_result on_tool_error
  invoke_tool name args =
      try_except
        (do
          result ← perform_out o (tool_invoked name args) (o.tool name args)
          set_errors (λ _. 0)
          pure (to_tool_result result))
        is_any (λ _. on_tool_error)

  -- `call_tool` behind `_ensure_initialized`
  unfoldable pub checked_call : Str → Dict Json → Act ToolResult
  unfolding parse_tool_name establish_session invoke_tool
  checked_call tool_name args = do
    broken ← gets (λ s. leb circuit_breaker_threshold s.env.consecutive_tool_errors)
    raise_if broken Exn.unrecoverable_environment_error
    env_name ← gets (λ s. s.env.env_name)
    name ← lift (parse_tool_name env_name tool_name)
    establish_session 3 0
    invoke_tool name args

  unfoldable pub call_tool : Str → Dict Json → Act ToolResult
  unfolding ensure_initialized checked_call
  call_tool tool_name args = do ensure_initialized o; checked_call tool_name args

  unfoldable pub list_tools : Act (List ToolInfo)
  unfolding ensure_initialized ensure_mcp_session perform_out
  list_tools = do
    ensure_initialized o
    try_except
        (do
          ensure_mcp_session o
          tools ← perform_out o tools_listed o.tools
          env_name ← gets (λ s. s.env.env_name)
          pure (map (full_name env_name) tools))
        is_exception (λ _. raise Exn.environment_error)

  -- `_call_function` with `ensure_initialized=True`
  unfoldable pub initialized_call : Method → Str → Dict Json → Act Json
  unfolding ensure_initialized function_call
  initialized_call m url args = do ensure_initialized o; function_call o m url args

  unfoldable pub call_reward : Dict Json → Act Json
  unfolding initialized_call
  call_reward args = do
    url ← gets (λ s. s.env.aenv_reward_url)
    initialized_call Method.post url args

  unfoldable pub check_health : Dict Json → Act Json
  unfolding ensure_initialized perform_out
  check_health args = do
    ensure_initialized o
    try_except
        (do
          url ← gets (λ s. s.env.aenv_health_url)
          headers ← gets (λ s. s.env.proxy_headers)
          let r = health_request url args headers
          reply ← perform_out o (function_sent r) (o.function r)
          lift (checked_then reply.checked reply.json))
        is_exception (λ _. raise Exn.environment_error)

  unfoldable pub call_function : Str → Dict Json → Act Json
  unfolding initialized_call
  call_function function_name args = do
    base ← gets (λ s. s.env.aenv_functions_base_url)
    initialized_call Method.post (base ++ (lit "/" ++ function_name)) args

  -- the data of `list_functions`: an object under the key `data` takes the place of what holds it
  unfoldable unwrap_data : Json → Json
  unwrap_data result = elim (get_field (lit "data") result result) [
    | ok (object fs) ↦ object fs
    | _ ↦ result
  ]

  unfoldable pub list_functions : Act Json
  unfolding ensure_initialized function_call unwrap_data
  list_functions = do
    ensure_initialized o
    try_except
        (do
          base ← gets (λ s. s.env.aenv_functions_base_url)
          result ← function_call o Method.get (base ++ lit "/list") []
          pure (unwrap_data result))
        is_exception (λ _. raise Exn.environment_error)

  -- the name of the environment and the fields of its instance
  unfoldable pub get_env_info : Act (Str × EnvInstance)
  unfolding ensure_initialized
  get_env_info = do
    ensure_initialized o
    i ← or_raise (← gets (λ s. s.env.instance_of)) Exn.attribute_error
    name ← gets (λ s. s.env.env_name)
    pure (name, i)
