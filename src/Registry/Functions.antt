-- ===== src/Registry/Functions.antt =====
-- The registry of functions that an environment's server offers by HTTP,
-- aenv/src/aenv/core/function_registry.py, with `update_active_time` of mcp_health.py.
use aenvironment.Common.{
  ℕ, Bool, true, false, Option, none, some, List, [], ◌∷◌, ◌++◌, any, if◌then◌else◌,
}
use aenvironment.Common.Text.{Str, lit, str_eq}
use aenvironment.Common.Dict.{Dict, lookup, insert}
use aenvironment.Common.Json.{Json, bool, text, object, Fields, end, field}
use aenvironment.Effect.{Result, ok, err, Eff}
use aenvironment.Effect.Exceptions.{Exn, is_exception, is_type_or_value_error}
use aenvironment.Registry.{Function, Parameter, Returned}

-- the value of `_function_metadata[func_name]`, with the parameters before their `str`
pub record Metadata : Type 0 where
  pub endpoint : Str
  pub method : Str
  pub description : Str
  pub parameters : List Parameter
  pub is_async : Bool

-- a call of `custom_route`
pub record Route : Type 0 where
  pub endpoint : Str
  pub method : Str
  pub function : Function

pub record FunctionRegistry : Type 0 where
  pub has_server : Bool
  pub functions : Dict Function
  pub metadata : Dict Metadata
  pub routes : List Route

abbrev pub no_functions : FunctionRegistry
no_functions = record { has_server = false; functions = []; metadata = []; routes = [] }

unfoldable pub set_server : FunctionRegistry → FunctionRegistry
set_server r = record r { has_server = true }

abbrev pub default_endpoint : Str → Str
default_endpoint name = lit "/functions/" ++ name

abbrev pub endpoint_of : Function → Option Str → Str
endpoint_of f none = default_endpoint f.name
endpoint_of f (some e) = e

abbrev pub metadata_of : Function → Str → Str → Metadata
metadata_of f endpoint method = record {
  endpoint = endpoint;
  method = method;
  description = elim f.doc [ none ↦ [] | some d ↦ d ];
  parameters = f.parameters;
  is_async = f.is_async;
}

abbrev pub added : Function → Option Str → Str → FunctionRegistry → FunctionRegistry
added f endpoint method r = record r {
  functions = insert f.name f r.functions;
  metadata = insert f.name (metadata_of f (endpoint_of f endpoint) method) r.metadata;
  routes =
      r.routes ++ record { endpoint = endpoint_of f endpoint; method = method; function = f } ∷ [];
}

unfoldable pub register_function : Function → Option Str → Str → Eff FunctionRegistry Function
unfolding insert
register_function f endpoint method r =
    if r.has_server then (ok f, added f endpoint method r) else (err Exn.runtime_error, r)

-- the decorators `register_reward` and `register_health`
unfoldable pub register_reward : Function → Eff FunctionRegistry Function
unfolding register_function
register_reward f = register_function f (some (lit "/task/reward")) (lit "POST")

unfoldable pub register_health : Function → Eff FunctionRegistry Function
unfolding register_function
register_health f = register_function f (some (lit "/health")) (lit "GET")

-- What a client sends; reading the body as JSON may raise.
pub record Request : Type 0 where
  pub method : Str
  pub json_body : Result Json
  pub query_params : Fields

pub record Response : Type 0 where
  pub status_code : ℕ
  pub content : Str

abbrev pub success_body : Json → Json
success_body value = object (field (lit "success") (bool true) (field (lit "data") value end))

abbrev pub error_body : Str → Json
error_body error =
    object (field (lit "success") (bool false) (field (lit "error") (text error) end))

abbrev pub as_text : Result Str → Result Json
as_text (ok s) = ok (text s)
as_text (err e) = err e

abbrev pub dumped_or : Result Str → Result Json → Result Json
dumped_or shown (ok j) = ok j
dumped_or shown (err e) = if is_type_or_value_error e then as_text shown else err e

-- the result, or its `str` where `json.dumps(result)` raises a TypeError or a ValueError
abbrev pub serializable : Returned → Result Json
serializable v = dumped_or v.shown v.dumped

-- `func(**body)`
abbrev pub call_with : Function → Json → Result Returned
call_with f (object fs) = f.call fs
call_with f _ = err Exn.type_error

abbrev pub with_body : Function → Result Json → Result Returned
with_body f (ok body) = call_with f body
with_body f (err e) = err e

abbrev pub writes : List Str
writes = lit "POST" ∷ lit "PUT" ∷ lit "PATCH" ∷ []

-- `JSONResponse.render`, which raises for a number such as NaN and for a text that has no encoding,
-- and `str` of an exception.
module _ (render : Json → Result Str) (text_of : Exn → Result Str) where
  abbrev pub rendered : ℕ → Result Str → Result Response
  rendered code (ok content) = ok record { status_code = code; content = content }
  rendered code (err e) = err e

  -- `JSONResponse(content, status_code=code)`
  abbrev pub json_response : Json → ℕ → Result Response
  json_response body code = rendered code (render body)

  abbrev pub success_response : Result Json → Result Response
  success_response (ok value) = json_response (success_body value) 200
  success_response (err e) = err e

  -- the response on what the function returned or raised
  abbrev pub answer : Result Returned → Result Response
  answer (ok v) = success_response (serializable v)
  answer (err e) = err e

  abbrev pub error_response : Result Str → Result Response
  error_response (ok error) = json_response (error_body error) 500
  error_response (err e) = err e

  -- the clause `except Exception` of the handler
  abbrev pub respond : Result Response → Result Response
  respond (ok response) = ok response
  respond (err e) = if is_exception e then error_response (text_of e) else err e

  abbrev pub not_allowed : Result Response
  not_allowed = json_response (error_body (lit "Method not allowed")) 405

  -- The handler of a route, with the time of the last activity.
  unfoldable pub handler : Function → ℕ → Request → Eff ℕ Response
  unfolding str_eq
  handler f now request last_active =
      if any (str_eq request.method) writes
      then (
        respond (answer (with_body f request.json_body)),
        elim request.json_body [ ok body ↦ now | err e ↦ last_active ],
      )
      else if str_eq request.method (lit "GET")
      then (respond (answer (f.call request.query_params)), now)
      else (respond not_allowed, last_active)

abbrev pub endpoint_or : Str → Option Metadata → Str
endpoint_or name none = default_endpoint name
endpoint_or name (some m) = m.endpoint

abbrev pub endpoints : Dict Function → Dict Metadata → Dict Str
endpoints [] d = []
endpoints ((name, f) ∷ fs) d = (name, endpoint_or name (lookup name d)) ∷ endpoints fs d

unfoldable pub list_functions_simple : FunctionRegistry → Dict Str
unfolding lookup
list_functions_simple r = endpoints r.functions r.metadata

abbrev metadata_or : Str → Option Metadata → Metadata
metadata_or name none = record {
  endpoint = default_endpoint name;
  method = lit "POST";
  description = [];
  parameters = [];
  is_async = false;
}
metadata_or name (some m) = m

abbrev listed : Dict Function → Dict Metadata → Dict Metadata
listed [] d = []
listed ((name, f) ∷ fs) d = (name, metadata_or name (lookup name d)) ∷ listed fs d

unfoldable pub list_functions : FunctionRegistry → Dict Metadata
unfolding lookup
list_functions r = listed r.functions r.metadata
