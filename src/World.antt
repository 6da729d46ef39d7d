-- ===== src/World.antt =====
-- The world outside the SDK, for one task: HTTP services, the MCP client of the fastmcp library,
-- the event loop's clock and `asyncio.sleep`. An `Oracle` holds what the world answers: the n-th
-- call gets the n-th answer, and the theorems hold for every oracle. The `World` counts the calls,
-- keeps the clock in milliseconds and records every call in `trace`, the newest first.
pub mod Rules
pub mod Samples
use aenvironment.Common.{ℕ, suc, ◌+◌, Bool, Option, List, ◌∷◌, if◌then◌else◌}
use aenvironment.Common.Text.{Str}
use aenvironment.Common.Dict.{Dict}
use aenvironment.Common.Json.{Json}
use aenvironment.Effect.{Result, ok, err, Eff}
use aenvironment.Effect.Exceptions.{Exn}
use aenvironment.Models.{
  EnvInstance, EnvInstanceCreateRequest, EnvService, EnvServiceCreateRequest,
  EnvServiceUpdateRequest, ApiResponse,
}

-- `json.dumps(v) if isinstance(v, (dict, list)) else v`: `dumped v` stands for the text of `v`.
pub data QueryValue : Type 0 where
  dumped : Json → QueryValue
  plain : Json → QueryValue

-- What a request carries in its body.
pub data Body : Type 0 where
  no_body : Body
  create_instance : EnvInstanceCreateRequest → Body
  create_service : EnvServiceCreateRequest → Body
  update_service : EnvServiceUpdateRequest → Body
  json_body : Dict Json → Body
  -- the query of a GET
  query : Dict QueryValue → Body

pub data Method : Type 0 where
  get post put patch delete : Method

pub record Request : Type 0 where
  pub method : Method
  pub url : Str
  pub params : Dict Str
  pub headers : Dict Str
  pub body : Body

-- A payload of the scheduler: its truth value, and how pydantic reads it as each model. Reading
-- fails with a `ValueError`, or with a `TypeError` where the payload is no JSON object.
pub record Payload : Type 0 where
  pub truthy : Bool
  pub as_instance : Result EnvInstance
  pub as_instances : Result (List EnvInstance)
  pub as_service : Result EnvService
  pub as_services : Option (List (Result EnvService))

-- A response of the scheduler; `parsed` is `APIResponse(**response.json())`.
pub record Response : Type 0 where
  pub status_code : ℕ
  pub parsed : Result (ApiResponse Payload)

-- A response of a function endpoint inside the instance: `raise_for_status`, then `json`.
pub record FunctionReply : Type 0 where
  pub checked : Result (Unit {0})
  pub json : Result Json

-- An item of an MCP result: its `text`, its `type` and `data`, and what `str` makes of it.
pub record Item : Type 0 where
  pub text : Option Str
  pub typed : Option (Str × Str)
  pub shown : Str

pub record CallResult : Type 0 where
  pub content : List Item
  pub is_error : Bool

pub record ToolInfo : Type 0 where
  pub name : Str
  pub description : Option Str
  pub input_schema : Json

pub data Event : Type 0 where
  sent : Request → Event
  slept : ℕ → Event
  scheduler_closed : Event
  connection_checked : Event
  session_entered : Event
  session_exited : Event
  client_created : Event
  client_closed : Event
  tools_listed : Event
  tool_invoked : Str → Dict Json → Event
  function_sent : Request → Event

pub record Oracle : Type 0 where
  pub http : Request → ℕ → Result Response
  pub function : Request → ℕ → Result FunctionReply
  pub tool : Str → Dict Json → ℕ → Result CallResult
  pub tools : ℕ → Result (List ToolInfo)
  pub mcp : ℕ → Result (Unit {0})
  pub is_connected : ℕ → Bool
  pub interrupted : ℕ → Bool
  pub latency : ℕ → ℕ
  pub jitter : ℕ → ℕ
  -- the date and time as text
  pub now_text : ℕ → Str

pub record World : Type 0 where
  pub calls : ℕ
  pub clock : ℕ
  pub trace : List Event

unfoldable pub advance : ℕ → Event → World → World
advance elapsed e w = record w {
  calls = suc w.calls;
  clock = w.clock + elapsed;
  trace = e ∷ w.trace;
}

module _ (o : Oracle) where
  -- One call to the world.
  unfoldable pub perform : {A : Type 0} → Event → (ℕ → Result A) → Eff World A
  unfolding advance
  perform e answer w = (answer w.calls, advance (o.latency w.calls) e w)

  -- `await asyncio.sleep(d)`: at least `d` goes by, unless the task is cancelled in it.
  unfoldable pub sleep : ℕ → Eff World (Unit {0})
  unfolding advance
  sleep d w =
      if o.interrupted w.calls
      then (err Exn.cancelled_error, advance (o.latency w.calls) (slept d) w)
      else (ok tt, advance (d + o.latency w.calls) (slept d) w)
