-- ===== src/Scheduler.antt =====
-- aenv/src/aenv/client/scheduler_client.py: the client of the scheduler's HTTP API. Every
-- operation sends its request at most `max_retries + 1` times, and sleeps between the attempts.
-- Times are in milliseconds; log lines and the text of messages are left out.
pub mod Retry
pub mod Read
pub mod Bounds
pub mod Calls
pub mod Frame
pub mod Wait
pub mod Tests
use aenvironment.Common.{
  ℕ, zero, suc, ◌+◌, ◌*◌, ◌/◌, ◌^◌, Bool, true, false, not, Option, none, some, List, [], ◌∷◌, ◌++◌,
  ltb, ◌==◌, is_some, if◌then◌else◌, ◌==◌,
}
use aenvironment.Common.Text.{Str, lit, str_eq}
use aenvironment.Common.Dict.{Dict}
use aenvironment.Effect.{Result, Eff, pure, raise, gets, lift, ◌>>=◌, ◌>>◌, raise_if, try_except}
use aenvironment.Effect.Exceptions.{Exn, is_request_error}
use aenvironment.Models.{
  EnvStatus, status_value, EnvInstance, EnvInstanceCreateRequest, EnvService,
  EnvServiceCreateRequest, EnvServiceUpdateRequest,
}
use aenvironment.World.{
  World, Oracle, Request, Response, Body, Method, sent, scheduler_closed, perform, sleep,
}
use Retry.{retry}
use Read.{read_instance, read_instances, read_success, read_service, read_services}

pub record SchedulerClient : Type 0 where
  pub base_url : Str
  pub timeout : ℕ
  pub max_retries : ℕ
  pub api_key : Option Str
  -- `_client is not None`
  pub connected : Bool

abbrev rstrip_slash : Str → Str
rstrip_slash [] = []
rstrip_slash (c ∷ s) = elim (rstrip_slash s) [
  | [] ↦ if c == b'/' then [] else c ∷ []
  | d ∷ r ↦ c ∷ d ∷ r
]

-- `AEnvSchedulerClient(...)`
unfoldable pub new_client : Str → ℕ → ℕ → Option Str → SchedulerClient
new_client base_url timeout max_retries api_key = record {
  base_url = rstrip_slash base_url;
  timeout = timeout;
  max_retries = max_retries;
  api_key = api_key;
  connected = false;
}

-- `connect`: a fresh HTTP client takes the place of the old one
unfoldable pub connect : SchedulerClient → SchedulerClient
connect c = record c { connected = true }

module _ (o : Oracle) where
  -- `close`: the client after the call; where `aclose` raises, it keeps its HTTP client
  unfoldable pub close : SchedulerClient → Eff World SchedulerClient
  close c =
      if c.connected
      then (do perform o scheduler_closed o.mcp; pure (record c { connected = false }))
      else pure c

  -- `__aenter__` and `__aexit__`
  unfoldable aenter : SchedulerClient → SchedulerClient
  unfolding connect
  aenter c = connect c

  unfoldable aexit : SchedulerClient → Eff World SchedulerClient
  unfolding close
  aexit c = close c

  -- What the operations share: the check for a connection, and the loop of attempts.
  unfoldable pub call :
      {A : Type 0} → SchedulerClient → Bool → Request → (Response → Result A) → Eff World (Option A)
  call c jittered r read = do
    raise_if (not c.connected) Exn.network_error
    retry o c.max_retries jittered r read (suc c.max_retries) 0

abbrev instance_request : Method → Str → Request
instance_request m instance_id = record {
  method = m;
  url = lit "/env-instance/" ++ instance_id;
  params = [];
  headers = [];
  body = Body.no_body;
}

abbrev service_request : Method → Str → Body → Request
service_request m path b = record {
  method = m;
  url = lit "/env-service/" ++ path;
  params = [];
  headers = [];
  body = b;
}

abbrev create_request : EnvInstanceCreateRequest → Request
create_request q = record {
  method = Method.post;
  url = lit "/env-instance";
  params = [];
  headers = [];
  body = Body.create_instance q;
}

-- `if pool_name:`
abbrev given : Option Str → Bool
given none = false
given (some s) = not (str_eq s (lit ""))

abbrev text_or_empty : Option Str → Str
text_or_empty none = []
text_or_empty (some s) = s

abbrev status_params : Option EnvStatus → Dict Str
status_params none = []
status_params (some s) = (lit "status", status_value s) ∷ []

abbrev list_request : Option Str → Option EnvStatus → Request
list_request pool_name status = record {
  method = Method.get;
  url =
      if given pool_name
      then lit "/env-instance/" ++ (text_or_empty pool_name ++ lit "/list")
      else lit "/env-instance/list";
  params = status_params status;
  headers = [];
  body = Body.no_body;
}

abbrev list_services_url : Option Str → Str
list_services_url env_name =
    if given env_name then text_or_empty env_name ++ lit "/list" else lit "*/list"

abbrev delete_service_path : Str → Bool → Str
delete_service_path service_id delete_storage =
    if delete_storage then service_id ++ lit "?deleteStorage=true" else service_id

module _ (o : Oracle) (c : SchedulerClient) where
  unfoldable pub create_env_instance : EnvInstanceCreateRequest → Eff World (Option EnvInstance)
  unfolding call
  create_env_instance q = call o c true (create_request q) read_instance

  unfoldable pub get_env_instance : Str → Eff World (Option EnvInstance)
  unfolding call
  get_env_instance instance_id =
      call o c false (instance_request Method.get instance_id) read_instance

  unfoldable list_env_instances :
      Option Str → Option EnvStatus → Eff World (Option (List EnvInstance))
  unfolding call
  list_env_instances pool_name status =
      call o c false (list_request pool_name status) read_instances

  unfoldable pub delete_env_instance : Str → Eff World (Option Bool)
  unfolding call
  delete_env_instance instance_id =
      call o c false (instance_request Method.delete instance_id) read_success

  unfoldable create_env_service : EnvServiceCreateRequest → Eff World (Option EnvService)
  unfolding call
  create_env_service q =
      call o c true
        (record {
          method = Method.post;
          url = lit "/env-service";
          params = [];
          headers = [];
          body = Body.create_service q;
        })
        read_service

  unfoldable get_env_service : Str → Eff World (Option EnvService)
  unfolding call
  get_env_service service_id =
      call o c false (service_request Method.get service_id Body.no_body) read_service

  unfoldable list_env_services : Option Str → Eff World (Option (List EnvService))
  unfolding call
  list_env_services env_name =
      call o c false (service_request Method.get (list_services_url env_name) Body.no_body)
        read_services

  unfoldable delete_env_service : Str → Bool → Eff World (Option Bool)
  unfolding call
  delete_env_service service_id delete_storage =
      call o c false
        (service_request Method.delete (delete_service_path service_id delete_storage) Body.no_body)
        read_success

  unfoldable update_env_service : Str → EnvServiceUpdateRequest → Eff World (Option EnvService)
  unfolding call
  update_env_service service_id q =
      call o c false (service_request Method.put service_id (Body.update_service q)) read_service
