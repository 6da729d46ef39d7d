-- ===== src/Environment.antt =====
-- aenv/src/aenv/core/environment.py: the class `Environment`, its state and what its methods share.
-- A method is an action on `Sys`, the object with the world around it. One task runs at a time, so
-- the locks are taken at once; log lines and the text of messages are left out.
pub mod Session
pub mod Function
pub mod Lifecycle
pub mod Tool
pub mod Frame
pub mod Steps
pub mod Once
pub mod Calls
pub mod Health
pub mod Names
pub mod Release
pub mod Failure
pub mod Refusal
pub mod Tests
pub mod Moves
pub mod Breaker
use aenvironment.Common.{
  ℕ, suc, ◌+◌, ◌*◌, ◌/◌, ◌^◌, Bool, true, false, not, Option, none, some, List, [], ◌∷◌, ◌++◌, ltb,
  min, is_some, if◌then◌else◌,
}
use aenvironment.Common.Text.{Str, lit, str_eq, cut_at}
use aenvironment.Common.Dict.{Dict}
use aenvironment.Effect.{Result, ok, err, Eff, pure, raise, gets, lift, modify, ◌>>=◌, ◌>>◌, within}
use aenvironment.Models.{EnvInstance}
use aenvironment.World.{World, Oracle, Event, perform, sleep}
use aenvironment.Scheduler.{SchedulerClient}
use aenvironment.Url.{make_mcp_url}

pub record Environment : Type 0 where
  pub env_name : Str
  pub datasource : Str
  pub environment_variables : Dict Str
  pub arguments : List Str
  pub dummy_instance_ip : Option Str
  pub skip_for_healthy : Bool
  pub owner : Option Str
  pub labels : Option (Dict Str)
  pub aenv_control_url : Str
  pub aenv_data_url : Str
  pub aenv_health_url : Str
  pub aenv_reward_url : Str
  pub aenv_functions_base_url : Str
  pub proxy_headers : Dict Str
  -- milliseconds
  pub timeout : ℕ
  pub startup_timeout : ℕ
  pub ttl : Str
  pub max_retries : ℕ
  pub api_key : Option Str
  pub instance_of : Option EnvInstance
  pub initialized : Bool
  pub client : Option SchedulerClient
  -- `_mcp_client is not None`
  pub mcp_client : Bool
  pub mcp_session_active : Bool
  pub consecutive_tool_errors : ℕ

-- `_CIRCUIT_BREAKER_THRESHOLD`
abbrev pub circuit_breaker_threshold : ℕ
circuit_breaker_threshold = 5

pub record Sys : Type 0 where
  pub env : Environment
  pub world : World

abbrev pub Act : Type 0 → Type 0
Act A = Eff Sys A

-- an action of the world alone
unfoldable pub outside : {A : Type 0} → Eff World A → Act A
unfolding within
outside = within (λ s. s.world) (λ s w. record s { world = w })

-- the assignments to fields of `self`
unfoldable pub update : (Environment → Environment) → Act (Unit {0})
update f = modify (λ s. record s { env = f s.env })

-- `x` where it is a text with something in it
abbrev pub is_given : Option Str → Bool
is_given none = false
is_given (some s) = not (str_eq s (lit ""))

-- `split_env_name_version`
unfoldable pub split_env_name_version : Str → Str × Str
split_env_name_version [] = ([], [])
split_env_name_version (c ∷ s) = elim (cut_at (lit "@") (c ∷ s)) [
  | none ↦ (c ∷ s, [])
  | some (name, version) ↦ (name, version)
]

abbrev or_default : Option Str → Str → Str
or_default none d = d
or_default (some s) d = if str_eq s (lit "") then d else s

-- The arguments of `Environment(...)`, with their defaults written out by the caller.
pub record Options : Type 0 where
  pub env_name : Str
  pub datasource : Str
  pub ttl : Str
  pub environment_variables : Option (Dict Str)
  pub arguments : Option (List Str)
  pub aenv_url : Option Str
  pub timeout : ℕ
  pub startup_timeout : ℕ
  pub max_retries : ℕ
  pub api_key : Option Str
  pub skip_for_healthy : Bool
  pub owner : Option Str
  pub labels : Option (Dict Str)

abbrev or_empty {ℓ} : {A : Type ℓ} → Option (List A) → List A
or_empty none = []
or_empty (some xs) = xs

-- `aenv_url`, or else DUMMY_INSTANCE_IP, or else AENV_SYSTEM_URL, or else the local host
abbrev choose_url : Option Str → Option Str → Option Str → Str
choose_url given dummy system =
    if is_given given
    then or_default given []
    else if is_given dummy
    then or_default dummy []
    else elim system [ none ↦ lit "http://localhost" | some s ↦ s ]

abbrev result_bind {ℓ} : {A B : Type ℓ} → Result A → (A → Result B) → Result B
result_bind (ok a) f = f a
result_bind (err e) f = err e

-- `__init__`; the two texts are the environment variables DUMMY_INSTANCE_IP and AENV_SYSTEM_URL.
unfoldable init : Option Str → Option Str → Options → Result Environment
unfolding make_mcp_url
init dummy system q =
    let url = choose_url q.aenv_url dummy system in
    result_bind (make_mcp_url url (lit "8080") []) λ control.
      result_bind (make_mcp_url url (lit "8081") (lit "/mcp")) λ data_url.
        result_bind (make_mcp_url url (lit "8081") (lit "/health")) λ health.
          result_bind (make_mcp_url url (lit "8081") (lit "/task/reward")) λ reward.
            result_bind (make_mcp_url url (lit "8081") (lit "/functions")) λ functions. ok (record {
              env_name = q.env_name;
              datasource = q.datasource;
              environment_variables = or_empty q.environment_variables;
              arguments = or_empty q.arguments;
              dummy_instance_ip = dummy;
              skip_for_healthy = q.skip_for_healthy;
              owner = q.owner;
              labels = q.labels;
              aenv_control_url = control;
              aenv_data_url = data_url;
              aenv_health_url = health;
              aenv_reward_url = reward;
              aenv_functions_base_url = functions;
              proxy_headers = [];
              timeout = q.timeout;
              startup_timeout = q.startup_timeout;
              ttl = q.ttl;
              max_retries = q.max_retries;
              api_key = q.api_key;
              instance_of = none;
              initialized = false;
              client = none;
              mcp_client = false;
              mcp_session_active = false;
              consecutive_tool_errors = 0;
            })

module _ (o : Oracle) where
  unfoldable pub perform_out : {A : Type 0} → Event → (ℕ → Result A) → Act A
  unfolding outside
  perform_out e answer = outside (perform o e answer)

  unfoldable pub sleep_out : ℕ → Act (Unit {0})
  unfolding outside
  sleep_out d = outside (sleep o d)

  -- `_backoff`: `base ** attempt` seconds, where `base` is `num / den`, and up to one second more
  unfoldable pub backoff : ℕ → ℕ → ℕ → Act (Unit {0})
  unfolding sleep_out
  backoff num den attempt = do
    j ← gets (λ s. min (o.jitter s.world.calls) 1000)
    sleep_out (1000 * num ^ attempt / den ^ attempt + j)
