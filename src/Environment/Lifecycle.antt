-- ===== src/Environment/Lifecycle.antt =====
-- The life of an `Environment`: `release`, `initialize`, `_create_env_instance`, `wait_for_ready`,
-- `_ensure_initialized`, `__aenter__` and `__aexit__`.
use aenvironment.Common.{
  ℕ, zero, suc, Bool, true, false, not, ◌&&◌, Option, none, some, ltb, is_some, if◌then◌else◌,
}
use aenvironment.Common.Text.{Str, lit}
use aenvironment.Common.Dict.{Dict, insert}
use aenvironment.Effect.{pure, raise, gets, ◌>>=◌, ◌>>◌, try_except, finally, when}
use aenvironment.Effect.Exceptions.{Exn, is_exception, is_any}
use aenvironment.Models.{EnvStatus, EnvInstance, EnvInstanceCreateRequest}
use aenvironment.World.{Oracle, client_closed}
use aenvironment.Scheduler
use aenvironment.Scheduler.{
  SchedulerClient, new_client, connect, create_env_instance, delete_env_instance,
}
use aenvironment.Scheduler.Wait.{or_raise, wait_for_status}
use aenvironment.Environment.{
  Environment, Act, outside, update, is_given, split_env_name_version, perform_out, sleep_out,
}
use aenvironment.Environment.Session.{
  forget_client, set_active, rebuild_mcp_client, close_mcp_session, ensure_mcp_session,
}
use aenvironment.Environment.Function.{wait_for_healthy}

unfoldable pub set_instance : Option EnvInstance → Act (Unit {0})
unfolding update
set_instance i = update (λ e. record e { instance_of = i })

unfoldable pub set_client : Option SchedulerClient → Act (Unit {0})
unfolding update
set_client c = update (λ e. record e { client = c })

unfoldable pub set_initialized : Bool → Act (Unit {0})
unfolding update
set_initialized b = update (λ e. record e { initialized = b })

-- the variables of the instance, with `envNAME` and `envversion` set
unfoldable pub env_vars : Environment → Dict Str
unfolding split_env_name_version
env_vars e =
    let (name, version) = split_env_name_version e.env_name in
    insert (lit "envversion") version (insert (lit "envNAME") name e.environment_variables)

unfoldable create_request_of : Environment → EnvInstanceCreateRequest
unfolding env_vars
create_request_of e = record {
  env_name = e.env_name;
  datasource = e.datasource;
  ttl = e.ttl;
  environment_variables = some (env_vars e);
  arguments = some e.arguments;
  owner = e.owner;
  labels = e.labels;
}

module _ (o : Oracle) where
  unfoldable pub release_mcp : Act (Unit {0})
  unfolding perform_out forget_client set_active
  release_mcp = do
    held ← gets (λ s. s.env.mcp_client)
    when held (
        finally (try_except (perform_out o client_closed o.mcp) is_any (λ _. pure tt))
          (do forget_client; set_active false))

  unfoldable pub delete_instance : SchedulerClient → Option EnvInstance → Act (Unit {0})
  unfolding outside
  delete_instance c none = pure tt
  delete_instance c (some i) = do
    dummy ← gets (λ s. is_given s.env.dummy_instance_ip)
    when (not dummy) (
        try_except (do outside (delete_env_instance o c i.id); pure tt) is_exception (λ _. pure tt))

  unfoldable pub release_scheduler : Option SchedulerClient → Act (Unit {0})
  unfolding outside delete_instance set_client
  release_scheduler none = pure tt
  release_scheduler (some c) = do
    found ← gets (λ s. s.env.instance_of)
    delete_instance c found
    finally (try_except (do outside (Scheduler.close o c); pure tt) is_exception (λ _. pure tt))
        (set_client none)

  unfoldable pub release : Act (Unit {0})
  unfolding release_mcp release_scheduler set_instance set_initialized
  release = do
    release_mcp
    c ← gets (λ s. s.env.client)
    release_scheduler c
    set_instance none
    set_initialized false

  -- `wait_for_ready` behind its first test
  unfoldable pub await_running : ℕ → Act (Unit {0})
  unfolding outside set_instance wait_for_healthy
  await_running timeout =
      try_except
        (do
          c ← or_raise (← gets (λ s. s.env.client)) Exn.attribute_error
          i ← or_raise (← gets (λ s. s.env.instance_of)) Exn.attribute_error
          found ← outside (wait_for_status o c i.id EnvStatus.running timeout 2000)
          set_instance found
          wait_for_healthy o 300000)
        is_exception (λ _. raise Exn.environment_error)

  -- `wait_for_ready`, where `initialize` is the method that it may call
  unfoldable pub wait_for_ready_by : Act (Unit {0}) → ℕ → Act (Unit {0})
  unfolding await_running
  wait_for_ready_by initialize timeout = do
    ready ← gets (λ s. is_some s.env.client && is_some s.env.instance_of)
    when (not ready) initialize
    await_running timeout

  unfoldable pub create_by : Act (Unit {0}) → SchedulerClient → Act (Unit {0})
  unfolding outside set_instance create_request_of wait_for_ready_by
  create_by initialize c =
      try_except
        (do
          q ← gets (λ s. create_request_of s.env)
          created ← outside (create_env_instance o c q)
          set_instance created
          or_raise created Exn.attribute_error
          startup ← gets (λ s. s.env.startup_timeout)
          wait_for_ready_by initialize startup)
        is_exception (λ _. raise Exn.environment_error)

  -- `_create_env_instance`
  unfoldable pub create_env_instance_by : Act (Unit {0}) → Act (Unit {0})
  unfolding create_by
  create_env_instance_by initialize = do
    c ← or_raise (← gets (λ s. s.env.client)) Exn.environment_error
    create_by initialize c

  -- the instance that DUMMY_INSTANCE_IP stands for
  unfoldable pub use_dummy : Act (Unit {0})
  unfolding set_instance
  use_dummy = do
    now ← gets (λ s. o.now_text s.world.calls)
    ip ← gets (λ s. s.env.dummy_instance_ip)
    set_instance (
        some (record {
          id = lit "test";
          env = none;
          status = lit "Running";
          created_at = now;
          updated_at = now;
          ip = ip;
          labels = none;
        }))

  -- the `try` of `initialize`; `none` is the `None` of the bare `return`
  unfoldable pub start_dummy : Act (Option Bool)
  unfolding use_dummy set_initialized wait_for_healthy
  start_dummy = do use_dummy; wait_for_healthy o 300000; set_initialized true; pure none

  unfoldable pub start_instance : Act (Unit {0}) → Act (Option Bool)
  unfolding set_client create_env_instance_by set_initialized
  start_instance initialize = do
    c ← or_raise (← gets (λ s. s.env.client)) Exn.attribute_error
    set_client (some (connect c))
    create_env_instance_by initialize
    set_initialized true
    pure (some true)

  unfoldable pub start : Act (Unit {0}) → Act (Option Bool)
  unfolding set_client new_client start_dummy start_instance
  start initialize = do
    c ← gets (λ s. new_client s.env.aenv_control_url s.env.timeout s.env.max_retries s.env.api_key)
    set_client (some c)
    dummy ← gets (λ s. is_given s.env.dummy_instance_ip)
    (if dummy then start_dummy else start_instance initialize)

  unfoldable pub start_or_release : Act (Unit {0}) → Act (Option Bool)
  unfolding start release
  start_or_release initialize =
      try_except (start initialize) is_exception λ _. do release; raise Exn.environment_error

  unfoldable pub initialize_by : Act (Unit {0}) → Act (Option Bool)
  unfolding start_or_release
  initialize_by initialize = do
    done ← gets (λ s. s.env.initialized)
    (if done then pure (some true) else start_or_release initialize)

  -- The call of `initialize` inside `initialize`, by way of `wait_for_ready`, is never made.
  unfoldable pub initialize : Act (Option Bool)
  unfolding initialize_by
  initialize = initialize_by (raise Exn.recursion_error)

  unfoldable pub wait_for_ready : ℕ → Act (Unit {0})
  unfolding wait_for_ready_by initialize
  wait_for_ready timeout = wait_for_ready_by (do initialize; pure tt) timeout

  -- `_ensure_initialized`; under the lock the test is made again, with the same answer
  unfoldable pub ensure_initialized : Act (Unit {0})
  unfolding initialize
  ensure_initialized = do
    done ← gets (λ s. s.env.initialized)
    when (not done)
        do still_done ← gets (λ s. s.env.initialized); when (not still_done) do initialize; pure tt

  -- The attempts that are left of the three of `__aenter__`, from number `attempt` on.
  unfoldable pub open_session : ℕ → ℕ → Act (Unit {0})
  unfolding ensure_mcp_session rebuild_mcp_client sleep_out
  open_session zero attempt = pure tt
  open_session (suc left) attempt =
      let again = open_session left (suc attempt) in
      try_except (ensure_mcp_session o) is_any
        λ e. if ltb attempt 2 then (do rebuild_mcp_client o; sleep_out o 1000; again) else raise e

  unfoldable pub aenter : Act (Unit {0})
  unfolding initialize open_session
  aenter = do initialize; open_session 3 0

  unfoldable pub aexit : Act (Unit {0})
  unfolding close_mcp_session release
  aexit = do close_mcp_session o; release
