-- ===== src/Environment/Tests.antt =====
-- Tests of environment.py: the theorems at an environment that is ready, at one whose circuit is
-- open, and at names as the documentation has them.
use aenvironment.Common.{ℕ, ◌+◌, ◌≤◌, ◌≡◌, ◌≢◌, refl, true, false, none, some, [], ◌∷◌, arith}
use aenvironment.Common.Text.{lit, str_eq, cut_at, starts_with, contains}
use aenvironment.Common.Json.{object, end}
use aenvironment.Effect.{ok, err, ◌>>=◌, finally, ◌>>◌, when, raise_if, try_except}
use aenvironment.World.{Oracle, ToolInfo, perform, sleep}
use aenvironment.World.Samples.{running_instance, flaky, new_world}
use aenvironment.Environment.{Environment, Sys, backoff}
use aenvironment.Environment.Function.{health_loop}
use aenvironment.Environment.Lifecycle.{release, initialize}
use aenvironment.Environment.Tool.{on_session_error, call_tool, parse_tool_name}
use aenvironment.Environment.Once.{Calm, errors, invoked}
use aenvironment.Environment.Calls.{Accounted, call_tool-Accounted}
use aenvironment.Environment.Moves.{Move, by_call_tool, by_release, Run, Streak, returned}
use aenvironment.Environment.Breaker.{call_tool_broken, breaker_stays_open, Streak-bounded}
use aenvironment.Environment.Health.{health_loop-ne-none}
use aenvironment.Environment.Release.{Cleared, release-Cleared}
use aenvironment.Environment.Failure.{initialize_failed-Cleared}
use aenvironment.Environment.Refusal.{IsRefusal, session_failure_retried}
use aenvironment.Environment.Session.{forget_client, rebuild_mcp_client, ensure_mcp_session}
use aenvironment.Effect.Exceptions.{Exn}
use aenvironment.Scheduler.{create_env_instance, connect, close}
use aenvironment.Scheduler.Retry.{retry}
use aenvironment.Environment.Names.{parse_tool_name-full_name}

abbrev ready_with : ℕ → Environment
ready_with n = record {
  env_name = lit "weather@1.0.2";
  datasource = [];
  environment_variables = (lit "CITY", lit "Oslo") ∷ [];
  arguments = [];
  dummy_instance_ip = none;
  skip_for_healthy = false;
  owner = none;
  labels = none;
  aenv_control_url = lit "http://10.0.0.1:8080";
  aenv_data_url = lit "http://10.0.0.1:8081/mcp";
  aenv_health_url = lit "http://10.0.0.1:8081/health";
  aenv_reward_url = lit "http://10.0.0.1:8081/task/reward";
  aenv_functions_base_url = lit "http://10.0.0.1:8081/functions";
  proxy_headers = [];
  timeout = 60000;
  startup_timeout = 500000;
  ttl = lit "30m";
  max_retries = 10;
  api_key = none;
  instance_of = some running_instance;
  initialized = true;
  client = none;
  mcp_client = true;
  mcp_session_active = true;
  consecutive_tool_errors = n;
}

abbrev ready : Sys
ready = record { env = ready_with 0; world = new_world }

abbrev broken : Sys
broken = record { env = ready_with 5; world = new_world }

call_tool-Accounted_example : Accounted ready (call_tool flaky (lit "forecast") [] ready)
call_tool-Accounted_example = call_tool-Accounted flaky (lit "forecast") [] ready

call_tool_broken_example :
    Calm broken (call_tool flaky (lit "forecast") [] broken).1
    × (returned (call_tool flaky (lit "forecast") [] broken).0 ≡ false)
call_tool_broken_example = call_tool_broken flaky (lit "forecast") [] broken (omega arith)

-- a release, and a call of a tool behind it
abbrev released : Sys
released = (release flaky broken).1

abbrev called : Sys
called = (call_tool flaky (lit "forecast") [] released).1

abbrev release_and_call : Run flaky broken called
release_and_call = Run.go false broken released called (by_release broken) (
    Run.go (returned (call_tool flaky (lit "forecast") [] released).0) released called called
      (by_call_tool (lit "forecast") [] released) (Run.stop called))

breaker_stays_open_example : Calm broken called
breaker_stays_open_example = breaker_stays_open flaky broken called release_and_call (omega arith)

abbrev failed_once : Sys
failed_once = (call_tool flaky (lit "forecast") [] ready).1

failing_call : Move flaky false ready failed_once
unfolding call_tool ◌>>◌ when raise_if cut_at try_except perform sleep
failing_call = by_call_tool (lit "forecast") [] ready

Streak-bounded_example :
    (errors failed_once + 0 ≡ 0 + invoked failed_once) × (0 + invoked failed_once ≤ 5 + 0)
Streak-bounded_example =
    Streak-bounded flaky ready failed_once
      (Streak.go ready failed_once failed_once failing_call (Streak.stop failed_once)) (omega arith)

health_loop-ne-none_example : (health_loop flaky 300000 ready).0 ≢ ok none
health_loop-ne-none_example = health_loop-ne-none flaky 300000 ready

abbrev forecast : ToolInfo
forecast = record { name = lit "forecast"; description = none; input_schema = object end }

parse_tool_name-full_name_example :
    parse_tool_name (lit "weather@1.0.2") (lit "weather@1.0.2/forecast") ≡ ok (lit "forecast")
unfolding contains cut_at starts_with
parse_tool_name-full_name_example = parse_tool_name-full_name (lit "weather@1.0.2") forecast refl

release-Cleared_example : Cleared (release flaky broken).1
unfolding release ◌>>◌ when finally try_except perform
release-Cleared_example = release-Cleared flaky broken refl

-- a scheduler that cannot be reached, and an MCP server that refuses
abbrev dead : Oracle
dead = record flaky { http = λ r n. err Exn.other_error }

abbrev refusing : Oracle
refusing = record flaky { mcp = λ n. err (Exn.http_status_error 403); is_connected = λ n. false }

abbrev new : Sys
new = record ready { env = record (ready_with 0) { initialized = false; instance_of = none } }

initialize_failed-Cleared_example : Cleared (initialize dead new).1
unfolding initialize ◌>>=◌ try_except ◌>>◌ create_env_instance raise_if connect retry perform when
    finally close
initialize_failed-Cleared_example = initialize_failed-Cleared dead new refl

session_failure_retried_example :
    IsRefusal Exn.environment_error
    × (on_session_error refusing 0 forget_client Exn.environment_error
        ≡ (do backoff refusing 3 2 0; rebuild_mcp_client refusing; forget_client))
unfolding ensure_mcp_session ◌>>=◌ perform ◌>>◌ when try_except raise_if str_eq
session_failure_retried_example =
    session_failure_retried refusing 0 forget_client ready Exn.environment_error refl
