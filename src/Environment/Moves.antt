-- ===== src/Environment/Moves.antt =====
-- The public methods of one `Environment` of environment.py, called one after the other, in any
-- order: the states that they lead through.
use aenvironment.Common.{ℕ, zero, suc, Bool, true, false, ltb, if◌then◌else◌}
use aenvironment.Common.Text.{Str}
use aenvironment.Common.Dict.{Dict}
use aenvironment.Common.Json.{Json}
use aenvironment.Effect.{Result, ok, err, pure, raise, ◌>>◌}
use aenvironment.Effect.Exceptions.{Exn}
use aenvironment.Effect.Keeps.{Keeps, keeps_rules, Keeps-pure, Keeps-try_except}
use aenvironment.World.{Oracle, Method, Request, tools_listed, function_sent}
use aenvironment.Scheduler.Wait.{Keeps-or_raise}
use aenvironment.Environment.{Sys, Act, perform_out, sleep_out}
use aenvironment.Environment.Session.{rebuild_mcp_client, close_mcp_session}
use aenvironment.Environment.Lifecycle.{
  initialize, wait_for_ready, release, open_session, aenter, aexit,
}
use aenvironment.Environment.Function.{function_call}
use aenvironment.Environment.Tool.{
  call_tool, list_tools, initialized_call, call_reward, call_function, list_functions, get_env_info,
  check_health,
}
use aenvironment.Environment.Frame.{close_session-Keeps, function-Keeps, perform-Keeps, sleep-Keeps}
use aenvironment.Environment.Steps.{initialize-Keeps, release-Keeps, ready-Keeps}
use aenvironment.Environment.Once.{
  Calm, Calm-order, Calm-IsFrame, rebuild-Calm, ensure_initialized-Calm, ensure_session-Calm,
}

module _ (o : Oracle) where
  pub initialize-Calm : Keeps Calm (initialize o)
  initialize-Calm = initialize-Keeps Calm-IsFrame o

  pub release-Calm : Keeps Calm (release o)
  release-Calm = release-Keeps Calm-IsFrame o

  close_session-Calm : Keeps Calm (close_mcp_session o)
  close_session-Calm = close_session-Keeps Calm-IsFrame o

  function-Calm :
      (m : Method) (url : Str) (args : Dict Json) → Keeps Calm (function_call o m url args)
  function-Calm = function-Keeps Calm-IsFrame o

  nap-Calm : (d : ℕ) → Keeps Calm (sleep_out o d)
  nap-Calm = sleep-Keeps Calm-IsFrame o

  listing-Calm : Keeps Calm (perform_out o tools_listed o.tools)
  listing-Calm = perform-Keeps Calm-IsFrame o _ _ tt

  sending-Calm : (r : Request) → Keeps Calm (perform_out o (function_sent r) (o.function r))
  sending-Calm r = perform-Keeps Calm-IsFrame o _ _ tt

  initialize_only-Calm : Keeps Calm (do initialize o; pure tt)
  initialize_only-Calm = search (keeps_rules, Calm-order, initialize-Calm) depth 12

  pub wait-Calm : (timeout : ℕ) → Keeps Calm (wait_for_ready o timeout)
  unfolding wait_for_ready
  wait-Calm timeout = ready-Keeps Calm-IsFrame o _ initialize_only-Calm timeout

  open-Calm : (left n : ℕ) → Keeps Calm (open_session o left n)
  unfolding open_session
  open-Calm zero n = Keeps-pure Calm-order tt
  open-Calm (suc left) n =
      Keeps-try_except Calm-order _ _ _ (ensure_session-Calm o)
        λ e _. reopen-Calm n e _ (open-Calm left (suc n))
    where
      reopen-Calm :
          (n : ℕ) (e : Exn) (again : Act (Unit {0}))
          → Keeps Calm again
          → Keeps Calm
              (if ltb n 2 then (do rebuild_mcp_client o; sleep_out o 1000; again) else raise e)
      reopen-Calm n e again k = search (keeps_rules, Calm-order, rebuild-Calm, nap-Calm) depth 12

  pub aenter-Calm : Keeps Calm (aenter o)
  unfolding aenter
  aenter-Calm = search (keeps_rules, Calm-order, initialize-Calm, open-Calm) depth 12

  pub aexit-Calm : Keeps Calm (aexit o)
  unfolding aexit
  aexit-Calm = search (keeps_rules, Calm-order, close_session-Calm, release-Calm) depth 12

  pub list_tools-Calm : Keeps Calm (list_tools o)
  unfolding list_tools
  list_tools-Calm =
      search (keeps_rules, Calm-order, ensure_initialized-Calm, ensure_session-Calm, listing-Calm)
        depth 12

  initialized_call-Calm :
      (m : Method) (url : Str) (args : Dict Json) → Keeps Calm (initialized_call o m url args)
  unfolding initialized_call
  initialized_call-Calm m url args =
      search (keeps_rules, Calm-order, ensure_initialized-Calm, function-Calm) depth 12

  pub reward-Calm : (args : Dict Json) → Keeps Calm (call_reward o args)
  unfolding call_reward
  reward-Calm args = search (keeps_rules, Calm-order, initialized_call-Calm) depth 12

  pub call_function-Calm : (name : Str) (args : Dict Json) → Keeps Calm (call_function o name args)
  unfolding call_function
  call_function-Calm name args = search (keeps_rules, Calm-order, initialized_call-Calm) depth 12

  pub functions-Calm : Keeps Calm (list_functions o)
  unfolding list_functions
  functions-Calm = search (keeps_rules, Calm-order, ensure_initialized-Calm, function-Calm) depth 12

  pub health-Calm : (args : Dict Json) → Keeps Calm (check_health o args)
  unfolding check_health
  health-Calm args =
      search (keeps_rules, Calm-order, ensure_initialized-Calm, sending-Calm) depth 12

  pub info-Calm : Keeps Calm (get_env_info o)
  unfolding get_env_info
  info-Calm = search (keeps_rules, Calm-order, ensure_initialized-Calm, Keeps-or_raise) depth 12

-- whether an outcome is a return
abbrev pub returned : {A : Type 0} → Result A → Bool
returned (ok a) = true
returned (err e) = false

-- A call of a public method (`list_openai_tools` is left out, which calls `list_tools`), from the state before to the state after; the Boolean says whether it
-- was a `call_tool` that returned.
pub data Move (o : Oracle) : Bool → Sys → Sys → Type 0 where
  by_call_tool :
      (name : Str) (args : Dict Json) (s : Sys)
      → Move o (returned (call_tool o name args s).0) s (call_tool o name args s).1
  by_list_tools : (s : Sys) → Move o false s (list_tools o s).1
  by_initialize : (s : Sys) → Move o false s (initialize o s).1
  by_wait_for_ready : (timeout : ℕ) (s : Sys) → Move o false s (wait_for_ready o timeout s).1
  by_aenter : (s : Sys) → Move o false s (aenter o s).1
  by_aexit : (s : Sys) → Move o false s (aexit o s).1
  by_release : (s : Sys) → Move o false s (release o s).1
  by_call_reward : (args : Dict Json) (s : Sys) → Move o false s (call_reward o args s).1
  by_call_function :
      (name : Str) (args : Dict Json) (s : Sys) → Move o false s (call_function o name args s).1
  by_list_functions : (s : Sys) → Move o false s (list_functions o s).1
  by_check_health : (args : Dict Json) (s : Sys) → Move o false s (check_health o args s).1
  by_get_env_info : (s : Sys) → Move o false s (get_env_info o s).1

-- Calls of public methods, one after the other.
pub data Run (o : Oracle) : Sys → Sys → Type 0 where
  stop : (s : Sys) → Run o s s
  go : (b : Bool) (s t u : Sys) → Move o b s t → Run o t u → Run o s u

-- the same, where no `call_tool` returns
pub data Streak (o : Oracle) : Sys → Sys → Type 0 where
  stop : (s : Sys) → Streak o s s
  go : (s t u : Sys) → Move o false s t → Streak o t u → Streak o s u
