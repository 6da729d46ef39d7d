-- ===== src/Environment/Frame.antt =====
-- What the methods of `Environment` leave alone. A frame is a relation between the states before
-- and after that every step keeps but the invocation of a tool, the entering of a session, and an
-- assignment to the error counter; the methods are made of such steps.
use aenvironment.Common.{ℕ, ◌≡◌, refl, Bool, true, Option}
use aenvironment.Common.Text.{Str}
use aenvironment.Common.Dict.{Dict}
use aenvironment.Common.Json.{Json}
use aenvironment.Effect.{Result, Eff, within}
use aenvironment.Effect.Keeps.{IsPreorder, Keeps, keeps_rules, Keeps-modify, Keeps-bind, Keeps-gets}
use aenvironment.Effect.Poll.{Keeps-poll_loop}
use aenvironment.Models.{EnvInstance}
use aenvironment.World.{World, Oracle, Event, advance, tool_invoked, session_entered, slept, Method}
use aenvironment.World.Rules.{Keeps-perform, Keeps-sleep}
use aenvironment.Scheduler.{SchedulerClient}
use aenvironment.Environment.{Environment, Sys, outside, update, perform_out, sleep_out, backoff}
use aenvironment.Environment.Session.{
  forget_client, set_active, rebuild_mcp_client, close_mcp_session, get_mcp_client, check_connected,
  check_session, close_stale, enter_session, ensure_mcp_session,
}
use aenvironment.Environment.Function.{
  function_call, set_proxy_headers, check_once, health_round, health_loop, wait_for_healthy,
}
use aenvironment.Environment.Lifecycle.{set_instance, set_client, set_initialized, start}

-- an event other than an invocation or an entering
abbrev pub IsQuiet : Event → Type 0
IsQuiet (tool_invoked _ _) = ⊥
IsQuiet session_entered = ⊥
IsQuiet _ = Unit

-- The fields that only `call_tool` writes, or nothing does.
abbrev SameCore : Environment → Environment → Type 0
SameCore e f =
    (f.consecutive_tool_errors ≡ e.consecutive_tool_errors)
    × (f.env_name ≡ e.env_name)
    × (f.dummy_instance_ip ≡ e.dummy_instance_ip)

pub record IsFrame (R : Sys → Sys → Type 0) : Type 0 where
  pub order : IsPreorder R
  pub event :
      (n : ℕ) (e : Event) (s : Sys) → IsQuiet e → R s (record s { world = advance n e s.world })
  pub write : (s : Sys) (e : Environment) → SameCore s.env e → R s (record s { env = e })

module _ {R : Sys → Sys → Type 0} (f : IsFrame R) (o : Oracle) where
  pub order : IsPreorder R
  order = f.order

  -- a step of the world alone, in any environment
  abbrev pub Seen : World → World → Type 0
  Seen v w = (e : Environment) → R (record { env = e; world = v }) (record { env = e; world = w })

  pub Seen-order : IsPreorder Seen
  Seen-order = record {
    same = λ v e. f.order.same (record { env = e; world = v });
    chain = λ u v w g h e.
        f.order.chain (record { env = e; world = u }) (record { env = e; world = v })
          (record { env = e; world = w }) (g e) (h e);
  }

  pub Seen-event : (e : Event) → IsQuiet e → (n : ℕ) (w : World) → Seen w (advance n e w)
  Seen-event e q n w = λ x. f.event n e (record { env = x; world = w }) q

  pub outside-Keeps : {A : Type 0} (m : Eff World A) → Keeps Seen m → Keeps R (outside m)
  unfolding outside within
  outside-Keeps m k = record { at = λ s. k.at s.world s.env }

  update-Keeps :
      (g : Environment → Environment) → ((e : Environment) → SameCore e (g e)) → Keeps R (update g)
  unfolding update
  update-Keeps g h = Keeps-modify _ (λ s. f.write s (g s.env) (h s.env))

  pub forget-Keeps : Keeps R forget_client
  unfolding forget_client
  forget-Keeps = update-Keeps _ (λ e. (refl, refl, refl))

  pub active-Keeps : (b : Bool) → Keeps R (set_active b)
  unfolding set_active
  active-Keeps b = update-Keeps _ (λ e. (refl, refl, refl))

  pub instance-Keeps : (i : Option EnvInstance) → Keeps R (set_instance i)
  unfolding set_instance
  instance-Keeps i = update-Keeps _ (λ e. (refl, refl, refl))

  pub client-Keeps : (c : Option SchedulerClient) → Keeps R (set_client c)
  unfolding set_client
  client-Keeps c = update-Keeps _ (λ e. (refl, refl, refl))

  pub initialized-Keeps : (b : Bool) → Keeps R (set_initialized b)
  unfolding set_initialized
  initialized-Keeps b = update-Keeps _ (λ e. (refl, refl, refl))

  pub perform-Keeps :
      {A : Type 0} (e : Event) (answer : ℕ → Result A)
      → IsQuiet e
      → Keeps R (perform_out o e answer)
  unfolding perform_out
  perform-Keeps e answer q = outside-Keeps _ (Keeps-perform o e answer (Seen-event e q))

  pub sleep-Keeps : (d : ℕ) → Keeps R (sleep_out o d)
  unfolding sleep_out
  sleep-Keeps d = outside-Keeps _ (Keeps-sleep o d (Seen-event (slept d) tt))

  pub backoff-Keeps : (a b n : ℕ) → Keeps R (backoff o a b n)
  unfolding backoff
  backoff-Keeps a b n = search (keeps_rules, order, sleep-Keeps)

  held-Keeps : Keeps R (update (λ e. record e { mcp_client = true }))
  held-Keeps = update-Keeps _ (λ e. (refl, refl, refl))

  headers-Keeps : (h : Dict Str) → Keeps R (update (λ e. record e { proxy_headers = h }))
  headers-Keeps h = update-Keeps _ (λ e. (refl, refl, refl))

  pub rebuild-Keeps : Keeps R (rebuild_mcp_client o)
  unfolding rebuild_mcp_client
  rebuild-Keeps =
      search (keeps_rules, order, forget-Keeps, active-Keeps, perform-Keeps, sleep-Keeps, tt) depth
        12

  pub close_session-Keeps : Keeps R (close_mcp_session o)
  unfolding close_mcp_session
  close_session-Keeps = search (keeps_rules, order, active-Keeps, perform-Keeps, tt) depth 12

  get_client-Keeps : Keeps R (get_mcp_client o)
  unfolding get_mcp_client
  get_client-Keeps = search (keeps_rules, order, held-Keeps, perform-Keeps, tt) depth 12

  connected-Keeps : Keeps R (check_connected o)
  unfolding check_connected
  connected-Keeps = search (keeps_rules, order, active-Keeps, perform-Keeps, tt) depth 12

  check-Keeps : Keeps R (check_session o)
  unfolding check_session
  check-Keeps = search (keeps_rules, order, connected-Keeps) depth 12

  stale-Keeps : Keeps R (close_stale o)
  unfolding close_stale
  stale-Keeps = search (keeps_rules, order, forget-Keeps, perform-Keeps, tt) depth 12

  pub function-Keeps :
      (m : Method) (url : Str) (args : Dict Json) → Keeps R (function_call o m url args)
  unfolding function_call
  function-Keeps m url args = search (keeps_rules, order, perform-Keeps, tt) depth 12

  proxy-Keeps : Keeps R (set_proxy_headers o)
  unfolding set_proxy_headers
  proxy-Keeps = search (keeps_rules, order, headers-Keeps) depth 12

  once-Keeps : Keeps R (check_once o)
  unfolding check_once
  once-Keeps = search (keeps_rules, order, function-Keeps) depth 12

  pub round-Keeps : (timeout start : ℕ) → Keeps R (health_round o timeout start)
  unfolding health_round
  round-Keeps timeout start = search (keeps_rules, order, once-Keeps) depth 12

  loop-Keeps : (timeout : ℕ) → Keeps R (health_loop o timeout)
  unfolding health_loop
  loop-Keeps timeout =
      Keeps-bind order _ _ (Keeps-gets order _)
        λ start. Keeps-poll_loop order _ _ (round-Keeps timeout start) (sleep-Keeps 2000) _

  pub healthy-Keeps : (timeout : ℕ) → Keeps R (wait_for_healthy o timeout)
  unfolding wait_for_healthy
  healthy-Keeps timeout = search (keeps_rules, order, proxy-Keeps, loop-Keeps) depth 12

  module _
      (enter : (n : ℕ) (s : Sys)
        → R s (record s { world = advance n session_entered s.world })) where
    enter-Keeps : Keeps R (perform_out o session_entered o.mcp)
    unfolding perform_out
    enter-Keeps =
        outside-Keeps _
          (Keeps-perform o session_entered o.mcp λ n w e. enter n (record { env = e; world = w }))

    enter_session-Keeps : Keeps R (enter_session o)
    unfolding enter_session
    enter_session-Keeps =
        search (keeps_rules, order, enter-Keeps, active-Keeps, forget-Keeps) depth 12

    pub ensure_session-Keeps : Keeps R (ensure_mcp_session o)
    unfolding ensure_mcp_session
    ensure_session-Keeps =
        search (keeps_rules, order, check-Keeps, stale-Keeps, get_client-Keeps, enter_session-Keeps)
          depth 12
