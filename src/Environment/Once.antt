-- ===== src/Environment/Once.antt =====
-- `call_tool` of environment.py: how often it invokes the tool, and what it counts.
use aenvironment.Common.{ℕ, zero, suc, ◌≡◌, refl, List, [], ◌∷◌, ◌∙◌}
use aenvironment.Effect.Exceptions.{Exn}
use aenvironment.Effect.Keeps.{IsPreorder, Keeps, keeps_rules, Keeps-pure, Keeps-try_except}
use aenvironment.World.{
  Oracle, Event, advance, tool_invoked, session_entered, sent, slept, scheduler_closed,
  connection_checked, session_exited, client_created, client_closed, tools_listed, function_sent,
}
use aenvironment.Environment.{Sys, Act, backoff}
use aenvironment.Environment.Session.{rebuild_mcp_client, ensure_mcp_session}
use aenvironment.Environment.Lifecycle.{ensure_initialized}
use aenvironment.Environment.Tool.{on_session_error, establish_session}
use aenvironment.Environment.Frame.{
  IsQuiet, IsFrame, rebuild-Keeps, ensure_session-Keeps, backoff-Keeps,
}
use aenvironment.Environment.Steps.{ensure_initialized-Keeps}

-- the number of invocations of tools in a trace
abbrev pub invocations : List Event → ℕ
invocations [] = 0
invocations (tool_invoked _ _ ∷ es) = suc (invocations es)
invocations (_ ∷ es) = invocations es

abbrev pub invoked : Sys → ℕ
invoked s = invocations s.world.trace

abbrev pub errors : Sys → ℕ
errors s = s.env.consecutive_tool_errors

-- No tool was invoked and the error counter did not change.
abbrev pub Calm : Sys → Sys → Type 0
Calm s t = (invoked t ≡ invoked s) × (errors t ≡ errors s)

quiet_uncounted : (e : Event) (es : List Event) → IsQuiet e → invocations (e ∷ es) ≡ invocations es
quiet_uncounted (tool_invoked _ _) es q = absurd q
quiet_uncounted session_entered es q = refl
quiet_uncounted (sent _) es q = refl
quiet_uncounted (slept _) es q = refl
quiet_uncounted scheduler_closed es q = refl
quiet_uncounted connection_checked es q = refl
quiet_uncounted session_exited es q = refl
quiet_uncounted client_created es q = refl
quiet_uncounted client_closed es q = refl
quiet_uncounted tools_listed es q = refl
quiet_uncounted (function_sent _) es q = refl

pub Calm-IsFrame : IsFrame Calm
unfolding advance
Calm-IsFrame = record {
  order = record { same = λ s. (refl, refl); chain = λ s t u h k. (k.0 ∙ h.0, k.1 ∙ h.1) };
  event = λ n e s q. (quiet_uncounted e s.world.trace q, refl);
  write = λ s e c. (refl, c.0);
}

pub Calm-order : IsPreorder Calm
Calm-order = record { same = λ s. (refl, refl); chain = λ s t u h k. (k.0 ∙ h.0, k.1 ∙ h.1) }

module _ (o : Oracle) where
  entering : (n : ℕ) (s : Sys) → Calm s (record s { world = advance n session_entered s.world })
  unfolding advance
  entering n s = (refl, refl)

  pub ensure_session-Calm : Keeps Calm (ensure_mcp_session o)
  ensure_session-Calm = ensure_session-Keeps Calm-IsFrame o entering

  pub ensure_initialized-Calm : Keeps Calm (ensure_initialized o)
  ensure_initialized-Calm = ensure_initialized-Keeps Calm-IsFrame o

  pub rebuild-Calm : Keeps Calm (rebuild_mcp_client o)
  rebuild-Calm = rebuild-Keeps Calm-IsFrame o

  backoff-Calm : (a b n : ℕ) → Keeps Calm (backoff o a b n)
  backoff-Calm = backoff-Keeps Calm-IsFrame o

  session_error-Calm :
      (n : ℕ) (again : Act (Unit {0}))
      → Keeps Calm again
      → (e : Exn) → Keeps Calm (on_session_error o n again e)
  unfolding on_session_error
  session_error-Calm n again k e =
      search (keeps_rules, Calm-order, backoff-Calm, rebuild-Calm) depth 12

  pub establish-Calm : (left n : ℕ) → Keeps Calm (establish_session o left n)
  unfolding establish_session
  establish-Calm zero n = Keeps-pure Calm-order tt
  establish-Calm (suc left) n =
      Keeps-try_except Calm-order _ _ _ ensure_session-Calm
        λ e _. session_error-Calm n _ (establish-Calm left (suc n)) e
