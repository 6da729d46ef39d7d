-- ===== src/Environment/Refusal.antt =====
-- What `_ensure_mcp_session` of environment.py raises, and what `call_tool` makes of it.
use aenvironment.Common.{ℕ, ◌≡◌, refl, Bool, true, false, ◌⊎◌, inl, inr, ltb, if◌then◌else◌, arith}
use aenvironment.Effect.{Result, ok, err, pure, raise, ◌>>◌, within}
use aenvironment.Effect.Exceptions.{Exn, is_exception, is_any, is_client_error}
use aenvironment.Effect.Raises.{
  Raises, Fails, raises_rules, Raises-modify, Raises-raise, Raises-raise_if,
}
use aenvironment.World.{Oracle, perform, connection_checked}
use aenvironment.Environment.{Sys, Act, update, outside, perform_out, backoff}
use aenvironment.Environment.Session.{
  forget_client, set_active, rebuild_mcp_client, get_mcp_client, check_connected, check_session,
  close_stale, enter_session, ensure_mcp_session,
}
use aenvironment.Environment.Tool.{on_session_error}

-- the two exceptions that may leave `_ensure_mcp_session`
abbrev pub IsRefusal : Exn → Type 0
IsRefusal e = (e ≡ Exn.environment_error) ⊎ (e ≡ Exn.cancelled_error)

IsRefusal-of_any : (e : Exn) → is_any e ≡ false → IsRefusal e
IsRefusal-of_any e h = absurd (let f : true ≡ false = h in cc)

IsRefusal-of_exception : (e : Exn) → is_exception e ≡ false → IsRefusal e
IsRefusal-of_exception e h = ground arith

IsRefusal-plain : IsRefusal Exn.environment_error
IsRefusal-plain = inl refl

forget-Raises : Raises IsRefusal forget_client
unfolding forget_client update
forget-Raises = Raises-modify _

active-Raises : (b : Bool) → Raises IsRefusal (set_active b)
unfolding set_active update
active-Raises b = Raises-modify _

module _ (o : Oracle) where
  check-Raises : Raises IsRefusal (perform_out o connection_checked (λ n. ok (o.is_connected n)))
  unfolding perform_out outside within perform
  check-Raises = record { at = λ s. tt }

  connected-Raises : Raises IsRefusal (check_connected o)
  unfolding check_connected
  connected-Raises = search (raises_rules, check-Raises, active-Raises) depth 12

  branch-Raises : (b : Bool) → Raises IsRefusal (if b then check_connected o else pure false)
  branch-Raises true = connected-Raises
  branch-Raises false = search raises_rules

  session-Raises : Raises IsRefusal (check_session o)
  unfolding check_session
  session-Raises = search (raises_rules, branch-Raises) depth 12

  stale-Raises : Raises IsRefusal (close_stale o)
  unfolding close_stale
  stale-Raises = search (raises_rules, IsRefusal-of_any, forget-Raises) depth 12

  client-Raises : Raises IsRefusal (get_mcp_client o)
  unfolding get_mcp_client
  client-Raises =
      search (raises_rules, IsRefusal-of_exception, IsRefusal-plain, Raises-raise, Raises-raise_if)
        depth 12

  enter-Raises : Raises IsRefusal (enter_session o)
  unfolding enter_session
  enter-Raises =
      search
        (
          raises_rules, IsRefusal-of_any, IsRefusal-plain, Raises-raise, forget-Raises,
          active-Raises,
        )
        depth 12

  ensure-Raises : Raises IsRefusal (ensure_mcp_session o)
  unfolding ensure_mcp_session
  ensure-Raises =
      search (raises_rules, session-Raises, stale-Raises, client-Raises, enter-Raises) depth 12

  refusal_not_client : (e : Exn) → IsRefusal e → is_client_error e ≡ false
  refusal_not_client e (inl h) = rw h refl
  refusal_not_client e (inr h) = rw h refl

  raised-IsRefusal : (r : Result (Unit {0})) (e : Exn) → Fails IsRefusal r → r ≡ err e → IsRefusal e
  raised-IsRefusal (ok u) e f h = absurd (let k : ok u ≡ err e = h in cc)
  raised-IsRefusal (err d) e f h = let k : d ≡ e = ground arith in rw k at f

  -- Whatever makes `_ensure_mcp_session` fail, what it raises is `EnvironmentError` or the
  -- cancellation, and on that `call_tool` backs off, rebuilds the client and tries again where the
  -- number of the attempt is below 2, and raises `EnvironmentError` otherwise.
  pub session_failure_retried :
      (attempt : ℕ) (again : Act (Unit {0})) (s : Sys) (e : Exn)
      → (ensure_mcp_session o s).0 ≡ err e
      → IsRefusal e
        × (on_session_error o attempt again e ≡ (
            if ltb attempt 2
            then (do backoff o 3 2 attempt; rebuild_mcp_client o; again)
            else raise Exn.environment_error))
  unfolding on_session_error
  session_failure_retried attempt again s e h =
      let refusal = raised-IsRefusal (ensure_mcp_session o s).0 e (ensure-Raises.at s) h in
      (refusal, rw (refusal_not_client e refusal) refl)
