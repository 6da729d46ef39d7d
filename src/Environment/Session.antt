-- ===== src/Environment/Session.antt =====
-- The MCP session of an `Environment`: `_rebuild_mcp_client`, `_close_mcp_session`,
-- `_get_mcp_client` and `_ensure_mcp_session`.
use aenvironment.Common.{Bool, true, false, not, ◌&&◌, Option, none, some, if◌then◌else◌}
use aenvironment.Effect.{ok, pure, raise, gets, ◌>>=◌, ◌>>◌, try_except, finally, raise_if, when}
use aenvironment.Effect.Exceptions.{Exn, is_exception, is_any}
use aenvironment.Models.{EnvInstance}
use aenvironment.World.{
  Oracle, client_created, client_closed, session_entered, session_exited, connection_checked,
}
use aenvironment.Environment.{Act, update, is_given, perform_out, sleep_out}

-- `self._mcp_client = None`
unfoldable pub forget_client : Act (Unit {0})
unfolding update
forget_client = update (λ e. record e { mcp_client = false })

-- `self._mcp_session_active = b`
unfoldable pub set_active : Bool → Act (Unit {0})
unfolding update
set_active b = update (λ e. record e { mcp_session_active = b })

-- `not self._instance or not self._instance.ip`, negated
abbrev has_ip : Option EnvInstance → Bool
has_ip none = false
has_ip (some i) = is_given i.ip

module _ (o : Oracle) where
  unfoldable pub rebuild_mcp_client : Act (Unit {0})
  unfolding forget_client set_active perform_out sleep_out
  rebuild_mcp_client = do
    held ← gets (λ s. s.env.mcp_client)
    when held
        do try_except (perform_out o client_closed o.mcp) is_exception (λ _. pure tt); forget_client
    set_active false
    sleep_out o 500

  unfoldable pub close_mcp_session : Act (Unit {0})
  unfolding set_active perform_out
  close_mcp_session = do
    busy ← gets (λ s. s.env.mcp_client && s.env.mcp_session_active)
    when busy (
        finally (try_except (perform_out o session_exited o.mcp) is_exception (λ _. pure tt))
          (set_active false))

  unfoldable pub get_mcp_client : Act (Unit {0})
  unfolding update perform_out
  get_mcp_client = do
    reachable ← gets (λ s. has_ip s.env.instance_of)
    raise_if (not reachable) Exn.environment_error
    held ← gets (λ s. s.env.mcp_client)
    when (not held) (
        try_except
          (do perform_out o client_created o.mcp; update (λ e. record e { mcp_client = true }))
          is_exception (λ _. raise Exn.environment_error))

  -- `self._mcp_client.is_connected()`; a session that was lost is marked as such
  unfoldable pub check_connected : Act Bool
  unfolding perform_out set_active
  check_connected = do
    up ← perform_out o connection_checked (λ n. ok (o.is_connected n))
    when (not up) (set_active false)
    pure up

  -- whether the session is up
  unfoldable pub check_session : Act Bool
  unfolding check_connected
  check_session = do
    busy ← gets (λ s. s.env.mcp_session_active && s.env.mcp_client)
    (if busy then check_connected else pure false)

  unfoldable pub close_stale : Act (Unit {0})
  unfolding forget_client perform_out
  close_stale = do
    held ← gets (λ s. s.env.mcp_client)
    when held do try_except (perform_out o client_closed o.mcp) is_any (λ _. pure tt); forget_client

  unfoldable pub enter_session : Act (Unit {0})
  unfolding set_active perform_out forget_client
  enter_session =
      try_except (do perform_out o session_entered o.mcp; set_active true) is_any
        λ _. do forget_client; set_active false; raise Exn.environment_error

  -- The part under the lock, and the check before it.
  unfoldable pub ensure_mcp_session : Act (Unit {0})
  unfolding check_session close_stale get_mcp_client enter_session
  ensure_mcp_session = do
    up ← check_session
    when (not up) do
      still_up ← check_session
      when (not still_up) do close_stale; get_mcp_client; enter_session
