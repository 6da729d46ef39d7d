-- ===== src/Scheduler/Retry.antt =====
-- The loop of attempts that every operation of scheduler_client.py is written with.
use aenvironment.Common.{
  ℕ, zero, suc, ◌+◌, ◌*◌, ◌^◌, Bool, Option, none, some, ltb, if◌then◌else◌, min,
}
use aenvironment.Effect.{Result, Eff, pure, raise, gets, lift, ◌>>=◌, ◌>>◌, try_except}
use aenvironment.Effect.Exceptions.{Exn, is_request_error}
use aenvironment.World.{World, Oracle, Request, Response, sent, perform, sleep}

module _ (o : Oracle) where
  -- `2 ** attempt` seconds, and in the two `create` operations up to one second more
  unfoldable pub wait_time : Bool → ℕ → World → ℕ
  wait_time jittered attempt w =
      1000 * 2 ^ attempt + (if jittered then min (o.jitter w.calls) 1000 else 0)

  -- the body of `try`: the request, and the reading of its response
  unfoldable pub attempt_once :
      {A : Type 0} → Request → (Response → Result A) → Eff World (Option A)
  attempt_once r read = do
    response ← perform o (sent r) (o.http r)
    a ← lift (read response)
    pure (some a)

  -- the handler of `except httpx.RequestError`, where `again` is the rest of the loop
  unfoldable pub on_network_error :
      {A : Type 0} → ℕ → Bool → ℕ → Eff World (Option A) → Eff World (Option A)
  unfolding wait_time
  on_network_error max_retries jittered attempt again =
      if ltb attempt max_retries
      then (do d ← gets (wait_time jittered attempt); sleep o d; again)
      else raise Exn.network_error

  -- The attempts that are left of `for attempt in range(max_retries + 1)`, from number `attempt`
  -- on. A loop that ends by itself returns Python's `None`.
  unfoldable pub retry :
      {A : Type 0} → ℕ → Bool → Request → (Response → Result A) → ℕ → ℕ → Eff World (Option A)
  unfolding attempt_once on_network_error
  retry max_retries jittered r read zero attempt = pure none
  retry max_retries jittered r read (suc left) attempt =
      let again = retry max_retries jittered r read left (suc attempt) in
      try_except (attempt_once r read) is_request_error
        λ _. on_network_error max_retries jittered attempt again
