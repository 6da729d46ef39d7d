-- ===== src/Scheduler/Calls.antt =====
-- Every operation of scheduler_client.py is a `call`: what holds for all of them.
use aenvironment.Common.{
  ℕ, suc, ◌+◌, ◌*◌, ◌≤◌, ◌≡◌, ◌≢◌, Bool, true, false, none, arith, inl, inr, Bool-cases, subst,
}
use aenvironment.Effect.{Result, ok, err, ◌>>=◌, ◌>>◌, raise_if}
use aenvironment.Effect.Exceptions.{Exn}
use aenvironment.World.{World, Oracle, Request, Response}
use aenvironment.Scheduler.{SchedulerClient, call}
use aenvironment.Scheduler.Retry.{retry}
use aenvironment.Scheduler.Bounds.{
  requests, outcome, closing, Failing, IsLast, EndsAfter, requests-retry, retry-ne-none,
  retry_after_failures,
}

module _ {A : Type 0} (o : Oracle) (c : SchedulerClient) (jittered : Bool) (r : Request)
    (read : Response → Result A) where
  call_unconnected :
      (w : World) → c.connected ≡ false → call o c jittered r read w ≡ (err Exn.network_error, w)
  unfolding call ◌>>◌ ◌>>=◌ raise_if
  call_unconnected w h = rw h

  call_connected :
      (w : World)
      → c.connected ≡ true
      → call o c jittered r read w ≡ retry o c.max_retries jittered r read (suc c.max_retries) 0 w
  unfolding call ◌>>◌ ◌>>=◌ raise_if
  call_connected w h = rw h

  -- An operation sends its request `max_retries + 1` times at most, whatever the world answers.
  pub call-requests-le :
      (w : World)
      → requests (call o c jittered r read w).1.trace ≤ requests w.trace + suc c.max_retries
  call-requests-le w = elim (Bool-cases c.connected) [
    | inl up ↦ rw (call_connected w up) (requests-retry o c.max_retries jittered r read _ 0 w)
    | inr down ↦ rw (call_unconnected w down) (omega arith)
  ]

  -- An operation returns a result or raises: the loop of attempts never ends by itself, which
  -- would return `None`.
  pub call-ne-none : (w : World) → (call o c jittered r read w).0 ≢ ok none
  call-ne-none w = elim (Bool-cases c.connected) [
    | inl up ↦
        rw (call_connected w up) (retry-ne-none o c.max_retries jittered r read _ 0 w (omega arith))
    | inr down ↦ rw (call_unconnected w down) (λ e. cc)
  ]

  -- On a connected client, if the first `k` attempts meet a network error, no sleep between them
  -- is cancelled, and attempt number `k` (counted from 0, `k` at most `max_retries`) either does
  -- not meet a network error or is number `max_retries`, then the operation ends there: with what
  -- that response is read as, or with `NetworkError` if it was a network error. It has sent the
  -- request exactly `k + 1` times, and at least 2 ^ k - 1 seconds have gone by.
  pub call-EndsAfter :
      (k : ℕ) (w : World) (x : Result A)
      → c.connected ≡ true
      → Failing o r k w.calls
      → k ≤ c.max_retries
      → outcome read (o.http r (w.calls + 2 * k)) ≡ x
      → IsLast c.max_retries k x
      → EndsAfter k 0 (closing x) w (call o c jittered r read w)
  call-EndsAfter k w x up f h e l = rw (call_connected w up) (
      retry_after_failures o c.max_retries jittered r read k _ 0 w x f (omega arith) (omega arith) e
        (subst (λ n. IsLast c.max_retries n x) (let z : k ≡ 0 + k = omega arith in z) l))
