-- ===== src/Scheduler/Frame.antt =====
-- What every operation of scheduler_client.py keeps of the world: a relation that is kept by
-- sending a request and by sleeping.
use aenvironment.Common.{ℕ, zero, suc, Bool, Option, none}
use aenvironment.Effect.{Result, Eff}
use aenvironment.Effect.Keeps.{IsPreorder, Keeps, keeps_rules, Keeps-pure, Keeps-try_except}
use aenvironment.World.{World, Oracle, Request, Response, sent, slept, scheduler_closed, advance}
use aenvironment.World.Rules.{Keeps-perform, Keeps-sleep, Later, Later-preorder, Later-advance}
use aenvironment.Scheduler.{SchedulerClient, call, close}
use aenvironment.Scheduler.Retry.{attempt_once, on_network_error, retry}

module _ {R : World → World → Type 0} (o : Oracle) (pre : IsPreorder R)
    (send : (r : Request) (n : ℕ) (w : World) → R w (advance n (sent r) w))
    (nap : (d n : ℕ) (w : World) → R w (advance n (slept d) w)) where
  attempt-Keeps :
      {A : Type 0} (r : Request) (read : Response → Result A) → Keeps R (attempt_once o r read)
  unfolding attempt_once
  attempt-Keeps r read = search (keeps_rules, pre, Keeps-perform, send r)

  wait-Keeps :
      {A : Type 0} (limit : ℕ) (j : Bool) (n : ℕ) (again : Eff World (Option A))
      → Keeps R again
      → Keeps R (on_network_error o limit j n again)
  unfolding on_network_error
  wait-Keeps limit j n again k = search (keeps_rules, pre, Keeps-sleep, nap)

  retry-Keeps :
      {A : Type 0} (limit : ℕ) (j : Bool) (r : Request) (read : Response → Result A) (left n : ℕ)
      → Keeps R (retry o limit j r read left n)
  unfolding retry
  retry-Keeps limit j r read zero n = Keeps-pure pre none
  retry-Keeps limit j r read (suc left) n =
      Keeps-try_except pre _ _ _ (attempt-Keeps r read)
        λ _ _. wait-Keeps limit j n _ (retry-Keeps limit j r read left (suc n))

  pub call-Keeps :
      {A : Type 0} (c : SchedulerClient) (j : Bool) (r : Request) (read : Response → Result A)
      → Keeps R (call o c j r read)
  unfolding call
  call-Keeps c j r read = search (keeps_rules, pre, retry-Keeps)

-- The clock does not go back in any operation.
call-Later :
    {A : Type 0} (o : Oracle) (c : SchedulerClient) (j : Bool) (r : Request)
    (read : Response → Result A)
    → Keeps Later (call o c j r read)
call-Later o c j r read =
    call-Keeps o Later-preorder (λ r. Later-advance (sent r)) (λ d. Later-advance (slept d)) c j r
      read

pub close-Keeps :
    {R : World → World → Type 0} (o : Oracle)
    → IsPreorder R
    → ((n : ℕ) (w : World) → R w (advance n scheduler_closed w))
    → (c : SchedulerClient) → Keeps R (close o c)
unfolding close
close-Keeps o pre h c = search (keeps_rules, pre, Keeps-perform, h)
