-- ===== src/Scheduler/Wait.antt =====
-- `wait_for_status` of scheduler_client.py: polls an instance until it has the wanted status.
use aenvironment.Common.{
  ℕ, ◌+◌, ◌-◌, ◌/◌, ◌<◌, ◌≤◌, ◌≡◌, ◌≢◌, false, Option, none, some, arith, ltb, if◌then◌else◌,
}
use aenvironment.Common.Text.{Str, str_eq, str_eq_iff}
use aenvironment.Effect.{Result, ok, err, Eff, lift, gets, ◌>>=◌, follow}
use aenvironment.Effect.Exceptions.{Exn}
use aenvironment.Models.{EnvStatus, status_value, EnvInstance}
use aenvironment.Effect.Poll.{poll_loop, poll_loop_ends, poll_loop_found, Keeps-poll_loop}
use aenvironment.Effect.Keeps.{IsPreorder, Keeps, keeps_rules, Keeps-bind, Keeps-gets}
use aenvironment.World.{World, Oracle, Request, sleep, sent, slept, advance}
use aenvironment.World.Rules.{Later, Later-preorder, Later-advance, Keeps-sleep}
use aenvironment.Scheduler.Frame.{call-Keeps}
use aenvironment.Scheduler.{SchedulerClient, get_env_instance}

-- reading an attribute of `None`
abbrev pub or_raise {ℓ} : {S A : Type ℓ} → Option A → Exn → Eff S A
or_raise none e s = (err e, s)
or_raise (some a) e s = (ok a, s)

pub Keeps-or_raise :
    {S A : Type 0} {R : S → S → Type 0}
    → IsPreorder R
    → (x : Option A) (e : Exn) → Keeps R (or_raise x e)
Keeps-or_raise p none e = record { at = p.same }
Keeps-or_raise p (some a) e = record { at = p.same }

module _ (o : Oracle) (c : SchedulerClient) (instance_id : Str) (target : EnvStatus)
    (timeout check_interval : ℕ) where
  -- the checks of one round at time `now`: `none` where the loop goes on
  unfoldable pub verdict : ℕ → ℕ → EnvInstance → Result (Option EnvInstance)
  verdict start now found =
      if str_eq found.status (status_value target)
      then ok (some found)
      else if str_eq found.status (status_value EnvStatus.failed)
      then err Exn.environment_error
      else if ltb timeout (now - start)
      then err Exn.environment_error
      else ok none

  unfoldable check_status : ℕ → EnvInstance → Eff World (Option EnvInstance)
  unfolding verdict
  check_status start found = do now ← gets (λ w. w.clock); lift (verdict start now found)

  unfoldable poll : ℕ → Eff World (Option EnvInstance)
  unfolding check_status
  poll start = do
    answer ← get_env_instance o c instance_id
    found ← or_raise answer Exn.attribute_error
    check_status start found

  -- The fuel: one round for each interval of the timeout, and two more.
  unfoldable pub wait_for_status : Eff World (Option EnvInstance)
  unfolding poll
  wait_for_status = do
    start ← gets (λ w. w.clock)
    poll_loop (poll start) (sleep o check_interval) (timeout / check_interval + 2)

  verdict_waits :
      (start now : ℕ) (found : EnvInstance)
      → verdict start now found ≡ ok none
      → now - start ≤ timeout
  unfolding verdict
  verdict_waits start now found h = ground arith

  -- the rest of a round, behind the answer of `get_env_instance`
  abbrev rest : ℕ → Result (Option EnvInstance) × World → Result (Option EnvInstance) × World
  rest start (r, t) =
      follow r (λ answer. or_raise answer Exn.attribute_error >>= check_status start) t

  rest_waits :
      (start : ℕ) (p : Result (Option EnvInstance) × World)
      → (rest start p).0 ≡ ok none
      → ((rest start p).1.clock - start ≤ timeout)
  unfolding ◌>>=◌ check_status
  rest_waits start (ok none, t) h = cc
  rest_waits start (ok (some found), t) h = verdict_waits start t.clock found h
  rest_waits start (err e, t) h = cc

  module _ {R : World → World → Type 0} (pre : IsPreorder R)
      (send : (r : Request) (n : ℕ) (w : World) → R w (advance n (sent r) w))
      (doze : (d n : ℕ) (w : World) → R w (advance n (slept d) w)) where
    get-Keeps : Keeps R (get_env_instance o c instance_id)
    unfolding get_env_instance
    get-Keeps = call-Keeps o pre send doze c false _ _

    poll-Keeps : (start : ℕ) → Keeps R (poll start)
    unfolding poll check_status
    poll-Keeps start = search (keeps_rules, pre, get-Keeps, Keeps-or_raise)

    pub wait_for_status-Keeps : Keeps R wait_for_status
    unfolding wait_for_status
    wait_for_status-Keeps = Keeps-bind pre _ _ (Keeps-gets pre _) λ start.
        Keeps-poll_loop pre _ _ (poll-Keeps start)
          (Keeps-sleep o check_interval (doze check_interval)) _

  poll-Later : (start : ℕ) → Keeps Later (poll start)
  poll-Later =
      poll-Keeps Later-preorder (λ r. Later-advance (sent r)) (λ d. Later-advance (slept d))

  poll_waits :
      (start : ℕ) (w : World)
      → (poll start w).0 ≡ ok none
      → (poll start w).1.clock - start ≤ timeout
  unfolding poll ◌>>=◌
  poll_waits start w h = rest_waits start (get_env_instance o c instance_id w) h

  sleep_lasts :
      (w : World)
      → (sleep o check_interval w).0 ≡ ok tt
      → w.clock + check_interval ≤ (sleep o check_interval w).1.clock
  unfolding sleep advance
  sleep_lasts w h = ground arith

  -- With a positive interval between the checks, `wait_for_status` ends: it returns an instance or
  -- raises.
  pub wait_for_status-ne-none : (w : World) → 0 < check_interval → (wait_for_status w).0 ≢ ok none
  unfolding wait_for_status ◌>>=◌
  wait_for_status-ne-none w pos =
      poll_loop_ends (poll w.clock) (sleep o check_interval) (λ t. t.clock) timeout check_interval
        (poll-Later w.clock).at sleep_lasts w.clock (poll_waits w.clock) w (omega arith) pos

  -- What a round returns has the wanted status.
  verdict_status :
      (start now : ℕ) (found i : EnvInstance)
      → verdict start now found ≡ ok (some i)
      → i.status ≡ status_value target
  unfolding verdict
  verdict_status start now found i h = ground (arith, str_eq_iff found.status (status_value target))

  rest_status :
      (start : ℕ) (p : Result (Option EnvInstance) × World) (i : EnvInstance)
      → (rest start p).0 ≡ ok (some i)
      → i.status ≡ status_value target
  unfolding ◌>>=◌ check_status
  rest_status start (ok none, t) i h =
      absurd (let e : err Exn.attribute_error ≡ ok (some i) = h in cc)
  rest_status start (ok (some found), t) i h = verdict_status start t.clock found i h
  rest_status start (err e, t) i h = absurd (let f : err e ≡ ok (some i) = h in cc)

  poll_status :
      (start : ℕ) (w : World) (i : EnvInstance)
      → (poll start w).0 ≡ ok (some i)
      → i.status ≡ status_value target
  unfolding poll ◌>>=◌
  poll_status start w i h = rest_status start (get_env_instance o c instance_id w) i h

  -- The instance that `wait_for_status` returns has the status that was waited for.
  pub wait_for_status_reaches :
      (w : World) (i : EnvInstance)
      → (wait_for_status w).0 ≡ ok (some i)
      → i.status ≡ status_value target
  unfolding wait_for_status ◌>>=◌
  wait_for_status_reaches w i h =
      poll_loop_found (poll w.clock) (sleep o check_interval) (poll_status w.clock) _ w i h
