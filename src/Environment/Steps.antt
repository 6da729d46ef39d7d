-- ===== src/Environment/Steps.antt =====
-- What the life of an `Environment` leaves alone: the methods of `Environment.Lifecycle` are made
-- of the steps of a frame.
use aenvironment.Common.{ℕ, Option, none, some}
use aenvironment.Common.Text.{Str}
use aenvironment.Effect.{raise}
use aenvironment.Effect.Exceptions.{Exn}
use aenvironment.Effect.Keeps.{Keeps, keeps_rules, Keeps-pure, Keeps-raise}
use aenvironment.Models.{EnvStatus, EnvInstance, EnvInstanceCreateRequest}
use aenvironment.World.{Oracle, sent, slept, scheduler_closed}
use aenvironment.Scheduler
use aenvironment.Scheduler.{SchedulerClient, create_env_instance, delete_env_instance}
use aenvironment.Scheduler.Wait.{wait_for_status, Keeps-or_raise, wait_for_status-Keeps}
use aenvironment.Scheduler.Frame.{call-Keeps, close-Keeps}
use aenvironment.Environment.{Sys, Act, outside}
use aenvironment.Environment.Lifecycle.{
  release_mcp, delete_instance, release_scheduler, release, await_running, wait_for_ready_by,
  create_by, create_env_instance_by, use_dummy, start_dummy, start_instance, start,
  start_or_release, initialize_by, initialize, ensure_initialized,
}
use aenvironment.Environment.Frame.{
  IsFrame, Seen-event, Seen-order, active-Keeps, client-Keeps, forget-Keeps, healthy-Keeps,
  initialized-Keeps, instance-Keeps, outside-Keeps, perform-Keeps, order,
}

module _ {R : Sys → Sys → Type 0} (f : IsFrame R) (o : Oracle) where
  release_mcp-Keeps : Keeps R (release_mcp o)
  unfolding release_mcp
  release_mcp-Keeps =
      search (keeps_rules, order, forget-Keeps, active-Keeps, perform-Keeps, tt) depth 12

  remote_delete-Keeps :
      (c : SchedulerClient) (i : Str) → Keeps R (outside (delete_env_instance o c i))
  unfolding delete_env_instance
  remote_delete-Keeps c i = outside-Keeps f o _ (
      call-Keeps o (Seen-order f o) (λ r. Seen-event f o (sent r) tt)
        (λ d. Seen-event f o (slept d) tt) c _ _ _)

  remote_create-Keeps :
      (c : SchedulerClient) (q : EnvInstanceCreateRequest)
      → Keeps R (outside (create_env_instance o c q))
  unfolding create_env_instance
  remote_create-Keeps c q = outside-Keeps f o _ (
      call-Keeps o (Seen-order f o) (λ r. Seen-event f o (sent r) tt)
        (λ d. Seen-event f o (slept d) tt) c _ _ _)

  remote_wait-Keeps :
      (c : SchedulerClient) (i : Str) (t : EnvStatus) (timeout interval : ℕ)
      → Keeps R (outside (wait_for_status o c i t timeout interval))
  remote_wait-Keeps c i t timeout interval = outside-Keeps f o _ (
      wait_for_status-Keeps o c i t timeout interval (Seen-order f o)
        (λ r. Seen-event f o (sent r) tt) (λ d. Seen-event f o (slept d) tt))

  remote_close-Keeps : (c : SchedulerClient) → Keeps R (outside (Scheduler.close o c))
  remote_close-Keeps c =
      outside-Keeps f o _ (close-Keeps o (Seen-order f o) (Seen-event f o scheduler_closed tt) c)

  delete-Keeps : (c : SchedulerClient) (i : Option EnvInstance) → Keeps R (delete_instance o c i)
  unfolding delete_instance
  delete-Keeps c none = Keeps-pure (order f o) tt
  delete-Keeps c (some i) = search (keeps_rules, order, remote_delete-Keeps) depth 12

  release_scheduler-Keeps : (c : Option SchedulerClient) → Keeps R (release_scheduler o c)
  unfolding release_scheduler
  release_scheduler-Keeps none = Keeps-pure (order f o) tt
  release_scheduler-Keeps (some c) =
      search (keeps_rules, order, delete-Keeps, remote_close-Keeps, client-Keeps) depth 12

  pub release-Keeps : Keeps R (release o)
  unfolding release
  release-Keeps =
      search
        (
          keeps_rules, order, release_mcp-Keeps, release_scheduler-Keeps, instance-Keeps,
          initialized-Keeps,
        )
        depth 12

  running-Keeps : (timeout : ℕ) → Keeps R (await_running o timeout)
  unfolding await_running
  running-Keeps timeout =
      search (keeps_rules, order, Keeps-or_raise, remote_wait-Keeps, instance-Keeps, healthy-Keeps)
        depth 14

  pub ready-Keeps :
      (m : Act (Unit {0})) → Keeps R m → (timeout : ℕ) → Keeps R (wait_for_ready_by o m timeout)
  unfolding wait_for_ready_by
  ready-Keeps m k timeout = search (keeps_rules, order, running-Keeps) depth 12

  recursion-Keeps : Keeps R (raise {A = Unit {0}} Exn.recursion_error)
  recursion-Keeps = Keeps-raise (order f o) _

  create-Keeps :
      (m : Act (Unit {0})) → Keeps R m → (c : SchedulerClient) → Keeps R (create_by o m c)
  unfolding create_by
  create-Keeps m k c =
      search (keeps_rules, order, remote_create-Keeps, instance-Keeps, Keeps-or_raise, ready-Keeps)
        depth 14

  create_env-Keeps : (m : Act (Unit {0})) → Keeps R m → Keeps R (create_env_instance_by o m)
  unfolding create_env_instance_by
  create_env-Keeps m k = search (keeps_rules, order, Keeps-or_raise, create-Keeps) depth 12

  use_dummy-Keeps : Keeps R (use_dummy o)
  unfolding use_dummy
  use_dummy-Keeps = search (keeps_rules, order, instance-Keeps) depth 12

  start_dummy-Keeps : Keeps R (start_dummy o)
  unfolding start_dummy
  start_dummy-Keeps =
      search (keeps_rules, order, use_dummy-Keeps, healthy-Keeps, initialized-Keeps) depth 12

  start_instance-Keeps : (m : Act (Unit {0})) → Keeps R m → Keeps R (start_instance o m)
  unfolding start_instance
  start_instance-Keeps m k =
      search (keeps_rules, order, Keeps-or_raise, client-Keeps, create_env-Keeps, initialized-Keeps)
        depth 12

  start-Keeps : (m : Act (Unit {0})) → Keeps R m → Keeps R (start o m)
  unfolding start
  start-Keeps m k =
      search (keeps_rules, order, client-Keeps, start_dummy-Keeps, start_instance-Keeps) depth 12

  start_or_release-Keeps : (m : Act (Unit {0})) → Keeps R m → Keeps R (start_or_release o m)
  unfolding start_or_release
  start_or_release-Keeps m k = search (keeps_rules, order, start-Keeps, release-Keeps) depth 12

  pub initialize-Keeps : Keeps R (initialize o)
  unfolding initialize initialize_by
  initialize-Keeps = search (keeps_rules, order, start_or_release-Keeps, recursion-Keeps) depth 12

  pub ensure_initialized-Keeps : Keeps R (ensure_initialized o)
  unfolding ensure_initialized
  ensure_initialized-Keeps = search (keeps_rules, order, initialize-Keeps) depth 12
