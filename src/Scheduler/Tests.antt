-- ===== src/Scheduler/Tests.antt =====
-- Tests of the client of scheduler_client.py: the theorems at a world that answers late.
use aenvironment.Common.{◌+◌, ◌≤◌, ◌≡◌, ◌≢◌, refl, true, false, none, arith}
use aenvironment.Common.Text.{lit, str_eq}
use aenvironment.Effect.{ok, ◌>>=◌, ◌>>◌, raise_if, try_except}
use aenvironment.Effect.Poll.{poll_loop}
use aenvironment.World.{perform, sleep}
use aenvironment.Scheduler.Retry.{retry}
use aenvironment.Models.{EnvStatus, status_value}
use aenvironment.World.Samples.{running_instance, flaky, new_world, get_request}
use aenvironment.Scheduler.{SchedulerClient, get_env_instance, call}
use aenvironment.Scheduler.Read.{read_instance}
use aenvironment.Scheduler.Bounds.{requests, EndsAfter, closing}
use aenvironment.Scheduler.Calls.{call-requests-le, call-EndsAfter}
use aenvironment.Scheduler.Wait.{wait_for_status, wait_for_status-ne-none, wait_for_status_reaches}

abbrev client : SchedulerClient
client = record {
  base_url = lit "http://10.0.0.1:8080";
  timeout = 30000;
  max_retries = 3;
  api_key = none;
  connected = true;
}

call-requests-le_example :
    requests (call flaky client false get_request read_instance new_world).1.trace ≤ 0 + 4
call-requests-le_example = call-requests-le flaky client false get_request read_instance new_world

-- Two failing attempts, then the instance.
call-EndsAfter_example :
    EndsAfter 2 0
      (closing (ok running_instance))
      new_world
      (call flaky client false get_request read_instance new_world)
unfolding read_instance
call-EndsAfter_example =
    call-EndsAfter flaky client false get_request read_instance 2 new_world (ok running_instance)
      refl (refl, refl, (refl, refl, tt)) (omega arith) refl tt

wait_for_status-ne-none_example :
    (wait_for_status flaky client (lit "i-1") EnvStatus.running 60000 2000 new_world).0 ≢ ok none
wait_for_status-ne-none_example =
    wait_for_status-ne-none flaky client (lit "i-1") EnvStatus.running 60000 2000 new_world
      (omega arith)

wait_for_status_reaches_example : running_instance.status ≡ status_value EnvStatus.running
unfolding wait_for_status ◌>>=◌ ◌>>◌ poll_loop get_env_instance raise_if retry try_except perform
    sleep read_instance str_eq status_value
wait_for_status_reaches_example =
    wait_for_status_reaches flaky client (lit "i-1") EnvStatus.running 60000 2000 new_world
      running_instance refl
