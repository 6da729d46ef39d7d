-- ===== src/Tasks.antt =====
-- The managers of processes of aenv/src/cli/utils/mcp/mcp_task_manager.py: the classes
-- `TaskManager`, `AsyncTaskManager` and `MCPManager`. A process is its number; the operating system
-- keeps the numbers of the processes that run and the signals that were sent.
pub mod Stop
pub mod Watch
pub mod Orphans
pub mod Tests
use aenvironment.Common.{
  ℕ, zero, suc, ◌+◌, Bool, true, false, not, ◌&&◌, Option, none, some, is_some, List, [], ◌∷◌, ◌++◌,
  any, each, select, ◌==◌, if◌then◌else◌,
}
use aenvironment.Common.Text.{Str, lit}
use aenvironment.Common.Dict.{Dict, lookup, insert, keys}
use aenvironment.Effect.{Result, ok, err, Eff, pure, ◌>>=◌, ◌>>◌}
use aenvironment.Effect.Exceptions.{Exn}

pub data Signal : Type 0 where
  terminate : Signal
  kill : Signal

-- `subprocess.Popen`, with what it was started with
pub record Process : Type 0 where
  pub pid : ℕ
  pub command : List Str
  pub env : Dict Str

-- The manager and the operating system; the lock is held by one call at a time.
pub record TaskManager : Type 0 where
  pub tasks : Dict Process
  pub running : Bool
  pub alive : List ℕ
  pub next_pid : ℕ
  pub sent : List (Signal × ℕ)

abbrev pub is_alive : ℕ → TaskManager → Bool
is_alive pid s = any (λ p. p == pid) s.alive

-- What the operating system does: its environment, whether a command can be started, whether it
-- refuses a signal to a process, whether a process ends within five seconds of the first signal,
-- and which processes end by themselves in a second of the waiting loop.
pub record System : Type 0 where
  pub environ : Dict Str
  pub starts : List Str → Bool
  pub refuses : ℕ → Bool
  pub ends_in_time : ℕ → Bool
  pub ends_by_itself : ℕ → ℕ → Bool
  pub exists : Str → Bool
  pub cwd : Str
  pub is_darwin : Bool

-- `d.update(env)`
abbrev update_env : Dict Str → Dict Str → Dict Str
update_env [] d = d
update_env ((k, v) ∷ env) d = update_env env (insert k v d)

-- `process.poll() is None`, for a process that the table has
abbrev pub polled : Option Process → TaskManager → Bool
polled none s = false
polled (some p) s = is_alive p.pid s

unfoldable pub is_task_running : Str → TaskManager → Bool
unfolding lookup
is_task_running name s = polled (lookup name s.tasks) s

-- the entry of a task in `get_task_status`, without its return code and its streams
pub record TaskStatus : Type 0 where
  pub name : Str
  pub pid : ℕ
  pub running : Bool

abbrev statuses : Dict Process → TaskManager → List TaskStatus
statuses [] s = []
statuses ((n, p) ∷ d) s =
    record { name = n; pid = p.pid; running = is_alive p.pid s } ∷ statuses d s

unfoldable pub get_task_status : TaskManager → List TaskStatus
get_task_status s = statuses s.tasks s

abbrev pub send : Signal → ℕ → TaskManager → TaskManager
send signal pid s = record s { sent = s.sent ++ (signal, pid) ∷ [] }

-- `process.wait()` returns when the process has ended.
abbrev pub ended : ℕ → TaskManager → TaskManager
ended pid s = record s { alive = select (λ p. not (p == pid)) s.alive }

module _ (system : System) where
  abbrev pub started : Str → List Str → Dict Str → TaskManager → TaskManager
  started name command env s = record s {
    tasks =
        insert name
          (record { pid = s.next_pid; command = command; env = update_env env system.environ })
          s.tasks;
    alive = s.next_pid ∷ s.alive;
    next_pid = suc s.next_pid;
  }

  -- A command that cannot be started raises before the table is written.
  unfoldable pub add_task : Str → List Str → Dict Str → Eff TaskManager (Unit {0})
  unfolding insert
  add_task name command env s =
      if system.starts command
      then (ok tt, started name command env s)
      else (err Exn.file_not_found_error, s)

  abbrev server_command : Str → List Str
  server_command load_dir =
      let dir = if system.exists load_dir then load_dir else system.cwd in
      let command = lit "python" ∷ lit "-m" ∷ lit "aenv.main" ∷ dir ∷ [] in
      if system.is_darwin
      then command ++ lit "--log-dir" ∷ lit "~/.aenv/aenv_test.log" ∷ []
      else command

  unfoldable pub start_mcp_server : Str → Eff TaskManager (Unit {0})
  unfolding add_task
  start_mcp_server load_dir = add_task (lit "mcp_server") (server_command load_dir) []

  -- with `str(port)`
  unfoldable pub start_inspector : Str → Eff TaskManager (Unit {0})
  unfolding add_task
  start_inspector port =
      add_task (lit "inspector")
        (lit "npx" ∷ lit "@modelcontextprotocol/inspector" ∷ lit "--port" ∷ port ∷ []) []

  unfoldable pub start_both : Str → Str → Eff TaskManager (Unit {0})
  unfolding start_mcp_server start_inspector ◌>>◌
  start_both work_dir port = start_mcp_server work_dir >> start_inspector port

  -- the second signal, where the process did not end in time
  abbrev insist : ℕ → TaskManager → TaskManager
  insist pid s = record s {
    sent = if system.ends_in_time pid then s.sent else s.sent ++ (kill, pid) ∷ [];
  }

  -- the signal and the wait of `stop_task`; its `except` clause takes a signal that is refused
  unfoldable pub end_process : ℕ → Bool → TaskManager → Bool × TaskManager
  end_process pid force s =
      if system.refuses pid
      then (false, s)
      else (true, ended pid (insist pid (send (if force then kill else terminate) pid s)))

  unfoldable pub stop_found : Option Process → Bool → TaskManager → Bool × TaskManager
  unfolding end_process
  stop_found none force s = (false, s)
  stop_found (some p) force s = if is_alive p.pid s then end_process p.pid force s else (true, s)

  unfoldable pub stop_task : Str → Bool → TaskManager → Bool × TaskManager
  unfolding lookup stop_found
  stop_task name force s = stop_found (lookup name s.tasks) force s

  abbrev pub stop_names : Bool → List Str → TaskManager → TaskManager
  stop_names force [] s = s
  stop_names force (name ∷ names) s = stop_names force names (stop_task name force s).1

  unfoldable pub stop_all : Bool → TaskManager → TaskManager
  unfolding stop_task
  stop_all force s = stop_names force (keys s.tasks) s

  abbrev wait_each : Dict Process → TaskManager → TaskManager
  wait_each [] s = s
  wait_each ((n, p) ∷ d) s = wait_each d (if is_alive p.pid s then ended p.pid s else s)

  -- returns when the processes have ended by themselves
  unfoldable pub wait_for_tasks : TaskManager → TaskManager
  wait_for_tasks s = wait_each s.tasks s

  -- `time.sleep(1)`, in which processes end
  abbrev pub sleep : ℕ → TaskManager → TaskManager
  sleep now s = record s { alive = select (λ p. not (system.ends_by_itself now p)) s.alive }

  -- `while self.running and any(...)`, with the seconds that have gone by; none stands for a loop
  -- that is not over when the fuel is used up.
  unfoldable pub watch : ℕ → ℕ → TaskManager → Option TaskManager
  unfolding is_task_running
  watch zero now s = none
  watch (suc fuel) now s =
      let rest = watch fuel (suc now) (sleep now s) in
      if s.running && any (λ name. is_task_running name s) (keys s.tasks) then rest else some s

  -- `start`, for what the table has
  abbrev pub start_with : Dict Process → ℕ → TaskManager → Option TaskManager
  start_with [] fuel s = some s
  start_with (t ∷ ts) fuel s = watch fuel zero (record s { running = true })

  unfoldable pub start : ℕ → TaskManager → Option TaskManager
  unfolding watch
  start fuel s = start_with s.tasks fuel s

  -- `AsyncTaskManager.stop_task_async`: no exception is caught, so that a refused signal raises.
  unfoldable pub stop_task_async : Str → Eff TaskManager (Unit {0})
  unfolding lookup
  stop_task_async name s = elim (lookup name s.tasks) [
    | none ↦ (ok tt, s)
    | some p ↦
        if is_alive p.pid s
        then if system.refuses p.pid
          then (err Exn.other_error, s)
          else (ok tt, ended p.pid (insist p.pid (send terminate p.pid s)))
        else (ok tt, s)
  ]
