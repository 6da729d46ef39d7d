-- ===== src/Lib.antt =====
-- The Python SDK and command line of AEnvironment, the evaluation of its SWE-bench environment, its
-- terminal, and the virtual file system of an example.
--
-- The program: a user's `Environment` (aenv/src/aenv/core/environment.py) asks the scheduler for an
-- instance by way of `AEnvSchedulerClient` (aenv/src/aenv/client/scheduler_client.py), waits until
-- the instance runs and answers health checks, opens an MCP session to it, and calls tools and
-- functions inside it. The models and exceptions that they share are in
-- aenv/src/aenv/core/models.py and exceptions.py. aenv/builtin-envs/swebench/src/eval/grading.py
-- grades the logs of a run, which python_log_parser.py beside it reads; aenv_evaluation.py there
-- makes such a run, of commands that shell_runner.py executes, and docker_cli.py reaches the
-- container for it. The command line (aenv/src/cli) keeps its configuration in a file
-- (utils/cli_config.py), starts and stops processes (utils/mcp/mcp_task_manager.py), asks the hub
-- for environments (client/aenv_hub_client.py) and stores them on the disk or by way of the hub
-- (extends/storage/storage_manager.py). The example aenv/examples/mini-program has a virtual file
-- system with tools on it.
--
-- The files:
--   Common: library names, tests, lists, Python's text (`Common.Text`), dictionaries, JSON.
--   Effect: an action takes a state and gives an outcome, a value or an exception, with the state
--     after it. `Effect.Exceptions` has exceptions.py and the `except` clauses, `Effect.Keeps` the
--     rules for relations that actions keep, `Effect.Triple` and `Effect.Raises` those for what
--     holds after a return and what may be raised, `Effect.Poll` the loop that polls.
--   Models: models.py. World: what stands outside, namely HTTP services, the MCP client, the clock
--     and `asyncio.sleep`. An `Oracle` gives the answer to each call by its number; the theorems
--     hold for every oracle. The `World` keeps the clock in milliseconds and a trace of all calls.
--   Scheduler: the class `AEnvSchedulerClient`, one function per method under the method's name.
--     All nine are a `call`: the check for a connection, and the loop `retry` of `Scheduler.Retry`,
--     with the reading of the response in `Scheduler.Read`. `Scheduler.Wait` has `wait_for_status`,
--     `Scheduler.Bounds` and `Scheduler.Calls` what the loop does, `Scheduler.Frame` what it keeps.
--   Url: `make_mcp_url`, with the parts of `urllib.parse` that it uses.
--   Environment: the class `Environment` and its `__init__`; a method `_name` is `name` here.
--     `Environment.Session` has the MCP session, `Environment.Function` the HTTP functions and the
--     health checks, `Environment.Lifecycle` `initialize`, `release`, `wait_for_ready` and the
--     context manager, `Environment.Tool` `call_tool` and the other public methods. The proofs are
--     in `Environment.Frame` and `Environment.Steps` (what the methods leave alone),
--     `Environment.Once`, `Environment.Calls`, `Environment.Moves`, `Environment.Breaker` (the
--     error counter),
--     `Environment.Release`, `Environment.Failure`, `Environment.Refusal`, `Environment.Health` and
--     `Environment.Names`.
--   Grading: grading.py, with `Grading.Report` for the report and `Grading.Resolution` and
--     `Grading.Verdict` for when a run is resolved, and `Grading.Summary` for the grading with the
--     parsers of `Logs`.
--   Logs: python_log_parser.py, with a file for each parser but those of pytest, which are in Logs
--     itself, and `Logs.Table` for the table of repositories. `Logs.Render` has the summary that
--     pytest prints, `Logs.Printed` that with the other lines of a log. `Common.Words`
--     has the methods of `str`, `Common.Splits` lemmas on them.
--   Config: cli_config.py; the file is the JSON value that it has. `Config.Values` has the proofs on
--     `get` and `set`, whose walks through nested dictionaries are in `Common.Paths`, and
--     `Config.Store` those on the file.
--   Tasks: mcp_task_manager.py; `System` is what the operating system answers, for all of which the
--     theorems hold. `Tasks.Stop`, `Tasks.Orphans` and `Tasks.Watch` have the proofs.
--   Registry: aenv/src/aenv/core/tool.py, and in `Registry.Functions` function_registry.py; a
--     `Function` is what `inspect` and `typing` say of a function. `json.dumps` and `str` of a result
--     are fields of what a function returns, the rendering of a response and `str` of an exception
--     are parameters. `Registry.Laws` and `Registry.Handler` have the proofs.
--   Cli: aenv/src/cli/utils/api_helpers.py and the styles of table_formatter.py, and in `Cli.Api` the
--     calls of the API service of aenv/src/cli/cmds/instance.py.
--   Hub: `AEnvHubClient`, with what a session and the hub answer as a parameter, and in
--     `Hub.Singleton` its single instance, which is made of the configuration of `Config`.
--     `Hub.Errors`, `Hub.Singleton.Shared` and `Hub.Singleton.Lock` have the proofs.
--   Storage: `LocalStorage` over operations on files, and in `Storage.Remote` `AEnvHubStorage` with
--     `TempArchive`, over the client of `Hub`. `Storage.Pack` has `pack_directory` of archive_tool.py,
--     `Storage.Paths` the parts of `pathlib.Path`, `Storage.Laws` and `Storage.Archives` the proofs.
--   Shell: `ShellExecutor` of shell_runner.py, with `Shell.Process` for what a process is started with
--     and how it ends; `Shell.Lexer` is `shlex.split`, `Shell.Script` `execute_script`,
--     `Shell.Outcomes` the proofs.
--   Docker: docker_cli.py, with the search for a container in `Docker.Load`; what a command in the
--     container and `nerdctl` answer is a parameter. `Docker.Search`, `Docker.Variables` and
--     `Docker.Cleanup` have the proofs.
--   Evaluation: `run_instance_aenv` of aenv_evaluation.py over a `System`, whose commands return or
--     raise. `Evaluation.Patch` and `Evaluation.Outcome` have the proofs, and `Evaluation.Executor`
--     puts in the executor of `Shell`.
--   Tmux: `send_keys` of aenv/builtin-envs/terminalbench/src/tmuxsession.py, and in `Tmux.Session` the
--     wait for a command, the output since the last call, and the tool `keystrokes` of terminal.py.
--     `Tmux.Keys`, `Tmux.Waiting` and `Tmux.Screen` have the proofs.
--   Vfs: vfs.py of the example, with `Vfs.Refinement` for its specification as a function from paths
--     to contents, and `Vfs.Tools` for the tools of mini_program_tools.py.
--
-- Bounds: the loops of attempts are structural in the attempts that are left, which is the bound of
-- the source's `range`. The two loops `while True` run on fuel: one round for each interval of the
-- timeout, and two more; a sleep lasts at least as long as it is asked to, so this is enough. The
-- loop of `Tasks.start` waits for processes and ends with them: with fuel for one round for each
-- second until they have ended, and two more. The wait of a terminal runs on fuel for one round of 100
-- milliseconds each until the time to wait is over, and one more. The search for a container is
-- structural in the five tries.
-- `initialize` may call `wait_for_ready`, which may call `initialize`: that call is made
-- only where the client or the instance is missing, and stands as an exception in the model.
--
-- Not modelled: log lines and the texts of exceptions; `list_openai_tools`; more than one task at a
-- time, so that locks are taken at once; the validation by pydantic, whose outcome is a part of the
-- response; of the regular expressions of the parsers, the three for interrupted lines of Django,
-- whose finds are a parameter, as is the table of decimal digits; the search for the path of the
-- configuration file; `asyncio.gather` over tasks, signal handlers and the copying of output of
-- mcp_task_manager.py; what the command line prints, its options, and its other commands; the wiring of
-- the server; the building of images; the threads that read the output of a process, whose lines are
-- what the system gives, and the durations of results; the recording and the rewards of the terminal
-- environment, the other environments, and the services in Go.
pub mod Common
pub mod Effect
pub mod Logs
pub mod Registry
pub mod Tasks
pub mod Cli
pub mod Tmux
pub mod Vfs
pub mod Config
pub mod Models
pub mod World
pub mod Scheduler
pub mod Url
pub mod Environment
pub mod Grading
pub mod Hub
pub mod Docker
pub mod Storage
pub mod Shell
pub mod Evaluation
