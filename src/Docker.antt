-- ===== src/Docker.antt =====
-- The client of a container of the SWE-bench environment,
-- aenv/builtin-envs/swebench/src/docker_cli.py: the classes `DockerEnvironmentConfig` and
-- `DockerClient`.
pub mod Load
pub mod Search
pub mod Variables
pub mod Cleanup
pub mod Tests
use aenvironment.Common.{
  ℕ, zero, suc, Bool, true, false, not, ◌&&◌, Option, none, some, List, [], ◌∷◌, ◌++◌, ◌==◌,
  if◌then◌else◌,
}
use aenvironment.Common.Text.{Str, lit, str_eq}
use aenvironment.Common.Words.{strip}
use aenvironment.Common.Dict.{Dict, lookup}
use aenvironment.Common.Json.{Json, null, text, object, Fields, field?}
use aenvironment.Effect.{Result, ok, err}
use aenvironment.Effect.Exceptions.{Exn, is_exception, is_runtime_error}

-- `DockerEnvironmentConfig`. Whether the class of a configuration has a `pull_timeout` is part of
-- the record: this class has none.
pub record ContainerConfig : Type 0 where
  pub image : Str
  pub cwd : Str
  pub env : Dict Str
  pub forward_env : List Str
  pub timeout : ℕ
  pub executable : Str
  pub run_args : List Str
  pub container_timeout : Str
  pub namespace : Str
  pub container_id : Str
  pub pull_timeout : Option ℕ

-- `DockerEnvironmentConfig(container_id=..., namespace=...)`, with the executable that the
-- environment names or `nerdctl`
unfoldable pub default_config : Str → Str → Str → ContainerConfig
default_config executable container_id namespace = record {
  image = [];
  cwd = lit "/";
  env = [];
  forward_env = [];
  timeout = 30;
  executable = executable;
  run_args = lit "--rm" ∷ [];
  container_timeout = lit "2h";
  namespace = namespace;
  container_id = container_id;
  pull_timeout = none;
}

-- A client: its configuration, and the attribute `container_id` of its own, if it is set.
pub record DockerClient : Type 0 where
  pub config : ContainerConfig
  pub own_container_id : Option Str

-- `__init__`
unfoldable pub new_client : ContainerConfig → DockerClient
new_client config = record { config = config; own_container_id = none }

-- What a command gives: its return code, its output, and its error output where that is kept apart.
pub record Completed : Type 0 where
  pub returncode : Json
  pub stdout : Str
  pub stderr : Option Str

unfoldable pub start_command : Str → ContainerConfig → List Str
start_command container_name c =
    c.executable
      ∷ lit "run"
      ∷ lit "-d"
      ∷ lit "--name"
      ∷ container_name
      ∷ lit "-w"
      ∷ c.cwd
      ∷ c.run_args
    ++ c.image ∷ lit "sleep" ∷ c.container_timeout ∷ []

-- The container's id is the text that the command writes.
abbrev pub started : Result Completed → DockerClient → Result (Unit {0}) × DockerClient
started (err e) client = (err e, client)
started (ok r) client =
    (ok tt, record client { config = record client.config { container_id = strip r.stdout } })

abbrev pub start_within :
    (List Str → ℕ → Result Completed)
    → Str
    → Option ℕ
    → DockerClient
    → Result (Unit {0}) × DockerClient
start_within run container_name none client = (err Exn.attribute_error, client)
start_within run container_name (some t) client =
    started (run (start_command container_name client.config) t) client

-- `_start_container`; `run` is `subprocess.run` with `check=True`, for a command and a timeout, and
-- `self.config.pull_timeout` is read before it is called.
unfoldable pub start_container :
    (List Str → ℕ → Result Completed) → Str → DockerClient → Result (Unit {0}) × DockerClient
unfolding start_command strip
start_container run container_name client =
    start_within run container_name client.config.pull_timeout client

-- `-e` and an assignment
abbrev pub assignment : Str → Str → List Str
assignment key value = lit "-e" ∷ (key ++ lit "=" ++ value) ∷ []

-- the variables of `forward_env` that are set in the host's environment
unfoldable pub forwarded : List Str → Dict Str → List (Str × Str)
unfolding lookup
forwarded [] environ = []
forwarded (key ∷ keys) environ =
    let rest = forwarded keys environ in
    elim (lookup key environ) [ none ↦ rest | some value ↦ (key, value) ∷ rest ]

-- The variables that the command sets, in order.
unfoldable pub variables : ContainerConfig → Dict Str → List (Str × Str)
unfolding forwarded
variables c environ = forwarded c.forward_env environ ++ c.env

abbrev options : List (Str × Str) → List Str
options [] = []
options ((key, value) ∷ vars) = assignment key value ++ options vars

abbrev or_else : Str → Str → Str
or_else [] t = t
or_else (c ∷ s) t = c ∷ s

abbrev pub or_default : Option ℕ → ℕ → ℕ
or_default none t = t
or_default (some zero) t = t
or_default (some (suc n)) t = suc n

unfoldable pub exec_command : Str → Str → ContainerConfig → Dict Str → List Str
unfolding variables
exec_command command cwd c environ =
    c.executable ∷ lit "exec" ∷ lit "-w" ∷ or_else cwd c.cwd ∷ options (variables c environ)
    ++ c.container_id ∷ lit "bash" ∷ lit "-lc" ∷ command ∷ []

-- the dictionary that `execute` returns
pub record Output : Type 0 where
  pub stdout : Str
  pub returncode : Json
  pub stderr : Option Str

-- `except Exception`, whose text names the exception
abbrev pub output_of : Result Completed → Result Output
output_of (ok r) = ok record { stdout = r.stdout; returncode = r.returncode; stderr = r.stderr }
output_of (err e) =
    if is_exception e
    then ok
        record { stdout = []; returncode = Json.number (lit "1"); stderr = some (lit "run err:") }
    else err e

-- `execute`; `run` is `subprocess.run` for a command and a timeout, `environ` the host's environment.
unfoldable pub execute :
    (List Str → ℕ → Result Completed)
    → Dict Str
    → Str
    → Str
    → Option ℕ
    → DockerClient
    → Result Output
unfolding exec_command str_eq
execute run environ command cwd timeout client =
    if str_eq client.config.container_id []
    then err Exn.assertion_error
    else output_of (
        run (exec_command command cwd client.config environ)
          (or_default timeout client.config.timeout))

-- the command that stops a container, or else removes it
abbrev pub stop_command : ContainerConfig → Str
stop_command c =
    lit "(timeout 60 "
    ++ c.executable
    ++ lit " stop "
    ++ c.container_id
    ++ lit " || "
    ++ c.executable
    ++ lit " rm -f "
    ++ c.container_id
    ++ lit ") >/dev/null 2>&1 &"

-- `cleanup`, which `__del__` calls, over the commands that were started
unfoldable pub cleanup : DockerClient → List Str → List Str
cleanup client commands = elim client.own_container_id [
  | none ↦ commands
  | some id ↦ commands ++ stop_command client.config ∷ []
]
