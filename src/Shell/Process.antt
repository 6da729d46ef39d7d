-- ===== src/Shell/Process.antt =====
-- What a process is started with, how it ends, and what is made of it, in
-- aenv/builtin-envs/swebench/src/eval/shell_runner.py: `ExecResult`, and the parts of the two methods
-- of `ShellExecutor` that start a process.
use aenvironment.Common.{
  ℕ, Bool, true, false, Option, none, some, List, [], ◌∷◌, ◌++◌, map, if◌then◌else◌,
}
use aenvironment.Common.Text.{Str, lit}
use aenvironment.Common.Words.{rstrip}
use aenvironment.Common.Ints.{ℤ, negsuc, is_zero, decimal}
use aenvironment.Common.Dict.{Dict}
use aenvironment.Effect.{Result, ok, err}
use aenvironment.Effect.Exceptions.{Exn, is_exception}

-- `ExecResult`, without its duration
pub record ExecResult : Type 0 where
  pub code : ℤ
  pub stdout : Option Str
  pub stderr : Option Str

-- `ok`
abbrev pub is_ok : ExecResult → Bool
is_ok r = is_zero r.code

abbrev shown : Option Str → Str
shown none = lit "None"
shown (some s) = s

abbrev line_end : Str
line_end = 10 ∷ []

-- `output`
unfoldable pub output : ExecResult → Str
output r =
    lit "++++++++START_STDOUT++++++++"
    ++ line_end
    ++ shown r.stdout
    ++ line_end
    ++ lit "++++++++END_STDOUT++++++++"
    ++ line_end
    ++ lit "++++++++START_STDERR++++++++"
    ++ line_end
    ++ shown r.stderr
    ++ line_end
    ++ lit "++++++++END_STDERR++++++++"

-- a command: one text, or a list of arguments
pub data Command : Type 0 where
  line : Str → Command
  arguments : List Str → Command

pub record ShellExecutor : Type 0 where
  pub timeout : ℕ
  pub working_dir : Str
  pub env : Dict Str

-- What a process is started with: its command, whether a shell reads it, whether a pipe is its
-- input, what is written to that pipe, the file of its output, and the timeout.
pub record Spawn : Type 0 where
  pub command : Command
  pub shell : Bool
  pub pipe_in : Bool
  pub written : Option Str
  pub out_file : Option Str
  pub timeout : ℕ
  pub cwd : Str
  pub env : Dict Str

-- How `subprocess.run` ends.
pub data Ran : Type 0 where
  finished : ℤ → Str → Ran
  expired : Ran
  raised : Exn → Ran

-- How a process ends whose output is read while it runs, after the lines that it has written.
pub data Ending : Type 0 where
  exited : ℤ → Ending
  killed : Ending
  failed : Exn → Ending

pub record Streamed : Type 0 where
  pub stdout_lines : List Str
  pub stderr_lines : List Str
  pub ending : Ending

abbrev pub is_given : Option Str → Bool
is_given (some (c ∷ s)) = true
is_given _ = false

abbrev joined : List Str → Str
joined [] = []
joined (s ∷ ss) = s ++ joined ss

abbrev pub timeout_text : ℕ → Str
timeout_text t = lit "Timeout after " ++ decimal t ++ lit " seconds"

-- the result of the `except` clause of `execute`, whose text goes on with that of the exception
abbrev pub error_result : ExecResult
error_result = record { code = negsuc 0; stdout = some []; stderr = some (lit "Execution error: ") }

abbrev pub timeout_result : ℕ → ExecResult
timeout_result t = record { code = negsuc 1; stdout = some []; stderr = some (timeout_text t) }

-- what was read before the process was killed
abbrev pub killed_result : Streamed → ℕ → ExecResult
killed_result s t = record {
  code = negsuc 1;
  stdout = some (joined s.stdout_lines);
  stderr = some (joined s.stderr_lines ++ line_end ++ timeout_text t);
}

abbrev pub streamed_result : Streamed → ℤ → ExecResult
streamed_result s code = record {
  code = code;
  stdout = some (joined s.stdout_lines);
  stderr = some (joined s.stderr_lines);
}

-- `result.stdout`, which is `None` where the output goes to a file; both outputs go to one.
abbrev pub captured_result : Option Str → ℤ → Str → ExecResult
captured_result out_record code out = record {
  code = code;
  stdout = if is_given out_record then none else some out;
  stderr = none;
}

-- `except Exception` of `execute`
abbrev pub failed_with : Exn → Result ExecResult
failed_with e = if is_exception e then ok error_result else err e

abbrev pub captured : Option Str → ℕ → Ran → Result ExecResult
captured out_record timeout (finished code out) = ok (captured_result out_record code out)
captured out_record timeout expired = ok (timeout_result timeout)
captured out_record timeout (raised e) = failed_with e

abbrev pub ended_as : Streamed → ℕ → Ending → Result ExecResult
ended_as s timeout (exited code) = ok (streamed_result s code)
ended_as s timeout killed = ok (killed_result s timeout)
ended_as s timeout (failed e) = failed_with e

-- `_read_stream`: the lines that it keeps, and what the callback is called with.
unfoldable pub read_stream : Str → List Str → List Str × List Str
unfolding rstrip
read_stream stream_name lines =
    (lines, map (λ (l : Str). lit "[" ++ stream_name ++ lit "] " ++ rstrip l) lines)

-- the arguments of `subprocess.run` and of `subprocess.Popen`, which is told of no shell
abbrev pub capture_spawn : ShellExecutor → Command → ℕ → Bool → Option Str → Option Str → Spawn
capture_spawn executor command timeout shell_need out_record input_data = record {
  command = command;
  shell = shell_need;
  pipe_in = is_given input_data;
  written = none;
  out_file = if is_given out_record then out_record else none;
  timeout = timeout;
  cwd = executor.working_dir;
  env = executor.env;
}

abbrev pub stream_spawn : ShellExecutor → Command → ℕ → Option Str → Spawn
stream_spawn executor command timeout input_data = record {
  command = command;
  shell = false;
  pipe_in = is_given input_data;
  written = if is_given input_data then input_data else none;
  out_file = none;
  timeout = timeout;
  cwd = executor.working_dir;
  env = executor.env;
}
