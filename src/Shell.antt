-- ===== src/Shell.antt =====
-- The execution of commands in the SWE-bench environment,
-- aenv/builtin-envs/swebench/src/eval/shell_runner.py: the classes `ExecResult` and `ShellExecutor`,
-- on a system other than Windows and without their log.
pub mod Lexer
pub mod Process
pub mod Outcomes
pub mod Script
pub mod Tests
use aenvironment.Common.{
  ℕ, zero, suc, Bool, true, false, not, Option, none, some, List, [], ◌∷◌, ◌++◌, any, map,
  if◌then◌else◌,
}
use aenvironment.Common.Text.{Str, lit, contains}
use aenvironment.Common.Words.{rstrip}
use aenvironment.Common.Ints.{ℤ, pos, negsuc, is_zero, decimal}
use aenvironment.Common.Dict.{Dict, lookup, insert}
use aenvironment.Effect.{Result, ok, err, Eff}
use aenvironment.Effect.Exceptions.{Exn, is_exception}
use Lexer.{split}
use Process.{
  ExecResult, is_ok, output, Command, line, arguments, ShellExecutor, Spawn, Ran, finished, expired,
  raised, Ending, exited, killed, failed, Streamed, is_given, timeout_text, error_result,
  timeout_result, killed_result, streamed_result, captured_result, failed_with, captured, ended_as,
  read_stream, capture_spawn, stream_spawn,
}

abbrev update_env : Dict Str → Dict Str → Dict Str
update_env [] d = d
update_env ((k, v) ∷ env) d = update_env env (insert k v d)

-- `_prepare_env` on Linux and, where `PATH` keeps its value, elsewhere; the environment has a `PATH`.
unfoldable pub prepare_env : Bool → Dict Str → Dict Str → Result (Dict Str)
unfolding lookup insert
prepare_env is_linux custom_env environ =
    let base_env = update_env custom_env environ in
    if is_linux
    then ok (insert (lit "PATH") (lit "/bin:/usr/bin:/usr/local/bin") base_env)
    else elim (lookup (lit "PATH") environ) [
      | none ↦ err Exn.key_error
      | some path ↦ ok (insert (lit "PATH") path base_env)
    ]

abbrev shell_chars : List Str
shell_chars =
    lit "&&" ∷ lit "||" ∷ lit ";" ∷ lit "|" ∷ lit "$" ∷ lit ">" ∷ lit "<" ∷ lit "`" ∷ lit "cd" ∷ []

-- `_requires_shell`
unfoldable pub requires_shell : Command → Bool
unfolding contains
requires_shell (arguments args) = false
requires_shell (line s) = any (λ char. contains char s) shell_chars

abbrev pub lexed : Result (List Str) → Result Command
lexed (ok args) = ok (arguments args)
lexed (err e) = err e

-- `_sanitize_command`
unfoldable pub sanitize_command : Command → Result Command
unfolding split
sanitize_command (arguments args) = ok (arguments args)
sanitize_command (line s) = lexed (split s)

abbrev pub sanitized : Bool → Command → Result Command
sanitized true command = ok command
sanitized false command = sanitize_command command

abbrev pub or_timeout : Option ℕ → ℕ → ℕ
or_timeout none t = t
or_timeout (some zero) t = t
or_timeout (some (suc n)) t = suc n

-- The system runs a process with captured output, or streams its output to a callback.
module _ {W : Type 0} (run : Spawn → W → Ran × W) (stream : Spawn → W → Streamed × W)
    (executor : ShellExecutor) where
  -- `_execute_with_capture`: the input is encoded, but nothing writes it.
  unfoldable pub execute_with_capture :
      Command → ℕ → Bool → Option Str → Option Str → Eff W ExecResult
  execute_with_capture command timeout shell_need out_record input_data w =
      let (r, v) =
        run (capture_spawn executor command timeout shell_need out_record input_data) w in
      (captured out_record timeout r, v)

  -- `_execute_with_realtime_output`, which starts no shell.
  unfoldable pub execute_with_realtime_output : Command → ℕ → Option Str → Eff W ExecResult
  execute_with_realtime_output command timeout input_data w =
      let (s, v) = stream (stream_spawn executor command timeout input_data) w in
      (ended_as s timeout s.ending, v)

  abbrev pub run_command :
      Result Command → ℕ → Bool → Bool → Option Str → Option Str → Eff W ExecResult
  run_command (err e) timeout shell_required realtime input_data out_record w = (err e, w)
  run_command (ok command) timeout shell_required true input_data out_record w =
      execute_with_realtime_output command timeout input_data w
  run_command (ok command) timeout shell_required false input_data out_record w =
      execute_with_capture command timeout shell_required out_record input_data w

  -- `execute`; `realtime` says whether there is a callback. The command is split before the `try`.
  unfoldable pub execute : Command → Option ℕ → Bool → Option Str → Option Str → Eff W ExecResult
  unfolding execute_with_capture execute_with_realtime_output sanitize_command
  execute command timeout realtime input_data out_record w =
      run_command (sanitized (requires_shell command) command) (or_timeout timeout executor.timeout)
        (requires_shell command) realtime input_data out_record w
