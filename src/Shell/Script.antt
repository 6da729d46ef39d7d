-- ===== src/Shell/Script.antt =====
-- `ShellExecutor.execute_script` of aenv/builtin-envs/swebench/src/eval/shell_runner.py.
use aenvironment.Common.{ℕ, Bool, Option, none, some, List, ◌∷◌, if◌then◌else◌, drop}
use aenvironment.Common.Text.{Str, lit, starts_with}
use aenvironment.Common.Words.{strip}
use aenvironment.Effect.{err, Eff}
use aenvironment.Effect.Exceptions.{Exn}
use aenvironment.Shell.{execute}
use aenvironment.Shell.Process.{ExecResult, ShellExecutor, arguments, Spawn, Ran, Streamed}

-- A script: whether its owner may execute it, and its first line.
pub record ScriptFile : Type 0 where
  pub is_executable : Bool
  pub first_line : Str

-- the interpreter that the first line names: all of it after the mark
unfoldable pub detected : Str → Option Str
unfolding strip starts_with
detected first_line =
    if starts_with (lit "#!") (strip first_line)
    then some (strip (drop 2 (strip first_line)))
    else none

unfoldable pub interpreter_of : Option Str → Str → Option Str
unfolding detected
interpreter_of (some interpreter) first_line = some interpreter
interpreter_of none first_line = detected first_line

-- `[interpreter, script_path, *args]`
unfoldable pub script_command : Option Str → Str → List Str → List Str
script_command (some (c ∷ interpreter)) script_path args = (c ∷ interpreter) ∷ script_path ∷ args
script_command _ script_path args = script_path ∷ args

-- The system finds a script, and gives its owner the permission to execute it.
module _ {W : Type 0} (run : Spawn → W → Ran × W) (stream : Spawn → W → Streamed × W)
    (executor : ShellExecutor) (script : Str → W → Option ScriptFile)
    (add_permission : Str → W → W) where
  -- with the timeout, the callback, the input and the file of `execute`
  unfoldable pub execute_script :
      Str → List Str → Option Str → Option ℕ → Bool → Option Str → Option Str → Eff W ExecResult
  unfolding execute script_command interpreter_of
  execute_script script_path args interpreter timeout realtime input_data out_record w =
      elim (script script_path w) [
        | none ↦ (err Exn.file_not_found_error, w)
        | some file ↦
            execute run stream executor
              (arguments
                (script_command (interpreter_of interpreter file.first_line) script_path args))
              timeout realtime input_data out_record
              (if file.is_executable then w else add_permission script_path w)
      ]
