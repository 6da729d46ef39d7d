-- ===== src/Shell/Outcomes.antt =====
-- That the execution of a command gives a result, and what becomes of a shell command whose output
-- is read while it runs.
use aenvironment.Common.{
  none, is_some, ◌≡◌, refl, ◌∙◌, ℕ, not, Bool, true, false, Option, ◌||◌, arith,
}
use aenvironment.Common.Text.{Str}
use aenvironment.Effect.{Result, ok, err}
use aenvironment.Effect.Exceptions.{Exn, is_exception}
use aenvironment.Shell.{
  requires_shell, sanitized, sanitize_command, run_command, execute_with_capture,
  execute_with_realtime_output, execute, or_timeout,
}
use aenvironment.Shell.Process.{
  ExecResult, ShellExecutor, Command, line, arguments, Spawn, Ran, finished, expired, raised,
  Ending, exited, killed, failed, Streamed, captured, ended_as, error_result, stream_spawn,
}
use aenvironment.Shell.Lexer.{split}

-- whether a call returns
abbrev pub returns {ℓ} : {A : Type ℓ} → Result A → Bool
returns (ok a) = true
returns (err e) = false

-- the output of a command that returned
abbrev pub output_of : Result ExecResult → Option Str
output_of (ok r) = r.stdout
output_of (err e) = none

-- whether a process ends in an exception that no `except Exception` takes
abbrev pub interrupted : Ran → Bool
interrupted (raised e) = not (is_exception e)
interrupted _ = false

abbrev pub ending_interrupted : Ending → Bool
ending_interrupted (failed e) = not (is_exception e)
ending_interrupted _ = false

captured-returns :
    (out_record : Option Str) (t : ℕ) (r : Ran)
    → interrupted r ≡ false
    → returns (captured out_record t r) ≡ true
captured-returns out_record t (finished c s) h = refl
captured-returns out_record t expired h = refl
captured-returns out_record t (raised e) h = ground arith

ended-returns :
    (s : Streamed) (t : ℕ) (r : Ending)
    → ending_interrupted r ≡ false
    → returns (ended_as s t r) ≡ true
ended-returns s t (exited c) h = refl
ended-returns s t killed h = refl
ended-returns s t (failed e) h = ground arith

-- whether a command can be taken apart, where it has to be
abbrev pub is_readable : Command → Bool
is_readable (arguments args) = true
is_readable (line s) = requires_shell (line s) || returns (split s)

returns-sanitized :
    (command : Command) → returns (sanitized (requires_shell command) command) ≡ is_readable command
unfolding requires_shell sanitize_command
returns-sanitized (arguments args) = refl
returns-sanitized (line s) = ground arith

module _ {W : Type 0} (run : Spawn → W → Ran × W) (stream : Spawn → W → Streamed × W)
    (executor : ShellExecutor) where
  returns-run :
      (r : Result Command) (t : ℕ) (shell realtime : Bool) (input_data out_record : Option Str)
      (w : W)
      → ((spawn : Spawn) (v : W) → interrupted (run spawn v).0 ≡ false)
      → ((spawn : Spawn) (v : W) → ending_interrupted (stream spawn v).0.ending ≡ false)
      → returns (run_command run stream executor r t shell realtime input_data out_record w).0
        ≡ returns r
  unfolding execute_with_capture execute_with_realtime_output
  returns-run (err e) t shell realtime input_data out_record w h k = refl
  returns-run (ok c) t shell true input_data out_record w h k =
      ended-returns (stream (stream_spawn executor c t input_data) w).0 t _ (k _ w)
  returns-run (ok c) t shell false input_data out_record w h k =
      captured-returns out_record t _ (h _ w)

  -- Where the system interrupts no process with anything but an Exception, execute returns a result,
  -- whatever the process does, exactly if the command is a list, requires a shell, or is a text that
  -- can be taken apart.
  pub execute-returns :
      (command : Command) (timeout : Option ℕ) (realtime : Bool)
      (input_data out_record : Option Str) (w : W)
      → ((spawn : Spawn) (v : W) → interrupted (run spawn v).0 ≡ false)
      → ((spawn : Spawn) (v : W) → ending_interrupted (stream spawn v).0.ending ≡ false)
      → returns (execute run stream executor command timeout realtime input_data out_record w).0
        ≡ is_readable command
  unfolding execute
  execute-returns command timeout realtime input_data out_record w h k =
      returns-run _ _ _ realtime input_data out_record w h k ∙ returns-sanitized command

  -- Where a text that is started without a shell is the name of a program that does not exist,
  -- a command that requires a shell gives the result for an exception whenever there is a callback.
  pub execute-realtime :
      (s : Str) (timeout : Option ℕ) (input_data out_record : Option Str) (w : W)
      → ((spawn : Spawn) (v : W)
          → spawn.command ≡ line s
          → spawn.shell ≡ false
          → (stream spawn v).0.ending ≡ failed Exn.file_not_found_error)
      → requires_shell (line s) ≡ true
      → (execute run stream executor (line s) timeout true input_data out_record w).0
        ≡ ok error_result
  unfolding execute execute_with_realtime_output
  execute-realtime s timeout input_data out_record w h e =
      rw
        (
          e,
          h (stream_spawn executor (line s) (or_timeout timeout executor.timeout) input_data) w refl
              refl,
        )
        refl

  captured_some :
      (t : ℕ) (r : Ran) → interrupted r ≡ false → is_some (output_of (captured none t r)) ≡ true
  captured_some t (finished c s) h = refl
  captured_some t expired h = refl
  captured_some t (raised e) h = ground arith

  command_some :
      (r : Result Command) (t : ℕ) (shell : Bool) (w : W)
      → ((spawn : Spawn) (v : W) → interrupted (run spawn v).0 ≡ false)
      → returns r ≡ true
      → is_some (output_of (run_command run stream executor r t shell false none none w).0) ≡ true
  unfolding execute_with_capture
  command_some (ok c) t shell w h k = captured_some t _ (h _ w)
  command_some (err e) t shell w h k = absurd (cc)

  -- A command that can be read has an output, where it goes to no file.
  pub execute_some :
      (command : Command) (w : W)
      → ((spawn : Spawn) (v : W) → interrupted (run spawn v).0 ≡ false)
      → is_readable command ≡ true
      → is_some (output_of (execute run stream executor command none false none none w).0) ≡ true
  unfolding execute
  execute_some command w h k =
      command_some (sanitized (requires_shell command) command) _ (requires_shell command) w h
        (returns-sanitized command ∙ k)
