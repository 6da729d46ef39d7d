-- ===== src/Shell/Tests.antt =====
-- Tests of the execution of commands.
use aenvironment.Common.{◌≡◌, refl, ℕ, true, false, none, [], ◌∷◌, arith, if◌then◌else◌}
use aenvironment.Common.Text.{lit}
use aenvironment.Common.Ints.{pos, decimal}
use aenvironment.Effect.{ok, err}
use aenvironment.Effect.Exceptions.{Exn}
use aenvironment.Shell.{execute, requires_shell}
use aenvironment.Shell.Process.{
  ShellExecutor, Command, line, Spawn, Ran, finished, expired, Streamed, failed, error_result,
  timeout_result,
}
use aenvironment.Shell.Lexer.{split}
use aenvironment.Shell.Script.{script_command, interpreter_of}
use aenvironment.Shell.Outcomes.{returns, is_readable, execute-returns, execute-realtime}

test_split :
    split (lit "git commit -m 'a b'  \"c\\\"d\"")
    ≡ ok (lit "git" ∷ lit "commit" ∷ lit "-m" ∷ lit "a b" ∷ lit "c\"d" ∷ [])
unfolding split
test_split = refl

test_unclosed : split (lit "echo it's") ≡ err Exn.value_error
unfolding split
test_unclosed = refl

-- A word that has "cd" in it counts as a command for a shell.
test_requires_shell : requires_shell (line (lit "echo abcd")) ≡ true
unfolding requires_shell
test_requires_shell = refl

test_decimal : decimal 3600 ≡ lit "3600"
unfolding decimal
test_decimal = refl

-- A first line with an argument of the interpreter gives a program with a space in its name.
test_script_command :
    script_command (interpreter_of none (lit "#!/usr/bin/env python3")) (lit "a.py") []
    ≡ lit "/usr/bin/env python3" ∷ lit "a.py" ∷ []
unfolding script_command interpreter_of
test_script_command = refl

abbrev run : Spawn → ℕ → Ran × ℕ
run spawn n = (if spawn.shell then expired else finished (pos 0) (lit "out"), n)

abbrev stream : Spawn → ℕ → Streamed × ℕ
stream spawn n =
    (record { stdout_lines = []; stderr_lines = []; ending = failed Exn.file_not_found_error }, n)

abbrev executor : ShellExecutor
executor = record { timeout = 60; working_dir = lit "/"; env = [] }

abbrev both : Command
both = line (lit "cd a && ls")

test_timeout : execute run stream executor both none false none none 0 ≡ (ok (timeout_result 60), 0)
unfolding execute requires_shell
test_timeout = refl

execute-returns_example :
    returns (execute run stream executor (line (lit "echo it's")) none false none none 0).0
    ≡ is_readable (line (lit "echo it's"))
execute-returns_example =
    execute-returns run stream executor (line (lit "echo it's")) none false none none 0
      (λ spawn v. ground arith) (λ spawn v. refl)

execute-realtime_example :
    (execute run stream executor both none true none none 0).0 ≡ ok error_result
unfolding requires_shell
execute-realtime_example =
    execute-realtime run stream executor (lit "cd a && ls") none none none 0 (λ spawn v e f. refl)
      refl
