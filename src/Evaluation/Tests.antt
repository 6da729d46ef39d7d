-- ===== src/Evaluation/Tests.antt =====
-- Tests of the run of an instance of SWE-bench.
use aenvironment.Common.{
  ◌≡◌, refl, ℕ, suc, Bool, true, false, Option, none, some, [], ◌∷◌, ◌++◌, ◌==◌, if◌then◌else◌,
}
use aenvironment.Common.Text.{Str, lit, str_eq, contains}
use aenvironment.Common.Ints.{pos}
use aenvironment.Common.Dict.{Dict}
use aenvironment.Effect.{Result, ok, err}
use aenvironment.Effect.Exceptions.{Exn}
use aenvironment.Shell.{requires_shell}
use aenvironment.Shell.Process.{ShellExecutor, Spawn, Ran, finished, Streamed, exited}
use aenvironment.Shell.Lexer.{split}
use aenvironment.Evaluation.Executor.{shell_system, run_instance-Judged}
use aenvironment.Grading.Report.{SweRun, Report, get_run_report}
use aenvironment.Evaluation.{System, run_instance_aenv, patch_text}
use aenvironment.Evaluation.Patch.{is_applied, with_patch}
use aenvironment.Evaluation.Outcome.{Judged}

abbrev log : Str
log = lit ">>>>> Start Test Output" ++ 10 ∷ lit "test_a PASSED" ++ 10 ∷ lit ">>>>> End Test Output"

-- The state counts the commands; the first fails, the others have the log as their output.
abbrev system : System ℕ
system = record {
  execute = λ c n. (
    ok record { code = if n == 0 then pos 1 else pos 0; stdout = some log; stderr = none },
    suc n,
  );
  write_file = λ path content n. n;
  exists = λ path n. false;
}

abbrev parsers : Str → Option (Str → Result (Dict Str))
parsers repo = some (λ content. ok ((lit "test_a", lit "PASSED") ∷ []))

abbrev spec : SweRun
spec = record {
  instance_id = lit "a";
  repo = lit "a/b";
  model_patch = some (lit "diff");
  fail_to_pass = lit "test_a" ∷ [];
  pass_to_pass = [];
}

test_patch_text : patch_text (lit "diff") ≡ lit "diff" ++ 10 ∷ []
unfolding patch_text str_eq
test_patch_text = refl

abbrev is_resolved : Result Report → Bool
is_resolved (ok r) = r.resolved
is_resolved (err e) = false

test_resolved :
    is_resolved (run_instance_aenv system parsers (lit "/dev/shm") spec (lit "pytest") 0).0 ≡ true
unfolding run_instance_aenv get_run_report contains str_eq
test_resolved = refl

-- A missing patch is not reported: it cannot be written.
test_no_patch :
    (run_instance_aenv system parsers
      (lit "/dev/shm")
      (record spec { model_patch = none })
      (lit "pytest")
      0).0
    ≡ err Exn.type_error
unfolding run_instance_aenv
test_no_patch = refl

-- A system whose first process fails and whose others print the log.
abbrev run : Spawn → ℕ → Ran × ℕ
run spawn n = (finished (if n == 0 then pos 1 else pos 0) log, suc n)

abbrev stream : Spawn → ℕ → Streamed × ℕ
stream spawn n = (record { stdout_lines = []; stderr_lines = []; ending = exited (pos 0) }, n)

abbrev executor : ShellExecutor
executor = record { timeout = 3600; working_dir = lit "/"; env = [] }

abbrev shell : System ℕ
shell = shell_system run stream executor (λ path content n. n) (λ path n. false)

run_instance-Judged_example :
    Judged shell parsers
      (lit "/dev/shm")
      spec
      (is_applied shell parsers
        (lit "/dev/shm")
        (with_patch shell parsers (lit "/dev/shm") (lit "diff") 0))
      (lit "pytest")
      (with_patch shell parsers (lit "/dev/shm") (lit "diff") 0)
      (run_instance_aenv shell parsers (lit "/dev/shm") spec (lit "pytest") 0).0
unfolding split requires_shell
run_instance-Judged_example =
    run_instance-Judged run stream executor (λ path content n. n) (λ path n. false) parsers
      (lit "/dev/shm") (lit "pytest") (lit "diff") spec 0 (λ spawn n. refl) refl refl
