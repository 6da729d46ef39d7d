-- ===== src/Evaluation/Executor.antt =====
-- The run of an instance of SWE-bench with the executor of shell_runner.py.
use aenvironment.Common.{◌≡◌, refl, Bool, true, false, Option, none, some, ◌++◌, arith}
use aenvironment.Common.Text.{Str, lit, contains, cut_at, starts_with}
use aenvironment.Common.Dict.{Dict}
use aenvironment.Effect.{Result}
use aenvironment.Shell.{execute, requires_shell}
use aenvironment.Shell.Process.{ShellExecutor, line, Spawn, Ran, Streamed}
use aenvironment.Shell.Lexer.{split}
use aenvironment.Shell.Outcomes.{interrupted, is_readable, execute_some}
use aenvironment.Grading.Report.{SweRun}
use aenvironment.Evaluation.{System, run_instance_aenv, default_eval_file}
use aenvironment.Evaluation.Patch.{is_applied, with_patch}
use aenvironment.Evaluation.Outcome.{
  Issued, changes, default_script, own_script, Judged, run-Judged,
}

readable_cd : (s : Str) → is_readable (line (lit "cd " ++ s)) ≡ true
unfolding requires_shell contains cut_at starts_with
readable_cd s = ground arith

readable_default : is_readable (line (lit "/bin/bash " ++ default_eval_file)) ≡ true
unfolding requires_shell split contains cut_at starts_with
readable_default = refl

Issued-readable :
    (script s : Str)
    → is_readable (line (lit "/bin/bash " ++ script)) ≡ true
    → Issued script s
    → is_readable (line s) ≡ true
Issued-readable script s h (changes dir) = readable_cd dir
Issued-readable script s h default_script = readable_default
Issued-readable script s h own_script = h

-- How the system runs a process or streams its output, and its files.
module _ {W : Type 0} (run : Spawn → W → Ran × W) (stream : Spawn → W → Streamed × W)
    (executor : ShellExecutor) (write_file : Str → Str → W → W) (exists : Str → W → Bool) where
  -- `executor.execute` with one argument
  abbrev pub shell_system : System W
  shell_system = record {
    execute = λ c w. execute run stream executor c none false none none w;
    write_file = write_file;
    exists = exists;
  }

  -- Where the system interrupts no process with anything but an Exception, there is a patch, and the
  -- command on the script of the tests can be read, the run of an instance gives the report of what
  -- the run of that script has written in the state after the patch, if one of the two commands that
  -- apply the patch succeeds, and else raises an EvaluationError. The file that is run is the script
  -- itself if that is the path of a file, and else the default one, with the script as its text.
  pub run_instance-Judged :
      (parsers : Str → Option (Str → Result (Dict Str))) (root eval_script patch : Str)
      (spec : SweRun) (w : W)
      → ((spawn : Spawn) (v : W) → interrupted (run spawn v).0 ≡ false)
      → is_readable (line (lit "/bin/bash " ++ eval_script)) ≡ true
      → spec.model_patch ≡ some patch
      → (let v = with_patch shell_system parsers root patch w in
          Judged shell_system parsers root spec
            (is_applied shell_system parsers root v)
            eval_script
            v
            (run_instance_aenv shell_system parsers root spec eval_script w).0)
  run_instance-Judged parsers root eval_script patch spec w h r e =
      run-Judged shell_system parsers root spec eval_script patch w
        (λ s v i. execute_some run stream executor (line s) v h (Issued-readable eval_script s r i))
        e
