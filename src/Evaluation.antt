-- ===== src/Evaluation.antt =====
-- The run of one instance of SWE-bench, `run_instance_aenv` of
-- aenv/builtin-envs/swebench/src/eval/aenv_evaluation.py: the patch, the script of the tests and
-- the report on its log, over the executor of commands. What is only logged is left out.
pub mod Patch
pub mod Outcome
pub mod Executor
pub mod Tests
use aenvironment.Common.{
  ℕ, Bool, true, false, not, Option, none, some, List, [], ◌∷◌, ◌++◌, if◌then◌else◌,
}
use aenvironment.Common.Text.{Str, lit}
use aenvironment.Common.Words.{ends_with, replace}
use aenvironment.Common.Dict.{Dict}
use aenvironment.Effect.{Result, ok, err, Eff, pure, raise, modify, gets, ◌>>=◌, ◌>>◌}
use aenvironment.Effect.Exceptions.{Exn}
use aenvironment.Shell.Process.{ExecResult, is_ok, Command, line}
use aenvironment.Grading.Report.{SweRun, Report, get_run_report}

-- What the evaluation uses of the system: the executor with its own timeout, no callback, no input
-- and no file, and the files.
pub record System (W : Type 0) : Type 0 where
  pub execute : Command → W → Result ExecResult × W
  pub write_file : Str → Str → W → W
  pub exists : Str → W → Bool

abbrev pub sandbox : Str → Str
sandbox root_tmp_dir = root_tmp_dir ++ lit "/swe-sandbox"

abbrev pub patch_file : Str → Str
patch_file root_tmp_dir = sandbox root_tmp_dir ++ lit "/patch.diff"

-- the patch with an end of its last line
unfoldable pub patch_text : Str → Str
unfolding ends_with
patch_text [] = []
patch_text (c ∷ patch) =
    if ends_with (10 ∷ []) (c ∷ patch) then c ∷ patch else (c ∷ patch) ++ 10 ∷ []

abbrev pub git_apply : Str → Str → Command
git_apply root_tmp_dir local_code_space =
    line (lit "cd /" ++ local_code_space ++ lit " && git apply -v " ++ patch_file root_tmp_dir)

abbrev pub git_apply_special : Str → Str → Command
git_apply_special root_tmp_dir local_code_space = line (
    lit "cd /"
    ++ local_code_space
    ++ lit " && patch --batch --fuzz=5 -p1 -i "
    ++ patch_file root_tmp_dir)

abbrev pub local_code_space : Str
local_code_space = lit "/testbed"

abbrev pub default_eval_file : Str
default_eval_file = lit "/dev/shm/swe-sandbox/eval.sh"

module _ {W : Type 0} (system : System W) (parsers : Str → Option (Str → Result (Dict Str)))
    (root_tmp_dir : Str) where
  -- A patch that is `None` cannot be written, when the file has been opened.
  unfoldable pub write_patch : Option Str → Eff W (Unit {0})
  unfolding patch_text
  write_patch none w = (err Exn.type_error, system.write_file (patch_file root_tmp_dir) [] w)
  write_patch (some patch) w =
      (ok tt, system.write_file (patch_file root_tmp_dir) (patch_text patch) w)

  -- an `EvaluationError`
  abbrev pub special_applied : ExecResult → Eff W (Unit {0})
  special_applied r w = (if is_ok r then ok tt else err Exn.evaluation_error, w)

  abbrev pub applied : ExecResult → Eff W (Unit {0})
  unfolding ◌>>=◌
  applied r w =
      if is_ok r
      then (ok tt, w)
      else (system.execute (git_apply_special root_tmp_dir local_code_space) >>= special_applied) w

  unfoldable pub apply_patch : Eff W (Unit {0})
  unfolding ◌>>=◌
  apply_patch = system.execute (git_apply root_tmp_dir local_code_space) >>= applied

  -- The file of the script, which is `eval_script` itself where that is a path.
  unfoldable pub write_script : Str → Eff W Str
  write_script eval_script w = if system.exists eval_script w then (ok eval_script, w) else (
    ok default_eval_file,
    system.write_file default_eval_file
        (replace (lit "locale-gen") (lit "locale-gen en_US.UTF-8") eval_script) w,
  )

  -- the two calls of `git diff`
  unfoldable pub diff : Str → Eff W (Unit {0})
  unfolding ◌>>=◌ pure
  diff dir = system.execute (line (lit "cd " ++ dir ++ lit " && git diff")) >>= λ r. pure tt

  -- `test_out.write(run_resp.stdout)` and `run_resp.stdout`, a text unless the output went to a file
  abbrev pub record_output : Option Str → Eff W Str
  record_output none w =
      (err Exn.type_error, system.write_file (sandbox root_tmp_dir ++ lit "/test_output.txt") [] w)
  record_output (some s) w =
      (ok s, system.write_file (sandbox root_tmp_dir ++ lit "/test_output.txt") s w)

  unfoldable pub run_script : Str → Eff W Str
  unfolding ◌>>=◌
  run_script eval_file =
      system.execute (line (lit "/bin/bash " ++ eval_file)) >>= λ r. record_output r.stdout

  -- what follows when the patch has been applied
  unfoldable pub evaluate : SweRun → Str → Eff W Report
  unfolding ◌>>=◌ ◌>>◌ write_script diff run_script
  evaluate test_spec eval_script = do
    diff (lit "/" ++ local_code_space)
    eval_file ← write_script eval_script
    content ← run_script eval_file
    diff local_code_space
    λ w. (get_run_report parsers content test_spec true, w)

  unfoldable pub run_instance_aenv : SweRun → Str → Eff W Report
  unfolding ◌>>=◌ ◌>>◌ write_patch apply_patch evaluate
  run_instance_aenv test_spec eval_script = do
    write_patch test_spec.model_patch
    apply_patch
    evaluate test_spec eval_script
