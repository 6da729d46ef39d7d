-- ===== src/Grading/Tests.antt =====
-- Tests of grading.py: the theorems at the run of an instance with three tests.
use aenvironment.Common.{
  ◌≡◌, ◌↔◌, refl, true, Option, none, some, List, [], ◌∷◌, ℕ, Bool, leb, ◌&&◌, arith, All, each,
}
use aenvironment.Common.Text.{Str, lit, str_eq, cut_at, starts_with, contains}
use aenvironment.Common.Dict.{Dict, lookup}
use aenvironment.Effect.{Result, ok}
use aenvironment.Logs.{has_status}
use aenvironment.Logs.Printed.{Line, entry, other, IsLine, IsOther, put_line}
use aenvironment.Logs.Table.{parser_of}
use aenvironment.Grading.Summary.{resolved_summary}
use aenvironment.Grading.{TestStatus, TestsReport, no_outcome}
use aenvironment.Grading.Report.{SweRun, get_logs_eval, get_eval_report}
use aenvironment.Grading.Verdict.{NoFailure, is_resolved, resolved_iff}

abbrev status_map : Dict Str
status_map =
    (lit "test_a", lit "PASSED") ∷ (lit "test_b", lit "FAILED") ∷ (lit "test_c", lit "SKIPPED") ∷ []

abbrev cases : List Str
cases = lit "test_a" ∷ lit "test_b" ∷ lit "test_c" ∷ lit "test_d" ∷ []

abbrev half_report : TestsReport
half_report = record {
  fail_to_pass = record { success = lit "test_a" ∷ []; failure = lit "test_b" ∷ [] };
  pass_to_pass = no_outcome;
  fail_to_fail = no_outcome;
  pass_to_fail = no_outcome;
}

abbrev run : SweRun
run = record {
  instance_id = lit "django__django-1";
  repo = lit "django/django";
  model_patch = some (lit "diff");
  fail_to_pass = lit "test_a" ∷ [];
  pass_to_pass = lit "test_c" ∷ [];
}

abbrev log : Str
log = lit ">>>>> Start Test Output\nok\n>>>>> End Test Output"

abbrev parsers : Str → Option (Str → Result (Dict Str))
parsers repo = some (λ content. ok status_map)

resolved_iff_example :
    (is_resolved (get_eval_report parsers log run (some (lit "diff")) true) ≡ true)
    ↔ NoFailure run status_map
unfolding get_logs_eval contains cut_at starts_with
resolved_iff_example = resolved_iff parsers log run (lit "diff") true status_map refl

abbrev flask_run : SweRun
flask_run = record {
  instance_id = lit "pallets__flask-1";
  repo = lit "pallets/flask";
  model_patch = some (lit "diff");
  fail_to_pass = lit "a" ∷ [];
  pass_to_pass = [];
}

-- The marks are the arguments of a command that the shell prints.
abbrev flask_log : Str
flask_log =
    lit
      "+ : '>>>>> Start Test Output'\n+ pytest -rA\nFAILED a - E\nPASSED b\n1 failed, 1 passed\n+ : '>>>>> End Test Output'\n"

abbrev flask_lines : List Line
flask_lines =
    other (lit "'")
    ∷ other (lit "+ pytest -rA")
    ∷ entry record { status = TestStatus.failed; name = lit "a"; message = some (lit "E") }
    ∷ entry record { status = TestStatus.passed; name = lit "b"; message = none }
    ∷ other (lit "1 failed, 1 passed")
    ∷ []

abbrev flask_last : Str
flask_last = lit "+ : '"

flask_lines-All : All IsLine flask_lines
unfolding has_status starts_with
flask_lines-All = ground arith

flask_last-IsOther : IsOther flask_last
unfolding has_status starts_with
flask_last-IsOther = ground arith

abbrev ascii_digit : ℕ → Bool
ascii_digit c = leb b'0' c && leb c b'9'

abbrev no_interrupted : Str → List Str
no_interrupted s = []

resolved_summary_example :
    (is_resolved (
        get_eval_report
          (parser_of ascii_digit no_interrupted)
          flask_log
          flask_run
          (some (lit "diff"))
          true)
      ≡ true)
    ↔ NoFailure flask_run (each put_line flask_lines [])
unfolding parser_of contains cut_at str_eq lookup
resolved_summary_example =
    resolved_summary ascii_digit no_interrupted flask_log flask_run (lit "diff") true flask_lines
      flask_last refl refl refl flask_lines-All flask_last-IsOther
