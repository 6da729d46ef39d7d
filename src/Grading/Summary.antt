-- ===== src/Grading/Summary.antt =====
-- The verdict on a run whose log is read by `parse_log_pytest`: grading.py on top of
-- python_log_parser.py.
use aenvironment.Common.{ℕ, ◌≡◌, ◌↔◌, refl, Bool, true, some, List, [], each, All}
use aenvironment.Common.Text.{Str, str_eq}
use aenvironment.Effect.{ok}
use aenvironment.Logs.{parse_log_pytest}
use aenvironment.Logs.Printed.{Line, IsLine, IsOther, printed, put_line, parse_log_pytest-printed}
use aenvironment.Logs.Table.{Parser, parser_of}
use aenvironment.Grading.Report.{SweRun, get_logs_eval, get_eval_report, is_gradable, test_output}
use aenvironment.Grading.Verdict.{NoFailure, is_resolved, resolved_iff}

abbrev pub pytest_parser : Parser
pytest_parser log = ok (parse_log_pytest log)

module _ (is_decimal : ℕ → Bool) (interrupted : Str → List Str) (content : Str) where
  pytest_logs :
      (spec : SweRun) (ls : List Line) (last : Str)
      → parser_of is_decimal interrupted spec.repo ≡ some pytest_parser
      → is_gradable content ≡ true
      → test_output content ≡ printed ls last
      → All IsLine ls
      → IsOther last
      → get_logs_eval (parser_of is_decimal interrupted) content spec
        ≡ ok (some (each put_line ls []))
  unfolding get_logs_eval parser_of str_eq
  pytest_logs spec ls last h g o k n = rw (h, g, o, parse_log_pytest-printed ls last k n) refl

  -- For a run with a patch, of a repository whose parser is `parse_log_pytest`, and a log that can
  -- be graded, between whose marks every line is an entry of a summary of pytest, with a word other
  -- than a dash for the name and no line break in the message, or begins with no status: the report
  -- says that the run is resolved exactly if none of its tests counts as a failure in the statuses of
  -- the entries, of which the last for a name counts.
  pub resolved_summary :
      (spec : SweRun) (patch : Str) (b : Bool) (ls : List Line) (last : Str)
      → parser_of is_decimal interrupted spec.repo ≡ some pytest_parser
      → is_gradable content ≡ true
      → test_output content ≡ printed ls last
      → All IsLine ls
      → IsOther last
      → (is_resolved
            (get_eval_report (parser_of is_decimal interrupted) content spec (some patch) b)
          ≡ true)
        ↔ NoFailure spec (each put_line ls [])
  resolved_summary spec patch b ls last h g o k n =
      resolved_iff (parser_of is_decimal interrupted) content spec patch b (each put_line ls [])
        (pytest_logs spec ls last h g o k n)
