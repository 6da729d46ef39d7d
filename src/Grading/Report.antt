-- ===== src/Grading/Report.antt =====
-- `get_logs_eval` and `get_eval_report` of grading.py, and `get_eval_report` of
-- aenv_evaluation.py, which takes the patch from the run.
use aenvironment.Common.{
  Bool, true, false, not, ◌&&◌, Option, none, some, List, [], ◌∷◌, any, if◌then◌else◌,
}
use aenvironment.Common.Text.{Str, lit, str_eq, cut_at, contains}
use aenvironment.Common.Words.{before}
use aenvironment.Common.Dict.{Dict}
use aenvironment.Effect.{Result, ok, err}
use aenvironment.Effect.Exceptions.{Exn}
use aenvironment.Grading.{
  EvalType, ResolvedStatus, GoldResults, TestsReport, get_eval_tests_report, get_resolution_status,
}

pub record SweRun : Type 0 where
  pub instance_id : Str
  pub repo : Str
  pub model_patch : Option Str
  pub fail_to_pass : List Str
  pub pass_to_pass : List Str

abbrev bad_codes : List Str
bad_codes =
    lit ">>>>> Patch Apply Failed"
    ∷ lit ">>>>> Reset Failed"
    ∷ lit ">>>>> Tests Errored"
    ∷ lit ">>>>> Tests Timed Out"
    ∷ []

abbrev start_test_output : Str
start_test_output = lit ">>>>> Start Test Output"

abbrev end_test_output : Str
end_test_output = lit ">>>>> End Test Output"

abbrev fail_only_repos : List Str
fail_only_repos = lit "chartjs/Chart.js" ∷ lit "processing/p5.js" ∷ lit "markedjs/marked" ∷ []

-- `s.split(p)[1]`, where `p` occurs in `s`
abbrev after_first : Str → Str → Str
after_first p s = elim (cut_at p s) [ none ↦ [] | some (a, b) ↦ before p b ]

-- whether a log can be graded
abbrev pub is_gradable : Str → Bool
is_gradable content =
    not (any (λ code. contains code content) bad_codes)
    && (contains start_test_output content && contains end_test_output content)

-- the part of the log that the parser gets
abbrev pub test_output : Str → Str
test_output content = before end_test_output (after_first start_test_output content)

-- The value of `report_map[instance_id]`.
pub record Report : Type 0 where
  pub patch_is_none : Bool
  pub patch_exists : Bool
  pub patch_successfully_applied : Bool
  pub resolved : Bool
  pub tests_status : Option TestsReport

-- the reports of the early returns
abbrev no_patch_report : Report
no_patch_report = record {
  patch_is_none = true;
  patch_exists = false;
  patch_successfully_applied = false;
  resolved = false;
  tests_status = none;
}

abbrev not_applied_report : Report
not_applied_report = record {
  patch_is_none = false;
  patch_exists = true;
  patch_successfully_applied = false;
  resolved = false;
  tests_status = none;
}

abbrev pub is_full : ResolvedStatus → Bool
is_full ResolvedStatus.resolved_full = true
is_full _ = false

abbrev gold_of : SweRun → GoldResults
gold_of spec = record {
  fail_to_pass = spec.fail_to_pass;
  pass_to_pass = spec.pass_to_pass;
  fail_to_fail = none;
  pass_to_fail = none;
}

abbrev pub eval_type_of : SweRun → EvalType
eval_type_of spec =
    if any (str_eq spec.repo) fail_only_repos then EvalType.fail_only else EvalType.pass_and_fail

-- the report of a log that was read
unfoldable pub applied_report : Bool → Result TestsReport → Result Report
unfolding get_resolution_status
applied_report include_tests_status (err e) = err e
applied_report include_tests_status (ok report) = ok (record {
  patch_is_none = false;
  patch_exists = true;
  patch_successfully_applied = true;
  resolved = is_full (get_resolution_status report);
  tests_status = if include_tests_status then some report else none;
})

-- `return log_parser(content, test_spec), True`
abbrev pub parsed : Result (Dict Str) → Result (Option (Dict Str))
parsed (ok sm) = ok (some sm)
parsed (err e) = err e

-- `MAP_REPO_TO_PARSER_PY`, and the text of the log
module _ (parsers : Str → Option (Str → Result (Dict Str))) (content : Str) where
  -- the status map, or `none` for `{}, False`; a repository without a parser is a `KeyError`
  unfoldable pub get_logs_eval : SweRun → Result (Option (Dict Str))
  get_logs_eval spec = elim (parsers spec.repo) [
    | none ↦ err Exn.key_error
    | some log_parser ↦
        if is_gradable content then parsed (log_parser (test_output content)) else ok none
  ]

  unfoldable pub graded_report : SweRun → Bool → Result (Option (Dict Str)) → Result Report
  unfolding applied_report get_eval_tests_report
  graded_report spec include_tests_status (err e) = err e
  graded_report spec include_tests_status (ok none) = ok not_applied_report
  graded_report spec include_tests_status (ok (some sm)) =
      applied_report include_tests_status
        (get_eval_tests_report sm (gold_of spec) false (eval_type_of spec))

  -- with the patch of the prediction
  unfoldable pub get_eval_report : SweRun → Option Str → Bool → Result Report
  unfolding get_logs_eval graded_report
  get_eval_report spec none include_tests_status = ok no_patch_report
  get_eval_report spec (some patch) include_tests_status =
      graded_report spec include_tests_status (get_logs_eval spec)

  -- with the patch of the run
  unfoldable pub get_run_report : SweRun → Bool → Result Report
  unfolding get_eval_report
  get_run_report spec include_tests_status =
      get_eval_report spec spec.model_patch include_tests_status
