-- ===== src/Grading.antt =====
-- aenv/builtin-envs/swebench/src/eval/grading.py: the grading of a run of SWE-bench, and the
-- report of aenv_evaluation.py over it. The parsers of the test logs (python_log_parser.py) and
-- the reading of the log file are parameters.
pub mod Report
pub mod Resolution
pub mod Verdict
pub mod Summary
pub mod Tests
use aenvironment.Common.{
  ℕ, suc, ◌+◌, Bool, true, false, not, ◌&&◌, ◌||◌, Option, none, some, List, [], ◌∷◌, ◌++◌, ltb,
  leb, ◌==◌, any, length, if◌then◌else◌,
}
use aenvironment.Common.Text.{Str, lit, str_eq, cut_at, contains}
use aenvironment.Common.Dict.{Dict, lookup}
use aenvironment.Effect.{Result, ok, err}
use aenvironment.Effect.Exceptions.{Exn}

pub data ResolvedStatus : Type 0 where
  resolved_no : ResolvedStatus
  resolved_partial : ResolvedStatus
  resolved_full : ResolvedStatus

pub data TestStatus : Type 0 where
  failed : TestStatus
  passed : TestStatus
  skipped : TestStatus
  error : TestStatus
  xfail : TestStatus

-- `TestStatus.….value`
abbrev pub test_status_value : TestStatus → Str
test_status_value failed = lit "FAILED"
test_status_value passed = lit "PASSED"
test_status_value skipped = lit "SKIPPED"
test_status_value error = lit "ERROR"
test_status_value xfail = lit "XFAIL"

pub data EvalType : Type 0 where
  pass_and_fail : EvalType
  fail_only : EvalType

abbrev pub has_value : Str → TestStatus → Bool
has_value s t = str_eq s (test_status_value t)

unfoldable pub test_passed : Str → Dict Str → Bool
test_passed test_case sm = elim (lookup test_case sm) [
  | none ↦ false
  | some s ↦ has_value s TestStatus.passed || has_value s TestStatus.xfail
]

unfoldable pub test_failed : Str → Dict Str → Bool
test_failed test_case sm = elim (lookup test_case sm) [
  | none ↦ true
  | some s ↦ has_value s TestStatus.failed || has_value s TestStatus.error
]

-- The two lists of a kind of tests: `{"success": [...], "failure": [...]}`.
pub record Outcome : Type 0 where
  pub success : List Str
  pub failure : List Str

abbrev pub no_outcome : Outcome
no_outcome = record { success = []; failure = [] }

-- `success.append(test_case)` and `failed.append(test_case)`
abbrev append_success : Str → Outcome → Outcome
append_success test_case u = record u { success = u.success ++ (test_case ∷ []) }

abbrev append_failure : Str → Outcome → Outcome
append_failure test_case u = record u { failure = u.failure ++ (test_case ∷ []) }

unfoldable pub check_pass_and_fail : Str → Dict Str → Outcome → Outcome
unfolding test_passed test_failed
check_pass_and_fail test_case sm u =
    if test_passed test_case sm
    then append_success test_case u
    else if test_failed test_case sm
    then append_failure test_case u
    else u

-- `test_case in eval_status_map and eval_status_map[test_case] == TestStatus.FAILED.value`
abbrev pub is_marked_failed : Str → Dict Str → Bool
is_marked_failed test_case sm = elim (lookup test_case sm) [
  | none ↦ false
  | some s ↦ has_value s TestStatus.failed
]

unfoldable pub check_fail_only : Str → Dict Str → Outcome → Outcome
unfolding lookup
check_fail_only test_case sm u =
    if is_marked_failed test_case sm then append_failure test_case u else append_success test_case u

unfoldable pub check_test_case : EvalType → Str → Dict Str → Outcome → Outcome
unfolding check_pass_and_fail check_fail_only
check_test_case pass_and_fail = check_pass_and_fail
check_test_case fail_only = check_fail_only

-- `for test_case in ...: check_test_case(test_case, eval_status_map, success, failure)`
unfoldable pub check_all : EvalType → List Str → Dict Str → Outcome → Outcome
unfolding check_test_case
check_all t [] sm u = u
check_all t (test_case ∷ rest) sm u = check_all t rest sm (check_test_case t test_case sm u)

-- `gold_results`; the two optional kinds are read with `calculate_to_fail` only.
pub record GoldResults : Type 0 where
  pub fail_to_pass : List Str
  pub pass_to_pass : List Str
  pub fail_to_fail : Option (List Str)
  pub pass_to_fail : Option (List Str)

pub record TestsReport : Type 0 where
  pub fail_to_pass : Outcome
  pub pass_to_pass : Outcome
  pub fail_to_fail : Outcome
  pub pass_to_fail : Outcome

-- the tests of an optional kind, where a missing key is a `KeyError`
abbrev check_optional : EvalType → Option (List Str) → Dict Str → Result Outcome
check_optional t none sm = err Exn.key_error
check_optional t (some cases) sm = ok (check_all t cases sm no_outcome)

abbrev with_to_fail : Outcome → Outcome → Result Outcome → Result Outcome → Result TestsReport
with_to_fail f2p p2p (err e) q = err e
with_to_fail f2p p2p (ok f2f) (err e) = err e
with_to_fail f2p p2p (ok f2f) (ok p2f) =
    ok (record { fail_to_pass = f2p; pass_to_pass = p2p; fail_to_fail = f2f; pass_to_fail = p2f })

unfoldable pub get_eval_tests_report : Dict Str → GoldResults → Bool → EvalType → Result TestsReport
unfolding check_all
get_eval_tests_report sm gold calculate_to_fail t =
    let f2p = check_all t gold.fail_to_pass sm no_outcome in
    let p2p = check_all t gold.pass_to_pass sm no_outcome in
    if calculate_to_fail
    then with_to_fail f2p p2p (check_optional t gold.fail_to_fail sm)
        (check_optional t gold.pass_to_fail sm)
    else with_to_fail f2p p2p (ok no_outcome) (ok no_outcome)

-- The quotient `part / total` as the pair of its parts; 1 where there is no test.
unfoldable pub compute_share : Outcome → ℕ × ℕ
compute_share u =
    let total = length u.success + length u.failure in
    if total == 0 then (1, 1) else (length u.success, total)

unfoldable pub compute_fail_to_pass : TestsReport → ℕ × ℕ
unfolding compute_share
compute_fail_to_pass report = compute_share report.fail_to_pass

unfoldable pub compute_pass_to_pass : TestsReport → ℕ × ℕ
unfolding compute_share
compute_pass_to_pass report = compute_share report.pass_to_pass

-- `q == 1`, `q < 1` and `q > 0`
abbrev is_one : ℕ × ℕ → Bool
is_one (n, d) = n == d

abbrev below_one : ℕ × ℕ → Bool
below_one (n, d) = ltb n d

abbrev positive : ℕ × ℕ → Bool
positive (n, d) = ltb 0 n

unfoldable pub get_resolution_status : TestsReport → ResolvedStatus
unfolding compute_fail_to_pass compute_pass_to_pass
get_resolution_status report =
    let f2p = compute_fail_to_pass report in
    let p2p = compute_pass_to_pass report in
    if is_one f2p && is_one p2p
    then ResolvedStatus.resolved_full
    else if below_one f2p && positive f2p && is_one p2p
    then ResolvedStatus.resolved_partial
    else ResolvedStatus.resolved_no
