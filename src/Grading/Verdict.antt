-- ===== src/Grading/Verdict.antt =====
-- The verdict of grading.py on a run: `get_resolution_status` and `get_eval_report`.
use aenvironment.Common.{
  ◌≡◌, ◌≢◌, ◌↔◌, refl, Bool, true, false, ◌&&◌, Option, some, List, [], ◌∷◌, length, select, All,
  arith, inl, inr, Bool-cases,
}
use aenvironment.Common.Text.{Str}
use aenvironment.Common.Dict.{Dict}
use aenvironment.Effect.{Result, ok, err}
use aenvironment.Grading.{
  EvalType, ResolvedStatus, Outcome, no_outcome, check_all, TestsReport, get_eval_tests_report,
  compute_share, compute_fail_to_pass, compute_pass_to_pass, get_resolution_status, below_one,
  positive, is_one,
}
use aenvironment.Grading.Resolution.{counts_success, counts_failure, check_all_counted}
use aenvironment.Grading.Report.{
  SweRun, Report, applied_report, get_logs_eval, graded_report, get_eval_report, eval_type_of,
  is_full,
}

share_full : (u : Outcome) → (is_one (compute_share u) ≡ true) ↔ (length u.failure ≡ 0)
unfolding compute_share
share_full u = ground arith

share_partial :
    (u : Outcome)
    → ((below_one (compute_share u) && positive (compute_share u)) ≡ true)
      ↔ ((length u.failure ≢ 0) × (length u.success ≢ 0))
unfolding compute_share
share_partial u = ground arith

-- The status is FULL exactly if no test of the two kinds failed.
full_iff :
    (r : TestsReport)
    → (get_resolution_status r ≡ ResolvedStatus.resolved_full)
      ↔ ((length r.fail_to_pass.failure ≡ 0) × (length r.pass_to_pass.failure ≡ 0))
unfolding get_resolution_status compute_fail_to_pass compute_pass_to_pass
full_iff r = ground (arith, share_full r.fail_to_pass, share_full r.pass_to_pass)

-- The status is PARTIAL exactly if, of the tests that should come to pass, some passed and some
-- failed, and of the tests that should go on to pass none failed.
pub partial_iff :
    (r : TestsReport)
    → (get_resolution_status r ≡ ResolvedStatus.resolved_partial) ↔ (
        (length r.fail_to_pass.success ≢ 0)
        × (length r.fail_to_pass.failure ≢ 0)
        × (length r.pass_to_pass.failure ≡ 0))
unfolding get_resolution_status compute_fail_to_pass compute_pass_to_pass
partial_iff r =
    ground
      (arith, share_full r.fail_to_pass, share_full r.pass_to_pass, share_partial r.fail_to_pass)

select_none :
    (p : Str → Bool) (cs : List Str) → (length (select p cs) ≡ 0) ↔ All (λ c. p c ≡ false) cs
select_none p [] = (λ _. tt, λ _. refl)
select_none p (c ∷ cs) = elim (Bool-cases (p c)) [
  | inl h ↦ rw h (λ e. absurd (omega (arith, e)), λ k. absurd (let f : true ≡ false = k.0 in cc))
  | inr h ↦ rw h (λ e. (refl, (select_none p cs).0 e), λ k. (select_none p cs).1 k.1)
]

-- Every test of the run counts as no failure.
abbrev pub NoFailure : SweRun → Dict Str → Type 0
NoFailure spec sm =
    All (λ c. counts_failure (eval_type_of spec) sm c ≡ false) spec.fail_to_pass
    × All (λ c. counts_failure (eval_type_of spec) sm c ≡ false) spec.pass_to_pass

-- what the report says under the key `resolved`
abbrev pub is_resolved : Result Report → Bool
is_resolved (ok report) = report.resolved
is_resolved (err e) = false

is_full_iff : (x : ResolvedStatus) → (is_full x ≡ true) ↔ (x ≡ ResolvedStatus.resolved_full)
is_full_iff x = ground arith

applied_resolved :
    (b : Bool) (r : TestsReport)
    → (is_resolved (applied_report b (ok r)) ≡ true)
      ↔ ((length r.fail_to_pass.failure ≡ 0) × (length r.pass_to_pass.failure ≡ 0))
unfolding applied_report
applied_resolved b r = ground (arith, is_full_iff (get_resolution_status r), full_iff r)

-- the tests of the run by their outcome
abbrev outcome_of : EvalType → Dict Str → List Str → Outcome
outcome_of t sm cases = record {
  success = select (counts_success t sm) cases;
  failure = select (counts_failure t sm) cases;
}

abbrev report_of : SweRun → Dict Str → TestsReport
report_of spec sm = record {
  fail_to_pass = outcome_of (eval_type_of spec) sm spec.fail_to_pass;
  pass_to_pass = outcome_of (eval_type_of spec) sm spec.pass_to_pass;
  fail_to_fail = no_outcome;
  pass_to_fail = no_outcome;
}

report_of_resolved :
    (spec : SweRun) (b : Bool) (sm : Dict Str)
    → (is_resolved (applied_report b (ok (report_of spec sm))) ≡ true) ↔ NoFailure spec sm
report_of_resolved spec b sm =
    let applied = applied_resolved b (report_of spec sm) in
    let f2p = select_none (counts_failure (eval_type_of spec) sm) spec.fail_to_pass in
    let p2p = select_none (counts_failure (eval_type_of spec) sm) spec.pass_to_pass in
    (λ h. let k = applied.0 h in (f2p.0 k.0, p2p.0 k.1), λ h. applied.1 (f2p.1 h.0, p2p.1 h.1))

abbrev main_report : Outcome → Outcome → TestsReport
main_report f2p p2p = record {
  fail_to_pass = f2p;
  pass_to_pass = p2p;
  fail_to_fail = no_outcome;
  pass_to_fail = no_outcome;
}

both_outcomes :
    (b : Bool) (t : EvalType) (sm : Dict Str) (xs ys : List Str)
    → applied_report b
        (ok (main_report (check_all t xs sm no_outcome) (check_all t ys sm no_outcome)))
      ≡ applied_report b (ok (main_report (outcome_of t sm xs) (outcome_of t sm ys)))
both_outcomes b t sm xs ys = rw (check_all_counted t xs, check_all_counted t ys) refl

module _ (parsers : Str → Option (Str → Result (Dict Str))) (content : Str) where
  graded_applied :
      (spec : SweRun) (b : Bool) (sm : Dict Str)
      → graded_report parsers content spec b (ok (some sm))
        ≡ applied_report b (ok (report_of spec sm))
  unfolding graded_report get_eval_tests_report
  graded_applied spec b sm =
      both_outcomes b (eval_type_of spec) sm spec.fail_to_pass spec.pass_to_pass

  graded_resolved :
      (spec : SweRun) (b : Bool) (sm : Dict Str)
      → (is_resolved (graded_report parsers content spec b (ok (some sm))) ≡ true)
        ↔ NoFailure spec sm
  graded_resolved spec b sm = rw graded_applied (report_of_resolved spec b sm)

  -- For a run with a patch and a log that can be graded, the report says that it is resolved
  -- exactly if none of the run's tests counts as a failure in the status map of the log: with the
  -- statuses FAILED and ERROR, or without a status; and for the repositories that report failures
  -- only, with FAILED.
  pub resolved_iff :
      (spec : SweRun) (patch : Str) (b : Bool) (sm : Dict Str)
      → get_logs_eval parsers content spec ≡ ok (some sm)
      → (is_resolved (get_eval_report parsers content spec (some patch) b) ≡ true)
        ↔ NoFailure spec sm
  unfolding get_eval_report
  resolved_iff spec patch b sm h = rw h (graded_resolved spec b sm)
