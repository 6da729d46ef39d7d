-- ===== src/Grading/Resolution.antt =====
-- When grading.py grades a run as resolved, in terms of the status of each test.
use aenvironment.Common.{
  ◌∙◌, sym, ◌≡◌, refl, Bool, true, false, not, ◌||◌, Option, none, some, List, [], ◌∷◌, ◌++◌,
  select, append_assoc, append-nil, if◌then◌else◌, arith, inl, inr, Bool-cases,
}
use aenvironment.Common.Text.{Str, lit, str_eq, str_eq_iff}
use aenvironment.Common.Dict.{Dict, lookup}
use aenvironment.Grading.{
  TestStatus, EvalType, test_status_value, has_value, test_passed, test_failed, Outcome, no_outcome,
  is_marked_failed, check_pass_and_fail, check_fail_only, check_test_case, check_all,
}

-- The statuses with which an evaluation counts a test as a success and as a failure; `none` stands
-- for a test without a status.
abbrev pub succeeds : EvalType → Option Str → Bool
succeeds EvalType.pass_and_fail none = false
succeeds EvalType.pass_and_fail (some s) = str_eq s (lit "PASSED") || str_eq s (lit "XFAIL")
succeeds EvalType.fail_only none = true
succeeds EvalType.fail_only (some s) = not (str_eq s (lit "FAILED"))

abbrev pub fails : EvalType → Option Str → Bool
fails EvalType.pass_and_fail none = true
fails EvalType.pass_and_fail (some s) = str_eq s (lit "FAILED") || str_eq s (lit "ERROR")
fails EvalType.fail_only none = false
fails EvalType.fail_only (some s) = str_eq s (lit "FAILED")

abbrev pub counts_success : EvalType → Dict Str → Str → Bool
counts_success t sm test_case = succeeds t (lookup test_case sm)

abbrev pub counts_failure : EvalType → Dict Str → Str → Bool
counts_failure t sm test_case = fails t (lookup test_case sm)

test_passed_lem :
    (sm : Dict Str) (test_case : Str)
    → test_passed test_case sm ≡ counts_success EvalType.pass_and_fail sm test_case
unfolding test_passed
test_passed_lem sm test_case = passed_found (lookup test_case sm)
  where
    passed_found :
        (x : Option Str)
        → (elim x [
          | none ↦ false
          | some s ↦ has_value s TestStatus.passed || has_value s TestStatus.xfail
        ])
          ≡ succeeds EvalType.pass_and_fail x
    passed_found none = refl
    passed_found (some s) = refl

test_failed_lem :
    (sm : Dict Str) (test_case : Str)
    → test_failed test_case sm ≡ counts_failure EvalType.pass_and_fail sm test_case
unfolding test_failed
test_failed_lem sm test_case = failed_found (lookup test_case sm)
  where
    failed_found :
        (x : Option Str)
        → (elim x [
          | none ↦ true
          | some s ↦ has_value s TestStatus.failed || has_value s TestStatus.error
        ])
          ≡ fails EvalType.pass_and_fail x
    failed_found none = refl
    failed_found (some s) = refl

distinct_values :
    (s : Str) (t u : TestStatus)
    → str_eq (test_status_value t) (test_status_value u) ≡ false
    → has_value s t ≡ true
    → has_value s u ≡ false
distinct_values s t u h e = ground (
  arith,
  str_eq_iff s (test_status_value t),
  str_eq_iff s (test_status_value u),
  str_eq_iff (test_status_value t) (test_status_value u),
)

status_exclusive :
    (s : Str)
    → (has_value s TestStatus.passed || has_value s TestStatus.xfail) ≡ true
    → (has_value s TestStatus.failed || has_value s TestStatus.error) ≡ false
unfolding str_eq
status_exclusive s h = ground (
  arith,
  distinct_values s TestStatus.passed TestStatus.failed refl,
  distinct_values s TestStatus.passed TestStatus.error refl,
  distinct_values s TestStatus.xfail TestStatus.failed refl,
  distinct_values s TestStatus.xfail TestStatus.error refl,
)

exclusive_found : (t : EvalType) (x : Option Str) → succeeds t x ≡ true → fails t x ≡ false
exclusive_found EvalType.pass_and_fail none h = ground arith
exclusive_found EvalType.pass_and_fail (some s) h = status_exclusive s h
exclusive_found EvalType.fail_only none h = refl
exclusive_found EvalType.fail_only (some s) h = ground arith

-- A test that `test_passed` takes as passed is not taken as failed by `test_failed`.
pub passed_not_failed :
    (sm : Dict Str) (test_case : Str)
    → test_passed test_case sm ≡ true
    → test_failed test_case sm ≡ false
passed_not_failed sm test_case h =
    test_failed_lem sm test_case
    ∙ exclusive_found EvalType.pass_and_fail (lookup test_case sm)
        (sym (test_passed_lem sm test_case) ∙ h)

marked_lem :
    (sm : Dict Str) (test_case : Str)
    → is_marked_failed test_case sm ≡ counts_failure EvalType.fail_only sm test_case
marked_lem sm test_case = marked_found (lookup test_case sm)
  where
    marked_found :
        (x : Option Str)
        → (elim x [ none ↦ false | some s ↦ has_value s TestStatus.failed ])
          ≡ fails EvalType.fail_only x
    marked_found none = refl
    marked_found (some s) = refl

success_fail_only :
    (x : Option Str) → succeeds EvalType.fail_only x ≡ not (fails EvalType.fail_only x)
success_fail_only none = refl
success_fail_only (some s) = refl

-- a test added at the end where it is counted
abbrev with_case : Bool → Str → List Str → List Str
with_case b test_case xs = if b then xs ++ (test_case ∷ []) else xs

-- the two lists with the tests counted behind them
abbrev counted : (List Str → List Str) → (List Str → List Str) → Outcome → Outcome
counted f g u = record { success = f u.success; failure = g u.failure }

one_case :
    (t : EvalType) (test_case : Str) (sm : Dict Str) (u : Outcome)
    → check_test_case t test_case sm u
      ≡ counted
          (with_case (counts_success t sm test_case) test_case)
          (with_case (counts_failure t sm test_case) test_case)
          u
unfolding check_test_case check_pass_and_fail check_fail_only
one_case EvalType.pass_and_fail test_case sm u =
    elim (Bool-cases (counts_success EvalType.pass_and_fail sm test_case)) [
      | inl p ↦
          rw
            (
              test_passed_lem sm test_case ∙ p,
              exclusive_found EvalType.pass_and_fail (lookup test_case sm) p,
            )
            refl
      | inr p ↦ elim (Bool-cases (counts_failure EvalType.pass_and_fail sm test_case)) [
        | inl q ↦ rw (test_passed_lem sm test_case ∙ p, test_failed_lem sm test_case ∙ q) refl
        | inr q ↦ rw (test_passed_lem sm test_case ∙ p, test_failed_lem sm test_case ∙ q) refl
      ]
    ]
one_case EvalType.fail_only test_case sm u =
    elim (Bool-cases (counts_failure EvalType.fail_only sm test_case)) [
      | inl p ↦ rw (marked_lem sm test_case ∙ p, success_fail_only (lookup test_case sm), p) refl
      | inr p ↦ rw (marked_lem sm test_case ∙ p, success_fail_only (lookup test_case sm), p) refl
    ]

with_selected :
    (p : Str → Bool) (c : Str) (cs xs : List Str)
    → with_case (p c) c xs ++ select p cs ≡ xs ++ select p (c ∷ cs)
with_selected p c cs xs = elim (Bool-cases (p c)) [
  | inl h ↦ rw h (append_assoc xs (c ∷ []) (select p cs))
  | inr h ↦ rw h refl
]

check_all-select :
    (t : EvalType) (cases : List Str) (sm : Dict Str) (u : Outcome)
    → check_all t cases sm u
      ≡ counted
          (λ xs. xs ++ select (counts_success t sm) cases)
          (λ xs. xs ++ select (counts_failure t sm) cases)
          u
unfolding check_all
check_all-select t [] sm u = simp append-nil
check_all-select t (c ∷ cs) sm u =
    rw
      (
        one_case,
        check_all-select t cs sm,
        with_selected (counts_success t sm),
        with_selected (counts_failure t sm),
      )
      refl

-- `check_test_case` over all tests, from empty lists: the successes and the failures are the tests
-- counted as such, in their order.
pub check_all_counted :
    (t : EvalType) (cases : List Str) (sm : Dict Str)
    → check_all t cases sm no_outcome ≡ record {
      success = select (counts_success t sm) cases;
      failure = select (counts_failure t sm) cases;
    }
check_all_counted t cases sm = check_all-select t cases sm no_outcome
