-- ===== src/Logs/Tests.antt =====
-- Tests of the log parsers on short logs.
use aenvironment.Common.{◌≡◌, refl, leb, arith, ◌&&◌, none, some, List, [], ◌∷◌, any, each, All}
use aenvironment.Common.Text.{Str, lit, str_eq, contains}
use aenvironment.Common.Words.{words, split_at, ends_with}
use aenvironment.Common.Dict.{insert}
use aenvironment.Grading.{TestStatus}
use aenvironment.Effect.{ok, err}
use aenvironment.Effect.Exceptions.{Exn}
use aenvironment.Logs.{
  parse_log_pytest, parse_log_pytest_options, parse_log_pytest_v2, clean, has_status,
}
use aenvironment.Logs.Render.{Entry, IsEntry, summary, put_entry, parse_log_pytest-summary}
use aenvironment.Logs.Seaborn.{parse_log_seaborn, is_short, fails, parse_log_seaborn-fails}
use aenvironment.Logs.Django.{parse_log_django}
use aenvironment.Logs.Sympy.{parse_log_sympy}

abbrev entries : List Entry
entries =
    record { status = TestStatus.passed; name = lit "a.py::x"; message = none }
    ∷ record { status = TestStatus.failed; name = lit "a.py::y"; message = some (lit "assert 0") }
    ∷ []

entries-All : All IsEntry entries
entries-All = ground arith

parse_log_pytest-summary_example : parse_log_pytest (summary entries) ≡ each put_entry entries []
parse_log_pytest-summary_example = parse_log_pytest-summary entries entries-All

abbrev short_log : Str
short_log = lit "PASSED a\nFAILED b - c"

abbrev crash_log : Str
crash_log = lit "PASSED a\nFAILED"

parse_log_seaborn-fails_example :
    fails (parse_log_seaborn crash_log) ≡ any is_short (split_at b'\n' crash_log)
parse_log_seaborn-fails_example = parse_log_seaborn-fails crash_log

crash : parse_log_seaborn crash_log ≡ err Exn.index_error
unfolding parse_log_seaborn
crash = refl

options :
    parse_log_pytest_options (lit "PASSED a[/x/y]q\nPASSED b[//c]")
    ≡ (lit "a[/y]", lit "PASSED") ∷ (lit "b[//c]", lit "PASSED") ∷ []
unfolding parse_log_pytest_options split_at has_status words clean insert str_eq contains
options = refl

v2 :
    parse_log_pytest_v2 (λ c. leb b'0' c && leb c b'9') (lit "[32mPASSED[0m a\nb FAILED")
    ≡ (lit "a", lit "PASSED") ∷ (lit "b", lit "FAILED") ∷ []
unfolding parse_log_pytest_v2 split_at has_status ends_with str_eq words insert clean
v2 = refl

-- The blank at the end of "e ... " is stripped, so the "ok" is taken for the test before it.
django :
    parse_log_django (λ log. []) (lit "c ... FAIL\ne ... \nok") ≡ ok ((lit "c", lit "PASSED") ∷ [])
unfolding parse_log_django str_eq insert
django = refl

sympy :
    parse_log_sympy (lit "___ a/b.py:test_x ___\ntest_y ok\ntest_z F")
    ≡ (lit "a/b.py:test_x", lit "FAILED")
      ∷ (lit "test_y", lit "PASSED")
      ∷ (lit "test_z", lit "FAILED")
      ∷ []
unfolding parse_log_sympy str_eq insert
sympy = refl
