-- ===== src/Logs/Django.antt =====
-- `parse_log_django` of aenv/builtin-envs/swebench/src/eval/python_log_parser.py: the state of the
-- loop over the lines is the status map and the test that the last " ... " was about.
use aenvironment.Common.{Bool, Option, none, some, List, [], ◌∷◌, each, if◌then◌else◌}
use aenvironment.Common.Text.{Str, lit, cut_at, starts_with, contains}
use aenvironment.Common.Words.{
  words, split_at, strip, lstrip, ends_with, before, after, before_last, cut_last,
}
use aenvironment.Common.Dict.{Dict, insert}
use aenvironment.Effect.{Result, ok, err}
use aenvironment.Effect.Exceptions.{Exn}

abbrev pub Loop : Type 0
Loop = Option Str × Dict Str

abbrev passed : Str
passed = lit "PASSED"

abbrev failed : Str
failed = lit "FAILED"

abbrev skipped : Str
skipped = lit "SKIPPED"

abbrev errored : Str
errored = lit "ERROR"

abbrev version_test : Str
version_test = lit "--version is equivalent to version"

-- `if b: test_status_map[test] = value`
abbrev pub mark : Bool → Str → Str → Dict Str → Dict Str
mark b test value sm = if b then insert test value sm else sm

abbrev pass_suffixes : List Str
pass_suffixes = lit " ... ok" ∷ lit " ... OK" ∷ lit " ...  OK" ∷ []

-- the line that the first suffix leaves, after the fix for django__django-7188
abbrev fixed_line : Str → Str
fixed_line line =
    if starts_with (lit "Applying sites.0002_alter_domain_unique...test_no_migrations") (strip line)
    then strip (after (lit "...") line)
    else line

-- the loop over the suffixes, which ends at the first that the line has
abbrev passes : List Str → Str → Dict Str → Str × Dict Str
passes [] line sm = (line, sm)
passes (suffix ∷ suffixes) line sm =
    let rest = passes suffixes line sm in
    let fixed = fixed_line line in
    if ends_with suffix line then (fixed, insert (before_last suffix fixed) passed sm) else rest

-- `line.split()[1].strip()`, which a word equals
abbrev pub second_word : Str → Result Str
second_word line = elim (words line) [
  | [] ↦ err Exn.index_error
  | w ∷ ws ↦ elim ws [ [] ↦ err Exn.index_error | v ∷ vs ↦ ok v ]
]

abbrev marked : Str → Result Str → Dict Str → Result (Dict Str)
marked value (ok test) sm = ok (insert test value sm)
marked value (err e) sm = err e

-- `if line.startswith(...): test_status_map[line.split()[1].strip()] = value`
unfoldable pub mark_second : Str → Str → Str → Dict Str → Result (Dict Str)
unfolding starts_with words
mark_second head value line sm =
    if starts_with head line then marked value (second_word line) sm else ok sm

abbrev and_then : Result (Dict Str) → (Dict Str → Result (Dict Str)) → Result (Dict Str)
and_then (ok sm) f = f sm
and_then (err e) f = err e

-- the tests of a line after the suffixes
unfoldable pub judge_line : Option Str → Str → Dict Str → Result (Dict Str)
unfolding ends_with contains cut_at mark_second lstrip
judge_line prev line sm =
    let sm1 =
      mark (contains (lit " ... skipped") line) (before (lit " ... skipped") line) skipped sm in
    let sm2 = mark (ends_with (lit " ... FAIL") line) (before (lit " ... FAIL") line) failed sm1 in
    and_then (mark_second (lit "FAIL:") failed line sm2) (λ sm3.
      let sm4 =
        mark (ends_with (lit " ... ERROR") line) (before (lit " ... ERROR") line) errored sm3 in
      and_then (mark_second (lit "ERROR:") errored line sm4) (λ sm5. ok (elim prev [
        | none ↦ sm5
        | some test ↦ mark (starts_with (lit "ok") (lstrip line)) test passed sm5
      ])))

abbrev with_prev : Option Str → Result (Dict Str) → Result Loop
with_prev prev (ok sm) = ok (prev, sm)
with_prev prev (err e) = err e

unfoldable pub django_line : Str → Loop → Result Loop
unfolding strip ends_with starts_with cut_last cut_at contains judge_line
django_line raw (prev, sm) =
    let line = strip raw in
    let sm1 = mark (contains version_test line) version_test passed sm in
    let prev1 = if contains (lit " ... ") line then some (before (lit " ... ") line) else prev in
    let (line1, sm2) = passes pass_suffixes line sm1 in with_prev prev1 (judge_line prev1 line1 sm2)

abbrev pub django_lines : List Str → Result Loop → Result Loop
django_lines [] r = r
django_lines (line ∷ lines) (err e) = err e
django_lines (line ∷ lines) (ok s) = django_lines lines (django_line line s)

-- The names that the three patterns for an interrupted line find in a log, in order.
module _ (interrupted : Str → List Str) where
  abbrev finished : Str → Result Loop → Result (Dict Str)
  finished log (err e) = err e
  finished log (ok (prev, sm)) = ok (each (λ test. insert test passed) (interrupted log) sm)

  unfoldable pub parse_log_django : Str → Result (Dict Str)
  unfolding split_at django_line
  parse_log_django log = finished log (django_lines (split_at b'\n' log) (ok (none, [])))
