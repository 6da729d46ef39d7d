-- ===== src/Logs/Sympy.antt =====
-- `parse_log_sympy` of aenv/builtin-envs/swebench/src/eval/python_log_parser.py.
use aenvironment.Common.{Option, none, some, List, [], ◌∷◌, each, if◌then◌else◌}
use aenvironment.Common.Text.{Str, lit, cut_at, starts_with, contains}
use aenvironment.Common.Words.{words, split_at, strip, ends_with, cut_last}
use aenvironment.Common.Dict.{Dict, insert}

-- The one match of `(_*) (.*)\.py:(.*) (_*)` in a line, as the text that its second and third
-- group make with ".py:" between them: since the groups are greedy, the text between the first
-- and the last blank of the line, if it has ".py:" in it.
unfoldable pub failure_header : Str → Option Str
unfolding cut_at cut_last contains
failure_header line = elim (cut_at (lit " ") line) [
  | none ↦ none
  | some (a, rest) ↦ elim (cut_last (lit " ") rest) [
    | none ↦ none
    | some test ↦ if contains (lit ".py:") test then some test else none
  ]
]

unfoldable pub header_line : Str → Dict Str → Dict Str
unfolding failure_header
header_line line sm = elim (failure_header line) [
  | none ↦ sm
  | some test ↦ insert test (lit "FAILED") sm
]

-- `test_status_map[line.split()[0]] = value`; the line has a word where this is called.
abbrev pub record_first : Str → List Str → Dict Str → Dict Str
record_first value [] sm = sm
record_first value (test ∷ more) sm = insert test value sm

abbrev pub mark_end : Str → Str → Str → Dict Str → Dict Str
mark_end suffix value line sm =
    if ends_with suffix line then record_first value (words line) sm else sm

unfoldable pub sympy_line : Str → Dict Str → Dict Str
unfolding strip starts_with ends_with words
sympy_line raw sm =
    let line = strip raw in
    if starts_with (lit "test_") line
    then mark_end (lit " ok") (lit "PASSED") line
        (mark_end (lit " F") (lit "FAILED") line (mark_end (lit " E") (lit "ERROR") line sm))
    else sm

unfoldable pub parse_log_sympy : Str → Dict Str
unfolding split_at header_line sympy_line
parse_log_sympy log =
    let lines = split_at b'\n' log in each sympy_line lines (each header_line lines [])
