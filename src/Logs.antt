-- ===== src/Logs.antt =====
-- The parsers of the logs that pytest prints, of
-- aenv/builtin-envs/swebench/src/eval/python_log_parser.py. The argument `test_spec`, which no
-- parser reads, is left out.
pub mod Seaborn
pub mod Django
pub mod Sympy
pub mod Render
pub mod Printed
pub mod Matplotlib
pub mod Table
pub mod Tests
use aenvironment.Common.{
  ℕ, zero, suc, Bool, true, false, not, ◌&&◌, ◌||◌, Option, none, some, List, [], ◌∷◌, ◌++◌, any,
  each, select, leb, ◌==◌, if◌then◌else◌,
}
use aenvironment.Common.Text.{Str, lit, starts_with, cut_at, contains}
use aenvironment.Common.Words.{words, split_at, ends_with, cut_last, replace, last_of}
use aenvironment.Common.Dict.{Dict, insert}
use mathlib.Core.Option
use aenvironment.Grading.{TestStatus, test_status_value}

abbrev pub members : List TestStatus
members =
    TestStatus.failed ∷ TestStatus.passed ∷ TestStatus.skipped ∷ TestStatus.error ∷ TestStatus.xfail
    ∷ []

-- `any([line.startswith(x.value) for x in TestStatus])`
unfoldable pub has_status : Str → Bool
unfolding starts_with
has_status line = any (λ x. starts_with (test_status_value x) line) members

-- The additional parsing for the status FAILED.
unfoldable pub clean : Str → Str
clean line = if starts_with (lit "FAILED") line then replace (lit " - ") (lit " ") line else line

-- `test_status_map[test_case[1]] = test_case[0]`, where there are two words
abbrev pub record_case : List Str → Dict Str → Dict Str
record_case (status ∷ name ∷ more) sm = insert name status sm
record_case _ sm = sm

unfoldable pub pytest_line : Str → Dict Str → Dict Str
unfolding has_status
pytest_line line sm = if has_status line then record_case (words (clean line)) sm else sm

unfoldable pub parse_log_pytest : Str → Dict Str
unfolding pytest_line
parse_log_pytest log = each pytest_line (split_at b'\n' log) []

unfoldable pub matplotlib_line : Str → Dict Str → Dict Str
unfolding pytest_line
matplotlib_line line sm =
    pytest_line
      (replace (lit "MouseButton.RIGHT") (lit "3")
        (replace (lit "MouseButton.LEFT") (lit "1") line))
      sm

unfoldable pub parse_log_matplotlib : Str → Dict Str
unfolding matplotlib_line
parse_log_matplotlib log = each matplotlib_line (split_at b'\n' log) []

-- The groups of `(.*?)\[(.*)\]` in a word: the text before the first bracket, and the text from
-- there to the last closing bracket after it.
abbrev option_groups : Str → Option (Str × Str)
option_groups w = elim (cut_at (lit "[") w) [
  | none ↦ none
  | some (main, rest) ↦ Option.map (λ o. (main, o)) (cut_last (lit "]") rest)
]

-- the option, an absolute path cut down to its last part
abbrev short_option : Str → Str
short_option o =
    if starts_with (lit "/") o && (not (starts_with (lit "//") o) && not (contains (lit "*") o))
    then b'/' ∷ last_of [] (split_at b'/' o)
    else o

unfoldable pub option_name : Str → Str
unfolding starts_with cut_at cut_last
option_name w = elim (option_groups w) [
  | none ↦ w
  | some (main, o) ↦ main ++ lit "[" ++ short_option o ++ lit "]"
]

abbrev pub record_option : List Str → Dict Str → Dict Str
record_option (status ∷ name ∷ more) sm = insert (option_name name) status sm
record_option _ sm = sm

unfoldable pub options_line : Str → Dict Str → Dict Str
unfolding option_name
options_line line sm = if has_status line then record_option (words (clean line)) sm else sm

unfoldable pub parse_log_pytest_options : Str → Dict Str
unfolding options_line
parse_log_pytest_options log = each options_line (split_at b'\n' log) []

-- The decimal digits of Unicode, which `\d` stands for.
module _ (is_decimal : ℕ → Bool) where
  -- the length of `\d*m`, or of `\d+m` where no digit was seen, at the front of a text
  abbrev colour_tail : Bool → Str → Option ℕ
  colour_tail seen [] = none
  colour_tail seen (c ∷ s) =
      let rest = colour_tail true s in
      if is_decimal c then Option.map suc rest else if seen && c == b'm' then some 1 else none

  -- `re.sub(r"\[(\d+)m", "", line)`: the first argument counts the characters still to pass.
  unfoldable pub drop_colours : ℕ → Str → Str
  drop_colours k [] = []
  drop_colours (suc k) (c ∷ s) = drop_colours k s
  drop_colours zero (c ∷ s) = elim (if c == b'[' then colour_tail false s else none) [
    | none ↦ c ∷ drop_colours zero s
    | some n ↦ drop_colours n s
  ]

  -- the line without colours and without the characters 1 to 31
  unfoldable pub plain : Str → Str
  unfolding drop_colours
  plain line = select (λ c. not (leb 1 c && leb c 31)) (drop_colours zero line)

  -- `test_status_map[test_case[0]] = test_case[1]`
  abbrev record_reversed : List Str → Dict Str → Dict Str
  record_reversed (name ∷ status ∷ more) sm = insert name status sm
  record_reversed _ sm = sm

  abbrev plain_line : Str → Dict Str → Dict Str
  plain_line line sm =
      if has_status line
      then record_case (words (clean line)) sm
      else if any (λ x. ends_with (test_status_value x) line) members
      then record_reversed (words line) sm
      else sm

  unfoldable pub v2_line : Str → Dict Str → Dict Str
  unfolding plain
  v2_line line sm = plain_line (plain line) sm

  unfoldable pub parse_log_pytest_v2 : Str → Dict Str
  unfolding v2_line
  parse_log_pytest_v2 log = each v2_line (split_at b'\n' log) []
