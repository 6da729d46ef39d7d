-- ===== src/Logs/Seaborn.antt =====
-- `parse_log_seaborn` of aenv/builtin-envs/swebench/src/eval/python_log_parser.py, which indexes
-- the words of a line without a test of their number.
use aenvironment.Common.{
  ◌≡◌, refl, ap, ◌∙◌, any, length, ltb, arith, Bool, true, false, ◌||◌, ◌&&◌, List, [], ◌∷◌,
  if◌then◌else◌,
}
use aenvironment.Common.Text.{Str, lit, str_eq, starts_with, contains}
use aenvironment.Common.Words.{words, split_at}
use aenvironment.Common.Dict.{Dict, insert}
use aenvironment.Effect.{Result, ok, err}
use aenvironment.Effect.Exceptions.{Exn}

-- `test_status_map[parts[1]] = value`
abbrev pub record_second : Str → List Str → Dict Str → Result (Dict Str)
record_second value (first ∷ name ∷ more) sm = ok (insert name value sm)
record_second value _ sm = err Exn.index_error

-- `if parts[1] == "PASSED": test_status_map[parts[0]] = "PASSED"`
abbrev pub record_passed : List Str → Dict Str → Result (Dict Str)
record_passed (name ∷ status ∷ more) sm =
    ok (if str_eq status (lit "PASSED") then insert name (lit "PASSED") sm else sm)
record_passed _ sm = err Exn.index_error

unfoldable pub seaborn_line : Str → Dict Str → Result (Dict Str)
unfolding starts_with contains words
seaborn_line line sm =
    if starts_with (lit "FAILED") line
    then record_second (lit "FAILED") (words line) sm
    else if contains (lit " PASSED ") line
    then record_passed (words line) sm
    else if starts_with (lit "PASSED") line
    then record_second (lit "PASSED") (words line) sm
    else ok sm

-- The loop over the lines, which an exception ends.
abbrev pub seaborn_lines : List Str → Result (Dict Str) → Result (Dict Str)
seaborn_lines [] r = r
seaborn_lines (line ∷ lines) (err e) = err e
seaborn_lines (line ∷ lines) (ok sm) = seaborn_lines lines (seaborn_line line sm)

unfoldable pub parse_log_seaborn : Str → Result (Dict Str)
unfolding seaborn_line split_at
parse_log_seaborn log = seaborn_lines (split_at b'\n' log) (ok [])

-- a line with a status of which fewer than two words are left
abbrev pub is_short : Str → Bool
is_short line =
    (starts_with (lit "FAILED") line
      || (contains (lit " PASSED ") line || starts_with (lit "PASSED") line))
    && ltb (length (words line)) 2

abbrev pub fails : Result (Dict Str) → Bool
fails (ok sm) = false
fails (err e) = true

second_fails :
    (v : Str) (ws : List Str) (sm : Dict Str) → fails (record_second v ws sm) ≡ ltb (length ws) 2
second_fails v [] sm = refl
second_fails v (w ∷ []) sm = refl
second_fails v (w ∷ x ∷ ws) sm = ground arith

passed_fails : (ws : List Str) (sm : Dict Str) → fails (record_passed ws sm) ≡ ltb (length ws) 2
passed_fails [] sm = refl
passed_fails (w ∷ []) sm = refl
passed_fails (w ∷ x ∷ ws) sm = ground arith

choose_fails :
    (a b c short : Bool) (x y z : Result (Dict Str)) (sm : Dict Str)
    → fails x ≡ short
    → fails y ≡ short
    → fails z ≡ short
    → fails (if a then x else if b then y else if c then z else ok sm) ≡ ((a || (b || c)) && short)
choose_fails true b c short x y z sm h k l = h
choose_fails false true c short x y z sm h k l = k
choose_fails false false true short x y z sm h k l = l
choose_fails false false false short x y z sm h k l = refl

line_fails : (line : Str) (sm : Dict Str) → fails (seaborn_line line sm) ≡ is_short line
unfolding seaborn_line
line_fails line sm =
    choose_fails (starts_with (lit "FAILED") line) (contains (lit " PASSED ") line)
      (starts_with (lit "PASSED") line) (ltb (length (words line)) 2)
      (record_second (lit "FAILED") (words line) sm) (record_passed (words line) sm)
      (record_second (lit "PASSED") (words line) sm) sm
      (second_fails (lit "FAILED") (words line) sm) (passed_fails (words line) sm)
      (second_fails (lit "PASSED") (words line) sm)

lines_fail :
    (ls : List Str) (r : Result (Dict Str))
    → fails (seaborn_lines ls r) ≡ (fails r || any is_short ls)
lines_fail [] (ok sm) = refl
lines_fail [] (err e) = refl
lines_fail (l ∷ ls) (err e) = refl
lines_fail (l ∷ ls) (ok sm) =
    lines_fail ls (seaborn_line l sm) ∙ ap (λ b. b || any is_short ls) (line_fails l sm)

-- `parse_log_seaborn` raises an exception exactly if some line of the log begins with FAILED or
-- PASSED, or has " PASSED " in it, but has fewer than two words.
pub parse_log_seaborn-fails :
    (log : Str) → fails (parse_log_seaborn log) ≡ any is_short (split_at b'\n' log)
unfolding parse_log_seaborn
parse_log_seaborn-fails log = lines_fail (split_at b'\n' log) (ok [])
