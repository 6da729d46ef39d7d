-- ===== src/Logs/Printed.antt =====
-- The whole text that pytest prints between the marks of the tests, with the lines that are no
-- entries of its summary, and what `parse_log_pytest` reads from it.
use aenvironment.Common.{ℕ, ◌≡◌, refl, ap, ◌∙◌, false, List, [], ◌∷◌, ◌++◌, each, All}
use aenvironment.Common.Text.{Str}
use aenvironment.Common.Words.{split_at}
use aenvironment.Common.Splits.{Without, split_line}
use aenvironment.Common.Dict.{Dict}
use aenvironment.Logs.{has_status, pytest_line, parse_log_pytest}
use aenvironment.Logs.Render.{Entry, IsEntry, line_of, put_entry, line-Without, pytest_entry}

-- An entry of the summary, or another line.
pub data Line : Type 0 where
  entry : Entry → Line
  other : Str → Line

abbrev pub line_text : Line → Str
line_text (entry e) = line_of e
line_text (other s) = s

-- the lines, and what follows the last line break
abbrev pub printed : List Line → Str → Str
printed [] last = last
printed (l ∷ ls) last = line_text l ++ b'\n' ∷ printed ls last

-- A line that is no entry begins with no status.
abbrev pub IsOther : Str → Type 0
IsOther s = Without b'\n' s × (has_status s ≡ false)

abbrev pub IsLine : Line → Type 0
IsLine (entry e) = IsEntry e
IsLine (other s) = IsOther s

abbrev pub put_line : Line → Dict Str → Dict Str
put_line (entry e) sm = put_entry e sm
put_line (other s) sm = sm

text-Without : (l : Line) → IsLine l → Without b'\n' (line_text l)
text-Without (entry e) h = line-Without e h
text-Without (other s) h = h.0

other_line : (s : Str) (sm : Dict Str) → IsOther s → pytest_line s sm ≡ sm
unfolding pytest_line
other_line s sm h = rw h.1 refl

line_read : (l : Line) (sm : Dict Str) → IsLine l → pytest_line (line_text l) sm ≡ put_line l sm
line_read (entry e) sm h = pytest_entry e sm h
line_read (other s) sm h = other_line s sm h

last_line : (c : ℕ) (s : Str) → Without c s → split_at c s ≡ s ∷ []
unfolding split_at
last_line c [] h = refl
last_line c (d ∷ s) (h, k) = rw (h, last_line c s k) refl

printed_lines :
    (ls : List Line) (last : Str) (sm : Dict Str)
    → All IsLine ls
    → IsOther last
    → each pytest_line (split_at b'\n' (printed ls last)) sm ≡ each put_line ls sm
printed_lines [] last sm h k =
    ap (λ ls. each pytest_line ls sm) (last_line b'\n' last k.0) ∙ other_line last sm k
printed_lines (l ∷ ls) last sm (h, hs) k =
    ap (λ ps. each pytest_line ps sm)
      (split_line b'\n' (line_text l) (printed ls last) (text-Without l h))
    ∙ ap (each pytest_line (split_at b'\n' (printed ls last))) (line_read l sm h)
    ∙ printed_lines ls last (put_line l sm) hs k

-- From a text whose lines are entries of a summary of pytest or begin with no status,
-- `parse_log_pytest` reads the statuses of the entries, in their order.
pub parse_log_pytest-printed :
    (ls : List Line) (last : Str)
    → All IsLine ls
    → IsOther last
    → parse_log_pytest (printed ls last) ≡ each put_line ls []
unfolding parse_log_pytest
parse_log_pytest-printed ls last h k = printed_lines ls last [] h k
