-- ===== src/Logs/Render.antt =====
-- The short test summary that pytest prints, and what `parse_log_pytest` reads from it.
use aenvironment.Common.{
  ℕ, ◌≡◌, ◌≢◌, refl, ap, ◌∙◌, true, false, Option, none, some, List, [], ◌∷◌, ◌++◌, each, All,
  arith, ◌==◌,
}
use aenvironment.Common.Text.{Str, lit, starts_with}
use aenvironment.Common.Words.{starts_word, words, split_at, replace, replace_from}
use aenvironment.Common.Splits.{
  replace_word, NoSpace, Without, words_word, split_line, replace-next,
}
use aenvironment.Common.Dict.{Dict, insert}
use aenvironment.Grading.{TestStatus, test_status_value}
use aenvironment.Logs.{has_status, clean, record_case, pytest_line, parse_log_pytest}

-- One entry of the summary: a status, the name of a test, and a message if there is one.
pub record Entry : Type 0 where
  pub status : TestStatus
  pub name : Str
  pub message : Option Str

abbrev pub tail_of : Option Str → Str
tail_of none = []
tail_of (some m) = lit " - " ++ m

abbrev pub line_of : Entry → Str
line_of e = test_status_value e.status ++ b' ' ∷ (e.name ++ tail_of e.message)

abbrev pub summary : List Entry → Str
summary [] = []
summary (e ∷ es) = line_of e ++ b'\n' ∷ summary es

-- A name is a word, and not only a dash; a message has no line break.
abbrev pub IsName : Str → Type 0
IsName w = NoSpace w × (w ≢ []) × (w ≢ lit "-")

abbrev pub IsMessage : Option Str → Type 0
IsMessage none = Unit
IsMessage (some m) = Without b'\n' m

abbrev pub IsEntry : Entry → Type 0
IsEntry e = IsName e.name × IsMessage e.message

abbrev pub put_entry : Entry → Dict Str → Dict Str
put_entry e = insert e.name (test_status_value e.status)

line_status : (t : TestStatus) (s : Str) → has_status (test_status_value t ++ s) ≡ true
unfolding has_status
line_status TestStatus.failed s = refl
line_status TestStatus.passed s = refl
line_status TestStatus.skipped s = refl
line_status TestStatus.error s = refl
line_status TestStatus.xfail s = refl

-- the first two words of a line
line_words :
    (t : TestStatus) (w s : Str) (sm : Dict Str)
    → NoSpace w
    → w ≢ []
    → starts_word s ≡ false
    → record_case (words (test_status_value t ++ b' ' ∷ (w ++ s))) sm
      ≡ insert w (test_status_value t) sm
unfolding words
line_words t [] s sm h n e = absurd (n refl)
line_words TestStatus.failed (c ∷ w) s sm h n e = let p = words_word c w s h e in rw p refl
line_words TestStatus.passed (c ∷ w) s sm h n e = let p = words_word c w s h e in rw p refl
line_words TestStatus.skipped (c ∷ w) s sm h n e = let p = words_word c w s h e in rw p refl
line_words TestStatus.error (c ∷ w) s sm h n e = let p = words_word c w s h e in rw p refl
line_words TestStatus.xfail (c ∷ w) s sm h n e = let p = words_word c w s h e in rw p refl

no_dash :
    (w s : Str)
    → NoSpace w
    → w ≢ []
    → w ≢ lit "-"
    → starts_with (lit " - ") (b' ' ∷ (w ++ s)) ≡ false
unfolding starts_with
no_dash [] s h n d = absurd (n refl)
no_dash (c ∷ []) s h n d =
    let k : c ≢ b'-' = λ e. d (ap (λ x. x ∷ []) e) in
    let e : (b'-' == c) ≡ false = ground arith in rw e refl
no_dash (c ∷ x ∷ w) s h n d = let e : (b' ' == x) ≡ false = ground arith in ground arith

-- what is left of the message
abbrev cleaned_tail : Option Str → Str
cleaned_tail message = replace (lit " - ") (lit " ") (tail_of message)

tail_ends : (m : Option Str) → starts_word (tail_of m) ≡ false
tail_ends none = refl
tail_ends (some m) = refl

cleaned_ends : (m : Option Str) → starts_word (cleaned_tail m) ≡ false
unfolding replace_from starts_with
cleaned_ends none = refl
cleaned_ends (some m) = refl

clean_failed :
    (w : Str) (m : Option Str)
    → IsName w
    → clean (lit "FAILED" ++ b' ' ∷ (w ++ tail_of m)) ≡ lit "FAILED" ++ b' ' ∷ (w ++ cleaned_tail m)
unfolding clean replace_from starts_with
clean_failed w m (h, n, d) =
    ap (λ t. lit "FAILED" ++ t)
      (replace-next (lit " - ") (lit " ") b' ' (w ++ tail_of m) (no_dash w (tail_of m) h n d)
        ∙ ap (λ t. b' ' ∷ t) (replace_word (lit "- ") (lit " ") w (tail_of m) h))

entry_line :
    (t : TestStatus) (w : Str) (m : Option Str) (sm : Dict Str)
    → IsName w
    → record_case (words (clean (test_status_value t ++ b' ' ∷ (w ++ tail_of m)))) sm
      ≡ insert w (test_status_value t) sm
unfolding clean starts_with
entry_line TestStatus.failed w m sm h =
    ap (λ l. record_case (words l) sm) (clean_failed w m h)
    ∙ line_words TestStatus.failed w (cleaned_tail m) sm h.0 h.1 (cleaned_ends m)
entry_line TestStatus.passed w m sm h =
    line_words TestStatus.passed w (tail_of m) sm h.0 h.1 (tail_ends m)
entry_line TestStatus.skipped w m sm h =
    line_words TestStatus.skipped w (tail_of m) sm h.0 h.1 (tail_ends m)
entry_line TestStatus.error w m sm h =
    line_words TestStatus.error w (tail_of m) sm h.0 h.1 (tail_ends m)
entry_line TestStatus.xfail w m sm h =
    line_words TestStatus.xfail w (tail_of m) sm h.0 h.1 (tail_ends m)

pub pytest_entry :
    (e : Entry) (sm : Dict Str) → IsEntry e → pytest_line (line_of e) sm ≡ put_entry e sm
unfolding pytest_line
pytest_entry e sm h =
    let p = line_status e.status (b' ' ∷ (e.name ++ tail_of e.message)) in
    rw p (entry_line e.status e.name e.message sm h.0)

-- no line break in a line
Without-append : (c : ℕ) (s t : Str) → Without c s → Without c t → Without c (s ++ t)
Without-append c [] t h k = k
Without-append c (d ∷ s) t (h, hs) k = (h, Without-append c s t hs k)

word-Without : (w : Str) → NoSpace w → Without b'\n' w
word-Without [] h = tt
word-Without (c ∷ w) (h, k) = (let e : (c == b'\n') ≡ false = ground arith in e, word-Without w k)

status-Without : (t : TestStatus) → Without b'\n' (test_status_value t)
status-Without TestStatus.failed = (refl, (refl, (refl, (refl, (refl, (refl, tt))))))
status-Without TestStatus.passed = (refl, (refl, (refl, (refl, (refl, (refl, tt))))))
status-Without TestStatus.skipped = (refl, (refl, (refl, (refl, (refl, (refl, (refl, tt)))))))
status-Without TestStatus.error = (refl, (refl, (refl, (refl, (refl, tt)))))
status-Without TestStatus.xfail = (refl, (refl, (refl, (refl, (refl, tt)))))

tail-Without : (m : Option Str) → IsMessage m → Without b'\n' (tail_of m)
tail-Without none h = tt
tail-Without (some m) h = (refl, (refl, (refl, h)))

pub line-Without : (e : Entry) → IsEntry e → Without b'\n' (line_of e)
line-Without e (h, k) =
    Without-append b'\n' (test_status_value e.status) (b' ' ∷ (e.name ++ tail_of e.message))
      (status-Without e.status)
      (
        refl,
        Without-append b'\n' e.name (tail_of e.message) (word-Without e.name h.0)
            (tail-Without e.message k),
      )

-- The loop of the parser over the lines of a summary.
summary_lines :
    (es : List Entry) (sm : Dict Str)
    → All IsEntry es
    → each pytest_line (split_at b'\n' (summary es)) sm ≡ each put_entry es sm
unfolding split_at pytest_line
summary_lines [] sm _ = refl
summary_lines (e ∷ es) sm (h, k) =
    ap (λ ls. each pytest_line ls sm) (split_line b'\n' (line_of e) (summary es) (line-Without e h))
    ∙ ap (each pytest_line (split_at b'\n' (summary es))) (pytest_entry e sm h)
    ∙ summary_lines es (put_entry e sm) k

-- From a summary of pytest, which has a line for each entry with the status, the name of the test
-- and, after " - ", the message if there is one, `parse_log_pytest` reads the status of each test
-- in the order of the lines, where a name is a word that is not a dash and no message has a line
-- break.
pub parse_log_pytest-summary :
    (es : List Entry) → All IsEntry es → parse_log_pytest (summary es) ≡ each put_entry es []
unfolding parse_log_pytest
parse_log_pytest-summary es h = summary_lines es [] h
