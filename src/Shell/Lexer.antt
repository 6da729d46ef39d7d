-- ===== src/Shell/Lexer.antt =====
-- `shlex.split`, by which a command that needs no shell is taken apart: `shlex` of Python's library
-- in its POSIX mode, with white space as the only separator and no comments.
use aenvironment.Common.{
  ℕ, Bool, ◌||◌, Option, none, some, List, [], ◌∷◌, ◌++◌, ◌==◌, if◌then◌else◌,
}
use aenvironment.Common.Text.{Str}
use aenvironment.Effect.{Result, ok, err}
use aenvironment.Effect.Exceptions.{Exn}

-- between words, in a word, in a quotation, after a backslash in a word, after one in a quotation
pub data State : Type 0 where
  outside : State
  bare : State
  quoted : ℕ → State
  escaped : State
  escaped_quoted : State

abbrev is_blank : ℕ → Bool
is_blank c = c == 32 || (c == 9 || (c == 13 || c == 10))

abbrev is_quote : ℕ → Bool
is_quote c = c == b'"' || c == 39

-- The state after a character, the word so far, and the word that the character ends.
unfoldable pub next : State → Str → ℕ → Option Str × State × Str
next outside word c =
    if is_blank c
    then (none, outside, [])
    else if c == 92
    then (none, escaped, [])
    else if is_quote c
    then (none, quoted c, [])
    else (none, bare, c ∷ [])
next bare word c =
    if is_blank c
    then (some word, outside, [])
    else if is_quote c
    then (none, quoted c, word)
    else if c == 92
    then (none, escaped, word)
    else (none, bare, word ++ c ∷ [])
next (quoted q) word c =
    if c == q
    then (none, bare, word)
    else if c == 92
    then if q == b'"' then (none, escaped_quoted, word) else (none, quoted q, word ++ c ∷ [])
    else (none, quoted q, word ++ c ∷ [])
next escaped word c = (none, bare, word ++ c ∷ [])
next escaped_quoted word c =
    if c == 92 || c == b'"'
    then (none, quoted b'"', word ++ c ∷ [])
    else (none, quoted b'"', word ++ 92 ∷ c ∷ [])

-- "No closing quotation" and "No escaped character"
abbrev pub last_word : State → Str → Result (List Str)
last_word outside word = ok []
last_word bare word = ok (word ∷ [])
last_word _ word = err Exn.value_error

abbrev pub with_word : Option Str → Result (List Str) → Result (List Str)
with_word none r = r
with_word (some word) (ok words) = ok (word ∷ words)
with_word (some word) (err e) = err e

unfoldable pub split_from : State → Str → Str → Result (List Str)
unfolding next
split_from state word [] = last_word state word
split_from state word (c ∷ s) =
    let (out, later, longer) = next state word c in with_word out (split_from later longer s)

unfoldable pub split : Str → Result (List Str)
unfolding split_from
split s = split_from outside [] s
