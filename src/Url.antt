-- ===== src/Url.antt =====
-- `make_mcp_url` of aenv/src/aenv/core/environment.py, over the parts of `urllib.parse` that it
-- uses. Letters are the ASCII ones; the check of the address in brackets, which newer versions of
-- Python make, is left out.
use aenvironment.Common.{
  ◌≡◌, refl, ℕ, ◌+◌, Bool, true, false, not, ◌&&◌, ◌||◌, Option, none, some, [], ◌∷◌, ◌++◌, map,
  leb, ◌==◌, if◌then◌else◌, drop, all, select,
}
use aenvironment.Common.Text.{Str, lit, starts_with, cut_at, contains}
use aenvironment.Effect.{Result, ok, err}
use aenvironment.Effect.Exceptions.{Exn}

abbrev is_upper : ℕ → Bool
is_upper c = leb b'A' c && leb c b'Z'

abbrev is_alpha : ℕ → Bool
is_alpha c = is_upper c || (leb b'a' c && leb c b'z')

-- letters, digits, `+`, `-` and `.`
abbrev is_scheme_char : ℕ → Bool
is_scheme_char c =
    is_alpha c || (leb b'0' c && leb c b'9') || (c == b'+' || (c == b'-' || c == b'.'))

abbrev lower_char : ℕ → ℕ
lower_char c = if is_upper c then c + 32 else c

-- `s.lower()`
unfoldable pub lower : Str → Str
lower = map lower_char

-- white space and control characters in front, and tabs and line ends anywhere, are dropped
unfoldable pub clean : Str → Str
clean [] = []
clean (c ∷ s) =
    let rest = clean s in
    if leb c 32 then rest else select (λ d. not (d == 9 || (d == 10 || d == 13))) (c ∷ s)

abbrev is_scheme : Str → Bool
is_scheme [] = false
is_scheme (c ∷ s) = is_alpha c && all is_scheme_char s

-- the text behind the scheme, or all of it where there is no scheme
unfoldable pub behind_scheme : Str → Str
behind_scheme url = elim (cut_at (lit ":") url) [
  | none ↦ url
  | some (a, b) ↦ if is_scheme a then b else url
]

abbrev is_delimiter : ℕ → Bool
is_delimiter c = c == b'/' || (c == b'?' || c == b'#')

abbrev until_delimiter : Str → Str
until_delimiter [] = []
until_delimiter (c ∷ s) = let rest = until_delimiter s in if is_delimiter c then [] else c ∷ rest

unfoldable pub netloc : Str → Str
netloc rest = if starts_with (lit "//") rest then until_delimiter (drop 2 rest) else []

-- the text behind the last `@`
abbrev behind_user : Str → Str
behind_user [] = []
behind_user (c ∷ s) = let rest = behind_user s in if contains (lit "@") (c ∷ s) then rest else c ∷ s

-- the text in front of the first occurrence, or all of it: `s.partition(p)[0]`
abbrev before : Str → Str → Str
before p s = elim (cut_at p s) [ none ↦ s | some (a, b) ↦ a ]

-- the host in front of `%` in lower case, with the zone as it stands
abbrev lower_host : Str → Str
lower_host h = elim (cut_at (lit "%") h) [
  | none ↦ lower h
  | some (a, b) ↦ lower a ++ (lit "%" ++ b)
]

abbrev present : Str → Option Str
present [] = none
present (c ∷ s) = some (lower_host (c ∷ s))

-- the `hostname` property of a parsed address
unfoldable pub hostname : Str → Option Str
unfolding lower
hostname loc =
    let info = behind_user loc in
    elim (cut_at (lit "[") info) [
      | none ↦ present (before (lit ":") info)
      | some (_, bracketed) ↦ present (before (lit "]") bracketed)
    ]

-- `urlunparse` of the scheme http, a network location and a path
abbrev pub unparse : Str → Str → Str
unparse loc [] = lit "http://" ++ loc
unparse loc (c ∷ path) =
    lit "http://" ++ (loc ++ (if c == b'/' then c ∷ path else lit "/" ++ (c ∷ path)))

abbrev pub or_local : Option Str → Str
or_local none = lit "127.0.0.1"
or_local (some h) = h

abbrev pub same : Bool → Bool → Bool
same true b = b
same false b = not b

unfoldable pub make_mcp_url : Str → Str → Str → Result Str
unfolding clean behind_scheme netloc hostname
make_mcp_url aenv_url port path =
    let full = if contains (lit "://") aenv_url then aenv_url else lit "http://" ++ aenv_url in
    let loc = netloc (behind_scheme (clean full)) in
    if same (contains (lit "[") loc) (contains (lit "]") loc)
    then ok (unparse (or_local (hostname loc) ++ (lit ":" ++ port)) path)
    else err Exn.value_error

url_plain :
    make_mcp_url (lit "HTTPS://User@Host.io:99/a?b") (lit "8081") (lit "/mcp")
    ≡ ok (lit "http://host.io:8081/mcp")
unfolding make_mcp_url lower contains cut_at starts_with
url_plain = refl

url_no_scheme : make_mcp_url (lit "10.0.0.7") (lit "8080") [] ≡ ok (lit "http://10.0.0.7:8080")
unfolding make_mcp_url lower contains cut_at starts_with
url_no_scheme = refl
