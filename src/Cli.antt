-- ===== src/Cli.antt =====
-- Helpers of the command line: aenv/src/cli/utils/api_helpers.py, the pure ones of
-- aenv/src/cli/cmds/instance.py, and those of aenv/src/cli/utils/table_formatter.py.
pub mod Api
pub mod Variables
pub mod Tests
use aenvironment.Common.{
  ℕ, ◌-◌, Bool, true, false, not, ◌&&◌, ◌||◌, Option, none, some, List, [], ◌∷◌, ◌++◌, any, length,
  leb, ltb, ◌==◌, if◌then◌else◌,
}
use aenvironment.Common.Text.{Str, lit, str_eq, cut_at, contains}
use aenvironment.Common.Words.{strip, rstrip_of}
use aenvironment.Common.Dict.{Dict, insert}
use aenvironment.Common.Json.{Json, null, text, truthy}
use aenvironment.Effect.{Result, ok, err}
use aenvironment.Effect.Exceptions.{Exn}
use aenvironment.Url.{lower, clean, behind_scheme, netloc, hostname, unparse, or_local, same}
use aenvironment.Config.{Manager, get}

-- `key, value = env_var.split("=", 1)`, where there is an equals sign
abbrev pub put_var : Option (Str × Str) → Dict Str → Result (Dict Str)
put_var none d = err Exn.bad_parameter
put_var (some (key, value)) d = ok (insert (strip key) (strip value) d)

abbrev pub put_vars : List Str → Result (Dict Str) → Result (Dict Str)
put_vars [] r = r
put_vars (v ∷ vs) (err e) = err e
put_vars (v ∷ vs) (ok d) = put_vars vs (put_var (cut_at (lit "=") v) d)

unfoldable pub parse_env_vars : List Str → Result (Dict Str)
unfolding cut_at strip insert
parse_env_vars env_var_list = put_vars env_var_list (ok [])

-- `_split_env_name_version`
unfoldable pub split_env_name_version : Str → Str × Str
unfolding cut_at
split_env_name_version env_name = elim (cut_at (lit "@") env_name) [
  | none ↦ (env_name, [])
  | some (name, version) ↦ (name, version)
]

-- The system URL of the environment variable, if it is set and not empty, or else that of the
-- configuration.
unfoldable pub get_system_url_raw : Option Str → Manager → Json
unfolding get
get_system_url_raw (some (c ∷ s)) m = text (c ∷ s)
get_system_url_raw _ m = get (lit "system_url") null m

abbrev default_url : Str
default_url = lit "http://localhost:8080"

-- `if b: raise e`, before the default is returned
abbrev or_no_text : Bool → Result Str
or_no_text true = err Exn.attribute_error
or_no_text false = ok default_url

-- `if not system_url: system_url = default` and `system_url.rstrip("/")`; a value of the
-- configuration that is no text has no `rstrip`.
abbrev stripped_url : Json → Result Str
stripped_url (text []) = ok default_url
stripped_url (text (c ∷ s)) = ok (rstrip_of b'/' (c ∷ s))
stripped_url j = or_no_text (truthy j)

unfoldable pub get_system_url : Option Str → Manager → Result Str
unfolding get_system_url_raw truthy rstrip_of
get_system_url variable m = stripped_url (get_system_url_raw variable m)

-- `urlunparse(new)` without a path
unfoldable pub make_api_url : Str → Str → Result Str
unfolding clean behind_scheme netloc hostname contains rstrip_of
make_api_url [] port = ok (lit "http://localhost:" ++ port)
make_api_url (c ∷ s) port =
    let full = if contains (lit "://") (c ∷ s) then c ∷ s else lit "http://" ++ (c ∷ s) in
    let loc = netloc (behind_scheme (clean full)) in
    if same (contains (lit "[") loc) (contains (lit "]") loc)
    then ok (rstrip_of b'/' (unparse (or_local (hostname loc) ++ (lit ":" ++ port)) []))
    else err Exn.value_error

-- the style that `format_status` gives a status
unfoldable pub status_style : Str → Str
unfolding lower str_eq
status_style status =
    let s = lower status in
    if any (str_eq s) (lit "running" ∷ lit "active" ∷ lit "ready" ∷ lit "healthy" ∷ [])
    then lit "bold green"
    else if any (str_eq s) (lit "pending" ∷ lit "creating" ∷ lit "starting" ∷ [])
    then lit "bold yellow"
    else if any (str_eq s) (lit "failed" ∷ lit "error" ∷ lit "terminated" ∷ lit "stopped" ∷ [])
    then lit "bold red"
    else if any (str_eq s) (lit "deleting" ∷ lit "stopping" ∷ lit "terminating" ∷ [])
    then lit "bold orange3"
    else lit "dim"

-- the style that `format_replicas` gives two counts
abbrev pub replicas_style : ℕ → ℕ → Str
replicas_style available desired =
    if available == 0
    then lit "bold red"
    else if ltb available desired
    then lit "bold yellow"
    else lit "bold green"
