-- ===== src/Docker/Load.antt =====
-- The search for the container of a pod in docker_cli.py: `DockerClient.load_container` and
-- `_find_container_id`.
use aenvironment.Common.{
  ℕ, zero, suc, Bool, true, false, ◌&&◌, Option, none, some, List, [], ◌∷◌, ◌++◌, if◌then◌else◌,
}
use aenvironment.Common.Text.{Str, lit, str_eq}
use aenvironment.Common.Dict.{Dict, lookup}
use aenvironment.Common.Json.{Json, text, object, field?}
use aenvironment.Effect.{Result, ok, err}
use aenvironment.Effect.Exceptions.{Exn, is_runtime_error}

-- What `nerdctl ps` gives: whether its return code is 0, and its lines, each with the JSON that it
-- is, if it is JSON.
pub record Listing : Type 0 where
  pub succeeded : Bool
  pub lines : List (Option Json)

abbrev pub is_named : Str → Option Json → Bool
is_named name (some (text s)) = str_eq s name
is_named name _ = false

-- The id that a line gives for a container; the `except` clause passes over every other line.
unfoldable pub match_line : Str → Option Json → Option Json
unfolding field? str_eq
match_line name (some (object fs)) =
    if is_named name (field? (lit "Names") fs) then field? (lit "ID") fs else none
match_line name _ = none

abbrev pub first_of : Option Json → Option Json → Option Json
first_of (some id) rest = some id
first_of none rest = rest

unfoldable pub match_lines : Str → List (Option Json) → Option Json
unfolding match_line
match_lines name [] = none
match_lines name (line ∷ lines) = first_of (match_line name line) (match_lines name lines)

unfoldable pub ids_in : Str → Listing → Option Json
unfolding match_lines
ids_in name listing = if listing.succeeded then match_lines name listing.lines else none

abbrev pub found_in : Str → Option Json → Result (Json × Str) → Result (Json × Str)
found_in ns none rest = rest
found_in ns (some id) rest = ok (id, ns)

unfoldable pub searched : Str → Str → Result Listing → Result (Json × Str) → Result (Json × Str)
unfolding match_lines
searched name ns (err e) rest = err e
searched name ns (ok listing) rest = found_in ns (ids_in name listing) rest

-- `_find_container_id`, with what `nerdctl ps` gives for a namespace
unfoldable pub find_container_id : (Str → Result Listing) → List Str → Str → Result (Json × Str)
unfolding match_lines
find_container_id ps [] name = err Exn.runtime_error
find_container_id ps (ns ∷ namespaces) name =
    let rest = find_container_id ps namespaces name in searched name ns (ps ns) rest

abbrev pub next_try : Result (Json × Str) → Result (Json × Str) × ℕ → ℕ → Result (Json × Str) × ℕ
next_try (ok r) rest n = (ok r, n)
next_try (err e) rest n = if is_runtime_error e then rest else (err e, n)

-- The loop, for the tries that are left, with the number of the try and of the seconds slept before
-- it: the result, and the seconds slept.
unfoldable pub retry : (ℕ → Str → Result Listing) → List Str → Str → ℕ → ℕ → Result (Json × Str) × ℕ
unfolding find_container_id
retry ps namespaces name zero n = (err Exn.runtime_error, n)
retry ps namespaces name (suc k) n =
    next_try (find_container_id (ps n) namespaces name) (retry ps namespaces name k (suc n)) n

-- the argument `namespace_list`: one text, or a list
pub data Namespaces : Type 0 where
  single : Str → Namespaces
  several : List Str → Namespaces

abbrev pub namespace_list : Namespaces → List Str
namespace_list (single ns) = ns ∷ []
namespace_list (several namespaces) = namespaces

abbrev pub is_set : Option Str → Bool
is_set (some (c ∷ s)) = true
is_set _ = false

abbrev value_of : Option Str → Str
value_of none = []
value_of (some s) = s

-- the full name of a container of the pod
unfoldable pub full_name : Dict Str → Str → Str
unfolding lookup
full_name environ container_name =
    lit "k8s://"
    ++ value_of (lookup (lit "POD_NAMESPACE") environ)
    ++ lit "/"
    ++ value_of (lookup (lit "POD_NAME") environ)
    ++ lit "/"
    ++ container_name

unfoldable pub retried : (ℕ → Str → Result Listing) → List Str → Str → Result (Json × Str) × ℕ
unfolding retry
retried ps [] name = (err Exn.runtime_error, 0)
retried ps (ns ∷ namespaces) name = retry ps (ns ∷ namespaces) name 5 0

-- `load_container`, without the making of the client: the container's id and its namespace, and the
-- seconds slept. `ps` is given the number of the try.
unfoldable pub load_container :
    (ℕ → Str → Result Listing) → Dict Str → Namespaces → Str → Result (Json × Str) × ℕ
unfolding lookup full_name
load_container ps environ namespaces container_name =
    if is_set (lookup (lit "POD_NAME") environ) && is_set (lookup (lit "POD_NAMESPACE") environ)
    then retried ps (namespace_list namespaces) (full_name environ container_name)
    else (err Exn.runtime_error, 0)
