-- ===== src/Environment/Names.antt =====
-- The names of environment.py: a tool's full name, and the name and version of an environment.
use aenvironment.Common.{
  ℕ, ◌≡◌, refl, true, false, Option, none, some, [], ◌∷◌, ◌++◌, arith, if◌then◌else◌, is_some, ◌==◌,
}
use mathlib.Core.Option
use aenvironment.Common.Text.{Str, lit, str_eq, str_eq_refl, starts_with, cut_at, contains}
use aenvironment.Common.Dict.{lookup, lookup-insert}
use aenvironment.Effect.{ok}
use aenvironment.World.{ToolInfo}
use aenvironment.Environment.{Environment, split_env_name_version}
use aenvironment.Environment.Lifecycle.{env_vars}
use aenvironment.Environment.Tool.{parse_tool_name, full_name}

is_some-map :
    (f : Str × Str → Str × Str) (x : Option (Str × Str)) → is_some (Option.map f x) ≡ is_some x
is_some-map f none = refl
is_some-map f (some a) = refl

contains_cons :
    (c d : ℕ) (s : Str) → contains (c ∷ []) (d ∷ s) ≡ (if c == d then true else contains (c ∷ []) s)
unfolding contains cut_at starts_with
contains_cons c d s = ground (arith, is_some-map _ (cut_at (c ∷ []) s))

-- A text without the character `c` is cut at the first `c` behind it.
cut_at_first :
    (c : ℕ) (name rest : Str)
    → contains (c ∷ []) name ≡ false
    → cut_at (c ∷ []) (name ++ (c ∷ rest)) ≡ some (name, rest)
unfolding contains cut_at starts_with
cut_at_first c [] rest h = ground arith
cut_at_first c (d ∷ name) rest h =
    let parts = contains_cons c d name in ground (arith, parts, cut_at_first c name rest)

-- In an environment whose name has no `/`, the full name that `list_tools` gives a tool is read by
-- `call_tool` as the name of that tool.
pub parse_tool_name-full_name :
    (env_name : Str) (t : ToolInfo)
    → contains (lit "/") env_name ≡ false
    → parse_tool_name env_name (full_name env_name t).name ≡ ok t.name
unfolding parse_tool_name
parse_tool_name-full_name env_name t h =
    rw (parse_tool_name, cut_at_first b'/' env_name t.name h, str_eq_refl) refl

-- A name of the form `name@version`, where `name` is not empty and has no `@`, is split there.
pub split_env_name_version_at :
    (c : ℕ) (name version : Str)
    → contains (lit "@") (c ∷ name) ≡ false
    → split_env_name_version ((c ∷ name) ++ (lit "@" ++ version)) ≡ (c ∷ name, version)
unfolding split_env_name_version
split_env_name_version_at c name version h =
    rw (split_env_name_version, cut_at_first b'@' (c ∷ name) version h) refl

-- The variables of the instance: `envNAME` and `envversion` are the two parts of the environment's
-- name whatever the caller gave for them, and every other variable is as the caller gave it.
pub lookup-env_vars :
    (k : Str) (e : Environment)
    → lookup k (env_vars e) ≡ (
        if str_eq (lit "envversion") k
        then some (split_env_name_version e.env_name).1
        else if str_eq (lit "envNAME") k
        then some (split_env_name_version e.env_name).0
        else lookup k e.environment_variables)
unfolding env_vars
lookup-env_vars k e = rw (lookup-insert, lookup-insert) refl
