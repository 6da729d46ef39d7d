-- ===== src/Docker/Variables.antt =====
-- Which value a variable has in a command that runs in the container.
use aenvironment.Common.{
  ◌≡◌, refl, ap, ◌∙◌, Option, none, some, List, [], ◌∷◌, ◌++◌, any, if◌then◌else◌, arith,
}
use aenvironment.Common.Text.{Str, str_eq, str_eq_iff}
use aenvironment.Common.Dict.{Dict, lookup}
use aenvironment.Docker.{ContainerConfig, variables, forwarded}

-- The value that the last assignment of a variable gives it.
abbrev pub assigned : Str → List (Str × Str) → Option Str
assigned k [] = none
assigned k ((j, v) ∷ vars) =
    let here = if str_eq j k then some v else none in
    elim (assigned k vars) [ none ↦ here | some w ↦ some w ]

abbrev pub first_some : Option Str → Option Str → Option Str
first_some none o = o
first_some (some w) o = some w

assigned-append :
    (k : Str) (vars more : List (Str × Str))
    → assigned k (vars ++ more) ≡ first_some (assigned k more) (assigned k vars)
assigned-append k [] more = ground arith
assigned-append k ((j, v) ∷ vars) more = ground (arith, assigned-append k vars more)

assigned-forwarded :
    (k : Str) (keys : List Str) (environ : Dict Str)
    → assigned k (forwarded keys environ) ≡ (if any (str_eq k) keys then lookup k environ else none)
unfolding forwarded
assigned-forwarded k [] environ = refl
assigned-forwarded k (key ∷ keys) environ =
    ground (arith, str_eq_iff key k, str_eq_iff k key, assigned-forwarded k keys environ)

-- In the command that execute runs, a variable has the value that the configuration's env gives it;
-- one without a value there has the host's value, if it is forwarded and set there, and else none.
pub assigned-variables :
    (k : Str) (c : ContainerConfig) (environ : Dict Str)
    → assigned k (variables c environ)
      ≡ first_some
          (assigned k c.env)
          (if any (str_eq k) c.forward_env then lookup k environ else none)
unfolding variables
assigned-variables k c environ =
    assigned-append k (forwarded c.forward_env environ) c.env
    ∙ ap (first_some (assigned k c.env)) (assigned-forwarded k c.forward_env environ)
