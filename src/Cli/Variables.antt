-- ===== src/Cli/Variables.antt =====
-- What `parse_env_vars` of api_helpers.py reads.
use aenvironment.Common.{◌≡◌, refl, ap, ◌∙◌, List, [], ◌∷◌, ◌++◌, map, each, All}
use aenvironment.Common.Text.{Str, lit, cut_at}
use aenvironment.Common.Words.{strip}
use aenvironment.Common.Splits.{Without, cut_first}
use aenvironment.Common.Dict.{Dict, insert}
use aenvironment.Effect.{ok}
use aenvironment.Cli.{put_var, put_vars, parse_env_vars}

-- A name has no equals sign, and neither it nor the value has white space at its ends.
abbrev pub IsVariable : Str × Str → Type 0
IsVariable (k, v) = Without b'=' k × (strip k ≡ k) × (strip v ≡ v)

abbrev pub assignment : Str × Str → Str
assignment (k, v) = k ++ b'=' ∷ v

abbrev pub put_pair : Str × Str → Dict Str → Dict Str
put_pair (k, v) = insert k v

put_assignment :
    (k v : Str) (d : Dict Str)
    → IsVariable (k, v)
    → put_var (cut_at (lit "=") (k ++ b'=' ∷ v)) d ≡ ok (insert k v d)
put_assignment k v d (w, s, t) = rw (cut_first b'=' k v w, s, t) refl

put_assignments :
    (kvs : List (Str × Str)) (d : Dict Str)
    → All IsVariable kvs
    → put_vars (map assignment kvs) (ok d) ≡ ok (each put_pair kvs d)
put_assignments [] d _ = refl
put_assignments ((k, v) ∷ kvs) d (h, hs) =
    ap (put_vars (map assignment kvs)) (put_assignment k v d h)
    ∙ put_assignments kvs (insert k v d) hs

-- From arguments of the form NAME=VALUE, `parse_env_vars` reads the names with their values, the
-- last value of a name counting, where no name has an equals sign and neither names nor values
-- have white space at their ends; a value may have equals signs.
pub parse_env_vars-assignments :
    (kvs : List (Str × Str))
    → All IsVariable kvs
    → parse_env_vars (map assignment kvs) ≡ ok (each put_pair kvs [])
unfolding parse_env_vars
parse_env_vars-assignments kvs h = put_assignments kvs [] h
