-- ===== src/Common/Json.antt =====
-- JSON values, as `json.loads` gives them: a number keeps its text.
use mathlib.Core.Bool.{Bool, true, false, not, ◌&&◌, ◌||◌}
use mathlib.Core.List.{[], ◌∷◌}
use mathlib.Core.Option.{Option, none, some}
use aenvironment.Common.Tests.{◌==◌, leb, if◌then◌else◌, is_some}
use aenvironment.Common.Text.{Str, str_eq}

mutual
  pub data Json : Type 0 where
    null : Json
    bool : Bool → Json
    number : Str → Json
    text : Str → Json
    array : Items → Json
    object : Fields → Json

  pub data Items : Type 0 where
    nil : Items
    cons : Json → Items → Items

  pub data Fields : Type 0 where
    end : Fields
    field : Str → Json → Fields → Fields

-- a digit other than 0 before the exponent, if any
abbrev nonzero : Str → Bool
nonzero [] = false
nonzero (c ∷ s) =
    let rest = nonzero s in
    if leb b'1' c && leb c b'9' then true else if c == b'e' || c == b'E' then false else rest

-- Python's truth value
unfoldable pub truthy : Json → Bool
truthy null = false
truthy (bool b) = b
truthy (number s) = nonzero s
truthy (text []) = false
truthy (text (c ∷ s)) = true
truthy (array nil) = false
truthy (array (cons j js)) = true
truthy (object end) = false
truthy (object (field k v fs)) = true

-- The value of a key; where a key stands twice, `json.loads` keeps the last.
unfoldable pub field? : Str → Fields → Option Json
field? k end = none
field? k (field j v fs) =
    let here = if str_eq j k then some v else none in
    elim (field? k fs) [ none ↦ here | some w ↦ some w ]

-- `k in d`
abbrev pub has_field : Str → Fields → Bool
has_field k fs = is_some (field? k fs)

-- `d[k] = v`
unfoldable pub put : Str → Json → Fields → Fields
unfolding field?
put k v end = field k v end
put k v (field j w fs) =
    let rest = put k v fs in
    if str_eq j k && not (has_field k fs) then field j v fs else field j w rest
