-- ===== src/Common/Paths.antt =====
-- Nested dictionaries, read and written along a path of keys.
use mathlib.Core.Path.{◌≡◌, refl, ap, ◌∙◌}
use mathlib.Core.List.{List, [], ◌∷◌}
use mathlib.Core.Option.{Option, none, some}
use native.Mathlib.Omega.{arith}
use aenvironment.Common.Tests.{if◌then◌else◌}
use aenvironment.Common.Text.{Str, str_eq, str_eq_iff}
use aenvironment.Common.Json.{
  Json, null, bool, number, text, array, object, Fields, end, field, field?, put,
}

-- `d.get(k)` after `d[j] = v`
pub field-put :
    (k j : Str) (v : Json) (fs : Fields)
    → field? j (put k v fs) ≡ (if str_eq k j then some v else field? j fs)
unfolding field? put
field-put k j v end = refl
field-put k j v (field i w fs) =
    ground (arith, str_eq_iff k j, str_eq_iff i k, str_eq_iff i j, field-put k j v fs)

-- `value = value[k]` for each key; none stands for a `KeyError` or `TypeError`.
unfoldable pub get_at : List Str → Json → Option Json
unfolding field?
get_at [] j = some j
get_at (k ∷ ks) (object fs) = elim (field? k fs) [ none ↦ none | some j ↦ get_at ks j ]
get_at (k ∷ ks) _ = none

-- The dictionary under a key on the way, made where it is missing.
abbrev child : Str → Fields → Json
child k fs = elim (field? k fs) [ none ↦ object end | some j ↦ j ]

abbrev put_back : Str → Fields → Option Json → Option Json
put_back k fs none = none
put_back k fs (some j) = some (object (put k j fs))

-- For each key but the last: `if k not in current: current[k] = {}` and `current = current[k]`;
-- then `current[k] = v` for the last; none stands for a `TypeError`, which each of these raises
-- where `current` is no dictionary.
unfoldable pub set_at : List Str → Json → Json → Option Json
unfolding field? put
set_at [] v j = none
set_at (k ∷ []) v (object fs) = some (object (put k v fs))
set_at (k ∷ l ∷ ks) v (object fs) = put_back k fs (set_at (l ∷ ks) v (child k fs))
set_at (k ∷ ks) v _ = none

pub field-put_same : (k : Str) (v : Json) (fs : Fields) → field? k (put k v fs) ≡ some v
field-put_same k v fs = field-put k k v fs ∙ ground (arith, str_eq_iff k k)

-- A dictionary, where there is one, has the value at the end of a path.
abbrev pub Reads : List Str → Json → Option Json → Type 0
Reads ks v none = Unit
Reads ks v (some w) = get_at ks w ≡ some v

along :
    (k : Str) (ks : List Str) (w : Json) (fs : Fields)
    → get_at (k ∷ ks) (object (put k w fs)) ≡ get_at ks w
unfolding get_at
along k ks w fs =
    ap (λ (o : Option Json). elim o [ none ↦ none | some j ↦ get_at ks j ]) (field-put_same k w fs)

put_back-Reads :
    (k : Str) (ks : List Str) (v : Json) (fs : Fields) (o : Option Json)
    → Reads ks v o
    → Reads (k ∷ ks) v (put_back k fs o)
unfolding get_at
put_back-Reads k ks v fs none h = tt
put_back-Reads k ks v fs (some w) h = along k ks w fs ∙ h

-- What was written along a path is read along it.
pub set_at-Reads : (ks : List Str) (v j : Json) → Reads ks v (set_at ks v j)
unfolding get_at set_at
set_at-Reads [] v j = tt
set_at-Reads (k ∷ []) v (object fs) = along k [] v fs
set_at-Reads (k ∷ l ∷ ks) v (object fs) =
    put_back-Reads k (l ∷ ks) v fs (set_at (l ∷ ks) v (child k fs))
      (set_at-Reads (l ∷ ks) v (child k fs))
set_at-Reads (k ∷ []) v null = tt
set_at-Reads (k ∷ l ∷ ks) v null = tt
set_at-Reads (k ∷ []) v (bool b) = tt
set_at-Reads (k ∷ l ∷ ks) v (bool b) = tt
set_at-Reads (k ∷ []) v (number s) = tt
set_at-Reads (k ∷ l ∷ ks) v (number s) = tt
set_at-Reads (k ∷ []) v (text s) = tt
set_at-Reads (k ∷ l ∷ ks) v (text s) = tt
set_at-Reads (k ∷ []) v (array js) = tt
set_at-Reads (k ∷ l ∷ ks) v (array js) = tt
