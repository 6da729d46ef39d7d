-- ===== src/Config/Values.antt =====
-- `get` after `set` of cli_config.py.
use aenvironment.Common.{
  ◌≡◌, ◌≢◌, refl, sym, ap, subst, ◌∙◌, Bool, true, false, Option, none, some, List, [], ◌∷◌, any,
  All, arith, if◌then◌else◌, Bool-cases, inl, inr,
}
use aenvironment.Common.Text.{Str, str_eq, str_eq_iff}
use aenvironment.Common.Words.{split_at}
use aenvironment.Common.Json.{
  Json, null, bool, number, text, array, object, Fields, end, field, field?,
}
use aenvironment.Common.Paths.{get_at, set_at, Reads, set_at-Reads}
use aenvironment.Effect.{Result, ok, err}
use aenvironment.Effect.Exceptions.{Exn}
use aenvironment.Config.{
  CliConfig, default_build, default_storage, default_logging, default_hub, or_default, post_init,
  config_keys, is_known, known_keys, raw_config, make_config, fields_of, value_or, Manager, get,
  set, replace_config, config_from, save_config,
}

or_default_some : (j d : Json) → j ≢ null → or_default j d ≡ j
or_default_some null d h = absurd (h refl)
or_default_some (bool b) d h = refl
or_default_some (number s) d h = refl
or_default_some (text s) d h = refl
or_default_some (array js) d h = refl
or_default_some (object fs) d h = refl

-- A key of a dictionary of known keys is known.
known_key :
    (k : Str) (w : Json) (fs : Fields)
    → known_keys fs ≡ true
    → field? k fs ≡ some w
    → is_known k ≡ true
unfolding field? known_keys
known_key k w end a h = absurd (let f : none ≡ some w = h in cc)
known_key k w (field j v fs) a h =
    let e : str_eq j k ≡ true → is_known j ≡ is_known k = λ f. ap is_known ((str_eq_iff j k).0 f) in
    ground (arith, known_key k w fs, e)

any-All : (k : Str) (P : Str → Type 0) (ks : List Str) → any (str_eq k) ks ≡ true → All P ks → P k
any-All k P [] h all = absurd (let f : false ≡ true = h in cc)
any-All k P (j ∷ ks) h (p, ps) = elim (Bool-cases (str_eq k j)) [
  | inl e ↦ subst P (sym ((str_eq_iff k j).0 e)) p
  | inr e ↦ let rest : any (str_eq k) ks ≡ true = ground (arith, h) in any-All k P ks rest ps
]

module _ (fs : Fields) (w : Json) (n : w ≢ null) where
  abbrev Kept : Str → Type 0
  Kept k = field? k fs ≡ some w → field? k (fields_of (post_init (raw_config fs))) ≡ some w

  value_found : (k : Str) (d : Json) → field? k fs ≡ some w → value_or k d fs ≡ w
  value_found k d e = ap (λ (o : Option Json). elim o [ none ↦ d | some v ↦ v ]) e

  All-Kept : All Kept config_keys
  unfolding field? raw_config post_init str_eq
  All-Kept = (
    λ e. ap some (value_found _ _ e),
    (
      λ e.
          ap some
            (ap (λ j. or_default j default_build) (value_found _ _ e) ∙ or_default_some w _ n),
      (
        λ e.
            ap some
              (ap (λ j. or_default j default_storage) (value_found _ _ e) ∙ or_default_some w _ n),
        (
          λ e.
              ap some (
                ap (λ j. or_default j default_logging) (value_found _ _ e) ∙ or_default_some w _ n),
          (
            λ e.
                ap some
                  (ap (λ j. or_default j default_hub) (value_found _ _ e) ∙ or_default_some w _ n),
            (λ e. ap some (value_found _ _ e), (λ e. ap some (value_found _ _ e), tt)),
          ),
        ),
      ),
    ),
  )

  -- A configuration has the value of each argument that is not None.
  kept : (k : Str) → known_keys fs ≡ true → Kept k
  unfolding is_known
  kept k a e = any-All k Kept config_keys (known_key k w fs a e) All-Kept e

-- A path that ends at a value other than None does not pass through None.
not_null : (ks : List Str) (v w : Json) → v ≢ null → get_at ks w ≡ some v → w ≢ null
unfolding get_at
not_null [] v w n h e = n (let f : some w ≡ some v = h in cc)
not_null (k ∷ ks) v w n h e =
    let f : none ≡ some v = ap (get_at (k ∷ ks)) (sym e) ∙ h in absurd (cc)

get_kept :
    (k : Str) (ks : List Str) (v : Json) (fs : Fields) (o : Option Json)
    → v ≢ null
    → known_keys fs ≡ true
    → field? k fs ≡ o
    → elim o [ none ↦ none | some w ↦ get_at ks w ] ≡ some v
    → get_at (k ∷ ks) (object (fields_of (post_init (raw_config fs)))) ≡ some v
unfolding get_at field?
get_kept k ks v fs none n a e h = absurd (let f : none ≡ some v = h in cc)
get_kept k ks v fs (some w) n a e h =
    ap (λ (o : Option Json). elim o [ none ↦ none | some j ↦ get_at ks j ])
      (kept fs w (not_null ks v w n h) k a e)
    ∙ h

-- What is read after a call of `set` that returns.
abbrev Gives : List Str → Json → Result (Unit {0}) × Manager → Type 0
Gives ks v (ok _, m) = get_at ks (object (fields_of m.config)) ≡ some v
Gives ks v (err e, m) = Unit

made-Gives :
    (k : Str) (ks : List Str) (v : Json) (fs : Fields) (m : Manager) (b : Bool)
    → v ≢ null
    → known_keys fs ≡ b
    → get_at (k ∷ ks) (object fs) ≡ some v
    → Gives (k ∷ ks) v (replace_config (if b then some (post_init (raw_config fs)) else none) m)
unfolding save_config get_at
made-Gives k ks v fs m true n a h = get_kept k ks v fs (field? k fs) n a refl h
made-Gives k ks v fs m false n a h = tt

from-Gives :
    (k : Str) (ks : List Str) (v : Json) (o : Option Json) (m : Manager)
    → v ≢ null
    → Reads (k ∷ ks) v o
    → Gives (k ∷ ks) v (replace_config (config_from o) m)
unfolding make_config
from-Gives k ks v none m n h = tt
from-Gives k ks v (some (object fs)) m n h = made-Gives k ks v fs m (known_keys fs) n refl h
from-Gives k ks v (some null) m n h = tt
from-Gives k ks v (some (bool b)) m n h = tt
from-Gives k ks v (some (number s)) m n h = tt
from-Gives k ks v (some (text s)) m n h = tt
from-Gives k ks v (some (array js)) m n h = tt

set-Gives :
    (ks : List Str) (v : Json) (m : Manager)
    → v ≢ null
    → Gives ks v (replace_config (config_from (set_at ks v (object (fields_of m.config)))) m)
unfolding set_at
set-Gives [] v m n = tt
set-Gives (k ∷ ks) v m n =
    from-Gives k ks v _ m n (set_at-Reads (k ∷ ks) v (object (fields_of m.config)))

-- Where `set` of a value other than None returns, `get` of the same key gives the value, whatever
-- its default.
pub get-set :
    (key : Str) (v default : Json) (m m1 : Manager)
    → v ≢ null
    → set key v m ≡ (ok tt, m1)
    → get key default m1 ≡ v
unfolding set get
get-set key v default m m1 n h =
    let g : Gives (split_at b'.' key) v (ok tt, m1) =
      subst (Gives (split_at b'.' key) v) h (set-Gives (split_at b'.' key) v m n) in
    ap (λ (o : Option Json). elim o [ none ↦ default | some w ↦ w ]) g

replace_fails :
    (o : Option CliConfig) (m : Manager) (e : Exn)
    → (replace_config o m).0 ≡ err e
    → (e ≡ Exn.type_error) × ((replace_config o m).1 ≡ m)
unfolding save_config
replace_fails none m e h = (let f : err Exn.type_error ≡ err e = h in cc, refl)
replace_fails (some c) m e h = absurd (let f : ok tt ≡ err e = h in cc)

-- Where `set` raises, it raises a TypeError, and the configuration and the file stay as they were.
pub set_fails :
    (key : Str) (v : Json) (m : Manager) (e : Exn)
    → (set key v m).0 ≡ err e
    → (e ≡ Exn.type_error) × ((set key v m).1 ≡ m)
unfolding set
set_fails key v m e h = replace_fails _ m e h
