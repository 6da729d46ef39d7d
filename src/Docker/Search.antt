-- ===== src/Docker/Search.antt =====
-- The search for the container of a pod: which container it finds, and how often it tries.
use aenvironment.Common.{
  ◌≡◌, refl, ℕ, zero, suc, ◌+◌, ◌<◌, Bool, true, false, Option, none, some, List, [], ◌∷◌, ◌⊎◌, inl,
  inr, ◌↔◌, if◌then◌else◌, arith, Bool-cases, ◌&&◌, ltb, subst,
}
use aenvironment.Common.Text.{Str, lit, str_eq_iff}
use aenvironment.Common.Dict.{Dict, lookup}
use aenvironment.Common.Json.{Json, null, bool, number, text, array, object, field?}
use aenvironment.Effect.{Result, ok, err}
use aenvironment.Effect.Exceptions.{Exn}
use aenvironment.Docker.Load.{
  Listing, is_named, match_line, match_lines, ids_in, searched, find_container_id, next_try, retry,
  retried, load_container, is_set, full_name, found_in, first_of, several,
}

-- A line shows the id of a container.
abbrev Shows : Str → Json → Option Json → Type 0
Shows name id (some (object fs)) =
    (field? (lit "Names") fs ≡ some (text name)) × (field? (lit "ID") fs ≡ some id)
Shows name id _ = ⊥

abbrev Listed : Str → Json → List (Option Json) → Type 0
Listed name id [] = ⊥
Listed name id (line ∷ lines) = Shows name id line ⊎ Listed name id lines

-- One of the namespaces lists a container under an id.
abbrev pub Located : (Str → Listing) → List Str → Str → Json × Str → Type 0
Located list [] name r = ⊥
Located list (ns ∷ namespaces) name r =
    (((list ns).succeeded ≡ true) × Listed name r.0 (list ns).lines × (ns ≡ r.1))
    ⊎ Located list namespaces name r

named_iff : (name : Str) (o : Option Json) → (is_named name o ≡ true) ↔ (o ≡ some (text name))
named_iff name none = ground arith
named_iff name (some (text s)) = ground (arith, str_eq_iff s name)
named_iff name (some null) = ground arith
named_iff name (some (bool b)) = ground arith
named_iff name (some (number s)) = ground arith
named_iff name (some (array s)) = ground arith
named_iff name (some (object s)) = ground arith

line_iff :
    (name : Str) (id : Json) (line : Option Json)
    → (match_line name line ≡ some id) ↔ Shows name id line
unfolding match_line
line_iff name id (some (object fs)) = ground (arith, named_iff name (field? (lit "Names") fs))
line_iff name id none = ground arith
line_iff name id (some null) = ground arith
line_iff name id (some (bool b)) = ground arith
line_iff name id (some (number s)) = ground arith
line_iff name id (some (text s)) = ground arith
line_iff name id (some (array s)) = ground arith

-- The first id of a list of lines is listed, and where there is none no id is.
abbrev Answers : Str → List (Option Json) → Option Json → Type 0
Answers name lines none = (id : Json) → ¬ (Listed name id lines)
Answers name lines (some id) = Listed name id lines

lines_answer :
    (name : Str) (line : Option Json) (lines : List (Option Json)) (o p : Option Json)
    → match_line name line ≡ o
    → Answers name lines p
    → Answers name (line ∷ lines) (first_of o p)
lines_answer name line lines (some id) p e h = inl ((line_iff name id line).0 e)
lines_answer name line lines none (some id) e h = inr h
lines_answer name line lines none none e h = λ id k. elim k [
  | inl shown ↦
      let shows : match_line name line ≡ some id = (line_iff name id line).1 shown in absurd (cc)
  | inr listed ↦ h id listed
]

match_lines-Answers :
    (name : Str) (lines : List (Option Json)) → Answers name lines (match_lines name lines)
unfolding match_lines
match_lines-Answers name [] = λ id h. h
match_lines-Answers name (line ∷ lines) =
    lines_answer name line lines (match_line name line) (match_lines name lines) refl
      (match_lines-Answers name lines)

-- the same for a search of namespaces
abbrev Reports : (Str → Listing) → List Str → Str → Result (Json × Str) → Type 0
Reports list namespaces name (ok r) = Located list namespaces name r
Reports list namespaces name (err e) =
    (e ≡ Exn.runtime_error) × ((r : Json × Str) → ¬ (Located list namespaces name r))

module _ (list : Str → Listing) (name : Str) where
  report_next :
      (ns : Str) (namespaces : List Str) (b : Bool) (o : Option Json) (rest : Result (Json × Str))
      → (list ns).succeeded ≡ b
      → Answers name (list ns).lines o
      → Reports list namespaces name rest
      → Reports list (ns ∷ namespaces) name (found_in ns (if b then o else none) rest)
  report_next ns namespaces true (some id) rest e a h = inl (e, a, refl)
  report_next ns namespaces true none (ok r) e a h = inr h
  report_next ns namespaces true none (err x) e a h =
      (h.0, λ r k. elim k [ inl here ↦ a r.0 here.1 | inr there ↦ h.1 r there ])
  report_next ns namespaces false o (ok r) e a h = inr h
  report_next ns namespaces false o (err x) e a h = (
    h.0,
    λ r k. elim k [
      | inl here ↦ let t : (list ns).succeeded ≡ true = here.0 in absurd (cc)
      | inr there ↦ h.1 r there
    ],
  )

  find-Reports :
      (namespaces : List Str)
      → Reports list namespaces name (find_container_id (λ ns. ok (list ns)) namespaces name)
  unfolding find_container_id searched ids_in
  find-Reports [] = (refl, λ r h. h)
  find-Reports (ns ∷ namespaces) =
      report_next ns namespaces (list ns).succeeded (match_lines name (list ns).lines)
        (find_container_id (λ ns. ok (list ns)) namespaces name) refl
        (match_lines-Answers name (list ns).lines) (find-Reports namespaces)

extended : (P : ℕ → Type 0) (n : ℕ) → ((m : ℕ) → m < n → P m) → P n → (m : ℕ) → m < suc n → P m
extended P n before h m l = elim (Bool-cases (ltb m n)) [
  | inl e ↦ before m (ground arith)
  | inr e ↦ let same : n ≡ m = ground arith in subst P same h
]

-- What `nerdctl ps` lists at each try, and the outcomes of the tries: a container that the first of
-- them finds that finds one, or a RuntimeError after five that find none.
module _ (list : ℕ → Str → Listing) (namespaces : List Str) (name : Str) where
  abbrev pub Nowhere : ℕ → Type 0
  Nowhere n = (r : Json × Str) → ¬ (Located (list n) namespaces name r)

  pub data Outcome : Result (Json × Str) × ℕ → Type 0 where
    finds :
        (n : ℕ) (r : Json × Str)
        → n < 5
        → Located (list n) namespaces name r
        → ((m : ℕ) → m < n → Nowhere m)
        → Outcome (ok r, n)
    fails : ((m : ℕ) → m < 5 → Nowhere m) → Outcome (err Exn.runtime_error, 5)

  next_Outcome :
      (n : ℕ) (a : Result (Json × Str)) (rest : Result (Json × Str) × ℕ)
      → n < 5
      → ((m : ℕ) → m < n → Nowhere m)
      → Reports (list n) namespaces name a
      → (((m : ℕ) → m < suc n → Nowhere m) → Outcome rest)
      → Outcome (next_try a rest n)
  next_Outcome n (ok r) rest l before h later = finds n r l h before
  next_Outcome n (err e) rest l before h later = rw h.0 (later (extended Nowhere n before h.1))

  retry-Outcome :
      (k n : ℕ)
      → n + k ≡ 5
      → ((m : ℕ) → m < n → Nowhere m)
      → Outcome (retry (λ m ns. ok (list m ns)) namespaces name k n)
  unfolding retry
  retry-Outcome zero n e before =
      let five : 5 ≡ n = omega arith in
      subst (λ m. ((j : ℕ) → j < m → Nowhere j) → Outcome (err Exn.runtime_error, m)) (five) fails
        before
  retry-Outcome (suc k) n e before =
      next_Outcome n (find_container_id (λ ns. ok (list n ns)) namespaces name)
        (retry (λ m ns. ok (list m ns)) namespaces name k (suc n)) (omega arith) before
        (find-Reports (list n) name namespaces) (λ b. retry-Outcome k (suc n) (omega arith) b)

-- In a pod, and for a list of namespaces that is not empty, load_container gives the id and the
-- namespace of a container of the given name that is listed at the first of five tries at which one
-- is, after as many seconds as tries before it; where none is listed at five tries, it raises a
-- RuntimeError after five seconds.
pub load_container-Outcome :
    (list : ℕ → Str → Listing) (environ : Dict Str) (ns : Str) (namespaces : List Str) (name : Str)
    → (is_set (lookup (lit "POD_NAME") environ) && is_set (lookup (lit "POD_NAMESPACE") environ))
      ≡ true
    → Outcome list
        (ns ∷ namespaces)
        (full_name environ name)
        (load_container (λ m ns. ok (list m ns)) environ (several (ns ∷ namespaces)) name)
unfolding load_container retried
load_container-Outcome list environ ns namespaces name e = rw e (
    retry-Outcome list (ns ∷ namespaces) (full_name environ name) 5 0 refl
      (λ m l. absurd (omega arith)))
