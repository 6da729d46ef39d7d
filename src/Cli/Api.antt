-- ===== src/Cli/Api.antt =====
-- The calls of the API service in aenv/src/cli/cmds/instance.py: `_list_instances_from_api`,
-- `_get_instance_from_api` and `_delete_instance_from_api`, without the option that prints what
-- they do.
use aenvironment.Common.{
  ℕ, Bool, true, false, not, ◌&&◌, ◌||◌, Option, none, some, ◌∷◌, ◌++◌, leb, ltb, ◌==◌,
  if◌then◌else◌, ◌≡◌, refl, ap, ◌∙◌,
}
use aenvironment.Common.Text.{Str, lit}
use aenvironment.Common.Json.{Json, null, bool, number, text, array, object, nil, field?, truthy}
use aenvironment.Effect.{Result, ok, err}
use aenvironment.Effect.Exceptions.{Exn}

-- What `requests` gives: one of its exceptions, which are all a `RequestException`, or a response
-- with its status and its body as JSON, if it is JSON.
pub data Reply : Type 0 where
  no_connection : Reply
  timed_out : Reply
  other_failure : Reply
  response : ℕ → Option Json → Reply

-- the environment to list, with `*` for all
unfoldable pub env_id : Option Str → Option Str → Str
env_id (some (c ∷ name)) (some (d ∷ version)) = (c ∷ name) ++ lit "@" ++ d ∷ version
env_id (some (c ∷ name)) _ = c ∷ name
env_id _ _ = lit "*"

unfoldable pub list_url : Str → Option Str → Option Str → Str
unfolding env_id
list_url system_url name version =
    system_url ++ lit "/env-instance/" ++ env_id name version ++ lit "/list"

unfoldable pub instance_url : Str → Str → Str
instance_url system_url instance_id = system_url ++ lit "/env-instance/" ++ instance_id

-- `raise_for_status` raises
abbrev pub is_error_status : ℕ → Bool
is_error_status status = leb 400 status && ltb status 600

-- the statuses that raise, 403 and 401 with messages of their own
abbrev pub is_refusal : ℕ → Bool
is_refusal status = status == 403 || (status == 401 || is_error_status status)

abbrev pub is_true : Option Json → Bool
is_true none = false
is_true (some j) = truthy j

-- `result["data"]`, `empty` where the call was a success without data
abbrev pub judged : Result (Option Json) → Option Json → Option Json → Result (Option Json)
judged empty success data_value =
    if is_true success
    then if is_true data_value then ok data_value else empty
    else err Exn.click_error

-- `response.json()`, which raises a `RequestException` for what is no JSON, and its use as a
-- dictionary
abbrev pub judged_body : Result (Option Json) → Option Json → Result (Option Json)
judged_body empty (some (object fs)) =
    judged empty (field? (lit "success") fs) (field? (lit "data") fs)
judged_body empty none = err Exn.click_error
judged_body empty (some _) = err Exn.attribute_error

-- Each `except` clause raises a `ClickException`, as the tests for 403 and 401 do.
abbrev pub answer_of : Result (Option Json) → Reply → Result (Option Json)
answer_of empty (response status body) =
    if is_refusal status then err Exn.click_error else judged_body empty body
answer_of empty _ = err Exn.click_error

module _ (send : Str → Reply) where
  unfoldable pub list_instances : Str → Option Str → Option Str → Result (Option Json)
  unfolding list_url truthy field?
  list_instances system_url name version =
      answer_of (ok (some (array nil))) (send (list_url system_url name version))

  unfoldable pub get_instance : Str → Str → Result (Option Json)
  unfolding instance_url truthy field?
  get_instance system_url instance_id =
      answer_of (ok none) (send (instance_url system_url instance_id))

abbrev pub deleted : Option Json → Result Json
deleted (some (object fs)) =
    ok (elim (field? (lit "success") fs) [ none ↦ bool false | some j ↦ j ])
deleted none = err Exn.click_error
deleted (some _) = err Exn.attribute_error

abbrev pub deletion_of : Reply → Result Json
deletion_of (response status body) =
    if is_error_status status then err Exn.click_error else deleted body
deletion_of _ = err Exn.click_error

unfoldable pub delete_instance : (Str → Reply) → Str → Str → Result Json
unfolding instance_url field?
delete_instance send system_url instance_id =
    deletion_of (send (instance_url system_url instance_id))

-- whether a response that is no refusal has a body that is JSON but no dictionary
abbrev pub is_strange : Reply → Bool
is_strange (response status (some (object fs))) = false
is_strange (response status (some j)) = not (is_refusal status)
is_strange _ = false

-- whether a call returns or raises a `ClickException`
abbrev pub only_click : Result (Option Json) → Bool
only_click (ok v) = true
only_click (err Exn.click_error) = true
only_click (err _) = false

guarded_click :
    (b : Bool) (r : Result (Option Json))
    → only_click (if b then err Exn.click_error else r) ≡ (b || only_click r)
guarded_click true r = refl
guarded_click false r = refl

judged_click :
    (a b : Bool) (v w : Option Json)
    → only_click (if a then if b then ok v else ok w else err Exn.click_error) ≡ true
judged_click true true v w = refl
judged_click true false v w = refl
judged_click false b v w = refl

abbrev is_dictionary : Option Json → Bool
is_dictionary none = true
is_dictionary (some (object fs)) = true
is_dictionary (some _) = false

body_click : (v body : Option Json) → only_click (judged_body (ok v) body) ≡ is_dictionary body
body_click v none = refl
body_click v (some (object fs)) = judged_click _ _ _ v
body_click v (some null) = refl
body_click v (some (bool b)) = refl
body_click v (some (number s)) = refl
body_click v (some (text s)) = refl
body_click v (some (array js)) = refl

or_true : (b : Bool) → (b || true) ≡ true
or_true true = refl
or_true false = refl

or_false : (b : Bool) → (b || false) ≡ not (not b)
or_false true = refl
or_false false = refl

strange_status :
    (status : ℕ) (body : Option Json)
    → (is_refusal status || is_dictionary body) ≡ not (is_strange (response status body))
strange_status status none = or_true (is_refusal status)
strange_status status (some (object fs)) = or_true (is_refusal status)
strange_status status (some null) = or_false (is_refusal status)
strange_status status (some (bool b)) = or_false (is_refusal status)
strange_status status (some (number s)) = or_false (is_refusal status)
strange_status status (some (text s)) = or_false (is_refusal status)
strange_status status (some (array js)) = or_false (is_refusal status)

answer_click :
    (v : Option Json) (reply : Reply) → only_click (answer_of (ok v) reply) ≡ not (is_strange reply)
answer_click v (response status body) =
    guarded_click (is_refusal status) (judged_body (ok v) body)
    ∙ ap (λ b. is_refusal status || b) (body_click v body)
    ∙ strange_status status body
answer_click v no_connection = refl
answer_click v timed_out = refl
answer_click v other_failure = refl

-- Whatever the service answers, the listing of instances returns or raises a ClickException, but
-- for a response that is no refusal and whose body is JSON but no dictionary.
pub list_instances-clicks :
    (send : Str → Reply) (system_url : Str) (name version : Option Str)
    → only_click (list_instances send system_url name version)
      ≡ not (is_strange (send (list_url system_url name version)))
unfolding list_instances
list_instances-clicks send system_url name version =
    answer_click (some (array nil)) (send (list_url system_url name version))
