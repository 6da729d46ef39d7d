-- ===== src/Hub.antt =====
-- The client of the hub, aenv/src/cli/client/aenv_hub_client.py: `AEnvHubClient._make_request`,
-- the errors that it raises and the operations that are made of it.
pub mod Errors
pub mod Singleton
pub mod Tests
use aenvironment.Common.{
  ℕ, Bool, true, false, not, ◌&&◌, Option, none, some, is_some, List, [], ◌∷◌, ◌++◌, leb, ◌==◌,
  if◌then◌else◌,
}
use aenvironment.Common.Text.{Str, lit, str_eq}
use aenvironment.Common.Words.{lstrip_of}
use aenvironment.Common.Dict.{Dict}
use aenvironment.Common.Json.{
  Json, null, bool, number, text, array, object, nil, Fields, end, field, field?, truthy,
}
use aenvironment.Effect.{Result, ok, err}
use aenvironment.Effect.Exceptions.{Exn}

pub data EnvStatus : Type 0 where
  pending : EnvStatus
  completed : EnvStatus
  unknown : EnvStatus

-- `EnvStatus.parse_state`
unfoldable pub parse_state : Str → EnvStatus
unfolding str_eq
parse_state raw_state =
    if str_eq raw_state (lit "pending")
    then pending
    else if str_eq raw_state (lit "completed")
    then completed
    else unknown

-- `EnvStatus.running`
abbrev pub is_running : EnvStatus → Bool
is_running pending = true
is_running _ = false

-- A response: its status, its text, and the JSON that the text is, if it is JSON.
pub record Response : Type 0 where
  pub status_code : ℕ
  pub body : Str
  pub json : Option Json

-- What the session gives after its own retries: one of the exceptions of `requests`, which are
-- all a `RequestException`, or a response.
pub data Reply : Type 0 where
  timed_out : Reply
  connection_error : Reply
  request_exception : Reply
  responded : Response → Reply

-- A request, before `urljoin` puts its endpoint under the client's URL.
pub record HubRequest : Type 0 where
  pub verb : Str
  pub endpoint : Str
  pub json : Option Fields
  pub params : Dict Str

-- `response.json()`, with the text in its place where it is no JSON
abbrev pub json_data : Str → Option Json → Json
json_data body none = object (field (lit "message") (text body) end)
json_data body (some j) = j

abbrev pub error_of : ℕ → Exn
error_of status_code =
    if status_code == 401
    then Exn.hub_authentication_error
    else if status_code == 404
    then Exn.hub_not_found_error
    else if status_code == 422
    then Exn.hub_validation_error
    else if status_code == 429
    then Exn.hub_rate_limit_error
    else Exn.hub_error

-- The exception of `_handle_error_response`, which takes the message of a dictionary.
unfoldable pub handle_error_response : ℕ → Json → Exn
handle_error_response status_code (object fs) = error_of status_code
handle_error_response status_code _ = Exn.attribute_error

abbrev pub is_success : Option Json → Bool
is_success none = false
is_success (some j) = truthy j

abbrev pub or_empty : Option Json → Json
or_empty none = object end
or_empty (some j) = j

-- `json_data.get("success", False)` and `json_data.get("data", {})`
unfoldable pub payload : Json → Result Json
unfolding field? truthy
payload (object fs) =
    if is_success (field? (lit "success") fs)
    then ok (or_empty (field? (lit "data") fs))
    else err Exn.hub_error
payload _ = err Exn.attribute_error

abbrev pub read_response : ℕ → Json → Result Json
read_response status_code j =
    if status_code == 204
    then ok (object end)
    else if leb 400 status_code
    then err (handle_error_response status_code j)
    else payload j

-- with the three `except` clauses
unfoldable pub read_reply : Reply → Result Json
unfolding handle_error_response payload
read_reply (responded r) = read_response r.status_code (json_data r.body r.json)
read_reply _ = err Exn.hub_error

-- `response.get(key, default)`, an `AttributeError` for what is no dictionary
abbrev pub get_or : Str → Json → Result Json → Result Json
get_or key default (err e) = err e
get_or key default (ok (object fs)) = ok (elim (field? key fs) [ none ↦ default | some v ↦ v ])
get_or key default (ok _) = err Exn.attribute_error

abbrev strings : List Str → Str
strings [] = []
strings (s ∷ []) = s
strings (s ∷ t ∷ ss) = s ++ lit "," ++ strings (t ∷ ss)

-- `style` of `apply_sign_url`
abbrev style_suffix : Option Str → Str
style_suffix (some (c ∷ s)) = lit "?style=" ++ c ∷ s
style_suffix _ = []

unfoldable pub request_of : Str → Str → Option Fields → Dict Str → HubRequest
unfolding lstrip_of
request_of method endpoint body params = record {
  verb = method;
  endpoint = lstrip_of b'/' endpoint;
  json = body;
  params = params;
}

-- `meta_data.get(key)` in an f-string; `show` is `str` of a value of JSON.
unfoldable shown : (Json → Str) → Str → Fields → Str
unfolding field?
shown show key fs = elim (field? key fs) [ none ↦ lit "None" | some j ↦ show j ]

-- The session sends a request and gives the reply.
module _ {S : Type 0} (send : HubRequest → S → Reply × S) where
  -- No caller gives `files`.
  unfoldable pub make_request : Str → Str → Option Fields → Dict Str → S → Result Json × S
  unfolding read_reply request_of
  make_request method endpoint body params s =
      let (reply, t) = send (request_of method endpoint body params) s in (read_reply reply, t)

  unfoldable pub check_env : Str → Str → S → Result Json × S
  unfolding make_request field?
  check_env name version s =
      let (r, t) =
        make_request (lit "GET") (lit "/env/" ++ name ++ lit "/" ++ version ++ lit "/exists") none
          [] s in
      (get_or (lit "exists") (bool false) r, t)

  -- with the decimal texts of the two numbers
  unfoldable pub list_environments : Str → Str → S → Result Json × S
  unfolding make_request
  list_environments limit offset s =
      make_request (lit "GET") (lit "env") none ((lit "limit", limit) ∷ (lit "offset", offset) ∷ [])
        s

  abbrev pub env_path : Str → Str → Str
  env_path name version = lit "/env/" ++ name ++ lit "/" ++ version

  unfoldable pub get_environment : Str → Str → S → Result Json × S
  unfolding make_request
  get_environment name version = make_request (lit "GET") (env_path name version) none []

  unfoldable pub state_environment : Str → Str → S → Result Json × S
  unfolding make_request
  state_environment name version =
      make_request (lit "GET") (env_path name version ++ lit "/status") none []

  unfoldable pub create_environment : Fields → S → Result Json × S
  unfolding make_request
  create_environment meta_data = make_request (lit "POST") (lit "/env") (some meta_data) []

  unfoldable pub update_environment : (Json → Str) → Fields → S → Result Json × S
  unfolding make_request shown
  update_environment show meta_data =
      make_request (lit "PUT")
        (env_path (shown show (lit "name") meta_data) (shown show (lit "version") meta_data))
        (some meta_data) []

  unfoldable pub release_environment : Str → Str → S → Result Json × S
  unfolding make_request
  release_environment name version =
      make_request (lit "POST") (env_path name version ++ lit "/release") none []

  abbrev deleted : Result Json → Result Bool
  deleted (ok j) = ok true
  deleted (err e) = err e

  unfoldable pub delete_environment : Str → S → Result Bool × S
  unfolding make_request
  delete_environment name s =
      let (r, t) = make_request (lit "DELETE") (lit "/env/" ++ name) none [] s in (deleted r, t)

  unfoldable pub clone_environment : Str → Str → Str → S → Result Json × S
  unfolding make_request
  clone_environment source_name target_name description =
      make_request (lit "POST") (lit "/api/v1/environments/clone")
        (some (
          field (lit "source_name") (text source_name) (
            field (lit "target_name") (text target_name)
              (field (lit "description") (text description) end))))
        []

  abbrev search_params : Str → List Str → Dict Str
  search_params query [] = (lit "q", query) ∷ []
  search_params query (t ∷ ts) = (lit "q", query) ∷ (lit "tags", strings (t ∷ ts)) ∷ []

  unfoldable pub search_environments : Str → List Str → S → Result Json × S
  unfolding make_request field?
  search_environments query tags s =
      let (r, t) =
        make_request (lit "GET") (lit "/api/v1/environments/search") none (search_params query tags)
          s in
      (get_or (lit "environments") (array nil) r, t)

  unfoldable pub apply_sign_url : Str → Str → Option Str → S → Result Json × S
  unfolding make_request
  apply_sign_url name version style =
      make_request (lit "POST") (env_path name version ++ lit "/sign" ++ style_suffix style) none []
