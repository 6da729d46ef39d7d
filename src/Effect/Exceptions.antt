-- ===== src/Effect/Exceptions.antt =====
-- The exceptions that the SDK raises or handles (aenv/src/aenv/core/exceptions.py, and those of
-- the libraries that its `except` clauses name), without their messages.
use aenvironment.Common.{ℕ, Bool, true, false, ◌&&◌, leb, ltb}

pub data Exn : Type 0 where
  -- exceptions.py; the name `EnvironmentError` is the SDK's, not the built-in alias of `OSError`
  aenv_error : Exn
  tool_error : Exn
  environment_error : Exn
  tool_timeout_error : Exn
  tool_server_error : Exn
  unrecoverable_environment_error : Exn
  network_error : Exn
  validation_error : Exn
  -- httpx
  request_error : Exn
  http_status_error : ℕ → Exn
  -- cli/client/aenv_hub_client.py: `AEnvHubError` and the four that are derived from it
  hub_error : Exn
  hub_authentication_error : Exn
  hub_not_found_error : Exn
  hub_validation_error : Exn
  hub_rate_limit_error : Exn
  -- built in; pydantic's `ValidationError` and `json.JSONDecodeError` are `ValueError`s
  value_error : Exn
  type_error : Exn
  attribute_error : Exn
  recursion_error : Exn
  runtime_error : Exn
  timeout_error : Exn
  name_error : Exn
  -- click: `BadParameter` and `ClickException`
  bad_parameter : Exn
  click_error : Exn
  key_error : Exn
  index_error : Exn
  assertion_error : Exn
  -- swebench/src/eval/aenv_evaluation.py
  evaluation_error : Exn
  file_not_found_error : Exn
  other_error : Exn
  -- a `BaseException` that is no `Exception`
  cancelled_error : Exn

-- `except Exception`
abbrev pub is_exception : Exn → Bool
is_exception Exn.cancelled_error = false
is_exception _ = true

-- `except (Exception, asyncio.CancelledError)`
abbrev pub is_any : Exn → Bool
is_any _ = true

-- `except ValueError`
abbrev pub is_value_error : Exn → Bool
is_value_error Exn.value_error = true
is_value_error _ = false

-- `except (TypeError, ValueError)`
abbrev pub is_type_or_value_error : Exn → Bool
is_type_or_value_error Exn.type_error = true
is_type_or_value_error Exn.value_error = true
is_type_or_value_error _ = false

-- `except RuntimeError`
abbrev pub is_runtime_error : Exn → Bool
is_runtime_error Exn.runtime_error = true
is_runtime_error Exn.recursion_error = true
is_runtime_error _ = false

-- `except AEnvHubError`
abbrev pub is_hub_error : Exn → Bool
is_hub_error Exn.hub_error = true
is_hub_error Exn.hub_authentication_error = true
is_hub_error Exn.hub_not_found_error = true
is_hub_error Exn.hub_validation_error = true
is_hub_error Exn.hub_rate_limit_error = true
is_hub_error _ = false

-- `except httpx.RequestError`
abbrev pub is_request_error : Exn → Bool
is_request_error Exn.request_error = true
is_request_error _ = false

-- `isinstance(e, httpx.HTTPStatusError) and 400 <= e.response.status_code < 500`
abbrev pub is_client_error : Exn → Bool
is_client_error (Exn.http_status_error code) = leb 400 code && ltb code 500
is_client_error _ = false
