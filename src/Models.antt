-- ===== src/Models.antt =====
-- aenv/src/aenv/core/models.py: the data that the scheduler's API exchanges. An `Optional` field
-- is an `Option`, a time is its text, and a field that the API spells `envName` is `env_name`.
use aenvironment.Common.{ℕ, Bool, Option, none, some, List, if◌then◌else◌}
use aenvironment.Common.Text.{Str, lit, str_eq}
use aenvironment.Common.Dict.{Dict}
use aenvironment.Common.Json.{Json}

pub data EnvStatus : Type 0 where
  pending creating running failed terminated : EnvStatus

-- `status.value`, which is also what a member of the `str` enumeration compares as
unfoldable pub status_value : EnvStatus → Str
status_value EnvStatus.pending = lit "Pending"
status_value EnvStatus.creating = lit "Creating"
status_value EnvStatus.running = lit "Running"
status_value EnvStatus.failed = lit "Failed"
status_value EnvStatus.terminated = lit "Terminated"

pub record Env : Type 0 where
  pub id : Str
  pub name : Str
  pub description : Str
  pub version : Str
  pub tags : Option (List Str)
  pub code_url : Str
  pub status : ℕ
  pub artifacts : Option (List (Dict Str))
  pub build_config : Option Json
  pub test_config : Option Json
  pub deploy_config : Option Json
  pub created_at : Str
  pub updated_at : Str

pub record EnvInstance : Type 0 where
  pub id : Str
  pub env : Option Env
  pub status : Str
  pub created_at : Str
  pub updated_at : Str
  pub ip : Option Str
  pub labels : Option (Dict Str)

pub record EnvInstanceCreateRequest : Type 0 where
  pub env_name : Str
  pub datasource : Str
  pub ttl : Str
  pub environment_variables : Option (Dict Str)
  pub arguments : Option (List Str)
  pub owner : Option Str
  pub labels : Option (Dict Str)

pub record EnvService : Type 0 where
  pub id : Str
  pub env : Option Env
  pub status : Str
  pub created_at : Str
  pub updated_at : Str
  pub replicas : ℕ
  pub available_replicas : ℕ
  pub service_url : Option Str
  pub owner : Option Str
  pub environment_variables : Option (Dict Str)
  pub pvc_name : Option Str

pub record EnvServiceCreateRequest : Type 0 where
  pub env_name : Str
  pub service_name : Option Str
  pub replicas : ℕ
  pub environment_variables : Option (Dict Str)
  pub owner : Option Str
  pub pvc_name : Option Str
  pub mount_path : Option Str
  pub storage_size : Option Str
  pub port : Option ℕ
  pub cpu_request : Option Str
  pub cpu_limit : Option Str
  pub memory_request : Option Str
  pub memory_limit : Option Str
  pub ephemeral_storage_request : Option Str
  pub ephemeral_storage_limit : Option Str

pub record EnvServiceUpdateRequest : Type 0 where
  pub replicas : Option ℕ
  pub image : Option Str
  pub environment_variables : Option (Dict Str)

-- `APIResponse`, with what its `data` validates as in place of `data` itself
pub record ApiResponse (D : Type 0) : Type 0 where
  pub success : Bool
  pub code : Option ℕ
  pub message : Option Str
  pub payload : Option D
  pub error_code : Option ℕ
  pub error_message : Option Str

-- `x or y` on texts that may be missing: the empty text counts as missing
abbrev or_else : Option Str → Str → Str
or_else none d = d
or_else (some s) d = if str_eq s (lit "") then d else s

unfoldable get_error_message : {D : Type 0} → ApiResponse D → Str
get_error_message r = or_else r.message (or_else r.error_message (lit "Unknown error"))
