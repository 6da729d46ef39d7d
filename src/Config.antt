-- ===== src/Config.antt =====
-- The configuration of the command line, aenv/src/cli/utils/cli_config.py: the record `CLIConfig`
-- and the class `CLIConfigManager`, whose state is its configuration and the file under its path.
pub mod Store
pub mod Values
pub mod Tests
use aenvironment.Common.{
  ◌≡◌, Bool, true, false, Option, none, some, List, [], ◌∷◌, all, any, if◌then◌else◌,
}
use aenvironment.Common.Text.{Str, lit, str_eq}
use aenvironment.Common.Words.{split_at}
use aenvironment.Common.Json.{
  Json, null, bool, number, text, object, Fields, end, field, field?, put,
}
use aenvironment.Common.Paths.{get_at, set_at}
use aenvironment.Effect.{Result, ok, err}
use aenvironment.Effect.Exceptions.{Exn}

-- No field is validated, so that each may hold any value that JSON has.
pub record CliConfig : Type 0 where
  pub global_mode : Json
  pub build_config : Json
  pub storage_config : Json
  pub logging_config : Json
  pub hub_config : Json
  pub system_url : Json
  pub owner : Json

abbrev entry : Str → Str → Fields → Fields
entry k v fs = field k (text v) fs

abbrev pub default_build : Json
default_build = object (
    entry (lit "type") (lit "local") (
      field (lit "build_args")
        (object (entry (lit "socket") (lit "unix:///var/run/docker.sock") end))
        (field (lit "registry")
          (object (
            entry (lit "host") (lit "docker.io") (
              entry (lit "username") []
                (entry (lit "password") [] (entry (lit "namespace") (lit "aenv") end)))))
          end)))

abbrev pub default_storage : Json
default_storage = object (
    entry (lit "type") (lit "local")
      (field (lit "custom") (object (entry (lit "prefix") (lit "~/.aenv/envs") end)) end))

abbrev pub default_logging : Json
default_logging = object (
    entry (lit "level") (lit "INFO") (
      entry (lit "format") (lit "%(asctime)s - %(name)s - %(levelname)s - %(message)s")
        (field (lit "file") null (field (lit "console") (bool true) end))))

abbrev pub default_hub : Json
default_hub = object (
    entry (lit "hub_backend") (lit "https://localhost:8080")
      (entry (lit "api_key") [] (field (lit "timeout") (number (lit "30")) end)))

-- `if self.x is None: self.x = default`
abbrev pub or_default : Json → Json → Json
or_default null default = default
or_default j default = j

-- `__post_init__`
unfoldable pub post_init : CliConfig → CliConfig
post_init c = record {
  global_mode = c.global_mode;
  build_config = or_default c.build_config default_build;
  storage_config = or_default c.storage_config default_storage;
  logging_config = or_default c.logging_config default_logging;
  hub_config = or_default c.hub_config default_hub;
  system_url = c.system_url;
  owner = c.owner;
}

-- the keyword arguments of `CLIConfig`
abbrev pub config_keys : List Str
config_keys =
    lit "global_mode"
    ∷ lit "build_config"
    ∷ lit "storage_config"
    ∷ lit "logging_config"
    ∷ lit "hub_config"
    ∷ lit "system_url"
    ∷ lit "owner"
    ∷ []

unfoldable pub is_known : Str → Bool
unfolding str_eq
is_known k = any (str_eq k) config_keys

-- whether each key of a dictionary is one of them
unfoldable pub known_keys : Fields → Bool
unfolding is_known
known_keys end = true
known_keys (field k v fs) = let rest = known_keys fs in if is_known k then rest else false

abbrev pub value_or : Str → Json → Fields → Json
value_or k default fs = elim (field? k fs) [ none ↦ default | some v ↦ v ]

-- the arguments of a call, before `__post_init__`
unfoldable pub raw_config : Fields → CliConfig
unfolding field?
raw_config fs = record {
  global_mode = value_or (lit "global_mode") (text (lit "local")) fs;
  build_config = value_or (lit "build_config") null fs;
  storage_config = value_or (lit "storage_config") null fs;
  logging_config = value_or (lit "logging_config") null fs;
  hub_config = value_or (lit "hub_config") null fs;
  system_url = value_or (lit "system_url") null fs;
  owner = value_or (lit "owner") null fs;
}

-- `CLIConfig(**d)`, a `TypeError` where `d` is no dictionary or has another key
unfoldable pub make_config : Json → Option CliConfig
unfolding known_keys raw_config post_init
make_config (object fs) = if known_keys fs then some (post_init (raw_config fs)) else none
make_config _ = none

-- `CLIConfig()`
abbrev pub default_config : CliConfig
default_config = record {
  global_mode = text (lit "local");
  build_config = default_build;
  storage_config = default_storage;
  logging_config = default_logging;
  hub_config = default_hub;
  system_url = null;
  owner = null;
}

-- `asdict(config)`
abbrev pub fields_of : CliConfig → Fields
fields_of c = field (lit "global_mode") c.global_mode (
    field (lit "build_config") c.build_config (
      field (lit "storage_config") c.storage_config (
        field (lit "logging_config") c.logging_config (
          field (lit "hub_config") c.hub_config
            (field (lit "system_url") c.system_url (field (lit "owner") c.owner end))))))

-- What the file has: no JSON, or a value.
pub data Stored : Type 0 where
  malformed : Stored
  document : Json → Stored

pub record Manager : Type 0 where
  pub config : CliConfig
  pub file : Option Stored

-- `save_config`
unfoldable pub save_config : CliConfig → Manager → Manager
save_config c m = record { config = m.config; file = some (document (object (fields_of c))) }

-- a new default configuration, written to the file
abbrev pub fresh : Manager
fresh = record {
  config = default_config;
  file = some (document (object (fields_of default_config)));
}

-- the configuration that a JSON value of the file gives
abbrev pub loaded : Json → Option CliConfig → Manager
loaded j none = fresh
loaded j (some c) = record { config = c; file = some (document j) }

-- `_load_config`: the manager for what the file has; a file that cannot be read as a
-- configuration is written over with the default one.
unfoldable pub load_config : Option Stored → Manager
unfolding make_config
load_config none = fresh
load_config (some malformed) = fresh
load_config (some (document j)) = loaded j (make_config j)

-- `get`
unfoldable pub get : Str → Json → Manager → Json
unfolding get_at split_at
get key default m = elim (get_at (split_at b'.' key) (object (fields_of m.config))) [
  | none ↦ default
  | some v ↦ v
]

-- `self.config = CLIConfig(**config_dict)` and `self.save_config(self.config)`
abbrev pub replace_config : Option CliConfig → Manager → Result (Unit {0}) × Manager
replace_config none m = (err Exn.type_error, m)
replace_config (some c) m = (ok tt, save_config c (record { config = c; file = m.file }))

abbrev pub config_from : Option Json → Option CliConfig
config_from none = none
config_from (some j) = make_config j

-- `set`; an exception leaves the manager as it was, since `asdict` makes a copy.
unfoldable pub set : Str → Json → Manager → Result (Unit {0}) × Manager
unfolding set_at split_at save_config make_config
set key value m =
    replace_config (config_from (set_at (split_at b'.' key) value (object (fields_of m.config)))) m

-- `config_dict.update(updates)`
abbrev pub update : Fields → Fields → Fields
update end fs = fs
update (field k v us) fs = update us (put k v fs)

unfoldable pub update_from_dict : Fields → Manager → Result (Unit {0}) × Manager
unfolding save_config make_config put
update_from_dict updates m =
    replace_config (make_config (object (update updates (fields_of m.config)))) m
