-- ===== src/Config/Store.antt =====
-- The file of the configuration: what a manager writes, a new manager reads.
use aenvironment.Common.{◌≡◌, Option, none, some}
use aenvironment.Common.Text.{Str}
use aenvironment.Common.Json.{Json, Fields}
use aenvironment.Config.{CliConfig, post_init, Stored, Manager, load_config, set, update_from_dict}

-- A configuration has no default left to fill in.
abbrev Made : Option CliConfig → Type 0
Made none = Unit
Made (some c) = post_init c ≡ c

-- What the file has gives the configuration of the manager.
abbrev pub Synced : Manager → Type 0
Synced m = (load_config m.file).config ≡ m.config

-- The managers that a program can have: a manager for what the file has, and those after the
-- calls that write.
pub data Reached : Manager → Type 0 where
  loads : (s : Option Stored) → Reached (load_config s)
  sets : (key : Str) (value : Json) (m : Manager) → Reached m → Reached (set key value m).1
  updates : (fs : Fields) (m : Manager) → Reached m → Reached (update_from_dict fs m).1
