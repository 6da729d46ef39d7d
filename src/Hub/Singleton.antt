-- ===== src/Hub/Singleton.antt =====
-- The single instance of the client of the hub, aenv/src/cli/client/aenv_hub_client.py: the class
-- attributes of `AEnvHubClient` and its class methods `load_client`, `_create_client_instance`,
-- `reset_singleton` and `get_instance`.
pub mod Shared
pub mod Lock
use aenvironment.Common.{
  ◌≡◌, ◌≢◌, refl, ap, ◌∙◌, ℕ, zero, suc, ◌+◌, ◌<◌, Bool, true, false, not, ◌&&◌, ◌||◌, Option, none,
  some, is_some, List, [], ◌∷◌, if◌then◌else◌, arith,
}
use aenvironment.Common.Text.{Str, lit}
use aenvironment.Common.Words.{rstrip_of}
use aenvironment.Common.Json.{
  Json, null, bool, number, text, array, object, Fields, field, end, field?,
}
use aenvironment.Effect.{Result, ok, err}
use aenvironment.Effect.Exceptions.{Exn}
use aenvironment.Config.{Manager, load_config}

-- A client: which object it is, and what it was made with.
pub record Client : Type 0 where
  pub id : ℕ
  pub base_url : Str
  pub api_key : Json
  pub timeout : Json

-- The attributes of the class, the manager of the configuration, the variable `HUB_BACKEND`, and
-- the number of the next object.
pub record Hub : Type 0 where
  pub instance : Option Client
  pub lock : Bool
  pub manager : Manager
  pub hub_backend : Option Str
  pub next_id : ℕ

-- `AEnvHubClient(...)`, which takes `base_url.rstrip("/")`
unfoldable pub new_client : Json → Json → Json → Hub → Result Client × Hub
unfolding rstrip_of
new_client (text url) api_key timeout hub = (
  ok (record {
    id = hub.next_id;
    base_url = rstrip_of b'/' url;
    api_key = api_key;
    timeout = timeout;
  }),
  record hub { next_id = suc hub.next_id },
)
new_client _ api_key timeout hub = (err Exn.attribute_error, hub)

abbrev pub given : Option Str → Json → Json
given none default = default
given (some s) default = text s

-- `hub_config.get(key)`
unfoldable pub setting : Str → Fields → Json
unfolding field?
setting key fs = elim (field? key fs) [ none ↦ null | some j ↦ j ]

unfoldable pub timeout_of : Fields → Json
unfolding field?
timeout_of fs = elim (field? (lit "timeout") fs) [ none ↦ number (lit "30") | some j ↦ j ]

-- `hub_backend if hub_backend else hub_config.get("hub_backend")`
unfoldable pub backend : Option Str → Fields → Json
unfolding setting
backend (some (c ∷ s)) fs = text (c ∷ s)
backend _ fs = setting (lit "hub_backend") fs

-- The instance of a configuration, which has to be a dictionary: where it is read at all, its
-- `get` is called for the timeout at the latest.
unfoldable pub configured : Option Str → Option Str → Json → Hub → Result Client × Hub
unfolding new_client setting timeout_of backend
configured base_url api_key (object fs) hub =
    new_client (given base_url (backend hub.hub_backend fs))
      (given api_key (setting (lit "api_key") fs)) (timeout_of fs) hub
configured base_url api_key _ hub = (err Exn.attribute_error, hub)

unfoldable pub create_client_instance : Option Str → Option Str → Hub → Result Client × Hub
unfolding new_client configured
create_client_instance (some base_url) (some api_key) hub =
    new_client (text base_url) (text api_key) (number (lit "30")) hub
create_client_instance base_url api_key hub =
    configured base_url api_key hub.manager.config.hub_config hub

-- `cls._singleton_instance = ...` and the `finally` clause
abbrev pub settled : Result Client × Hub → Result Client × Hub
settled (ok c, hub) = (ok c, record hub { instance = some c; lock = false })
settled (err e, hub) = (err e, record hub { lock = false })

-- `load_client` with no arguments, where there is no instance, for whether the lock is taken
abbrev pub first_load : Bool → Hub → Result Client × Hub
first_load true hub = (err Exn.runtime_error, hub)
first_load false hub = settled (create_client_instance none none (record hub { lock = true }))

abbrev pub shared : Option Client → Hub → Result Client × Hub
shared (some c) hub = (ok c, hub)
shared none hub = first_load hub.lock hub

unfoldable pub load_client : Option Str → Option Str → Hub → Result Client × Hub
unfolding create_client_instance
load_client none none hub = shared hub.instance hub
load_client base_url api_key hub = create_client_instance base_url api_key hub

unfoldable pub reset_singleton : Hub → Hub
reset_singleton hub = record hub { instance = none; lock = false }

abbrev pub get_client_instance : Hub → Option Client
get_client_instance hub = hub.instance
