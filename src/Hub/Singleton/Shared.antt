-- ===== src/Hub/Singleton/Shared.antt =====
-- That the clients of the hub share one instance.
use aenvironment.Common.{
  ◌≡◌, refl, ◌∙◌, sym, suc, Bool, true, false, Option, none, some, List, [], ◌∷◌, arith,
}
use aenvironment.Common.Text.{Str}
use aenvironment.Common.Words.{rstrip_of}
use aenvironment.Common.Json.{Json, null, bool, number, text, array, object}
use aenvironment.Effect.{Result, ok, err}
use aenvironment.Effect.Exceptions.{Exn}
use aenvironment.Hub.Singleton.{
  Client, Hub, new_client, configured, create_client_instance, settled, first_load, shared,
  load_client,
}

abbrev pub made : Str → Json → Json → Hub → Client
unfolding rstrip_of
made url api_key timeout hub = record {
  id = hub.next_id;
  base_url = rstrip_of b'/' url;
  api_key = api_key;
  timeout = timeout;
}

pub made_id :
    (url : Str) (api_key timeout : Json) (hub : Hub) (c : Client)
    → ◌≡◌ {A = Result Client} (ok (made url api_key timeout hub)) (ok c)
    → c.id ≡ hub.next_id
unfolding made
made_id url api_key timeout hub c e = ground (arith, e)

-- The making of a client raises an AttributeError and changes nothing, or gives a new client.
module _ (hub : Hub) (P : Result Client × Hub → Type 0) (raised : P (err Exn.attribute_error, hub))
    (given_client : (url : Str) (api_key timeout : Json)
      → P (ok (made url api_key timeout hub), record hub { next_id = suc hub.next_id })) where
  new_client_cases : (url api_key timeout : Json) → P (new_client url api_key timeout hub)
  unfolding new_client made
  new_client_cases (text s) api_key timeout = given_client s api_key timeout
  new_client_cases null api_key timeout = raised
  new_client_cases (bool b) api_key timeout = raised
  new_client_cases (number s) api_key timeout = raised
  new_client_cases (array s) api_key timeout = raised
  new_client_cases (object s) api_key timeout = raised

  configured_cases :
      (base_url api_key : Option Str) (hub_config : Json)
      → P (configured base_url api_key hub_config hub)
  unfolding configured
  configured_cases base_url api_key (object fs) = new_client_cases _ _ _
  configured_cases base_url api_key null = raised
  configured_cases base_url api_key (bool b) = raised
  configured_cases base_url api_key (number s) = raised
  configured_cases base_url api_key (text s) = raised
  configured_cases base_url api_key (array s) = raised

  pub create_cases :
      (base_url api_key : Option Str) → P (create_client_instance base_url api_key hub)
  unfolding create_client_instance
  create_cases (some b) (some k) = new_client_cases (text b) (text k) _
  create_cases (some b) none = configured_cases (some b) none hub.manager.config.hub_config
  create_cases none (some k) = configured_cases none (some k) hub.manager.config.hub_config
  create_cases none none = configured_cases none none hub.manager.config.hub_config

abbrev pub Has : Client → Hub → Type 0
Has c hub = hub.instance ≡ some c

pub shared-Has :
    (c : Client) (o : Option Client) (hub : Hub) → o ≡ some c → shared o hub ≡ (ok c, hub)
shared-Has c (some d) hub e = cc
shared-Has c none hub e = absurd (cc)

create-Has :
    (c : Client) (base_url api_key : Option Str) (hub : Hub)
    → Has c hub
    → Has c (create_client_instance base_url api_key hub).1
create-Has c b k hub h = create_cases hub (λ r. Has c r.1) h (λ url k t. h) b k

load-Has :
    (c : Client) (base_url api_key : Option Str) (hub : Hub)
    → Has c hub
    → Has c (load_client base_url api_key hub).1
unfolding load_client
load-Has c none none hub h = rw (shared-Has c hub.instance hub h) h
load-Has c (some b) k hub h = create-Has c (some b) k hub h
load-Has c none (some k) hub h = create-Has c none (some k) hub h

settled-Has : (c : Client) (r : Result Client × Hub) → (settled r).0 ≡ ok c → Has c (settled r).1
settled-Has c (ok d, hub) h = cc
settled-Has c (err e, hub) h = absurd (cc)

first-Has :
    (c : Client) (b : Bool) (hub : Hub) → (first_load b hub).0 ≡ ok c → Has c (first_load b hub).1
first-Has c true hub h = absurd (cc)
first-Has c false hub h = settled-Has c _ h

loaded-Has :
    (c : Client) (o : Option Client) (hub : Hub)
    → o ≡ hub.instance
    → (shared o hub).0 ≡ ok c
    → Has c (shared o hub).1
loaded-Has c (some d) hub e h = sym e ∙ cc
loaded-Has c none hub e h = first-Has c hub.lock hub h

-- calls of `load_client`, one after the other
abbrev pub load_all : List (Option Str × Option Str) → Hub → Hub
load_all [] hub = hub
load_all ((base_url, api_key) ∷ calls) hub = load_all calls (load_client base_url api_key hub).1

load_all-Has :
    (c : Client) (calls : List (Option Str × Option Str)) (hub : Hub)
    → Has c hub
    → Has c (load_all calls hub)
load_all-Has c [] hub h = h
load_all-Has c ((b, k) ∷ calls) hub h = load_all-Has c calls _ (load-Has c b k hub h)

-- Where load_client without arguments gives a client, it gives the same one, and changes nothing,
-- after any further calls of load_client with and without arguments.
pub load_client-single :
    (hub : Hub) (c : Client) (calls : List (Option Str × Option Str))
    → (load_client none none hub).0 ≡ ok c
    → load_client none none (load_all calls (load_client none none hub).1)
      ≡ (ok c, load_all calls (load_client none none hub).1)
unfolding load_client
load_client-single hub c calls h =
    let later = load_all-Has c calls _ (loaded-Has c hub.instance hub refl h) in
    shared-Has c _ _ later
