-- ===== src/Hub/Singleton/Lock.antt =====
-- That the lock of the shared client of the hub is free between the calls.
use aenvironment.Common.{
  ◌≡◌, ◌≢◌, refl, ℕ, ◌<◌, true, false, Option, none, some, is_some, ◌||◌, arith,
}
use aenvironment.Common.Text.{Str}
use aenvironment.Effect.{Result, ok, err}
use aenvironment.Effect.Exceptions.{Exn}
use aenvironment.Config.{Manager}
use aenvironment.Hub.Singleton.{
  Client, Hub, create_client_instance, settled, first_load, shared, load_client, reset_singleton,
}
use aenvironment.Hub.Singleton.Shared.{Has, made_id, create_cases}

-- The lock is free, and the shared instance is older than the next client.
abbrev pub Free : Hub → Type 0
Free hub = (hub.lock ≡ false) × ((c : Client) → Has c hub → c.id < hub.next_id)

-- the outcome of a call in such a state: no RuntimeError, and such a state again
abbrev Good : Result Client × Hub → Type 0
Good r = (r.0 ≢ err Exn.runtime_error) × Free r.1

-- The states that calls of `load_client` and `reset_singleton` reach from the start of a program.
pub data Reached : Hub → Type 0 where
  starts :
      (manager : Manager) (hub_backend : Option Str) (n : ℕ)
      → Reached (record {
        instance = none;
        lock = false;
        manager = manager;
        hub_backend = hub_backend;
        next_id = n;
      })
  loads :
      (base_url api_key : Option Str) (hub : Hub)
      → Reached hub
      → Reached (load_client base_url api_key hub).1
  resets : (hub : Hub) → Reached hub → Reached (reset_singleton hub)

create-Good :
    (base_url api_key : Option Str) (hub : Hub)
    → Free hub
    → Good (create_client_instance base_url api_key hub)
create-Good b k hub (l, f) =
    create_cases hub Good (λ e. absurd (cc), (l, f))
      (λ url k t. (λ e. absurd (cc), (l, λ c h. ground (arith, f c h)))) b k

-- what `settled` is given
abbrev Pending : Result Client × Hub → Type 0
Pending r =
    (r.0 ≢ err Exn.runtime_error)
    × ((c : Client) → r.0 ≡ ok c → c.id < r.1.next_id)
    × ((c : Client) → Has c r.1 → c.id < r.1.next_id)

create_Pending :
    (base_url api_key : Option Str) (hub : Hub)
    → ((c : Client) → Has c hub → c.id < hub.next_id)
    → Pending (create_client_instance base_url api_key hub)
create_Pending b k hub f =
    create_cases hub Pending (λ e. absurd (cc), λ c e. absurd (cc), f)
      (λ url k t. (
        λ e. absurd (cc),
        λ c e. omega (arith, made_id url k t hub c e),
        λ c h. omega (arith, f c h),
      ))
      b k

settled-Good : (r : Result Client × Hub) → Pending r → Good (settled r)
settled-Good (ok d, hub) (e, l, f) = (e, (refl, λ c h. l c (cc)))
settled-Good (err x, hub) (e, l, f) = (e, (refl, f))

first-Good : (hub : Hub) → Free hub → Good (first_load hub.lock hub)
first-Good hub (l, f) =
    rw l (settled-Good _ (create_Pending none none (record hub { lock = true }) f))

shared-Good : (o : Option Client) (hub : Hub) → Free hub → Good (shared o hub)
shared-Good (some c) hub h = (λ e. absurd (cc), h)
shared-Good none hub h = first-Good hub h

load-Good :
    (base_url api_key : Option Str) (hub : Hub) → Free hub → Good (load_client base_url api_key hub)
unfolding load_client
load-Good none none hub h = shared-Good hub.instance hub h
load-Good (some b) k hub h = create-Good (some b) k hub h
load-Good none (some k) hub h = create-Good none (some k) hub h

-- In every state that calls of load_client and reset_singleton reach, the lock is free and the
-- shared instance is older than the next client.
Reached-Free : (hub : Hub) → Reached hub → Free hub
unfolding reset_singleton
Reached-Free hub (starts manager hub_backend n) = (refl, λ c h. absurd (cc))
Reached-Free hub (loads b k before r) = (load-Good b k before (Reached-Free before r)).1
Reached-Free hub (resets before r) = (refl, λ c h. absurd (cc))

made_number :
    (base_url api_key : Option Str) (hub : Hub) (d : Client)
    → (create_client_instance base_url api_key hub).0 ≡ ok d
    → d.id ≡ hub.next_id
made_number b k hub =
    create_cases hub (λ r. (d : Client) → r.0 ≡ ok d → d.id ≡ hub.next_id) (λ d e. absurd (cc))
      (λ url key t d e. made_id url key t hub d e) b k

other_number :
    (base_url api_key : Option Str) (hub : Hub) (d : Client)
    → (is_some base_url || is_some api_key) ≡ true
    → (load_client base_url api_key hub).0 ≡ ok d
    → d.id ≡ hub.next_id
unfolding load_client
other_number none none hub d h e = absurd (cc)
other_number (some b) k hub d h e = made_number (some b) k hub d e
other_number none (some k) hub d h e = made_number none (some k) hub d e

-- In every state that calls of load_client and reset_singleton reach, the lock is free, load_client
-- does not raise its RuntimeError, whatever its arguments, and a client that it makes where it is
-- given an argument is another object than the shared one.
pub Reached-Good :
    (hub : Hub)
    → Reached hub
    → (hub.lock ≡ false)
      × ((base_url api_key : Option Str)
          → (load_client base_url api_key hub).0 ≢ err Exn.runtime_error)
      × ((base_url api_key : Option Str) (c d : Client)
          → (is_some base_url || is_some api_key) ≡ true
          → hub.instance ≡ some c
          → (load_client base_url api_key hub).0 ≡ ok d
          → d.id ≢ c.id)
Reached-Good hub r =
    let free = Reached-Free hub r in
    (
      free.0,
      λ b k. (load-Good b k hub free).0,
      λ b k c d h e f. ground (arith, free.1 c e, other_number b k hub d h f),
    )
