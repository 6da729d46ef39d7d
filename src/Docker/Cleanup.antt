-- ===== src/Docker/Cleanup.antt =====
-- What becomes of the containers that a client starts.
use aenvironment.Common.{◌≡◌, refl, ℕ, Option, none, some, List}
use aenvironment.Common.Text.{Str}
use aenvironment.Effect.{Result, ok, err}
use aenvironment.Docker.{
  ContainerConfig, DockerClient, Completed, new_client, start_container, started, start_within,
  cleanup,
}

-- The clients that the calls of the constructor and of `_start_container` give.
pub data Made : DockerClient → Type 0 where
  constructed : (config : ContainerConfig) → Made (new_client config)
  starts :
      (run : List Str → ℕ → Result Completed) (name : Str) (client : DockerClient)
      → Made client
      → Made (start_container run name client).1

started_unset :
    (r : Result Completed) (client : DockerClient)
    → client.own_container_id ≡ none
    → (started r client).1.own_container_id ≡ none
started_unset (ok r) client h = h
started_unset (err e) client h = h

within_unset :
    (run : List Str → ℕ → Result Completed) (name : Str) (o : Option ℕ) (client : DockerClient)
    → client.own_container_id ≡ none
    → (start_within run name o client).1.own_container_id ≡ none
within_unset run name none client h = h
within_unset run name (some t) client h = started_unset _ client h

start_unset :
    (run : List Str → ℕ → Result Completed) (name : Str) (client : DockerClient)
    → client.own_container_id ≡ none
    → (start_container run name client).1.own_container_id ≡ none
unfolding start_container
start_unset run name client h = within_unset run name client.config.pull_timeout client h

Made-unset : (client : DockerClient) → Made client → client.own_container_id ≡ none
unfolding new_client
Made-unset client (constructed config) = refl
Made-unset client (starts run name before m) = start_unset run name before (Made-unset before m)

-- Whatever containers a client has started or was made for, cleanup starts no command.
pub Made-cleanup :
    (client : DockerClient) (commands : List Str) → Made client → cleanup client commands ≡ commands
unfolding cleanup
Made-cleanup client commands m = rw (Made-unset client m) refl
