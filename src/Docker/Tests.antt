-- ===== src/Docker/Tests.antt =====
-- Tests of the client of a container.
use aenvironment.Common.{◌≡◌, refl, ℕ, true, none, some, List, [], ◌∷◌, any, leb, if◌then◌else◌}
use aenvironment.Common.Text.{Str, lit, str_eq}
use aenvironment.Common.Dict.{Dict, lookup}
use aenvironment.Common.Json.{Json, text, object, end, field}
use aenvironment.Effect.{Result, ok, err}
use aenvironment.Effect.Exceptions.{Exn}
use aenvironment.Docker.{
  ContainerConfig, DockerClient, Completed, new_client, default_config, start_container, cleanup,
  variables, exec_command,
}
use aenvironment.Docker.Load.{
  Listing, load_container, full_name, several, single, retried, searched, ids_in,
}
use aenvironment.Docker.Search.{Outcome, load_container-Outcome}
use aenvironment.Docker.Variables.{assigned, first_some, assigned-variables}
use aenvironment.Docker.Cleanup.{constructed, starts, Made-cleanup}

abbrev environ : Dict Str
environ =
    (lit "POD_NAME", lit "p")
    ∷ (lit "POD_NAMESPACE", lit "n")
    ∷ (lit "HOME", lit "/root")
    ∷ (lit "LANG", lit "C")
    ∷ []

abbrev line : Json
line =
    object
      (field (lit "Names") (text (lit "k8s://n/p/main")) (field (lit "ID") (text (lit "abc")) end))

-- The container is listed from the third try on, in the second namespace.
abbrev list : ℕ → Str → Listing
list n ns = record {
  succeeded = true;
  lines = if str_eq ns (lit "b") then none ∷ (if (leb 2 n) then some line else none) ∷ [] else [];
}

test_load :
    load_container (λ n ns. ok (list n ns)) environ (several (lit "a" ∷ lit "b" ∷ [])) (lit "main")
    ≡ (ok (text (lit "abc"), lit "b"), 2)
unfolding load_container str_eq retried searched ids_in
test_load = refl

test_no_pod :
    load_container (λ n ns. ok (list n ns)) [] (single (lit "b")) (lit "main")
    ≡ (err Exn.runtime_error, 0)
unfolding load_container str_eq
test_no_pod = refl

load_container-Outcome_example :
    Outcome list (lit "a" ∷ lit "b" ∷ []) (full_name environ (lit "main")) (
      load_container
        (λ n ns. ok (list n ns))
        environ
        (several (lit "a" ∷ lit "b" ∷ []))
        (lit "main"))
unfolding lookup str_eq
load_container-Outcome_example =
    load_container-Outcome list environ (lit "a") (lit "b" ∷ []) (lit "main") refl

abbrev config : ContainerConfig
config = record {
  image = lit "image";
  cwd = lit "/";
  env = (lit "LANG", lit "en") ∷ [];
  forward_env = lit "HOME" ∷ lit "LANG" ∷ lit "EDITOR" ∷ [];
  timeout = 30;
  executable = lit "nerdctl";
  run_args = [];
  container_timeout = lit "2h";
  namespace = [];
  container_id = lit "abc";
  pull_timeout = some 60;
}

test_command :
    exec_command (lit "ls") [] config environ
    ≡ lit "nerdctl"
      ∷ lit "exec"
      ∷ lit "-w"
      ∷ lit "/"
      ∷ lit "-e"
      ∷ lit "HOME=/root"
      ∷ lit "-e"
      ∷ lit "LANG=C"
      ∷ lit "-e"
      ∷ lit "LANG=en"
      ∷ lit "abc"
      ∷ lit "bash"
      ∷ lit "-lc"
      ∷ lit "ls"
      ∷ []
unfolding exec_command str_eq
test_command = refl

assigned-variables_example :
    assigned (lit "LANG") (variables config environ)
    ≡ first_some
        (assigned (lit "LANG") config.env)
        (if any (str_eq (lit "LANG")) config.forward_env then lookup (lit "LANG") environ else none)
assigned-variables_example = assigned-variables (lit "LANG") config environ

abbrev run : List Str → ℕ → Result Completed
run command timeout =
    ok record { returncode = Json.number (lit "0"); stdout = lit "abc "; stderr = none }

abbrev client : DockerClient
client = (start_container run (lit "minisweagent-1") (new_client config)).1

test_started : client.config.container_id ≡ lit "abc"
unfolding start_container new_client
test_started = refl

-- The class of the source has no `pull_timeout`.
test_not_started :
    (start_container run
      (lit "minisweagent-1")
      (new_client (default_config (lit "nerdctl") [] []))).0
    ≡ err Exn.attribute_error
unfolding start_container new_client default_config
test_not_started = refl

Made-cleanup_example : cleanup client [] ≡ []
Made-cleanup_example =
    Made-cleanup client []
      (starts run (lit "minisweagent-1") (new_client config) (constructed config))
