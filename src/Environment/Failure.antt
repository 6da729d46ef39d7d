-- ===== src/Environment/Failure.antt =====
-- What `initialize` of environment.py leaves behind where it fails.
use aenvironment.Common.{
  ◌≡◌, Bool, true, false, Option, none, some, inl, inr, Bool-cases, if◌then◌else◌, arith,
}
use aenvironment.Effect.{
  Result, ok, err, pure, raise, gets, ◌>>=◌, ◌>>◌, follow, try_except, handle,
}
use aenvironment.Effect.Exceptions.{Exn, is_exception, is_any}
use aenvironment.Effect.Triple.{Good}
use aenvironment.Effect.Raises.{Raises, Fails, raises_rules, Raises-modify}
use aenvironment.Models.{EnvInstance}
use aenvironment.World.{Oracle}
use aenvironment.Scheduler.{SchedulerClient}
use aenvironment.Environment.{Sys, update}
use aenvironment.Environment.Session.{forget_client, set_active}
use aenvironment.Environment.Lifecycle.{
  set_instance, set_client, set_initialized, release_mcp, delete_instance, release_scheduler,
  release, start, start_or_release, initialize, initialize_by,
}
use aenvironment.Environment.Release.{Cleared, release-Triple}

module _ (o : Oracle) where
  -- `release` passes on nothing but a cancellation.
  abbrev IsBase : Exn → Type 0
  IsBase e = is_exception e ≡ false

  IsBase-of_any : (e : Exn) → is_any e ≡ false → IsBase e
  IsBase-of_any e h = absurd (let f : true ≡ false = h in cc)

  IsBase-of_exception : (e : Exn) → is_exception e ≡ false → IsBase e
  IsBase-of_exception e h = h

  forget-Raises : Raises IsBase forget_client
  unfolding forget_client update
  forget-Raises = Raises-modify _

  active-Raises : (b : Bool) → Raises IsBase (set_active b)
  unfolding set_active update
  active-Raises b = Raises-modify _

  instance-Raises : (i : Option EnvInstance) → Raises IsBase (set_instance i)
  unfolding set_instance update
  instance-Raises i = Raises-modify _

  client-Raises : (c : Option SchedulerClient) → Raises IsBase (set_client c)
  unfolding set_client update
  client-Raises c = Raises-modify _

  initialized-Raises : (b : Bool) → Raises IsBase (set_initialized b)
  unfolding set_initialized update
  initialized-Raises b = Raises-modify _

  release_mcp-Raises : Raises IsBase (release_mcp o)
  unfolding release_mcp
  release_mcp-Raises = search (raises_rules, IsBase-of_any, forget-Raises, active-Raises) depth 12

  delete-Raises :
      (c : SchedulerClient) (i : Option EnvInstance) → Raises IsBase (delete_instance o c i)
  unfolding delete_instance
  delete-Raises c none = search raises_rules
  delete-Raises c (some i) = search (raises_rules, IsBase-of_exception) depth 12

  release_scheduler-Raises : (c : Option SchedulerClient) → Raises IsBase (release_scheduler o c)
  unfolding release_scheduler
  release_scheduler-Raises none = search raises_rules
  release_scheduler-Raises (some c) =
      search (raises_rules, IsBase-of_exception, delete-Raises, client-Raises) depth 12

  release-Raises : Raises IsBase (release o)
  unfolding release
  release-Raises =
      search
        (
          raises_rules, release_mcp-Raises, release_scheduler-Raises, instance-Raises,
          initialized-Raises,
        )
        depth 12

  failed-Good :
      (p : Result (Unit {0}) × Sys)
      → Good Cleared p
      → Fails IsBase p.0
      → (follow p.0 (λ _. raise {A = Option Bool} Exn.environment_error) p.1).0
        ≡ err Exn.environment_error
      → Cleared (follow p.0 (λ _. raise {A = Option Bool} Exn.environment_error) p.1).1
  unfolding raise
  failed-Good (ok _, t) g f h = g
  failed-Good (err e, t) g f h =
      absurd (let k : err e ≡ err Exn.environment_error = h in ground arith)

  handled_good :
      (p : Result (Option Bool) × Sys)
      → (handle is_exception p.0 (λ _. do release o; raise Exn.environment_error) p.1).0
        ≡ err Exn.environment_error
      → Cleared (handle is_exception p.0 (λ _. do release o; raise Exn.environment_error) p.1).1
  unfolding ◌>>◌ ◌>>=◌
  handled_good (ok x, t) h = absurd (let k : ok x ≡ err Exn.environment_error = h in cc)
  handled_good (err e, t) h = elim (Bool-cases (is_exception e)) [
    | inl c ↦
        rw c (
          failed-Good (release o t) ((release-Triple o).at t tt) ((release-Raises).at t)
            (rw c at h))
    | inr c ↦ absurd (let k : err e ≡ err Exn.environment_error = rw c at h in ground arith)
  ]

  checked_good :
      (done : Bool) (s : Sys)
      → ((if done then pure (some true) else start_or_release o (raise Exn.recursion_error)) s).0
        ≡ err Exn.environment_error
      → Cleared
          ((if done then pure (some true) else start_or_release o (raise Exn.recursion_error)) s).1
  unfolding start_or_release try_except pure
  checked_good true s h = absurd (let k : ok (some true) ≡ err Exn.environment_error = h in cc)
  checked_good false s h = handled_good (start o (raise Exn.recursion_error) s) h

  -- Where `initialize` raises an `EnvironmentError`, whatever failed in it, the MCP client, the
  -- scheduler client and the instance are cleared, and the environment is not initialized.
  pub initialize_failed-Cleared :
      (s : Sys) → (initialize o s).0 ≡ err Exn.environment_error → Cleared (initialize o s).1
  unfolding initialize initialize_by gets ◌>>=◌
  initialize_failed-Cleared s h = checked_good s.env.initialized s h
