-- ===== src/Environment/Release.antt =====
-- What `release` of environment.py leaves behind.
use aenvironment.Common.{◌≡◌, refl, ◌∙◌, Bool, false, Option, none, some}
use aenvironment.Effect.{ok, Eff, pure, ◌>>◌, try_except, within}
use aenvironment.Effect.Exceptions.{is_exception}
use aenvironment.Effect.Keeps.{IsPreorder, Keeps, keeps_rules}
use aenvironment.Effect.Triple.{
  Triple, Along, Triple-then, Triple-gets, Triple-modify, Triple-when, Triple-along, Triple-finally,
  good_returned,
}
use aenvironment.Models.{EnvInstance}
use aenvironment.World.{Oracle, World}
use aenvironment.Scheduler
use aenvironment.Scheduler.{SchedulerClient, delete_env_instance}
use aenvironment.Environment.{Sys, Act, outside, update}
use aenvironment.Environment.Session.{forget_client, set_active}
use aenvironment.Environment.Lifecycle.{
  set_instance, set_client, set_initialized, release_mcp, delete_instance, release_scheduler,
  release,
}

-- No MCP client, no scheduler client, no instance, and not initialized.
pub record Cleared (s : Sys) : Type 0 where
  pub no_mcp : s.env.mcp_client ≡ false
  pub no_client : s.env.client ≡ none
  pub no_instance : s.env.instance_of ≡ none
  pub fresh : s.env.initialized ≡ false

abbrev pub Any : Sys → Type 0
Any s = Unit

abbrev NoMcp : Sys → Type 0
NoMcp s = s.env.mcp_client ≡ false

abbrev NoClients : Sys → Type 0
NoClients s = NoMcp s × (s.env.client ≡ none)

abbrev NoInstance : Sys → Type 0
NoInstance s = NoClients s × (s.env.instance_of ≡ none)

Any-order : IsPreorder (Along Any)
Any-order = record { same = λ s u. u; chain = λ s t u f g p. g (f p) }

mcp_order : IsPreorder (Along NoMcp)
mcp_order = record { same = λ s u. u; chain = λ s t u f g p. g (f p) }

module _ (o : Oracle) where
  Any-Keeps : {A : Type 0} (m : Act A) → Keeps (Along Any) m
  Any-Keeps m = record { at = λ s u. tt }

  outside-NoMcp : {A : Type 0} (m : Eff World A) → Keeps (Along NoMcp) (outside m)
  unfolding outside within
  outside-NoMcp m = record { at = λ s p. p }

  forget_all : Triple Any (do forget_client; set_active false) NoMcp
  unfolding forget_client set_active update
  forget_all =
      Triple-then {Q = NoMcp} _ _ (Triple-modify _ (λ s p. refl)) (Triple-modify _ (λ s p. p))

  release_mcp-NoMcp : Triple Any (release_mcp o) NoMcp
  unfolding release_mcp
  release_mcp-NoMcp = Triple-gets _ _ λ held.
      Triple-when held _ (λ h. weaken (Triple-finally _ _ (Any-Keeps _) forget_all))
        (λ h s p. p.1 ∙ h)
    where
      weaken :
          {m : Act (Unit {0})} {b : Bool}
          → Triple Any m NoMcp
          → Triple (λ s. Any s × (s.env.mcp_client ≡ b)) m NoMcp
      weaken t = record { at = λ s p. t.at s tt }

  delete-NoMcp :
      (c : SchedulerClient) (i : Option EnvInstance) → Keeps (Along NoMcp) (delete_instance o c i)
  unfolding delete_instance pure
  delete-NoMcp c none = record { at = λ s p. p }
  delete-NoMcp c (some i) = search (keeps_rules, mcp_order, outside-NoMcp) depth 12

  close-NoMcp :
      (c : SchedulerClient)
      → Keeps
          (Along NoMcp)
          (try_except (do outside (Scheduler.close o c); pure tt) is_exception (λ _. pure tt))
  close-NoMcp c = search (keeps_rules, mcp_order, outside-NoMcp) depth 12

  scheduler_none : Triple NoMcp (set_client none) NoClients
  unfolding set_client update
  scheduler_none = Triple-modify _ (λ s p. (p, refl))

  release_scheduler-NoClients :
      (c : Option SchedulerClient)
      → Triple (λ s. NoMcp s × (s.env.client ≡ c)) (release_scheduler o c) NoClients
  unfolding release_scheduler pure
  release_scheduler-NoClients none = record { at = λ s p. p }
  release_scheduler-NoClients (some c) = record {
    at = λ s p.
        (Triple-gets {P = NoMcp} (λ s. s.env.instance_of) _
            λ found. record {
              at = λ t q.
                  (Triple-then {P = NoMcp} {Q = NoMcp} _ _
                      (Triple-along _ (delete-NoMcp c found) (λ t q. q))
                      (Triple-finally _ _ (close-NoMcp c) scheduler_none)).at
                    t q.0;
            }).at
          s p.0;
  }

  instance_none : Triple NoClients (set_instance none) NoInstance
  unfolding set_instance update
  instance_none = Triple-modify _ (λ s p. (p, refl))

  not_initialized : Triple NoInstance (set_initialized false) Cleared
  unfolding set_initialized update
  not_initialized =
      Triple-modify _
        (λ s p. record { no_mcp = p.0.0; no_client = p.0.1; no_instance = p.1; fresh = refl })

  pub release-Triple : Triple Any (release o) Cleared
  unfolding release
  release-Triple = Triple-then _ _ release_mcp-NoMcp (
      Triple-gets _ _ λ c.
        Triple-then _ _ (release_scheduler-NoClients c)
          (Triple-then _ _ instance_none not_initialized))

  -- A `release` that returns has cleared the MCP client, the scheduler client and the instance, and
  -- marked the environment as not initialized, whatever failed in it.
  pub release-Cleared : (s : Sys) → (release o s).0 ≡ ok tt → Cleared (release o s).1
  release-Cleared s h = good_returned Cleared (release o s) tt (release-Triple.at s tt) h
