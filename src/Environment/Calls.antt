-- ===== src/Environment/Calls.antt =====
-- The account of `call_tool` of environment.py: what a call does to the number of invocations and
-- to the counter of consecutive errors.
use aenvironment.Common.{ℕ, suc, ◌≡◌, refl, false, ◌∙◌, ap}
use aenvironment.Common.Text.{Str}
use aenvironment.Common.Dict.{Dict}
use aenvironment.Common.Json.{Json}
use aenvironment.Effect.{
  Result, ok, err, pure, raise, modify, ◌>>=◌, ◌>>◌, follow, try_except, handle, within,
}
use aenvironment.Effect.Exceptions.{Exn, is_any}
use aenvironment.Effect.Keeps.{Keeps, Keeps-gets, Keeps-lift, Keeps-raise_if}
use aenvironment.World.{Oracle, advance, perform, tool_invoked, CallResult}
use aenvironment.Environment.{Sys, Act, outside, update, perform_out}
use aenvironment.Environment.Session.{rebuild_mcp_client, set_active}
use aenvironment.Environment.Tool.{
  ToolResult, to_tool_result, set_errors, on_tool_error, invoke_tool, checked_call, call_tool,
}
use aenvironment.Environment.Once.{
  invoked, errors, Calm, Calm-order, rebuild-Calm, ensure_initialized-Calm, establish-Calm,
}

-- What a counted outcome makes of the counter.
abbrev Counted : {A : Type 0} → Result A → ℕ → ℕ → Type 0
Counted (ok a) before after = after ≡ 0
Counted (err e) before after = after ≡ suc before

abbrev IsError : {A : Type 0} → Result A → Type 0
IsError (ok a) = ⊥
IsError (err e) = Unit

-- A run either raised without an invocation and left the counter alone, or it invoked one tool
-- once, and the counter is 0 if it returned and one more if it raised.
pub data Accounted {A : Type 0} (s : Sys) : Result A × Sys → Type 0 where
  unused : (r : Result A) (t : Sys) → IsError r → Calm s t → Accounted s (r, t)
  used :
      (r : Result A) (t : Sys)
      → invoked t ≡ suc (invoked s)
      → Counted r (errors s) (errors t)
      → Accounted s (r, t)

module _ {B : Type 0} where
  later-Counted : (r : Result B) (a b c : ℕ) → b ≡ a → Counted r b c → Counted r a c
  later-Counted (ok x) a b c h k = k
  later-Counted (err e) a b c h k = k ∙ ap suc h

  later : (s t : Sys) (p : Result B × Sys) → Calm s t → Accounted t p → Accounted s p
  later s t _ h (unused r u e c) = unused r u e (Calm-order.chain s t u h c)
  later s t _ h (used r u n c) =
      used r u (n ∙ ap suc h.0) (later-Counted r (errors s) (errors t) (errors u) h.1 c)

module _ {A B : Type 0} where
  follow-Accounted :
      (s : Sys) (p : Result A × Sys) (f : A → Act B)
      → Calm s p.1
      → ((a : A) (t : Sys) → Accounted t (f a t))
      → Accounted s (follow p.0 f p.1)
  follow-Accounted s (ok a, t) f h k = later s t (f a t) h (k a t)
  follow-Accounted s (err e, t) f h k = unused (err e) t tt h

  bind-Accounted :
      (m : Act A) (f : A → Act B)
      → Keeps Calm m
      → ((a : A) (t : Sys) → Accounted t (f a t))
      → (s : Sys) → Accounted s ((m >>= f) s)
  unfolding ◌>>=◌
  bind-Accounted m f k h s = follow-Accounted s (m s) f (k.at s) h

  then-Accounted :
      (m : Act A) (n : Act B)
      → Keeps Calm m
      → ((t : Sys) → Accounted t (n t))
      → (s : Sys) → Accounted s ((m >> n) s)
  unfolding ◌>>◌
  then-Accounted m n k h = bind-Accounted m (λ _. n) k (λ _. h)

-- A run that raises, with the tool invoked already.
pub record Raised (s : Sys) (p : Result ToolResult × Sys) : Type 0 where
  pub error : IsError p.0
  pub same_calls : invoked p.1 ≡ invoked s
  pub one_more : errors p.1 ≡ suc (errors s)

Raised-follow :
    (s : Sys) (p : Result (Unit {0}) × Sys)
    → invoked p.1 ≡ invoked s
    → errors p.1 ≡ suc (errors s)
    → Raised s (follow p.0 (λ _. raise Exn.tool_error) p.1)
unfolding raise
Raised-follow s (ok _, t) h k = record { error = tt; same_calls = h; one_more = k }
Raised-follow s (err e, t) h k = record { error = tt; same_calls = h; one_more = k }

module _ (o : Oracle) where
  -- the state in which the client is rebuilt
  abbrev counted_up : Sys → Sys
  counted_up s = record s {
    env = record s.env {
      mcp_session_active = false;
      consecutive_tool_errors = suc s.env.consecutive_tool_errors;
    };
  }

  on_tool_error-Raised : (s : Sys) → Raised s (on_tool_error o s)
  unfolding on_tool_error set_active set_errors update modify ◌>>◌ ◌>>=◌
  on_tool_error-Raised s =
      Raised-follow s (rebuild_mcp_client o (counted_up s)) ((rebuild-Calm o).at (counted_up s)).0
        ((rebuild-Calm o).at (counted_up s)).1

  failed_tool :
      (s t : Sys) (p : Result ToolResult × Sys)
      → invoked t ≡ suc (invoked s)
      → errors t ≡ errors s
      → Raised t p
      → Accounted s p
  failed_tool s t (ok a, u) h k q = absurd q.error
  failed_tool s t (err e, u) h k q = used (err e) u (q.same_calls ∙ h) (q.one_more ∙ ap suc k)

  -- the end of `invoke_tool`, behind the answer of the tool
  abbrev after_answer : Result CallResult → Act ToolResult
  after_answer r s =
      handle is_any (follow r (λ result. do set_errors (λ _. 0); pure (to_tool_result result)) s).0
        (λ _. on_tool_error o)
        (follow r (λ result. do set_errors (λ _. 0); pure (to_tool_result result)) s).1

  after_answer-Accounted :
      (r : Result CallResult) (s t : Sys)
      → invoked t ≡ suc (invoked s)
      → errors t ≡ errors s
      → Accounted s (after_answer r t)
  unfolding set_errors update modify ◌>>◌ ◌>>=◌ pure
  after_answer-Accounted (ok result) s t h k = used _ _ h refl
  after_answer-Accounted (err e) s t h k =
      failed_tool s t (on_tool_error o t) h k (on_tool_error-Raised t)

  -- the state behind the invocation
  abbrev told : Str → Dict Json → Sys → Sys
  told name args s = record s {
    world = advance (o.latency s.world.calls) (tool_invoked name args) s.world;
  }

  invoke_tool-Accounted :
      (name : Str) (args : Dict Json) (s : Sys) → Accounted s (invoke_tool o name args s)
  unfolding invoke_tool try_except ◌>>=◌ perform_out outside within perform advance
  invoke_tool-Accounted name args s =
      after_answer-Accounted (o.tool name args s.world.calls) s (told name args s) refl refl

  checked_call-Accounted :
      (tool_name : Str) (args : Dict Json) (s : Sys) → Accounted s (checked_call o tool_name args s)
  unfolding checked_call
  checked_call-Accounted tool_name args = bind-Accounted _ _ (Keeps-gets Calm-order _) λ broken.
      then-Accounted _ _ (Keeps-raise_if Calm-order _ _) (
        bind-Accounted _ _ (Keeps-gets Calm-order _) λ env_name.
          bind-Accounted _ _ (Keeps-lift Calm-order _)
            λ name. then-Accounted _ _ (establish-Calm o 3 0) (invoke_tool-Accounted name args))

  -- `call_tool` invokes a tool at most once, and exactly once if it returns. If it raises without
  -- an invocation, the counter of consecutive errors is as it was; if it invoked the tool, the
  -- counter is 0 when it returns and one more when it raises.
  pub call_tool-Accounted :
      (tool_name : Str) (args : Dict Json) (s : Sys) → Accounted s (call_tool o tool_name args s)
  unfolding call_tool
  call_tool-Accounted tool_name args =
      then-Accounted _ _ (ensure_initialized-Calm o) (checked_call-Accounted tool_name args)
