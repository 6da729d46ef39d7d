-- ===== src/Environment/Breaker.antt =====
-- The circuit breaker of `call_tool` of environment.py: what the counter of consecutive errors
-- does over the life of an `Environment`.
use aenvironment.Common.{
  ℕ, suc, ◌+◌, ◌≤◌, ◌<◌, ◌≡◌, refl, Bool, true, false, leb, ◌⊎◌, inl, inr, Bool-cases,
  if◌then◌else◌, arith,
}
use aenvironment.Common.Text.{Str}
use aenvironment.Common.Dict.{Dict}
use aenvironment.Common.Json.{Json}
use aenvironment.Effect.{Result, ok, err, follow, gets, raise_if, ◌>>=◌, ◌>>◌}
use aenvironment.Effect.Exceptions.{Exn}
use aenvironment.World.{Oracle}
use aenvironment.Environment.{Sys}
use aenvironment.Environment.Lifecycle.{ensure_initialized}
use aenvironment.Environment.Tool.{call_tool, checked_call}
use aenvironment.Environment.Once.{invoked, errors, Calm, Calm-order, ensure_initialized-Calm}
use aenvironment.Environment.Calls.{Accounted, used, unused, call_tool-Accounted}
use aenvironment.Environment.Moves.{
  Move, by_call_tool, by_list_tools, by_initialize, by_wait_for_ready, by_aenter, by_aexit,
  by_release, by_call_reward, by_call_function, by_list_functions, by_get_env_info, by_check_health,
  Run, Streak, returned, initialize-Calm, release-Calm, wait-Calm, aenter-Calm, aexit-Calm,
  list_tools-Calm, reward-Calm, call_function-Calm, functions-Calm, info-Calm, health-Calm,
}

module _ (o : Oracle) where
  is_broken : (n : ℕ) → 5 ≤ n → leb 5 n ≡ true
  is_broken n h = ground arith

  -- the check of the counter, on a counter that has reached the threshold
  checked_broken :
      (name : Str) (args : Dict Json) (s : Sys)
      → leb 5 (errors s) ≡ true
      → checked_call o name args s ≡ (err Exn.unrecoverable_environment_error, s)
  unfolding checked_call ◌>>=◌ ◌>>◌ gets raise_if
  checked_broken name args s h = rw h

  broken_follow :
      (name : Str) (args : Dict Json) (s : Sys) (p : Result (Unit {0}) × Sys)
      → 5 ≤ errors s
      → Calm s p.1
      → Calm s (follow p.0 (λ _. checked_call o name args) p.1).1
        × (returned (follow p.0 (λ _. checked_call o name args) p.1).0 ≡ false)
  broken_follow name args s (ok _, t) h c =
      rw (checked_broken name args t (is_broken _ (omega (arith, c.1)))) (c, refl)
  broken_follow name args s (err e, t) h c = (c, refl)

  -- Once five errors are counted, `call_tool` raises and invokes nothing, whether or not the
  -- environment is initialized, and the counter stays.
  pub call_tool_broken :
      (name : Str) (args : Dict Json) (s : Sys)
      → 5 ≤ errors s
      → Calm s (call_tool o name args s).1 × (returned (call_tool o name args s).0 ≡ false)
  unfolding call_tool ◌>>=◌ ◌>>◌
  call_tool_broken name args s h =
      broken_follow name args s (ensure_initialized o s) h ((ensure_initialized-Calm o).at s)

  Move-broken : (b : Bool) (s t : Sys) → Move o b s t → 5 ≤ errors s → Calm s t
  Move-broken _ _ _ (by_call_tool name args s) h = (call_tool_broken name args s h).0
  Move-broken _ _ _ (by_list_tools s) h = (list_tools-Calm o).at s
  Move-broken _ _ _ (by_initialize s) h = (initialize-Calm o).at s
  Move-broken _ _ _ (by_wait_for_ready timeout s) h = (wait-Calm o timeout).at s
  Move-broken _ _ _ (by_aenter s) h = (aenter-Calm o).at s
  Move-broken _ _ _ (by_aexit s) h = (aexit-Calm o).at s
  Move-broken _ _ _ (by_release s) h = (release-Calm o).at s
  Move-broken _ _ _ (by_call_reward args s) h = (reward-Calm o args).at s
  Move-broken _ _ _ (by_call_function name args s) h = (call_function-Calm o name args).at s
  Move-broken _ _ _ (by_list_functions s) h = (functions-Calm o).at s
  Move-broken _ _ _ (by_check_health args s) h = (health-Calm o args).at s
  Move-broken _ _ _ (by_get_env_info s) h = (info-Calm o).at s

  -- Once five errors are counted, no sequence of calls of the public methods invokes a tool again
  -- or changes the counter: neither `release` nor a new `initialize` closes the circuit.
  pub breaker_stays_open : (s t : Sys) → Run o s t → 5 ≤ errors s → Calm s t
  breaker_stays_open _ _ (Run.stop s) h = Calm-order.same s
  breaker_stays_open _ _ (Run.go b s u t m r) h =
      let c = Move-broken b s u m h in
      Calm-order.chain s u t c
        (breaker_stays_open u t r (let k : 5 ≤ errors u = omega (arith, c.1) in k))

  -- what one call of a method does to the two counts
  abbrev Counts : Bool → Sys → Sys → Type 0
  Counts b s t =
      Calm s t
      ⊎ ((invoked t ≡ suc (invoked s)) × (if b then errors t ≡ 0 else errors t ≡ suc (errors s)))

  Accounted-Counts :
      {A : Type 0} (s : Sys) (p : Result A × Sys) → Accounted s p → Counts (returned p.0) s p.1
  Accounted-Counts s _ (unused r t e c) = inl c
  Accounted-Counts s _ (used (ok a) t h c) = inr (h, c)
  Accounted-Counts s _ (used (err e) t h c) = inr (h, c)

  Move-Counts : (b : Bool) (s t : Sys) → Move o b s t → Counts b s t
  Move-Counts _ _ _ (by_call_tool name args s) =
      Accounted-Counts s _ (call_tool-Accounted o name args s)
  Move-Counts _ _ _ (by_list_tools s) = inl ((list_tools-Calm o).at s)
  Move-Counts _ _ _ (by_initialize s) = inl ((initialize-Calm o).at s)
  Move-Counts _ _ _ (by_wait_for_ready timeout s) = inl ((wait-Calm o timeout).at s)
  Move-Counts _ _ _ (by_aenter s) = inl ((aenter-Calm o).at s)
  Move-Counts _ _ _ (by_aexit s) = inl ((aexit-Calm o).at s)
  Move-Counts _ _ _ (by_release s) = inl ((release-Calm o).at s)
  Move-Counts _ _ _ (by_call_reward args s) = inl ((reward-Calm o args).at s)
  Move-Counts _ _ _ (by_call_function name args s) = inl ((call_function-Calm o name args).at s)
  Move-Counts _ _ _ (by_list_functions s) = inl ((functions-Calm o).at s)
  Move-Counts _ _ _ (by_check_health args s) = inl ((health-Calm o args).at s)
  Move-Counts _ _ _ (by_get_env_info s) = inl ((info-Calm o).at s)

  Move-bounded : (b : Bool) (s t : Sys) → Move o b s t → errors s ≤ 5 → errors t ≤ 5
  Move-bounded b s t m h = elim (Bool-cases (leb 5 (errors s))) [
    | inl b5 ↦ omega (arith, (Move-broken b s t m (ground arith)).1)
    | inr b4 ↦ counted_bounded b s t (ground arith) (Move-Counts b s t m)
  ]
    where
      counted_bounded : (b : Bool) (s t : Sys) → errors s < 5 → Counts b s t → errors t ≤ 5
      counted_bounded b s t h (inl c) = omega (arith, c.1)
      counted_bounded true s t h (inr c) = omega (arith, c.1)
      counted_bounded false s t h (inr c) = omega (arith, c.1)

  -- A counter of consecutive errors of at most 5, the threshold, stays so through any sequence of
  -- calls of the public methods.
  pub errors_bounded : (s t : Sys) → Run o s t → errors s ≤ 5 → errors t ≤ 5
  errors_bounded _ _ (Run.stop s) h = h
  errors_bounded _ _ (Run.go b s u t m r) h = errors_bounded u t r (Move-bounded b s u m h)

  streak_step : (s t : Sys) → Counts false s t → errors t + invoked s ≡ errors s + invoked t
  streak_step s t (inl c) = omega (arith, c.0, c.1)
  streak_step s t (inr c) = omega (arith, c.0, c.1)

  Streak-counts : (s t : Sys) → Streak o s t → errors t + invoked s ≡ errors s + invoked t
  Streak-counts _ _ (Streak.stop s) = refl
  Streak-counts _ _ (Streak.go s u t m r) =
      omega (arith, streak_step s u (Move-Counts false s u m), Streak-counts u t r)

  streak_run : (s t : Sys) → Streak o s t → Run o s t
  streak_run _ _ (Streak.stop s) = Run.stop s
  streak_run _ _ (Streak.go s u t m r) = Run.go false s u t m (streak_run u t r)

  -- Through calls of the public methods among which no `call_tool` returns, the counter grows by
  -- exactly the number of tools invoked, and so, from a counter of at most 5, that number and the
  -- counter at the start are together at most 5.
  pub Streak-bounded :
      (s t : Sys)
      → Streak o s t
      → errors s ≤ 5
      → (errors t + invoked s ≡ errors s + invoked t) × (errors s + invoked t ≤ 5 + invoked s)
  Streak-bounded s t r h =
      let counts = Streak-counts s t r in
      (counts, omega (arith, counts, errors_bounded s t (streak_run s t r) h))
