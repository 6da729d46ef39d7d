-- ===== src/Environment/Health.antt =====
-- The end of the loop of `_wait_for_healthy` of environment.py.
use aenvironment.Common.{ℕ, ◌+◌, ◌-◌, ◌≤◌, ◌≡◌, ◌≢◌, Bool, none, arith}
use aenvironment.Effect.{Result, ok, err, follow, gets, lift, ◌>>=◌}
use aenvironment.Effect.Poll.{poll_loop_ends}
use aenvironment.World.{Oracle, advance, sleep}
use aenvironment.Environment.{Sys, outside, sleep_out}
use aenvironment.Environment.Function.{check_once, health_verdict, health_round, health_loop}
use aenvironment.Environment.Frame.{IsFrame, round-Keeps}

-- the clock of the event loop
abbrev clock_of : Sys → ℕ
clock_of s = s.world.clock

abbrev Onward : Sys → Sys → Type 0
Onward s t = clock_of s ≤ clock_of t

Onward-IsFrame : IsFrame Onward
unfolding advance
Onward-IsFrame = record {
  order = record { same = λ s. omega arith; chain = λ s t u h k. omega arith };
  event = λ n e s q. omega arith;
  write = λ s e c. omega arith;
}

module _ (o : Oracle) where
  verdict_in_time :
      (timeout start now : ℕ) (healthy : Bool)
      → health_verdict o timeout start now healthy ≡ ok none
      → now - start ≤ timeout
  unfolding health_verdict
  verdict_in_time timeout start now healthy h = ground arith

  -- the rest of a round, behind its check
  round_rest :
      (timeout start : ℕ) (p : Result Bool × Sys)
      → (follow p.0
          (λ healthy. do
            now ← gets (λ s. s.world.clock)
            lift (health_verdict o timeout start now healthy))
          p.1).0
        ≡ ok none
      → (follow p.0
            (λ healthy. do
              now ← gets (λ s. s.world.clock)
              lift (health_verdict o timeout start now healthy))
            p.1).1.world.clock
          - start
        ≤ timeout
  unfolding ◌>>=◌ gets lift
  round_rest timeout start (ok healthy, t) h = verdict_in_time timeout start t.world.clock healthy h
  round_rest timeout start (err e, t) h = cc

  round_in_time :
      (timeout start : ℕ) (s : Sys)
      → (health_round o timeout start s).0 ≡ ok none
      → (health_round o timeout start s).1.world.clock - start ≤ timeout
  unfolding health_round ◌>>=◌
  round_in_time timeout start s h = round_rest timeout start (check_once o s) h

  nap_lasts :
      (s : Sys)
      → (sleep_out o 2000 s).0 ≡ ok tt
      → clock_of s + 2000 ≤ clock_of (sleep_out o 2000 s).1
  unfolding sleep_out outside sleep advance
  nap_lasts s h = ground arith

  -- The loop of health checks ends: it finds the instance healthy or raises, for every timeout.
  pub health_loop-ne-none : (timeout : ℕ) (s : Sys) → (health_loop o timeout s).0 ≢ ok none
  unfolding health_loop ◌>>=◌ gets
  health_loop-ne-none timeout s =
      poll_loop_ends _ (sleep_out o 2000) clock_of timeout 2000
        (round-Keeps Onward-IsFrame o timeout s.world.clock).at nap_lasts s.world.clock
        (round_in_time timeout s.world.clock) s (omega arith) (omega arith)
