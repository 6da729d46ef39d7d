-- ===== src/World/Rules.antt =====
-- What the calls to the world keep, for the rules of `Effect.Keeps`.
use aenvironment.Common.{ℕ, ◌+◌, ◌≤◌, inl, inr, Bool-cases, arith}
use aenvironment.Effect.{Result}
use aenvironment.Effect.Keeps.{Keeps, IsPreorder}
use aenvironment.World.{World, Oracle, Event, slept, advance, perform, sleep}

module _ (o : Oracle) {R : World → World → Type 0} where
  pub Keeps-perform :
      {A : Type 0} (e : Event) (answer : ℕ → Result A)
      → ((n : ℕ) (w : World) → R w (advance n e w))
      → Keeps R (perform o e answer)
  unfolding perform
  Keeps-perform e answer h = record { at = λ w. h (o.latency w.calls) w }

  pub Keeps-sleep :
      (d : ℕ) → ((n : ℕ) (w : World) → R w (advance n (slept d) w)) → Keeps R (sleep o d)
  unfolding sleep
  Keeps-sleep d h = record {
    at = λ w. elim (Bool-cases (o.interrupted w.calls)) [
      | inl i ↦ rw i (h (o.latency w.calls) w)
      | inr i ↦ rw i (h (d + o.latency w.calls) w)
    ];
  }

-- The clock does not go back.
abbrev pub Later : World → World → Type 0
Later v w = v.clock ≤ w.clock

pub Later-preorder : IsPreorder Later
Later-preorder = record { same = λ s. omega arith; chain = λ s t u h k. omega arith }

pub Later-advance : (e : Event) (n : ℕ) (w : World) → Later w (advance n e w)
unfolding advance
Later-advance e n w = omega arith
