-- ===== src/Effect/Poll.antt =====
-- `while True` with a round, a timeout checked in the round, and a sleep: the loop of
-- `wait_for_status` and of `_wait_for_healthy`. It runs for `fuel` rounds at most; `ok none` means
-- that the rounds were used up.
use aenvironment.Common.{
  ℕ, zero, suc, ◌+◌, ◌-◌, ◌*◌, ◌/◌, ◌≤◌, ◌<◌, ◌≡◌, ◌≢◌, refl, Option, none, some, arith,
}
use aenvironment.Effect.Keeps.{IsPreorder, Keeps, Keeps-pure, Keeps-bind, Keeps-then}
use aenvironment.Effect.{Result, ok, err, Eff, pure, ◌>>=◌, ◌>>◌, follow}

module _ {S A : Type 0} (round : Eff S (Option A)) (nap : Eff S (Unit {0})) where
  abbrev unless_done : Option A → Eff S (Option A) → Eff S (Option A)
  unless_done (some a) again s = (ok (some a), s)
  unless_done none again s = again s

  unfoldable pub poll_loop : ℕ → Eff S (Option A)
  poll_loop zero = pure none
  poll_loop (suc fuel) =
      let again = poll_loop fuel in (do done ← round; unless_done done (nap >> again))

  abbrev rest_of_loop : ℕ → Result (Option A) × S → Result (Option A) × S
  rest_of_loop fuel (r, t) = follow r (λ done. unless_done done (nap >> poll_loop fuel)) t

  poll_step : (fuel : ℕ) (s : S) → poll_loop (suc fuel) s ≡ rest_of_loop fuel (round s)
  unfolding poll_loop ◌>>=◌
  poll_step fuel s = refl

  poll_zero : (s : S) → poll_loop 0 s ≡ (ok none, s)
  unfolding poll_loop pure
  poll_zero s = refl

  abbrev after_nap : ℕ → Result (Unit {0}) × S → Result (Option A) × S
  after_nap fuel (r, t) = follow r (λ _. poll_loop fuel) t

  nap_step : (fuel : ℕ) (s : S) → (nap >> poll_loop fuel) s ≡ after_nap fuel (nap s)
  unfolding ◌>>=◌ ◌>>◌
  nap_step fuel s = refl

  loop_rest-ne-none :
      (fuel : ℕ) (p : Result (Option A) × S)
      → (p.0 ≡ ok none → (after_nap fuel (nap p.1)).0 ≢ ok none)
      → (rest_of_loop fuel p).0 ≢ ok none
  loop_rest-ne-none fuel (ok (some a), t) h = λ e. cc
  loop_rest-ne-none fuel (ok none, t) h = rw nap_step (h refl)
  loop_rest-ne-none fuel (err e, t) h = λ e. cc

  nap_rest-ne-none :
      (fuel : ℕ) (q : Result (Unit {0}) × S)
      → (q.0 ≡ ok tt → (poll_loop fuel q.1).0 ≢ ok none)
      → (after_nap fuel q).0 ≢ ok none
  nap_rest-ne-none fuel (ok _, t) h = h refl
  nap_rest-ne-none fuel (err e, t) h = λ e. cc

  module _ {P : A → Type 0} (good : (s : S) (a : A) → (round s).0 ≡ ok (some a) → P a) where
    loop_rest_found :
        (fuel : ℕ) (p : Result (Option A) × S) (a : A)
        → ((b : A) → p.0 ≡ ok (some b) → P b)
        → ((after_nap fuel (nap p.1)).0 ≡ ok (some a) → P a)
        → (rest_of_loop fuel p).0 ≡ ok (some a)
        → P a
    loop_rest_found fuel (ok (some b), t) a now more h = now a h
    loop_rest_found fuel (ok none, t) a now more h = more (rw nap_step at h)
    loop_rest_found fuel (err e, t) a now more h = absurd (let f : err e ≡ ok (some a) = h in cc)

    nap_rest_found :
        (fuel : ℕ) (q : Result (Unit {0}) × S) (a : A)
        → ((poll_loop fuel q.1).0 ≡ ok (some a) → P a)
        → (after_nap fuel q).0 ≡ ok (some a)
        → P a
    nap_rest_found fuel (ok _, t) a more h = more h
    nap_rest_found fuel (err e, t) a more h = absurd (let f : err e ≡ ok (some a) = h in cc)

    -- What the loop returns is what some round returned.
    pub poll_loop_found : (fuel : ℕ) (s : S) (a : A) → (poll_loop fuel s).0 ≡ ok (some a) → P a
    poll_loop_found zero s a h = absurd (let f : ok none ≡ ok (some a) = rw poll_zero at h in cc)
    poll_loop_found (suc fuel) s a h =
        loop_rest_found fuel (round s) a (good s)
          (nap_rest_found fuel (nap (round s).1) a (poll_loop_found fuel (nap (round s).1).1 a))
          (rw poll_step at h)

  module _ (clock : S → ℕ) (timeout interval : ℕ) (later : (s : S) → clock s ≤ clock (round s).1)
      (slept : (s : S) → (nap s).0 ≡ ok tt → clock s + interval ≤ clock (nap s).1) where
    module _ (start : ℕ)
        (in_time : (s : S) → (round s).0 ≡ ok none → clock (round s).1 - start ≤ timeout) where
      poll_loop-ne-none :
          (fuel : ℕ) (s : S)
          → timeout + start < clock s + fuel * interval
          → (poll_loop (suc fuel) s).0 ≢ ok none
      poll_loop-ne-none zero s h =
          rw poll_step
            (loop_rest-ne-none zero (round s) λ e. absurd (omega (arith, in_time s e, later s)))
      poll_loop-ne-none (suc fuel) s h = rw poll_step (
          loop_rest-ne-none (suc fuel) (round s) λ e.
            nap_rest-ne-none (suc fuel) (nap (round s).1) λ d.
              poll_loop-ne-none fuel (nap (round s).1).1
                (grind (arith, in_time s e, later s, slept (round s).1 d)))

      -- One round for each interval of the timeout, and two more, are enough.
      pub poll_loop_ends :
          (s : S)
          → start ≤ clock s
          → 0 < interval
          → (poll_loop (timeout / interval + 2) s).0 ≢ ok none
      poll_loop_ends s begun pos =
          let rounds : timeout / interval + 2 ≡ suc (timeout / interval + 1) = omega arith in
          rw rounds (poll_loop-ne-none (timeout / interval + 1) s (grind arith))

module _ {S A : Type 0} {R : S → S → Type 0} (pre : IsPreorder R) (round : Eff S (Option A))
    (nap : Eff S (Unit {0})) (keeps_round : Keeps R round) (keeps_nap : Keeps R nap) where
  pub Keeps-poll_loop : (fuel : ℕ) → Keeps R (poll_loop round nap fuel)
  unfolding poll_loop
  Keeps-poll_loop zero = Keeps-pure pre none
  Keeps-poll_loop (suc fuel) =
      Keeps-bind pre _ _ keeps_round
        λ done. done_keeps done (Keeps-then pre _ _ keeps_nap (Keeps-poll_loop fuel))
    where
      done_keeps :
          (done : Option A) {again : Eff S (Option A)}
          → Keeps R again
          → Keeps R (unless_done round nap done again)
      done_keeps none k = record { at = k.at }
      done_keeps (some a) k = record { at = pre.same }
