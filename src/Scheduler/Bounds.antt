-- ===== src/Scheduler/Bounds.antt =====
-- The loop of attempts of scheduler_client.py, one attempt at a time: how often the request is
-- sent, how long the loop waits, and with what it ends.
use aenvironment.Common.{
  ℕ, zero, suc, ◌+◌, ◌*◌, ◌^◌, ◌≤◌, ◌<◌, ◌≡◌, ◌≢◌, refl, Bool, false, Option, none, some, List, [],
  ◌∷◌, arith, ltb, if◌then◌else◌, inl, inr, Bool-cases, ap, ◌∙◌, ◌⊎◌, lt→ltb, subst,
}
use native.Mathlib.Nat.{pow-suc}
use aenvironment.Effect.{Result, ok, err, follow, lift, pure, ◌>>◌, ◌>>=◌, try_except}
use aenvironment.Effect.Exceptions.{Exn, is_request_error}
use aenvironment.World.{
  World, Oracle, Event, sent, slept, Request, Response, perform, sleep, advance,
}
use aenvironment.Scheduler.Retry.{retry, attempt_once, wait_time}

-- the number of requests in a trace
abbrev pub requests : List Event → ℕ
requests [] = 0
requests (sent r ∷ es) = suc (requests es)
requests (_ ∷ es) = requests es

-- What an answer of the world is read as.
abbrev pub outcome : {A : Type 0} → (Response → Result A) → Result Response → Result A
outcome read (ok response) = read response
outcome read (err e) = err e

-- `k` attempts from call number `n` on meet a network error, and no sleep is interrupted.
abbrev pub Failing : Oracle → Request → ℕ → ℕ → Type 0
Failing o r zero n = Unit
Failing o r (suc k) n =
    (o.http r n ≡ err Exn.request_error)
    × (o.interrupted (suc n) ≡ false)
    × Failing o r k (suc (suc n))

-- With what the loop ends after an attempt that is its last one.
abbrev pub closing : {A : Type 0} → Result A → Result (Option A)
closing (ok a) = ok (some a)
closing (err e) = if is_request_error e then err Exn.network_error else err e

-- The attempt of number `n` is the last one: it returned, raised something else than a network
-- error, or used up the attempts.
abbrev pub IsLast : ℕ → ℕ → {A : Type 0} → Result A → Type 0
IsLast limit n (ok a) = Unit
IsLast limit n (err e) = (is_request_error e ≡ false) ⊎ (limit ≤ n)

-- A run of the loop from attempt `attempt` on ends with `x` after `k` more attempts: the requests
-- that it sent, and the time that its sleeps took at least.
pub record EndsAfter {A : Type 0} (k attempt : ℕ) (x : Result (Option A)) (w : World)
    (run : Result (Option A) × World) : Type 0 where
  pub result : run.0 ≡ x
  pub sent_times : requests run.1.trace ≡ requests w.trace + suc k
  pub waited : w.clock + 1000 * 2 ^ (attempt + k) ≤ run.1.clock + 1000 * 2 ^ attempt

module _ {A : Type 0} (o : Oracle) (limit : ℕ) (jittered : Bool) (r : Request)
    (read : Response → Result A) where
  abbrev after_sending : World → World
  after_sending w = advance (o.latency w.calls) (sent r) w

  abbrev after_waiting : ℕ → World → World
  after_waiting attempt w1 =
      advance (wait_time o jittered attempt w1 + o.latency w1.calls)
        (slept (wait_time o jittered attempt w1)) w1

  abbrev after_interrupt : ℕ → World → World
  after_interrupt attempt w1 =
      advance (o.latency w1.calls) (slept (wait_time o jittered attempt w1)) w1

  abbrev found : Result A → Result (Option A)
  found (ok a) = ok (some a)
  found (err e) = err e

  lift-found : (x : Result A) (w : World) → (lift x >>= λ a. pure (some a)) w ≡ (found x, w)
  unfolding ◌>>=◌
  lift-found (ok a) w = refl
  lift-found (err e) w = refl

  follow-found :
      (answer : Result Response) (w : World)
      → follow answer (λ response. lift (read response) >>= λ a. pure (some a)) w
        ≡ (found (outcome read answer), w)
  follow-found (ok response) w = lift-found (read response) w
  follow-found (err e) w = refl

  attempt_once_lem :
      (w : World)
      → attempt_once o r read w ≡ (found (outcome read (o.http r w.calls)), after_sending w)
  unfolding attempt_once ◌>>=◌ perform
  attempt_once_lem w = follow-found (o.http r w.calls) (after_sending w)

  -- What the loop does after an attempt, by its outcome.
  abbrev settle : ℕ → ℕ → World → Result A → Result (Option A) × World
  settle left attempt w1 (ok a) = (ok (some a), w1)
  settle left attempt w1 (err e) =
      if is_request_error e
      then if ltb attempt limit
        then if o.interrupted w1.calls
          then (err Exn.cancelled_error, after_interrupt attempt w1)
          else retry o limit jittered r read left (suc attempt) (after_waiting attempt w1)
        else (err Exn.network_error, w1)
      else (err e, w1)

  settle_lem :
      (left attempt : ℕ) (w : World) (x : Result A)
      → attempt_once o r read w ≡ (found x, after_sending w)
      → retry o limit jittered r read (suc left) attempt w ≡ settle left attempt (after_sending w) x
  unfolding retry try_except ◌>>=◌ ◌>>◌ sleep
  settle_lem left attempt w (ok a) h = rw h
  settle_lem left attempt w (err e) h = rw h (elim (Bool-cases (is_request_error e)) [
    | inl p ↦ rw p (elim (Bool-cases (ltb attempt limit)) [
      | inl q ↦ rw q (elim (Bool-cases (o.interrupted (after_sending w).calls)) [
        | inl i ↦ rw i
        | inr i ↦ rw i
      ])
      | inr q ↦ rw q
    ])
    | inr p ↦ rw p
  ])

  retry_step :
      (left attempt : ℕ) (w : World)
      → retry o limit jittered r read (suc left) attempt w
        ≡ settle left attempt (after_sending w) (outcome read (o.http r w.calls))
  retry_step left attempt w = settle_lem left attempt w _ (attempt_once_lem w)

  requests-settle :
      (left attempt : ℕ) (w1 : World) (x : Result A)
      → requests
          (retry o limit jittered r read left (suc attempt) (after_waiting attempt w1)).1.trace
        ≤ requests w1.trace + left
      → requests (settle left attempt w1 x).1.trace ≤ requests w1.trace + left
  unfolding advance
  requests-settle left attempt w1 (ok a) h = omega arith
  requests-settle left attempt w1 (err e) h = ground arith

  retry_zero : (attempt : ℕ) (w : World) → retry o limit jittered r read 0 attempt w ≡ (ok none, w)
  unfolding retry pure
  retry_zero attempt w = refl

  pub requests-retry :
      (left attempt : ℕ) (w : World)
      → requests (retry o limit jittered r read left attempt w).1.trace ≤ requests w.trace + left
  unfolding advance
  requests-retry zero attempt w = rw retry_zero (omega arith)
  requests-retry (suc left) attempt w = rw retry_step (
      ground (
        arith,
        requests-settle left attempt (after_sending w) (outcome read (o.http r w.calls)),
        requests-retry left (suc attempt) (after_waiting attempt (after_sending w)),
      ))

  -- The loop does not run out of attempts: the last one returns or raises.
  pub retry-ne-none :
      (left attempt : ℕ) (w : World)
      → attempt + suc left ≡ suc limit
      → (retry o limit jittered r read (suc left) attempt w).0 ≢ ok none
  retry-ne-none zero attempt w h = rw retry_step (settled (outcome read (o.http r w.calls)))
    where
      settled : (x : Result A) → (settle 0 attempt (after_sending w) x).0 ≢ ok none
      settled (ok a) = λ e. cc
      settled (err e) = ground arith
  retry-ne-none (suc left) attempt w h = rw retry_step (
      settled (outcome read (o.http r w.calls))
        (retry-ne-none left (suc attempt) (after_waiting attempt (after_sending w)) (omega arith)))
    where
      settled :
          (x : Result A)
          → (retry o limit jittered r read
              (suc left)
              (suc attempt)
              (after_waiting attempt (after_sending w))).0
            ≢ ok none
          → (settle (suc left) attempt (after_sending w) x).0 ≢ ok none
      settled (ok a) ih = λ e. cc
      settled (err e) ih = ground arith

  settle_last :
      (left attempt : ℕ) (w : World) (x : Result A)
      → IsLast limit attempt x
      → EndsAfter 0 attempt (closing x) w (settle left attempt (after_sending w) x)
  unfolding advance
  settle_last left attempt w (ok a) l = ground arith
  settle_last left attempt w (err e) (inl p) = ground arith
  settle_last left attempt w (err e) (inr q) = ground arith

  settle_again :
      (left attempt : ℕ) (w : World)
      → attempt < limit
      → o.interrupted (suc w.calls) ≡ false
      → settle left attempt (after_sending w) (err Exn.request_error)
        ≡ retry o limit jittered r read left (suc attempt) (after_waiting attempt (after_sending w))
  unfolding advance
  settle_again left attempt w h calm = rw (lt→ltb attempt limit h, calm)

  one_more :
      (k attempt : ℕ) (w : World) (x : Result (Option A)) (run : Result (Option A) × World)
      → EndsAfter k (suc attempt) x (after_waiting attempt (after_sending w)) run
      → EndsAfter (suc k) attempt x w run
  unfolding advance wait_time
  one_more k attempt w x run h = record {
    result = h.result;
    sent_times = omega (arith, h.sent_times);
    waited =
        let more : 2 ^ (attempt + suc k) ≡ 2 ^ (suc attempt + k) =
          ap (λ n. 2 ^ n) (let c : attempt + suc k ≡ suc attempt + k = omega arith in c) in
        omega (arith, h.waited, more, pow-suc 2 attempt);
  }

  next_call :
      (w : World) (attempt k : ℕ)
      → (after_waiting attempt (after_sending w)).calls + 2 * k ≡ w.calls + 2 * suc k
  unfolding advance
  next_call w attempt k = omega arith

  later-Failing :
      (w : World) (attempt k : ℕ)
      → Failing o r k (suc (suc w.calls))
      → Failing o r k (after_waiting attempt (after_sending w)).calls
  unfolding advance
  later-Failing w attempt k f = f

  pub retry_after_failures :
      (k left attempt : ℕ) (w : World) (x : Result A)
      → Failing o r k w.calls
      → k < left
      → attempt + left ≡ suc limit
      → outcome read (o.http r (w.calls + 2 * k)) ≡ x
      → IsLast limit (attempt + k) x
      → EndsAfter k attempt (closing x) w (retry o limit jittered r read left attempt w)
  retry_after_failures k zero attempt w x f h e hx l = absurd (omega arith)
  retry_after_failures zero (suc left) attempt w x f h e hx l =
      let now : outcome read (o.http r w.calls) ≡ x =
        ap (λ n. outcome read (o.http r n)) (let c : w.calls ≡ w.calls + 2 * 0 = omega arith in c)
        ∙ hx in
      let late : IsLast limit attempt x =
        subst (λ n. IsLast limit n x) (let c : attempt + 0 ≡ attempt = omega arith in c) l in
      rw (retry_step, now) (settle_last left attempt w x late)
  retry_after_failures (suc k) (suc left) attempt w x f h e hx l =
      let next = after_waiting attempt (after_sending w) in
      let answered : outcome read (o.http r (next.calls + 2 * k)) ≡ x =
        ap (λ n. outcome read (o.http r n)) (next_call w attempt k) ∙ hx in
      let late : IsLast limit (suc attempt + k) x =
        subst (λ n. IsLast limit n x) (let c : attempt + suc k ≡ suc attempt + k = omega arith in c)
          l in
      let ih =
        retry_after_failures k left (suc attempt) next x (later-Failing w attempt k f.2)
          (omega arith) (omega arith) answered late in
      rw (retry_step, f.0, settle_again left attempt w (omega arith) f.1)
        (one_more k attempt w (closing x) _ ih)
