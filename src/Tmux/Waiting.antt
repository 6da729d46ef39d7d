-- ===== src/Tmux/Waiting.antt =====
-- How long a terminal session waits for a command.
use aenvironment.Common.{
  ◌≡◌, ◌≢◌, refl, ap, ℕ, zero, suc, ◌+◌, ◌-◌, ◌*◌, ◌≤◌, Bool, true, false, Option, none, some, List,
  [], ◌∷◌, ltb, arith, if◌then◌else◌,
}
use aenvironment.Common.Text.{Str, lit, str_eq}
use aenvironment.Common.Words.{strip}
use aenvironment.Effect.{Result, ok, err}
use aenvironment.Effect.Exceptions.{Exn}
use aenvironment.Tmux.{send_keys, prepare_keys, is_enter}
use aenvironment.Tmux.Session.{
  Container, run_all, wait_command, wait_tmux_done, rest_after, type_keys, captured, keystrokes,
}

-- The clock does not go back, and a sleep lasts at least as long as it is asked to.
pub record Runs {W : Type 0} (container : Container W) : Type 0 where
  pub exec_time : (c : List Str) (w : W) → container.now w ≤ container.now (container.exec c w).1
  pub sleep_time : (t : ℕ) (w : W) → container.now w + t ≤ container.now (container.sleep t w)

pick-ne-none :
    {A : Type 0} (a b : Bool) (x z : A) (y : Option A)
    → (a ≡ true → y ≢ none)
    → (if a then if b then some x else y else some z) ≢ none
pick-ne-none true true x z y l e = absurd (cc)
pick-ne-none true false x z y l e = l refl e
pick-ne-none false b x z y l e = absurd (cc)

module _ {W : Type 0} (container : Container W) where
  wait_round :
      (fuel start timeout : ℕ) (w : W)
      → (ltb (container.now w - start) timeout ≡ true
          → wait_tmux_done container fuel start timeout
              (container.sleep 100 (container.exec wait_command w).1)
            ≢ none)
      → wait_tmux_done container (suc fuel) start timeout w ≢ none
  unfolding wait_tmux_done
  wait_round fuel start timeout w h =
      let (r, v) = container.exec wait_command w in
      pick-ne-none (ltb (container.now w - start) timeout) (str_eq (strip r.output) []) (ok tt, v)
        (err Exn.timeout_error, w)
        (wait_tmux_done container fuel start timeout (container.sleep 100 v)) h

  wait_ends :
      (fuel start timeout : ℕ) (w : W)
      → Runs container
      → start ≤ container.now w
      → timeout ≤ (container.now w - start) + 100 * fuel
      → wait_tmux_done container (suc fuel) start timeout w ≢ none
  wait_ends zero start timeout w r k h =
      wait_round zero start timeout w (λ e. absurd (ground (arith, k)))
  wait_ends (suc fuel) start timeout w r k h =
      let v = (container.exec wait_command w).1 in
      wait_round (suc fuel) start timeout w (λ e.
        wait_ends fuel start timeout (container.sleep 100 v) r
          (omega (arith, k, r.exec_time wait_command w, r.sleep_time 100 v))
          (omega (arith, h, k, r.exec_time wait_command w, r.sleep_time 100 v)))

  captured-ne-none :
      (session : Str) (o : Option (Result (Unit {0}) × W))
      → o ≢ none
      → captured container session o ≢ none
  unfolding captured
  captured-ne-none session none h e = h refl
  captured-ne-none session (some (ok a, w)) h e = absurd (cc)
  captured-ne-none session (some (err x, w)) h e = absurd (cc)

  rest-ne-none :
      (fuel t : ℕ) (blocking : Bool) (w : W)
      → Runs container
      → t ≤ 100 * fuel
      → rest_after container (suc fuel) blocking t t w ≢ none
  rest-ne-none fuel t true w r h e =
      wait_ends fuel (container.now w) t w r (omega arith) (omega (arith, h)) e
  rest-ne-none fuel t false w r h e = absurd (cc)

  -- With fuel for one round of 100 milliseconds each until the time to wait is over, and one more,
  -- the tool keystrokes returns or raises.
  pub keystrokes-ne-none :
      (fuel : ℕ) (session text : Str) (append_enter : Bool) (wait_time : ℕ) (w : W)
      → Runs container
      → wait_time ≤ 100 * fuel
      → keystrokes container (suc fuel) session text append_enter wait_time w ≢ none
  unfolding keystrokes type_keys
  keystrokes-ne-none fuel session text append_enter wait_time w r h =
      captured-ne-none session _ (rest-ne-none fuel wait_time _ _ r h)

  wait_zero :
      (fuel start : ℕ) (w : W)
      → wait_tmux_done container (suc fuel) start 0 w ≡ some (err Exn.timeout_error, w)
  unfolding wait_tmux_done
  wait_zero fuel start w =
      let late : ltb (container.now w - start) 0 ≡ false = ground arith in rw late refl

  -- With the default time to wait, 0, and an Enter behind the keys, the tool keystrokes raises a
  -- TimeoutError as soon as it has sent the keys, whatever the command does.
  pub keystrokes-default :
      (fuel : ℕ) (session text : Str) (w : W)
      → keystrokes container (suc fuel) session text true 0 w
        ≡ some (
          err Exn.timeout_error,
          run_all container (send_keys session (text ∷ lit "Enter" ∷ []) true).0 w,
        )
  unfolding keystrokes type_keys captured send_keys prepare_keys is_enter str_eq
  keystrokes-default fuel session text w =
      let v = run_all container (send_keys session (text ∷ lit "Enter" ∷ []) true).0 w in
      ap (captured container session) (wait_zero fuel (container.now v) v)
