-- ===== src/Tmux/Session.antt =====
-- The terminal session of aenv/builtin-envs/terminalbench/src/tmuxsession.py, and the tool
-- `keystrokes` of terminal.py on it. Times are in milliseconds. The file of the commands, the
-- recording of a session and the copying of files are left out.
use aenvironment.Common.{
  ℕ, zero, suc, ◌-◌, Bool, true, false, Option, none, some, List, [], ◌∷◌, ◌++◌, ltb, ◌==◌,
  if◌then◌else◌, length, drop, not,
}
use aenvironment.Common.Text.{Str, lit, str_eq}
use aenvironment.Common.Words.{strip, cut_last}
use aenvironment.Effect.{Result, ok, err}
use aenvironment.Effect.Exceptions.{Exn}
use aenvironment.Tmux.{send_keys}

-- `ExecResult`
pub record ExecResult : Type 0 where
  pub exit_code : ℕ
  pub output : Str

-- The container that commands run in, and the clock.
pub record Container (W : Type 0) : Type 0 where
  pub exec : List Str → W → ExecResult × W
  pub now : W → ℕ
  pub sleep : ℕ → W → W

pub record TmuxSession : Type 0 where
  pub session_name : Str
  pub previous_buffer : Option Str

abbrev empty_option : Bool → List Str
empty_option true = lit "-S" ∷ lit "-" ∷ []
empty_option false = []

unfoldable pub capture_command : Str → Bool → List Str
capture_command session entire =
    lit "tmux" ∷ lit "capture-pane" ∷ lit "-p" ∷ lit "-t" ∷ session ∷ empty_option entire

abbrev pub wait_command : List Str
wait_command = lit "tmux" ∷ lit "wait" ∷ lit "done" ∷ []

-- What came behind the last occurrence of the screen before, if it occurs.
unfoldable pub find_new_content : Str → Str → Option Str
unfolding strip cut_last
find_new_content previous current = elim (cut_last (strip previous) current) [
  | none ↦ none
  | some a ↦ some (drop (length (strip previous)) (drop (length a) current))
]

-- `if new_content and new_content.strip()`
unfoldable pub shows_new : Option Str → Bool
unfolding strip
shows_new none = false
shows_new (some s) = not (str_eq (strip s) [])

module _ {W : Type 0} (container : Container W) where
  abbrev pub run_all : List (List Str) → W → W
  run_all [] w = w
  run_all (command ∷ commands) w = run_all commands (container.exec command w).1

  -- `_wait_tmux_done`; none stands for a loop that is not over when the fuel is used up.
  unfoldable pub wait_tmux_done : ℕ → ℕ → ℕ → W → Option (Result (Unit {0}) × W)
  unfolding strip str_eq
  wait_tmux_done zero start timeout w = none
  wait_tmux_done (suc fuel) start timeout w =
      let (r, v) = container.exec wait_command w in
      let rest = wait_tmux_done fuel start timeout (container.sleep 100 v) in
      if ltb (container.now w - start) timeout
      then if str_eq (strip r.output) [] then some (ok tt, v) else rest
      else some (err Exn.timeout_error, w)

  -- the wait behind the commands, or the sleep that `min_timeout_sec` asks for
  abbrev pub rest_after : ℕ → Bool → ℕ → ℕ → W → Option (Result (Unit {0}) × W)
  rest_after fuel true min_timeout max_timeout w =
      wait_tmux_done fuel (container.now w) max_timeout w
  rest_after fuel false min_timeout max_timeout w =
      some (ok tt, if min_timeout == 0 then w else container.sleep min_timeout w)

  -- `send_keys` with its effects
  unfoldable pub type_keys : ℕ → Str → List Str → Bool → ℕ → ℕ → W → Option (Result (Unit {0}) × W)
  unfolding send_keys wait_tmux_done
  type_keys fuel session keys block min_timeout max_timeout w =
      let (commands, blocking) = send_keys session keys block in
      rest_after fuel blocking min_timeout max_timeout (run_all commands w)

  unfoldable pub capture_pane : Str → Bool → W → Str × W
  unfolding capture_command
  capture_pane session entire w =
      let (r, v) = container.exec (capture_command session entire) w in (r.output, v)

  unfoldable pub captured : Str → Option (Result (Unit {0}) × W) → Option (Result Str × W)
  unfolding capture_pane
  captured session none = none
  captured session (some (err e, w)) = some (err e, w)
  captured session (some (ok _, w)) = let (s, v) = capture_pane session true w in some (ok s, v)

  -- The tool `keystrokes`, with the time to wait for both timeouts.
  unfoldable pub keystrokes : ℕ → Str → Str → Bool → ℕ → W → Option (Result Str × W)
  unfolding type_keys captured
  keystrokes fuel session text append_enter wait_time w = captured session (
      type_keys fuel session (if append_enter then text ∷ lit "Enter" ∷ [] else text ∷ []) true
        wait_time wait_time w)

  -- The visible screen, or what is new; the session keeps the whole screen.
  unfoldable visible : Str → W → Str × W
  unfolding capture_pane
  visible session w =
      let (s, v) = capture_pane session false w in (lit "Current Terminal Screen:" ++ 10 ∷ s, v)

  unfoldable pub reported : Str → Option Str → W → Str × W
  unfolding visible
  reported session (some new) w =
      let (s, v) = visible session w in
      if shows_new (some new) then (lit "New Terminal Output:" ++ 10 ∷ new, w) else (s, v)
  reported session none w = visible session w

  unfoldable new_since : Option Str → Str → Option Str
  unfolding find_new_content
  new_since none current = none
  new_since (some previous) current = find_new_content previous current

  unfoldable pub get_incremental_output : TmuxSession → W → (Str × TmuxSession) × W
  unfolding capture_pane new_since reported
  get_incremental_output t w =
      let (current, v) = capture_pane t.session_name true w in
      let (s, u) = reported t.session_name (new_since t.previous_buffer current) v in
      ((s, record { session_name = t.session_name; previous_buffer = some current }), u)

  unfoldable pub is_session_alive : Str → W → Bool × W
  is_session_alive session w =
      let (r, v) = container.exec (lit "tmux" ∷ lit "has-session" ∷ lit "-t" ∷ session ∷ []) w in
      (r.exit_code == 0, v)
