-- ===== src/Tmux/Tests.antt =====
-- Tests of the keys that are sent to a terminal.
use aenvironment.Common.{◌≡◌, refl, ℕ, ◌+◌, true, false, some, [], ◌∷◌, ◌++◌}
use aenvironment.Effect.{ok, err}
use aenvironment.Effect.Exceptions.{Exn}
use aenvironment.Tmux.Session.{Container, run_all, keystrokes, find_new_content}
use aenvironment.Tmux.Waiting.{keystrokes-default}
use aenvironment.Common.Text.{lit, str_eq, starts_with}
use aenvironment.Tmux.{is_enter, completion_keys, send_command, unless_empty, send_keys}
use aenvironment.Tmux.Keys.{send_keys-blocks}

send_keys-blocks_example :
    send_keys (lit "s") ((lit "ls" ∷ []) ++ lit "Enter" ∷ lit "C-m" ∷ []) true
    ≡ (unless_empty (lit "s") (lit "ls" ∷ []) ++ send_command (lit "s") completion_keys ∷ [], true)
unfolding is_enter str_eq
send_keys-blocks_example =
    send_keys-blocks (lit "s") (lit "ls" ∷ []) (lit "Enter") (lit "C-m" ∷ []) refl
      (refl, (refl, tt))

-- Without `block` the keys go as they are.
plain_keys :
    send_keys (lit "s") (lit "ls" ∷ lit "Enter" ∷ []) false
    ≡ (send_command (lit "s") (lit "ls" ∷ lit "Enter" ∷ []) ∷ [], false)
unfolding send_keys
plain_keys = refl

-- The state is the clock; every command takes 5 milliseconds.
abbrev container : Container ℕ
container = record {
  exec = λ c n. (record { exit_code = 0; output = [] }, n + 5);
  now = λ n. n;
  sleep = λ t n. n + t;
}

test_keystrokes : keystrokes container 9 (lit "s") (lit "ls") true 300 0 ≡ some (ok [], 20)
unfolding keystrokes is_enter str_eq
test_keystrokes = refl

keystrokes-default_example :
    keystrokes container 1 (lit "s") (lit "ls") true 0 0
    ≡ some (
      err Exn.timeout_error,
      run_all container (send_keys (lit "s") (lit "ls" ∷ lit "Enter" ∷ []) true).0 0,
    )
keystrokes-default_example = keystrokes-default container 0 (lit "s") (lit "ls") 0

test_new : find_new_content (lit "$ ls ") (lit "$ ls a b") ≡ some (lit " a b")
unfolding find_new_content starts_with
test_new = refl
