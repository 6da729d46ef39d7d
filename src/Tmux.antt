-- ===== src/Tmux.antt =====
-- The keys that aenv/builtin-envs/terminalbench/src/tmuxsession.py sends to a terminal:
-- `_prepare_keys` and `send_keys`, as the commands that are run in the container and whether the
-- completion is waited for. The file of the commands and the log are left out.
pub mod Keys
pub mod Session
pub mod Waiting
pub mod Screen
pub mod Tests
use aenvironment.Common.{Bool, true, false, ◌&&◌, List, [], ◌∷◌, ◌++◌, any, if◌then◌else◌}
use aenvironment.Common.Text.{Str, lit, str_eq}

abbrev pub enter_keys : List Str
enter_keys = lit "Enter" ∷ lit "C-m" ∷ lit "KPEnter" ∷ lit "C-j" ∷ lit "^M" ∷ lit "^J" ∷ []

unfoldable pub is_enter : Str → Bool
unfolding str_eq
is_enter key = any (str_eq key) enter_keys

abbrev pub completion_keys : List Str
completion_keys = lit "; tmux wait -S done" ∷ lit "Enter" ∷ []

-- `keys and keys[-1] in _ENTER_KEYS`
abbrev pub ends_with_enter : List Str → Bool
ends_with_enter [] = false
ends_with_enter (k ∷ []) = is_enter k
ends_with_enter (k ∷ j ∷ ks) = ends_with_enter (j ∷ ks)

abbrev pub cons_kept : Str → List Str → List Str
cons_kept k [] = if is_enter k then [] else k ∷ []
cons_kept k (j ∷ ks) = k ∷ j ∷ ks

-- the keys before the last ones that are Enter
abbrev pub drop_enters : List Str → List Str
drop_enters [] = []
drop_enters (k ∷ ks) = cons_kept k (drop_enters ks)

unfoldable pub prepare_keys : List Str → Bool → List Str × Bool
unfolding is_enter
prepare_keys keys block =
    if block && ends_with_enter keys
    then (drop_enters keys ++ completion_keys, true)
    else (keys, false)

-- `prepared[:-2]`
abbrev pub but_two : List Str → List Str
but_two [] = []
but_two (k ∷ []) = []
but_two (k ∷ j ∷ []) = []
but_two (k ∷ j ∷ i ∷ ks) = k ∷ but_two (j ∷ i ∷ ks)

abbrev pub send_command : Str → List Str → List Str
send_command session keys = lit "tmux" ∷ lit "send-keys" ∷ lit "-t" ∷ session ∷ keys

abbrev pub unless_empty : Str → List Str → List (List Str)
unless_empty session [] = []
unless_empty session (k ∷ ks) = send_command session (k ∷ ks) ∷ []

abbrev pub sent : Str → List Str × Bool → List (List Str) × Bool
sent session (prepared, true) =
    (unless_empty session (but_two prepared) ++ send_command session completion_keys ∷ [], true)
sent session (prepared, false) = (send_command session prepared ∷ [], false)

-- the commands, and whether `_wait_tmux_done` is called behind them
unfoldable pub send_keys : Str → List Str → Bool → List (List Str) × Bool
unfolding prepare_keys
send_keys session keys block = sent session (prepare_keys keys block)
