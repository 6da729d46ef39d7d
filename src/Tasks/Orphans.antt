-- ===== src/Tasks/Orphans.antt =====
-- A task that is added under the name of a task that runs.
use aenvironment.Common.{ℕ, ◌≡◌, refl, ap, ◌∙◌, Bool, true, false, List, [], ◌∷◌, any, ◌==◌, arith}
use aenvironment.Common.Text.{Str, str_eq}
use aenvironment.Common.Dict.{Dict, lookup, insert, keys, lookup-insert}
use aenvironment.Tasks.{Process, TaskManager, System, is_alive, started, add_task, stop_all}
use aenvironment.Tasks.Stop.{owned, owns, is_managed, stop_all-alive}

none_owns :
    (names : List Str) (q : ℕ) (s : TaskManager)
    → ((name : Str) → owns name q s ≡ false)
    → any (λ name. owns name q s) names ≡ false
none_owns [] q s h = refl
none_owns (name ∷ names) q s h = ground (arith, h name, none_owns names q s h)

put_owns :
    (name n : Str) (p : Process) (q : ℕ) (d : Dict Process)
    → (p.pid == q) ≡ false
    → (str_eq name n ≡ false → owned (lookup n d) q ≡ false)
    → owned (lookup n (insert name p d)) q ≡ false
put_owns name n p q d h k = ap (λ o. owned o q) (lookup-insert name n p d) ∙ ground (arith, h, k)

module _ (system : System) where
  -- Where the command of a task can be started and the task is added under a name, `stop_all` then
  -- leaves every process running that ran before, whose number is not the new one's, and that no
  -- other name stands for: so also the process that the name stood for.
  pub replaced_lives :
      (name : Str) (command : List Str) (env : Dict Str) (q : ℕ) (force : Bool) (s : TaskManager)
      → system.starts command ≡ true
      → is_alive q s ≡ true
      → (s.next_pid == q) ≡ false
      → ((n : Str) → str_eq name n ≡ false → owns n q s ≡ false)
      → is_alive q (stop_all system force (add_task system name command env s).1) ≡ true
  unfolding add_task
  replaced_lives name command env q force s b a f h =
      let s1 = started system name command env s in
      let managed : is_managed q s1 ≡ false =
        none_owns (keys s1.tasks) q s1 (λ n. put_owns name n _ q s.tasks f (h n)) in
      rw b (stop_all-alive system q force s1 ∙ ground (arith, managed, a))
