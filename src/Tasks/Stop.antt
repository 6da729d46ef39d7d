-- ===== src/Tasks/Stop.antt =====
-- What `stop_task` and `stop_all` do to the processes.
use aenvironment.Common.{
  ℕ, ◌≡◌, refl, ap, ◌∙◌, Bool, true, false, not, ◌&&◌, Option, none, some, List, [], ◌∷◌, any,
  select, ◌==◌, arith, Bool-cases, inl, inr,
}
use aenvironment.Common.Text.{Str}
use aenvironment.Common.Dict.{Dict, lookup, keys}
use aenvironment.Tasks.{
  Process, TaskManager, System, is_alive, end_process, stop_found, stop_task, stop_names, stop_all,
}

-- whether a task stands for a process
abbrev pub owned : Option Process → ℕ → Bool
owned none q = false
owned (some p) q = p.pid == q

abbrev pub owns : Str → ℕ → TaskManager → Bool
owns name q s = owned (lookup name s.tasks) q

abbrev pub is_managed : ℕ → TaskManager → Bool
is_managed q s = any (λ name. owns name q s) (keys s.tasks)

any_ended :
    (q p : ℕ) (alive : List ℕ)
    → any (λ r. r == q) (select (λ r. not (r == p)) alive)
      ≡ (any (λ r. r == q) alive && not (p == q))
any_ended q p [] = refl
any_ended q p (r ∷ alive) = ground (arith, any_ended q p alive)

module _ (system : System) where
  end_alive :
      (q p : ℕ) (force : Bool) (s : TaskManager)
      → is_alive q (end_process system p force s).1
        ≡ (is_alive q s && not (p == q && not (system.refuses q)))
  unfolding end_process
  end_alive q p force s =
      let same : (p == q) ≡ true → system.refuses p ≡ system.refuses q =
        λ e. let f : p ≡ q = ground arith in ap system.refuses f in
      elim (Bool-cases (system.refuses p)) [
        | inl r ↦ rw r (ground (arith, same))
        | inr r ↦ rw r (any_ended q p s.alive ∙ ground (arith, same))
      ]

  end_tasks :
      (p : ℕ) (force : Bool) (s : TaskManager) → (end_process system p force s).1.tasks ≡ s.tasks
  unfolding end_process
  end_tasks p force s = ground arith

  found_tasks :
      (o : Option Process) (force : Bool) (s : TaskManager)
      → (stop_found system o force s).1.tasks ≡ s.tasks
  unfolding stop_found
  found_tasks none force s = refl
  found_tasks (some p) force s = ground (arith, end_tasks p.pid force s)

  found_alive :
      (o : Option Process) (q : ℕ) (force : Bool) (s : TaskManager)
      → is_alive q (stop_found system o force s).1
        ≡ (is_alive q s && not (owned o q && not (system.refuses q)))
  unfolding stop_found
  found_alive none q force s = ground arith
  found_alive (some p) q force s =
      let same : (p.pid == q) ≡ true → is_alive p.pid s ≡ is_alive q s =
        λ e. let f : p.pid ≡ q = ground arith in ap (λ r. is_alive r s) f in
      elim (Bool-cases (is_alive p.pid s)) [
        | inl r ↦ rw r (end_alive q p.pid force s)
        | inr r ↦ rw r (ground (arith, same))
      ]

  -- The processes that are left after the tasks of some names were stopped.
  names_alive :
      (q : ℕ) (force : Bool) (names : List Str) (s : TaskManager)
      → is_alive q (stop_names system force names s)
        ≡ (is_alive q s && not (any (λ name. owns name q s) names && not (system.refuses q)))
  unfolding stop_task
  names_alive q force [] s = ground arith
  names_alive q force (name ∷ names) s =
      let o = lookup name s.tasks in
      let rest = names_alive q force names (stop_found system o force s).1 in
      let same : any (λ n. owns n q (stop_found system o force s).1) names
          ≡ any (λ n. owns n q s) names =
        ap (λ (d : Dict Process). any (λ n. owned (lookup n d) q) names) (found_tasks o force s) in
      ground (arith, rest, same, found_alive o q force s)

  -- After `stop_all`, a process runs exactly if it ran before and either no task stands for it or
  -- the operating system refuses to send it signals.
  pub stop_all-alive :
      (q : ℕ) (force : Bool) (s : TaskManager)
      → is_alive q (stop_all system force s)
        ≡ (is_alive q s && not (is_managed q s && not (system.refuses q)))
  unfolding stop_all
  stop_all-alive q force s = names_alive q force (keys s.tasks) s
