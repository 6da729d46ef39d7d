-- ===== src/Tasks/Watch.antt =====
-- The waiting loop of `TaskManager.start`.
use aenvironment.Common.{
  ℕ, zero, suc, ◌+◌, ◌≡◌, refl, sym, ap, subst, ◌∙◌, Bool, true, false, not, ◌&&◌, Option, none,
  some, List, [], ◌∷◌, any, select, ◌==◌, arith, if◌then◌else◌,
}
use aenvironment.Common.Text.{Str}
use aenvironment.Common.Dict.{Dict, lookup, keys}
use aenvironment.Tasks.{
  Process, TaskManager, System, polled, is_task_running, sleep, watch, start_with, start,
}
use aenvironment.Tasks.Stop.{owned, owns, is_managed}

any-select :
    (f : ℕ → Bool) (q : ℕ) (alive : List ℕ)
    → any (λ r. r == q) (select (λ p. not (f p)) alive) ≡ (any (λ r. r == q) alive && not (f q))
any-select f q [] = refl
any-select f q (r ∷ alive) =
    let same : (r == q) ≡ true → f r ≡ f q = λ e. let g : r ≡ q = ground arith in ap f g in
    ground (arith, any-select f q alive, same)

-- no task runs
abbrev pub is_idle : TaskManager → Bool
is_idle s = not (any (λ name. is_task_running name s) (keys s.tasks))

module _ (system : System) where
  slept :
      (o : Option Process) (now : ℕ) (s : TaskManager)
      → ((q : ℕ) → owned o q ≡ true → system.ends_by_itself now q ≡ true)
      → polled o (sleep system now s) ≡ false
  slept none now s h = refl
  slept (some p) now s h =
      let e : (p.pid == p.pid) ≡ true = ground arith in
      any-select (system.ends_by_itself now) p.pid s.alive ∙ ground (arith, h p.pid e)

  names_slept :
      (names : List Str) (now : ℕ) (s : TaskManager)
      → ((q : ℕ) → any (λ name. owns name q s) names ≡ true → system.ends_by_itself now q ≡ true)
      → any (λ name. is_task_running name (sleep system now s)) names ≡ false
  unfolding is_task_running
  names_slept [] now s h = refl
  names_slept (name ∷ names) now s h =
      let first : polled (lookup name s.tasks) (sleep system now s) ≡ false =
        slept (lookup name s.tasks) now s (λ q e. h q (ground (arith, e))) in
      let rest = names_slept names now s (λ q e. h q (ground (arith, e))) in
      ground (arith, first, rest)

  -- the loop is over, and no task runs
  abbrev pub Finished : Option TaskManager → Type 0
  Finished none = false ≡ true
  Finished (some s) = is_idle s ≡ true

  choose :
      (a b : Bool) (o : Option TaskManager) (s : TaskManager)
      → a ≡ true
      → (b ≡ true → Finished o)
      → (b ≡ false → is_idle s ≡ true)
      → Finished (if a && b then o else some s)
  choose true true o s r f g = f refl
  choose true false o s r f g = g refl
  choose false b o s r f g = absurd (let k : false ≡ true = r in cc)

  -- one round of the loop
  round :
      (o : Option TaskManager) (s : TaskManager)
      → s.running ≡ true
      → (any (λ name. is_task_running name s) (keys s.tasks) ≡ true → Finished o)
      → Finished
          (if s.running && any (λ name. is_task_running name s) (keys s.tasks) then o else some s)
  round o s r f =
      choose s.running (any (λ name. is_task_running name s) (keys s.tasks)) o s r f (ap not)

  watch_ends :
      (n now : ℕ) (s : TaskManager)
      → s.running ≡ true
      → ((q : ℕ) → is_managed q s ≡ true → system.ends_by_itself (now + n) q ≡ true)
      → Finished (watch system (suc (suc n)) now s)
  unfolding watch
  watch_ends zero now s r h =
      let now_ends : (q : ℕ) → is_managed q s ≡ true → system.ends_by_itself now q ≡ true = λ q e.
        let t : now + 0 ≡ now = omega arith in
        subst (λ t. system.ends_by_itself t q ≡ true) t (h q e) in
      let idle = names_slept (keys s.tasks) now s now_ends in
      round _ s r (λ _.
        round _ (sleep system now s) r (λ e. absurd (let f : true ≡ false = sym e ∙ idle in cc)))
  watch_ends (suc n) now s r h =
      let later : (q : ℕ) → is_managed q s ≡ true → system.ends_by_itself (suc now + n) q ≡ true =
        λ q e.
          let t : now + suc n ≡ suc now + n = omega arith in
          subst (λ t. system.ends_by_itself t q ≡ true) t (h q e) in
      round _ s r (λ _. watch_ends n (suc now) (sleep system now s) r later)

  start_with-Finished :
      (d : Dict Process) (n : ℕ) (s : TaskManager)
      → s.tasks ≡ d
      → ((q : ℕ) → is_managed q s ≡ true → system.ends_by_itself n q ≡ true)
      → Finished (start_with system d (suc (suc n)) s)
  start_with-Finished [] n s e h = ap (λ d. not (any (λ name. is_task_running name s) (keys d))) e
  start_with-Finished (t ∷ ts) n s e h =
      watch_ends n zero (record s { running = true }) refl
        (λ q m.
          let z : n ≡ 0 + n = omega arith in
          subst (λ t. system.ends_by_itself t q ≡ true) z (h q m))

  -- Where each process that a task stands for ends by itself in second n of the loop of `start`,
  -- if not before, `start` returns after at most n + 1 seconds, and then no task runs.
  pub start-Finished :
      (n : ℕ) (s : TaskManager)
      → ((q : ℕ) → is_managed q s ≡ true → system.ends_by_itself n q ≡ true)
      → Finished (start system (suc (suc n)) s)
  unfolding start
  start-Finished n s h = start_with-Finished s.tasks n s refl h
