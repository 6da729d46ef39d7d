-- ===== src/Tasks/Tests.antt =====
-- Tests of the managers of processes.
use aenvironment.Common.{ℕ, ◌≡◌, refl, true, false, not, ◌&&◌, [], ◌∷◌, ◌==◌, leb, arith}
use aenvironment.Common.Text.{Str, lit, str_eq}
use aenvironment.Common.Dict.{lookup}
use aenvironment.Tasks.{Process, TaskManager, System, is_alive, add_task, stop_all, start}
use aenvironment.Tasks.Stop.{owns, is_managed, stop_all-alive}
use aenvironment.Tasks.Orphans.{replaced_lives}
use aenvironment.Tasks.Watch.{Finished, start-Finished}

-- Process 7 may not be sent signals, and process 5 does not end in time.
abbrev system : System
system = record {
  environ = [];
  starts = λ command. true;
  refuses = λ pid. pid == 7;
  ends_in_time = λ pid. not (pid == 5);
  ends_by_itself = λ now pid. leb 3 now;
  exists = λ path. true;
  cwd = lit "/";
  is_darwin = false;
}

abbrev process : ℕ → Process
process n = record { pid = n; command = lit "sleep" ∷ []; env = [] }

abbrev manager : TaskManager
manager = record {
  tasks = (lit "a", process 5) ∷ (lit "b", process 7) ∷ [];
  running = false;
  alive = 5 ∷ 6 ∷ 7 ∷ [];
  next_pid = 8;
  sent = [];
}

stop_all-alive_example :
    is_alive 5 (stop_all system true manager)
    ≡ (is_alive 5 manager && not (is_managed 5 manager && not (system.refuses 5)))
stop_all-alive_example = stop_all-alive system 5 true manager

only_a : (n : Str) → str_eq (lit "a") n ≡ false → owns n 5 manager ≡ false
unfolding lookup
only_a n h = ground arith

replaced_lives_example :
    is_alive 5 (stop_all system true (add_task system (lit "a") (lit "ls" ∷ []) [] manager).1)
    ≡ true
replaced_lives_example =
    replaced_lives system (lit "a") (lit "ls" ∷ []) [] 5 true manager refl refl refl only_a

start-Finished_example : Finished system (start system 5 manager)
start-Finished_example = start-Finished system 3 manager (λ q m. refl)
