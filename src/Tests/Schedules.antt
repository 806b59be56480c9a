-- ===== src/Tests/Schedules.antt =====
-- The scheduler: a queue with a task for another thread, a fiber that has ended, one on HOLD and one that
-- is READY.
use high_performance_server.Prelude.{
  ℕ, ◌≢◌, ◌==◌, true, false, List, [], ◌∷◌, some, none, if◌then◌else◌, Result, ok, fail, ◌≡◌, refl,
  arith, ◌⊎◌,
}
use high_performance_server.Fiber.States.{exec, hold, ready, term}
use high_performance_server.Fiber.{World, get_state, yields_hold}
use high_performance_server.Scheduler.Queue.{Task, Scheduler, is_stoped}
use high_performance_server.Scheduler.Scan.{Scan, action, scan}
use high_performance_server.Scheduler.Picking.{Walked, scan-Walked}
use high_performance_server.Scheduler.Progress.{CanRun, iterate_total}
use high_performance_server.Scheduler.Run.{
  Turn, Loop, schedule_each, run_task, iterate, run_loop, active_desc,
}
use high_performance_server.Scheduler.Turns.{run_task_lem}
use high_performance_server.Scheduler.Lifecycle.{
  wrong_thread, stop, stop_root, stop_running, root_done, join_all, join_each,
}
use high_performance_server.Scheduler.Stopping.{Joined, stop_lem}
use high_performance_server.Tests.Fibers.{waiting_fiber, three_fibers}

abbrev mixed : World
mixed = record three_fibers {
  fibers = λ a. record waiting_fiber {
    state = if a == 0 then exec else if a == 1 then term else if a == 2 then hold else ready;
  };
}

abbrev pub task : ℕ → ℕ → Task
task f thread = record { fiber = some f; cb = none; thread = thread }

abbrev void : Task
void = record { fiber = none; cb = none; thread = 0 }

abbrev queue : List Task
queue = task 2 5 ∷ task 1 0 ∷ task 2 0 ∷ task 3 0 ∷ []

abbrev walked : Scan
walked = record {
  tickle_me = true;
  taken = some (task 3 0);
  queue = task 2 5 ∷ task 2 0 ∷ [];
  world = mixed;
}

scan-Walked_example : Walked 5 mixed queue walked
unfolding scan action
scan-Walked_example = scan-Walked 5 false mixed queue walked refl

abbrev pub pool : Scheduler
pool = record {
  fibers = [];
  active = 0;
  idle = 0;
  stopping = false;
  auto_stop = false;
  root_thread = 0;
  root_fiber = none;
  thread_count = 2;
  thread_ids = 8 ∷ 9 ∷ [];
  threads = 8 ∷ 9 ∷ [];
  joined = [];
  tickles = 0;
}

abbrev holding : Turn
holding = record { scheduled = task 3 0 ∷ []; slice = yields_hold }

run_task_lem_example :
    (r : Scheduler × World) × (run_task (task 2 0) holding (record pool { active = 1 }) mixed
      ≡ ok r)
    × (r.0 ≡ active_desc (schedule_each (task 3 0 ∷ []) (record pool { active = 1 })))
    × (get_state r.1 2 ≡ hold)
    × ((b : ℕ) → b ≢ 2 → r.1.fibers b ≡ mixed.fibers b)
run_task_lem_example =
    run_task_lem (task 2 0) 2 0 holding (record pool { active = 1 }) mixed refl refl refl

abbrev busy_loop : Loop
busy_loop = record {
  scheduler = record pool { fibers = task 2 0 ∷ task 3 0 ∷ [] };
  world = mixed;
  idle_fiber = some 4;
  running = true;
}

abbrev or_else {ℓ} : {A : Type ℓ} → Result A → A → A
or_else (ok a) b = a
or_else (fail e) b = b

abbrev after_two : Loop
after_two = or_else (run_loop 5 (holding ∷ holding ∷ []) busy_loop) busy_loop

abbrev stopped_pool : Scheduler
stopped_pool = record pool {
  auto_stop = true;
  stopping = true;
  threads = [];
  joined = 8 ∷ 9 ∷ [];
  tickles = 2;
}

stop_lem_example :
    (stopped_pool.auto_stop ≡ true)
    × ((is_stoped stopped_pool ≡ true)
          × (stopped_pool.threads ≡ 8 ∷ 9 ∷ [])
          × (stopped_pool.joined ≡ [])
        ⊎ (wrong_thread false pool ≡ false) × Joined (λ t. 0) (8 ∷ 9 ∷ []) [] stopped_pool)
unfolding stop is_stoped root_done stop_running stop_root join_all join_each
stop_lem_example =
    stop_lem (λ t. 0) is_stoped false 5 7 [] pool mixed (stopped_pool, mixed) (omega arith)
      (omega arith) refl

mixed-CanRun : CanRun mixed
mixed-CanRun = record { main = 0; scheduled_by = refl; ids_left = refl }

iterate_total_example : (l : Loop) × (iterate 5 holding busy_loop ≡ ok l)
iterate_total_example =
    iterate_total 5 holding busy_loop mixed-CanRun (λ f e. ground arith, (λ f e. ground arith, tt))
      (λ f e. refl, (λ f e. refl, tt)) (λ f e. (ground arith, refl))
