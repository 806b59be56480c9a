-- ===== src/Tests/Fibers.antt =====
-- Fibers: a thread whose own fiber, at address 0, schedules two fibers that have not run.
use high_performance_server.Prelude.{
  ℕ, ◌≢◌, ◌==◌, true, false, [], ◌∷◌, some, if◌then◌else◌, ok, ◌≡◌, refl,
}
use high_performance_server.Fiber.States.{init, exec, hold}
use high_performance_server.Fiber.IdSet.{Ids}
use high_performance_server.Fiber.{
  Fiber, World, main_func, thread_stack, get_state, yields_hold, resume,
}
use high_performance_server.Fiber.Turn.{resume_lem}

abbrev pub own_fiber : Fiber
own_fiber = record {
  id = 0;
  stacksize = 0;
  state = exec;
  stack = false;
  cb = some 7;
  entry = thread_stack;
}

abbrev pub waiting_fiber : Fiber
waiting_fiber = record {
  id = 1;
  stacksize = 4096;
  state = init;
  stack = true;
  cb = some 7;
  entry = main_func;
}

abbrev pub three_fibers : World
three_fibers = record {
  fibers = λ a. if a == 0 then own_fiber else waiting_fiber;
  next = 3;
  ids = record { last = 2; used = 2 ∷ 1 ∷ [] };
  count = 3;
  t_fiber = some 0;
  t_thread_fiber = some 0;
  t_scheduler_fiber = some 0;
  default_stack = 1048576;
}

resume_lem_example :
    (w : World) × (resume 1 yields_hold three_fibers ≡ ok w)
    × (w.t_fiber ≡ some 0)
    × (get_state w 1 ≡ hold)
    × ((b : ℕ) → b ≢ 1 → w.fibers b ≡ three_fibers.fibers b)
resume_lem_example = resume_lem 1 0 yields_hold three_fibers refl refl refl

abbrev ids_before : Ids
ids_before = record { last = 2; used = 2 ∷ 1 ∷ [] }

abbrev ids_after : Ids
ids_after = record { last = 3; used = 3 ∷ 2 ∷ 1 ∷ [] }
