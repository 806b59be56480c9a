-- ===== src/Tests/Served.antt =====
-- Sleeping fibers that the loop serves, and one that an event wakes.
use high_performance_server.Prelude.{
  true, [], ◌∷◌, some, none, ok, if◌then◌else◌, ◌==◌, ◌≡◌, refl, arith,
}
use high_performance_server.Fiber.States.{exec, hold, term, ready}
use high_performance_server.Fiber.{World, get_state, returns, yields_hold}
use high_performance_server.Scheduler.Run.{Turn, Loop, run_loop}
use high_performance_server.Scheduler.Serving.Rounds.{Rests, served_in_turn}
use high_performance_server.IoManager.Events.{read, FdContext, Schedulers, trigger_event}
use high_performance_server.IoManager.Serving.{triggered_served}
use high_performance_server.Tests.Fibers.{waiting_fiber, three_fibers}
use high_performance_server.Tests.Schedules.{task, pool}
use high_performance_server.Tests.Descriptors.{reader}

-- The main fiber 0, the idle fiber 1, and two that wait.
abbrev asleep : World
asleep = record three_fibers {
  fibers =
      λ a. record waiting_fiber { state = if a == 0 then exec else if a == 1 then ready else hold };
}

abbrev waits : Turn
waits = record { scheduled = task 3 0 ∷ []; slice = yields_hold }

abbrev ends : Turn
ends = record { scheduled = []; slice = returns }

abbrev resting : Loop
resting = record {
  scheduler = record pool { fibers = task 2 0 ∷ task 3 0 ∷ [] };
  world = asleep;
  idle_fiber = some 1;
  running = true;
}

resting-Rests : Rests 5 0 1 resting (2 ∷ 3 ∷ [])
resting-Rests = record {
  running = refl;
  thread = refl;
  idle = refl;
  still = refl;
  asleep = ((refl, refl, refl), ((refl, refl, refl), tt));
  apart = ((omega arith, (omega arith, tt)), ((omega arith, tt), (tt, tt)));
  enters = (refl, (refl, (refl, tt)));
}

served_in_turn_example :
    (l : Loop) × (run_loop 5 (waits ∷ waits ∷ ends ∷ []) resting ≡ ok l)
    × (get_state l.world 3 ≡ term)
served_in_turn_example =
    served_in_turn 5 0 1 waits ends (waits ∷ []) resting (2 ∷ 3 ∷ []) 3 resting-Rests refl

abbrev waiting : FdContext
waiting = record reader { read_context = record { scheduler = some 0; fiber = some 2; cb = none } }

abbrev pools : Schedulers
pools = λ s. pool

triggered_served_example :
    (c : FdContext) × (ss : Schedulers) × (l : Loop) × (trigger_event read waiting pools
      ≡ ok (c, ss))
    × (run_loop 5
          (waits ∷ ends ∷ [])
          (record { scheduler = ss 0; world = asleep; idle_fiber = some 1; running = true })
        ≡ ok l)
    × (get_state l.world 2 ≡ term)
triggered_served_example =
    triggered_served read waiting pools 0 2 5 0 1 asleep waits ends refl refl refl refl refl refl
      refl (omega arith) refl refl
