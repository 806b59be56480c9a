-- ===== src/Tests/Polls.antt =====
-- The idle loop of the IO manager: a round with an expired timer, and one with an event for a descriptor that
-- has been added in between.
use high_performance_server.Prelude.{
  ◌≤◌, Bool, true, List, [], ◌∷◌, some, ok, ◌≡◌, ◌⊎◌, refl, arith, inl, All,
}
use high_performance_server.Scheduler.Queue.{is_stoped}
use high_performance_server.IoManager.{Manager, context_resize}
use high_performance_server.IoManager.Events.{Schedulers}
use high_performance_server.IoManager.Valid.{Valid}
use high_performance_server.IoManager.Idle.{
  Round, interrupted, reported, on_pipe, on_slot, wait_events, schedule_expired, idle, make,
}
use high_performance_server.IoManager.Idle.Waiting.{wait_events_le, AllMeet, make-idle}
use high_performance_server.Tests.Descriptors.{worker, reader, table, table-Valid, accept, input}

wait_events_le_example :
    All
      (λ timeout. timeout ≤ 3000)
      (wait_events 5000 (interrupted ∷ interrupted ∷ reported [] ∷ [])).0
wait_events_le_example =
    wait_events_le 5000 (interrupted ∷ interrupted ∷ reported [] ∷ []) (inl (omega arith))

abbrev workers : Schedulers
workers s = worker

abbrev opened : Manager
unfolding context_resize
opened = context_resize 32 (record { contexts = []; pending = 0; schedulers = workers; ctl = [] })

abbrev timer_round : Round
timer_round = record {
  next_timer = 100;
  waits = interrupted ∷ reported (on_pipe ∷ []) ∷ [];
  expired = some 7 ∷ [];
}

abbrev event_round : Round
event_round = record {
  next_timer = 100;
  waits = reported (on_slot 1 input ∷ []) ∷ [];
  expired = [];
}

abbrev elsewhere : Manager → Manager
elsewhere m = table

abbrev rounds : List Round
rounds = timer_round ∷ event_round ∷ []

rounds-AllMeet : AllMeet accept elsewhere 0 rounds opened
unfolding wait_events schedule_expired opened
rounds-AllMeet = (
  (on_pipe ∷ [], refl, tt),
  λ m e. ((on_slot 1 input ∷ [], refl, (reader, refl, (λ e. refl, λ e. cc), λ m e. tt)), λ m e. tt),
)

make-idle_example :
    (b : Bool) × (n : Manager) × (idle accept elsewhere 0 rounds opened ≡ ok (b, n))
    × Valid n
    × ((b ≡ true) ⊎ (n.pending ≡ 0) × (is_stoped (n.schedulers 0) ≡ true))
unfolding make opened
make-idle_example =
    make-idle accept elsewhere 0 rounds true 0 0 0 workers opened refl (λ n v. table-Valid)
      rounds-AllMeet
