-- ===== src/Scheduler/Serving/Leaving.antt =====
-- What a fiber's turn leaves: the thread's fiber, and the tasks behind those that wait.
use high_performance_server.Prelude.{
  ℕ, List, [], ◌++◌, some, ◌≡◌, sym, ap, ◌∙◌, arith, ok, >>=-eq-ok, ok_injective,
}
use mathlib.Core.List.{append-nil}
use high_performance_server.Fiber.States.{ready}
use high_performance_server.Fiber.{
  World, set_state, main_func, resume, Slice, yields_ready, yields_hold, leaves, returns, throws,
}
use high_performance_server.Scheduler.Queue.{Task, Scheduler}
use high_performance_server.Scheduler.Run.{Turn, active_desc, schedule_each, settle, run_task}
use high_performance_server.Scheduler.Turns.{requeue}
use high_performance_server.Scheduler.Serving.{schedule_task-behind, resume-thread, set_state-entry}

settle-thread :
    (f : ℕ) (t : Task) (s : Scheduler) (w : World)
    → (settle f t s w).1.t_scheduler_fiber ≡ w.t_scheduler_fiber
settle-thread f t s w = ground arith

pub run_task-thread :
    (t : Task) (f m : ℕ) (turn : Turn) (s : Scheduler) (w : World) (r : Scheduler × World)
    → t.fiber ≡ some f
    → (w.fibers f).entry ≡ main_func
    → w.t_scheduler_fiber ≡ some m
    → run_task t turn s w ≡ ok r
    → r.1.t_scheduler_fiber ≡ some m
unfolding run_task
run_task-thread t f m turn s w r e n h k =
    let (w2, k1, k2) =
      >>=-eq-ok (resume f turn.slice (set_state w f ready)) _ (rw (e, run_task) at k) in
    ap (λ (r : Scheduler × World). r.1.t_scheduler_fiber) (sym (ok_injective k2))
    ∙ settle-thread f (record t { fiber = some f }) (active_desc (schedule_each turn.scheduled s))
        w2
    ∙ resume-thread f m turn.slice (set_state w f ready) w2 (set_state-entry w f f ready ∙ n)
        (ground arith) h k1

pub requeue-behind :
    (slice : Slice) (t : Task) (s : Scheduler)
    → (more : List Task) × ((requeue slice t s).fibers ≡ s.fibers ++ more)
requeue-behind yields_ready t s = schedule_task-behind t s
requeue-behind yields_hold t s = ([], sym (append-nil s.fibers))
requeue-behind leaves t s = ([], sym (append-nil s.fibers))
requeue-behind returns t s = ([], sym (append-nil s.fibers))
requeue-behind throws t s = ([], sym (append-nil s.fibers))
