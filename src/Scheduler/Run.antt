-- ===== src/Scheduler/Run.antt =====
-- ddg/scheduler.cc: the loop of Scheduler::run on one thread.
use high_performance_server.Prelude.{
  ℕ, ◌+◌, ◌-◌, ◌%◌, ◌==◌, Bool, true, false, List, [], ◌∷◌, Option, none, some, if◌then◌else◌,
  Result, ok, ◌>>=◌,
}
use high_performance_server.Fiber.States.{hold, exec, ready, eq_state}
use high_performance_server.Fiber.{
  World, get_state, set_state, Slice, resume, new_fiber, word, is_done, get_this,
}
use high_performance_server.Scheduler.Queue.{
  Task, Scheduler, has_work, tickle_if, schedule_task, with_fibers,
}
use high_performance_server.Scheduler.Scan.{Scan, scan}

-- One turn of the fiber that an iteration switches in: the tasks that it schedules, and how it
-- switches back.
pub record Turn : Type 0 where
  pub scheduled : List Task
  pub slice : Slice

-- `idle_fiber` is idle_ft (none once it has been reset); `running` is false after the `break`.
pub record Loop : Type 0 where
  pub scheduler : Scheduler
  pub world : World
  pub idle_fiber : Option ℕ
  pub running : Bool

abbrev pub active_incr : Scheduler → Scheduler
active_incr s = record s { active = (s.active + 1) % word }

abbrev pub active_desc : Scheduler → Scheduler
active_desc s = record s { active = (s.active + word - 1) % word }

abbrev pub idle_incr : Scheduler → Scheduler
idle_incr s = record s { idle = (s.idle + 1) % word }

abbrev pub idle_desc : Scheduler → Scheduler
idle_desc s = record s { idle = (s.idle + word - 1) % word }

-- The calls of `schedule` that a fiber makes while it runs.
unfoldable pub schedule_each : List Task → Scheduler → Scheduler
schedule_each [] s = s
schedule_each (t ∷ ts) s = schedule_each ts (schedule_task t s)

-- The fiber of the task, made now for a callback; the task then holds it.
abbrev pub fiber_of : Task → World → Result (ℕ × Task × World)
fiber_of t w = elim t.fiber [
  | some f ↦ ok (f, t, w)
  | none ↦
      new_fiber t.cb 0 false w >>= λ (f, w'). ok (f, record t { fiber = some f; cb = none }, w')
]

-- After the switch back: a READY fiber is scheduled again, one that has not ended is put on HOLD.
abbrev pub settle : ℕ → Task → Scheduler → World → Scheduler × World
settle f t s w =
    if eq_state (get_state w f) ready
    then (schedule_task t s, w)
    else if is_done (get_state w f)
    then (s, w)
    else (s, set_state w f hold)

-- `if (is_active && (ft->fiber || ft->cb))`.
unfoldable pub run_task : Task → Turn → Scheduler → World → Result (Scheduler × World)
run_task t turn s w = fiber_of t w >>= λ (f, t', w1).
    resume f turn.slice (set_state w1 f ready) >>= λ w2.
    ok (settle f t' (active_desc (schedule_each turn.scheduled s)) w2)

-- What the loop does with the idle fiber after its turn.
abbrev pub settle_idle : ℕ → Scheduler → World → Loop
settle_idle f s w =
    if eq_state (get_state w f) exec
    then record { scheduler = s; world = set_state w f hold; idle_fiber = some f; running = true }
    else record {
      scheduler = s;
      world = w;
      idle_fiber = if is_done (get_state w f) then none else some f;
      running = true;
    }

unfoldable pub run_idle : Turn → Scheduler → World → Option ℕ → Result Loop
run_idle turn s w none =
    ok (record { scheduler = s; world = w; idle_fiber = none; running = false })
run_idle turn s w (some f) = resume f turn.slice w >>= λ w'.
    ok (settle_idle f (idle_desc (schedule_each turn.scheduled (idle_incr s))) w')

-- The rest of an iteration: the tickle, and the task that the walk has taken or the idle fiber.
unfoldable pub after_walk : Turn → Scheduler → World → Option ℕ → Bool → Option Task → Result Loop
unfolding run_task run_idle
after_walk turn s w idle_fiber tickle_me (some t) =
    let s' = tickle_if (active_incr s, tickle_me) in
    if has_work t
    then (run_task t turn s' w >>= λ (s2, w2).
        ok (record { scheduler = s2; world = w2; idle_fiber = idle_fiber; running = true }))
    else ok
        (record { scheduler = active_desc s'; world = w; idle_fiber = idle_fiber; running = true })
after_walk turn s w idle_fiber tickle_me none =
    run_idle turn (tickle_if (s, tickle_me)) w idle_fiber

abbrev pub after_scan : Turn → Scheduler → Option ℕ → Scan → Result Loop
after_scan turn s idle_fiber c =
    after_walk turn (with_fibers s c.queue) c.world idle_fiber c.tickle_me c.taken

-- One round of `while (true)` on the thread `self`.
unfoldable pub iterate : ℕ → Turn → Loop → Result Loop
unfolding scan after_walk
iterate self turn l =
    scan self false l.world l.scheduler.fibers >>= after_scan turn l.scheduler l.idle_fiber

-- The rounds that a list of turns allows, up to the `break`.
unfoldable pub run_loop : ℕ → List Turn → Loop → Result Loop
unfolding iterate
run_loop self [] l = ok l
run_loop self (turn ∷ turns) l =
    let rest = iterate self turn l >>= run_loop self turns in if l.running then rest else ok l

-- The start of `run`: the thread's own fiber switches its tasks in, unless it is the root thread,
-- and `idle_callback` gets a fiber.
unfoldable pub run_start : ℕ → ℕ → Scheduler → World → Result Loop
unfolding get_this
run_start self idle_callback s w =
    let w1 =
      (if self == s.root_thread
        then w
        else (let (a, w') = get_this w in record w' { t_scheduler_fiber = some a })) in
    new_fiber (some idle_callback) 0 false w1 >>= λ (f, w2).
    ok (record { scheduler = s; world = w2; idle_fiber = some f; running = true })
