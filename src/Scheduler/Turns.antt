-- ===== src/Scheduler/Turns.antt =====
-- One iteration of the loop: what happens to the task that is run, and to the counters.
use high_performance_server.Prelude.{
  ℕ, ◌<◌, Bool, false, List, [], ◌∷◌, Option, none, some, is_some, if◌then◌else◌, ◌≡◌, ◌≢◌, refl,
  ap, ◌∙◌, arith, ok, >>=-eq-ok, ok_injective, inl, inr, Bool-cases, subst,
}
use high_performance_server.Fiber.States.{State, hold, term, ready, except}
use high_performance_server.Fiber.{
  World, get_state, set_state, Slice, yields_ready, yields_hold, leaves, returns, throws, resume,
  word, main_func,
}
use high_performance_server.Fiber.Turn.{end_state, resume_lem}
use high_performance_server.Scheduler.Queue.{
  Task, Scheduler, has_work, tickle_if, schedule_task, with_fibers, schedule_task_lem,
}
use high_performance_server.Scheduler.Scan.{scan}
use high_performance_server.Scheduler.Run.{
  Turn, Loop, active_incr, active_desc, idle_incr, schedule_each, fiber_of, settle, run_task,
  run_idle, after_walk, iterate, run_loop,
}

-- The state in which the loop leaves a fiber that it has run.
abbrev pub settled_state : Slice → Bool → State
settled_state yields_ready cb = ready
settled_state yields_hold cb = hold
settled_state leaves cb = hold
settled_state returns cb = if cb then term else except
settled_state throws cb = except

abbrev pub requeue : Slice → Task → Scheduler → Scheduler
requeue yields_ready t s = schedule_task t s
requeue _ t s = s

settle_lem :
    (f : ℕ) (t : Task) (s : Scheduler) (w : World) (slice : Slice) (cb : Bool)
    → get_state w f ≡ end_state slice cb
    → ((settle f t s w).0 ≡ requeue slice t s)
      × (get_state (settle f t s w).1 f ≡ settled_state slice cb)
      × ((b : ℕ) → b ≢ f → (settle f t s w).1.fibers b ≡ w.fibers b)
settle_lem f t s w yields_ready cb h = (ground arith, ground arith, λ b n. ground arith)
settle_lem f t s w yields_hold cb h = (ground arith, ground arith, λ b n. ground arith)
settle_lem f t s w leaves cb h = (ground arith, ground arith, λ b n. ground arith)
settle_lem f t s w returns cb h = (ground arith, ground arith, λ b n. ground arith)
settle_lem f t s w throws cb h = (ground arith, ground arith, λ b n. ground arith)

set_state-cb : (w : World) (f : ℕ) (st : State) → ((set_state w f st).fibers f).cb ≡ (w.fibers f).cb
set_state-cb w f st = ground arith

set_state-entry :
    (w : World) (f : ℕ) (st : State) → ((set_state w f st).fibers f).entry ≡ (w.fibers f).entry
set_state-entry w f st = ground arith

set_state-ne : (w : World) (f b : ℕ) (st : State) → b ≢ f → (set_state w f st).fibers b ≡ w.fibers b
set_state-ne w f b st n = ground arith

-- On a thread with a scheduler fiber, the loop runs a task that holds a fiber of MainFunc, which has not ended, to the
-- end of its turn with no assertion failing. The task goes back on the queue, behind what its turn has
-- scheduled, exactly when the fiber yielded to READY; otherwise the fiber is left on HOLD or
-- ended. No other fiber changes, and the thread is no longer counted as active.
pub run_task_lem :
    (t : Task) (f m : ℕ) (turn : Turn) (s : Scheduler) (w : World)
    → t.fiber ≡ some f
    → (w.fibers f).entry ≡ main_func
    → w.t_scheduler_fiber ≡ some m
    → (r : Scheduler × World) × (run_task t turn s w ≡ ok r)
      × (r.0 ≡ requeue turn.slice t (active_desc (schedule_each turn.scheduled s)))
      × (get_state r.1 f ≡ settled_state turn.slice (is_some (w.fibers f).cb))
      × ((b : ℕ) → b ≢ f → r.1.fibers b ≡ w.fibers b)
unfolding run_task
run_task_lem t f m turn s w e n h =
    let w1 = set_state w f ready in
    let (w2, r, _, st, other) =
      resume_lem f m turn.slice w1 (ground arith) (set_state-entry w f ready ∙ n) h in
    let s' = active_desc (schedule_each turn.scheduled s) in
    let v = settle_lem f t s' w2 turn.slice _ st in
    (
      settle f t s' w2,
      rw (e, run_task) (rw r refl),
      v.0,
      v.1 ∙ ap (λ c. settled_state turn.slice (is_some c)) (set_state-cb w f ready),
      λ b n. v.2 b n ∙ other b n ∙ set_state-ne w f b ready n,
    )

-- The members that a round of the loop leaves as they were.
pub record SameMembers (s s' : Scheduler) : Type 0 where
  pub active : s'.active ≡ s.active
  pub idle : s'.idle ≡ s.idle
  pub stopping : s'.stopping ≡ s.stopping
  pub auto_stop : s'.auto_stop ≡ s.auto_stop
  pub threads : s'.threads ≡ s.threads
  pub joined : s'.joined ≡ s.joined
  pub root_fiber : s'.root_fiber ≡ s.root_fiber

pub schedule_task-SameMembers : (t : Task) (s : Scheduler) → SameMembers s (schedule_task t s)
schedule_task-SameMembers t s = elim (Bool-cases (has_work t)) [
  | inl e ↦ rw ((schedule_task_lem t s).0 e) (ground arith)
  | inr e ↦ rw ((schedule_task_lem t s).1 e) (ground arith)
]

schedule_each-SameMembers : (ts : List Task) (s : Scheduler) → SameMembers s (schedule_each ts s)
unfolding schedule_each
schedule_each-SameMembers [] s = ground arith
schedule_each-SameMembers (t ∷ ts) s =
    ground (arith, schedule_task-SameMembers t s, schedule_each-SameMembers ts (schedule_task t s))

pub settle-SameMembers :
    (f : ℕ) (t : Task) (s : Scheduler) (w : World) → SameMembers s (settle f t s w).0
settle-SameMembers f t s w = ground (arith, schedule_task-SameMembers t s)

run_task-SameMembers :
    (t : Task) (turn : Turn) (s : Scheduler) (w : World) (r : Scheduler × World)
    → run_task t turn s w ≡ ok r
    → SameMembers (active_desc s) r.0
unfolding run_task
run_task-SameMembers t turn s w r h =
    let ((f, t', w1), _, h1) = >>=-eq-ok (fiber_of t w) _ h in
    let (w2, _, h2) = >>=-eq-ok (resume f turn.slice (set_state w1 f ready)) _ h1 in
    let s' = schedule_each turn.scheduled s in
    subst (λ (r : Scheduler × World). SameMembers (active_desc s) r.0) (ok_injective h2)
      (ground (
        arith,
        schedule_each-SameMembers turn.scheduled s,
        settle-SameMembers f t' (active_desc s') w2,
      ))

run_idle-SameMembers :
    (turn : Turn) (s : Scheduler) (w : World) (f : Option ℕ) (l : Loop)
    → s.idle < word
    → run_idle turn s w f ≡ ok l
    → SameMembers s l.scheduler
unfolding run_idle
run_idle-SameMembers turn s w none l b h =
    subst (λ (l : Loop). SameMembers s l.scheduler) (ok_injective h) (ground arith)
run_idle-SameMembers turn s w (some f) l b h =
    let (w', _, h1) = >>=-eq-ok (resume f turn.slice w) _ h in
    subst (λ (l : Loop). SameMembers s l.scheduler) (ok_injective h1)
      (ground (arith, schedule_each-SameMembers turn.scheduled (idle_incr s)))

after_walk-SameMembers :
    (turn : Turn) (s : Scheduler) (w : World) (f : Option ℕ) (b : Bool) (taken : Option Task)
    (l : Loop)
    → s.active < word
    → s.idle < word
    → after_walk turn s w f b taken ≡ ok l
    → SameMembers s l.scheduler
unfolding after_walk
after_walk-SameMembers turn s w f b none l ha hi h =
    ground (arith, run_idle-SameMembers turn (tickle_if (s, b)) w f l (ground arith) h)
after_walk-SameMembers turn s w f b (some t) l ha hi h = elim (Bool-cases (has_work t)) [
  | inl e ↦
      let s' = tickle_if (active_incr s, b) in
      let ((s2, w2), h1, h2) = >>=-eq-ok (run_task t turn s' w) _ (rw (e, after_walk) at h) in
      subst (λ (l : Loop). SameMembers s l.scheduler) (ok_injective h2)
        (ground (arith, run_task-SameMembers t turn s' w (s2, w2) h1))
  | inr e ↦
      subst (λ (l : Loop). SameMembers s l.scheduler) (ok_injective (rw (e, after_walk) at h))
        (ground arith)
]

iterate-SameMembers :
    (self : ℕ) (turn : Turn) (l l' : Loop)
    → l.scheduler.active < word
    → l.scheduler.idle < word
    → iterate self turn l ≡ ok l'
    → SameMembers l.scheduler l'.scheduler
unfolding iterate
iterate-SameMembers self turn l l' ha hi h =
    let (c, _, h1) = >>=-eq-ok (scan self false l.world l.scheduler.fibers) _ h in
    ground (
      arith,
      after_walk-SameMembers turn (with_fibers l.scheduler c.queue) c.world l.idle_fiber c.tickle_me
          c.taken l' ha hi h1,
    )

-- Whatever the fibers do, however many rounds the loop makes, and wherever it stops, the counts of
-- active and of idle threads are then what they were before it (both being 64-bit words), and so
-- are the flags `m_stopping` and `m_autoStop`, the threads, those that have been joined, and the root fiber.
pub run_loop-SameMembers :
    (self : ℕ) (turns : List Turn) (l l' : Loop)
    → l.scheduler.active < word
    → l.scheduler.idle < word
    → run_loop self turns l ≡ ok l'
    → SameMembers l.scheduler l'.scheduler
unfolding run_loop
run_loop-SameMembers self [] l l' ha hi h = ground arith
run_loop-SameMembers self (turn ∷ turns) l l' ha hi h = elim (Bool-cases l.running) [
  | inl e ↦
      let (l1, h1, h2) = >>=-eq-ok (iterate self turn l) _ (rw (e, run_loop) at h) in
      let v = iterate-SameMembers self turn l l1 ha hi h1 in
      ground (arith, run_loop-SameMembers self turns l1 l' (ground arith) (ground arith) h2)
  | inr e ↦ ground arith
]
