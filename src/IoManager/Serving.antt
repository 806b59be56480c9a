-- ===== src/IoManager/Serving.antt =====
-- An event of the IO manager and the scheduler's loop: from triggerEvent to the turn of the fiber that waits.
use high_performance_server.Prelude.{
  ℕ, true, false, List, [], ◌∷◌, ◌++◌, none, some, is_some, ◌≡◌, ◌≢◌, refl, sym, ap, ◌∙◌, subst, ok,
  ==_iff,
}
use high_performance_server.Fiber.States.{exec, eq_state}
use high_performance_server.Fiber.{World, get_state, main_func}
use high_performance_server.Scheduler.Queue.{Task, Scheduler, schedule_fiber, schedule_task_lem}
use high_performance_server.Scheduler.Run.{Turn, Loop, run_loop}
use high_performance_server.Scheduler.Turns.{settled_state}
use high_performance_server.Scheduler.Serving.{sleeps, Hold}
use high_performance_server.Scheduler.Serving.Rounds.{Rests, served_in_turn}
use high_performance_server.IoManager.Events.{
  Event, EventContext, FdContext, has, Schedulers, update_scheduler, trigger_event,
}
use high_performance_server.IoManager.Valid.{slot_ok}
use high_performance_server.IoManager.Triggering.{context_of, cleared, wake, trigger_event_lem}

-- The context in which a fiber waits.
abbrev pub fiber_waits : ℕ → ℕ → EventContext
fiber_waits s f = record { scheduler = some s; fiber = some f; cb = none }

abbrev loop_of : Scheduler → World → ℕ → Loop
loop_of s w i = record { scheduler = s; world = w; idle_fiber = some i; running = true }

schedule_fiber-alone :
    (f : ℕ) (s : Scheduler)
    → s.fibers ≡ []
    → (schedule_fiber (some f) 0 s).fibers ≡ record { fiber = some f; cb = none; thread = 0 } ∷ []
unfolding schedule_fiber
schedule_fiber-alone f s e =
    let t : Task = record { fiber = some f; cb = none; thread = 0 } in
    ap (λ (s : Scheduler). s.fibers) ((schedule_task_lem t s).0 refl)
    ∙ ap (λ (q : List Task). q ++ t ∷ []) e

update_self : (ss : Schedulers) (s s' : ℕ) (v : Scheduler) → s ≡ s' → update_scheduler ss s' v s ≡ v
update_self ss s s' v e = rw ((==_iff s s').1 e) refl

-- Where a fiber of MainFunc that is on HOLD or INIT waits for a registered event, and its scheduler's queue is empty, and the idle fiber has
-- not come to its last switch, triggerEvent returns, and then
-- two rounds of the loop on a thread of this scheduler, one for the idle fiber and one for the fiber, run the
-- fiber and leave it as its way of leaving says; whatever the idle fiber does and schedules.
pub triggered_served :
    (e : Event) (c : FdContext) (ss : Schedulers) (s f self m i : ℕ) (w : World)
    (idle_turn turn : Turn)
    → slot_ok c ≡ true
    → has e c.events ≡ true
    → context_of e c ≡ fiber_waits s f
    → (ss s).fibers ≡ []
    → sleeps (get_state w f) ≡ true
    → w.t_scheduler_fiber ≡ some m
    → eq_state (get_state w i) exec ≡ false
    → f ≢ i
    → (w.fibers i).entry ≡ main_func
    → (w.fibers f).entry ≡ main_func
    → (c' : FdContext) × (ss' : Schedulers) × (l : Loop) × (trigger_event e c ss ≡ ok (c', ss'))
      × (run_loop self (idle_turn ∷ turn ∷ []) (loop_of (ss' s) w i) ≡ ok l)
      × (get_state l.world f ≡ settled_state turn.slice (is_some (w.fibers f).cb))
triggered_served e c ss s f self m i w idle_turn turn v h x q z t n d ei ef =
    let (s', k, r) = trigger_event_lem e c ss v h in
    let same : s ≡ s' = let y = ap (λ (x : EventContext). x.scheduler) x in cc in
    let ss' = update_scheduler ss s' (wake (context_of e c) (ss s')) in
    let at : ss' s ≡ schedule_fiber (some f) 0 (ss s) =
      update_self ss s s' (wake (context_of e c) (ss s')) same
      ∙ ap (λ (x : EventContext). wake x (ss s')) x
      ∙ ap (λ (k : ℕ). schedule_fiber (some f) 0 (ss k)) (sym same) in
    let alone = ap (λ (s : Scheduler). s.fibers) at ∙ schedule_fiber-alone f (ss s) q in
    let rests : Rests self m i (loop_of (ss' s) w i) (f ∷ []) = record {
      running = refl;
      thread = t;
      idle = refl;
      still = n;
      asleep =
          subst (λ (q : List Task). Hold self sleeps w q (f ∷ [])) (sym alone)
            ((refl, refl, z), tt);
      apart = ((d, tt), (tt, tt));
      enters = (ei, (ef, tt));
    } in
    let (l, y, st) =
      served_in_turn self m i idle_turn turn [] (loop_of (ss' s) w i) (f ∷ []) f rests refl in
    (cleared e c, ss', l, r, y, st)
