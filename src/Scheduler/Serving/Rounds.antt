-- ===== src/Scheduler/Serving/Rounds.antt =====
-- The rounds of the loop over a queue of sleeping fibers.
use high_performance_server.Prelude.{
  ℕ, Bool, true, false, List, [], ◌∷◌, ◌++◌, Option, some, is_some, length, get_elem?, ◌≡◌, ◌≢◌,
  refl, ap, ◌∙◌, subst, arith, All, All-get, Result, ok, ◌>>=◌, if◌then◌else◌,
}
use mathlib.Core.List.{append_assoc}
use high_performance_server.Fiber.States.{exec, eq_state}
use high_performance_server.Fiber.{World, get_state}
use high_performance_server.Fiber.Turn.{resume_lem}
use high_performance_server.Scheduler.Queue.{Task, Scheduler, has_work, tickle_if, with_fibers}
use high_performance_server.Scheduler.Scan.{Scan, scan}
use high_performance_server.Scheduler.Run.{
  Turn, Loop, active_incr, active_desc, idle_incr, idle_desc, schedule_each, settle_idle, run_idle,
  after_walk, after_scan, iterate, run_loop,
}
use high_performance_server.Scheduler.Turns.{settled_state, run_task_lem}
use high_performance_server.Scheduler.Serving.{
  sleeps, is_ready, Hold, Distinct, Alike, Hold-Alike, Alike-others, scan-Woken, scan-takes,
  schedule_each-behind, All-flip, resume-thread, Enter, Enter-same, Enter-Alike,
}
use high_performance_server.Scheduler.Serving.Leaving.{run_task-thread, requeue-behind}

-- The loop is about to serve the tasks of `q`, whose fibers are ready, before any others.
pub record Serves (self m : ℕ) (l : Loop) (q : List Task) (fs : List ℕ) : Type 0 where
  pub running : l.running ≡ true
  pub thread : l.world.t_scheduler_fiber ≡ some m
  pub behind : List Task
  pub queue : l.scheduler.fibers ≡ q ++ behind
  pub ready : Hold self is_ready l.world q fs
  pub enters : Enter l.world fs

module _ (self m : ℕ) where
  -- A round over such a queue runs the first task, and leaves the others to be served next.
  ready_round :
      (turn : Turn) (l : Loop) (t : Task) (f : ℕ) (q : List Task) (fs : List ℕ)
      → Serves self m l (t ∷ q) (f ∷ fs)
      → All (λ g. g ≢ f) fs
      → (l' : Loop) × (iterate self turn l ≡ ok l')
        × Serves self m l' q fs
        × Alike l.world l'.world fs
        × (get_state l'.world f ≡ settled_state turn.slice (is_some (l.world.fibers f).cb))
  unfolding iterate after_walk
  ready_round turn l t f q fs v n =
      let ((p, e, r), h) = v.ready in
      let rest = q ++ v.behind in
      let s1 = tickle_if (active_incr (with_fibers l.scheduler rest), true) in
      let (r1, k, a, b, c) = run_task_lem t f m turn s1 l.world e v.enters.0 v.thread in
      let l' : Loop = record {
        scheduler = r1.0;
        world = r1.1;
        idle_fiber = l.idle_fiber;
        running = true;
      } in
      let (more, x) = schedule_each-behind turn.scheduled s1 in
      let (again, y) =
        requeue-behind turn.slice t (active_desc (schedule_each turn.scheduled s1)) in
      let alike = Alike-others l.world r1.1 f fs c n in
      let walk =
        ap (λ (ts : List Task). scan self false l.world ts) v.queue
        ∙ scan-takes self l.world t f rest p e r in
      let w : has_work t ≡ true = rw e refl in
      (
        l',
        ap (λ (x : Result Scan). x >>= after_scan turn l.scheduler l.idle_fiber) walk
            ∙ rw w (rw k refl),
        record {
          running = refl;
          thread = run_task-thread t f m turn s1 l.world r1 e v.enters.0 v.thread k;
          behind = v.behind ++ (more ++ again);
          queue =
              ap (λ (s : Scheduler). s.fibers) a
              ∙ y
              ∙ ap (λ (ts : List Task). ts ++ again) x
              ∙ append_assoc rest more again
              ∙ append_assoc q v.behind (more ++ again);
          ready = Hold-Alike self is_ready l.world r1.1 q fs alike h;
          enters = Enter-Alike l.world r1.1 fs alike v.enters.1;
        },
        alike,
        b,
      )

  run_loop-step :
      (turn : Turn) (turns : List Turn) (l l' : Loop)
      → l.running ≡ true
      → iterate self turn l ≡ ok l'
      → run_loop self (turn ∷ turns) l ≡ run_loop self turns l'
  unfolding run_loop
  run_loop-step turn turns l l' h k =
      ap (λ b. if b then iterate self turn l >>= run_loop self turns else ok l) h
      ∙ ap (λ (r : Result Loop). r >>= run_loop self turns) k

  -- The state in which the fiber at a place is left by the round that serves it.
  served_at :
      (turns : List Turn) (turn : Turn) (l : Loop) (q : List Task) (fs : List ℕ) (f : ℕ)
      → Serves self m l q fs
      → Distinct fs
      → get_elem? fs (length turns) ≡ some f
      → (l' : Loop) × (run_loop self (turns ++ turn ∷ []) l ≡ ok l')
        × (get_state l'.world f ≡ settled_state turn.slice (is_some (l.world.fibers f).cb))
  unfolding run_loop
  served_at [] turn l (t ∷ q) (g ∷ fs) f v (n, d) e =
      let (l', k, _, _, st) = ready_round turn l t g q fs v n in
      let same : g ≡ f = cc in
      (
        l',
        run_loop-step turn [] l l' v.running k,
        subst (λ x. get_state l'.world x ≡ settled_state turn.slice (is_some (l.world.fibers x).cb))
            same st,
      )
  served_at (u ∷ us) turn l (t ∷ q) (g ∷ fs) f v (n, d) e =
      let (l1, k, v1, a, _) = ready_round u l t g q fs v n in
      let (l', z, st) = served_at us turn l1 q fs f v1 d e in
      (
        l',
        run_loop-step u (us ++ turn ∷ []) l l1 v.running k ∙ z,
        st
            ∙ ap (λ x. settled_state turn.slice (is_some x.cb))
                (All-get (λ g. l1.world.fibers g ≡ l.world.fibers g) fs (length us) a e),
      )
  served_at turns turn l [] [] f v d e = cc
  served_at turns turn l [] (g ∷ fs) f v d e = elim v.ready [ ]
  served_at turns turn l (t ∷ q) [] f v d e = elim v.ready [ ]

  -- A loop in which everything on the queue sleeps, and the idle fiber `i` is not running; all of them are fibers of
  -- MainFunc that have not come to their last switch.
  pub record Rests (i : ℕ) (l : Loop) (fs : List ℕ) : Type 0 where
    pub running : l.running ≡ true
    pub thread : l.world.t_scheduler_fiber ≡ some m
    pub idle : l.idle_fiber ≡ some i
    pub still : eq_state (get_state l.world i) exec ≡ false
    pub asleep : Hold self sleeps l.world l.scheduler.fibers fs
    pub apart : Distinct (i ∷ fs)
    pub enters : Enter l.world (i ∷ fs)

  tickle_if-fibers : (s : Scheduler) (b : Bool) → (tickle_if (s, b)).fibers ≡ s.fibers
  tickle_if-fibers s true = refl
  tickle_if-fibers s false = refl

  settle_idle_lem :
      (i : ℕ) (s : Scheduler) (w : World)
      → ((settle_idle i s w).running ≡ true)
        × ((settle_idle i s w).world.t_scheduler_fiber ≡ w.t_scheduler_fiber)
        × ((settle_idle i s w).scheduler ≡ s)
        × ((b : ℕ) → b ≢ i → (settle_idle i s w).world.fibers b ≡ w.fibers b)
  settle_idle_lem i s w = (ground arith, ground arith, ground arith, λ b n. ground arith)

  -- The first round wakes the fibers and runs the idle fiber.
  idle_round :
      (turn : Turn) (i : ℕ) (l : Loop) (fs : List ℕ)
      → Rests i l fs
      → (l' : Loop) × (iterate self turn l ≡ ok l')
        × Serves self m l' l.scheduler.fibers fs
        × ((f : ℕ) → f ≢ i → (l'.world.fibers f).cb ≡ (l.world.fibers f).cb)
  unfolding iterate after_walk run_idle
  idle_round turn i l fs v =
      let q = l.scheduler.fibers in
      let (c, z, u) = scan-Woken self l.world q fs v.asleep v.apart.1 in
      let s1 = tickle_if (with_fibers l.scheduler c.queue, c.tickle_me) in
      let own : c.world.fibers i ≡ l.world.fibers i = u.others i (All-flip i fs v.apart.0) in
      let still : eq_state (get_state c.world i) exec ≡ false =
        ap (λ x. eq_state x.state exec) own ∙ v.still in
      let thread = u.thread ∙ v.thread in
      let enters = u.entries i ∙ v.enters.0 in
      let (w2, k, _, _, other) = resume_lem i m turn.slice c.world still enters thread in
      let s2 = idle_desc (schedule_each turn.scheduled (idle_incr s1)) in
      let (r, t, e, o) = settle_idle_lem i s2 w2 in
      let (more, x) = schedule_each-behind turn.scheduled (idle_incr s1) in
      let l' = settle_idle i s2 w2 in
      let alike = Alike-others c.world l'.world i fs (λ b n. o b n ∙ other b n) v.apart.0 in
      let taken : after_scan turn l.scheduler l.idle_fiber c ≡ run_idle turn s1 c.world (some i) =
        ap (after_walk turn (with_fibers l.scheduler c.queue) c.world l.idle_fiber c.tickle_me)
          u.idle
        ∙ ap (run_idle turn s1 c.world) v.idle in
      (
        l',
        ap (λ (x : Result Scan). x >>= after_scan turn l.scheduler l.idle_fiber) z
            ∙ taken
            ∙ rw k refl,
        record {
          running = r;
          thread = t ∙ resume-thread i m turn.slice c.world w2 enters still thread k;
          behind = more;
          queue =
              ap (λ (s : Scheduler). s.fibers) e
              ∙ x
              ∙ ap (λ (ts : List Task). ts ++ more)
                  (tickle_if-fibers (with_fibers l.scheduler c.queue) c.tickle_me ∙ u.same);
          ready = Hold-Alike self is_ready c.world l'.world q fs alike u.ready;
          enters =
              Enter-Alike c.world l'.world fs alike
                (Enter-same l.world c.world fs u.entries v.enters.1);
        },
        λ f n. ap (λ x. x.cb) (o f n ∙ other f n) ∙ u.callbacks f,
      )

  -- Where a thread's queue holds tasks whose fibers are all on HOLD or INIT, none of them twice and none pinned to the
  -- thread, and these and the idle fiber are fibers of MainFunc that have not come to their last switch, a round for the idle fiber and one for each task serve them in their order: the round after those
  -- for the idle fiber and for the tasks before it runs a task's fiber, and leaves it as the fiber's way of
  -- leaving says. This holds whatever the fibers do and schedule before.
  pub served_in_turn :
      (i : ℕ) (idle_turn turn : Turn) (turns : List Turn) (l : Loop) (fs : List ℕ) (f : ℕ)
      → Rests i l fs
      → get_elem? fs (length turns) ≡ some f
      → (l' : Loop) × (run_loop self (idle_turn ∷ turns ++ turn ∷ []) l ≡ ok l')
        × (get_state l'.world f ≡ settled_state turn.slice (is_some (l.world.fibers f).cb))
  served_in_turn i idle_turn turn turns l fs f v e =
      let (l1, k, w, c) = idle_round idle_turn i l fs v in
      let (l', z, st) = served_at turns turn l1 l.scheduler.fibers fs f w v.apart.1 e in
      (
        l',
        run_loop-step idle_turn (turns ++ turn ∷ []) l l1 v.running k ∙ z,
        st
            ∙ ap (λ (x : Option ℕ). settled_state turn.slice (is_some x))
                (c f (All-get (λ g. g ≢ i) fs (length turns) v.apart.0 e)),
      )
