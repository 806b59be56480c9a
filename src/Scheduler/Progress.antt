-- ===== src/Scheduler/Progress.antt =====
-- The end of a round of the loop, and of `stop` where there is no root fiber.
use high_performance_server.Prelude.{
  ℕ, ◌-◌, leb, Bool, true, false, List, [], ◌∷◌, ◌++◌, none, some, Option, ◌≡◌, refl, ap, ◌∙◌,
  subst, arith, All, if◌then◌else◌, Result, ok, ◌>>=◌, inl, inr, Bool-cases, Option-cases,
}
use high_performance_server.Fiber.States.{State, exec, ready, eq_state}
use high_performance_server.Fiber.IdSet.{max_fiber_id, take_id}
use high_performance_server.Fiber.{
  World, get_state, set_state, new_fiber, main_func, caller_main_func,
}
use high_performance_server.Fiber.Turn.{resume_lem}
use high_performance_server.Scheduler.Queue.{Task, Scheduler, has_work, tickle_if, with_fibers}
use high_performance_server.Scheduler.Picking.{WokenOr, scan-Walked}
use high_performance_server.Scheduler.Faults.{IsLive, All-IsLive-wake, action-ne-drops}
use high_performance_server.Scheduler.Scan.{
  Action, pinned, busy, drops, takes, wakes, action, Scan, keep, scan,
}
use high_performance_server.Scheduler.Run.{
  Turn, Loop, fiber_of, run_task, run_idle, after_walk, iterate, active_incr,
}
use high_performance_server.Scheduler.Lifecycle.{
  wrong_thread, stop, stop_running, stop_root, root_done, join_each, join_all, tickle_times,
}

-- The thread has a scheduler fiber, and a fiber id is left to count up to.
pub record CanRun (w : World) : Type 0 where
  pub main : ℕ
  pub scheduled_by : w.t_scheduler_fiber ≡ some main
  pub ids_left : leb w.ids.last (max_fiber_id - 1) ≡ true

some_injective : {t u : Task} → some t ≡ some u → t ≡ u
some_injective h = cc

-- The fiber of the task, if it has one, is one of MainFunc whose last switch is to come.
abbrev pub Enters : World → Task → Type 0
Enters w t = (f : ℕ) → t.fiber ≡ some f → (w.fibers f).entry ≡ main_func

-- The walk returns, on a world that can run; no fiber's entry has changed, and a task that it takes enters MainFunc.
Returns : World → Result Scan → Type 0
Returns w r =
    (c : Scan) × (r ≡ ok c)
    × CanRun c.world
    × ((f : ℕ) → (c.world.fibers f).entry ≡ (w.fibers f).entry)
    × ((t : Task) → c.taken ≡ some t → Enters c.world t)

keep-Returns :
    (w : World) (t : Task) (b : Bool) (m : Result Scan) → Returns w m → Returns w (m >>= keep t b)
unfolding Returns
keep-Returns w t b m (c, e, v, n, k) = rw e (_, refl, v, n, k)

set_state-entry :
    (w : World) (f g : ℕ) (st : State) → ((set_state w f st).fibers g).entry ≡ (w.fibers g).entry
set_state-entry w f g st = ground arith

Returns-wake : (w : World) (f : ℕ) (m : Result Scan) → Returns (set_state w f ready) m → Returns w m
unfolding Returns
Returns-wake w f m (c, e, v, n, k) = (c, e, v, λ g. n g ∙ set_state-entry w f g ready, k)

All-Enters-wake :
    (w : World) (f : ℕ) (q : List Task) → All (Enters w) q → All (Enters (set_state w f ready)) q
All-Enters-wake w f [] h = tt
All-Enters-wake w f (t ∷ q) h =
    ((λ g e. set_state-entry w f g ready ∙ h.0 g e), All-Enters-wake w f q h.1)

scan-Returns_at :
    (self : ℕ) (w : World) (t : Task) (ts : List Task) (a : Action)
    → CanRun w
    → IsLive w t
    → All (IsLive w) ts
    → Enters w t
    → All (Enters w) ts
    → ((w' : World)
        → CanRun w'
        → All (IsLive w') ts
        → All (Enters w') ts
        → Returns w' (scan self false w' ts))
    → action self w t ≡ a
    → Returns w (scan self false w (t ∷ ts))
unfolding scan Returns
scan-Returns_at self w t ts pinned v live h n ns ih e =
    rw (e, scan) (keep-Returns w t true _ (ih w v h ns))
scan-Returns_at self w t ts busy v live h n ns ih e =
    rw (e, scan) (keep-Returns w t false _ (ih w v h ns))
scan-Returns_at self w t ts (wakes f) v live h n ns ih e =
    let w1 = set_state w f ready in
    let u : CanRun w1 = record {
      main = v.main;
      scheduled_by = v.scheduled_by;
      ids_left = v.ids_left;
    } in
    rw (e, scan)
      (keep-Returns w t false _
        (Returns-wake w f _ (ih w1 u (All-IsLive-wake w f ts h) (All-Enters-wake w f ts ns))))
scan-Returns_at self w t ts drops v live h n ns ih e = absurd (action-ne-drops self w t live e)
scan-Returns_at self w t ts takes v live h n ns ih e =
    rw (e, scan) (_, refl, v, λ f. refl, λ u k. subst (Enters w) (some_injective k) n)

scan-Returns :
    (self : ℕ) (w : World) (q : List Task)
    → CanRun w
    → All (IsLive w) q
    → All (Enters w) q
    → Returns w (scan self false w q)
unfolding scan Returns
scan-Returns self w [] v h n = (_, refl, v, λ f. refl, λ t k. cc)
scan-Returns self w (t ∷ ts) v h n =
    scan-Returns_at self w t ts (action self w t) v h.0 h.1 n.0 n.1
      (λ w' u. scan-Returns self w' ts u) refl

new_fiber_total :
    (cb : Option ℕ) (size : ℕ) (use_caller : Bool) (w : World)
    → CanRun w
    → (f : ℕ) × (w' : World) × (new_fiber cb size use_caller w ≡ ok (f, w'))
      × (w'.t_scheduler_fiber ≡ w.t_scheduler_fiber)
      × ((w'.fibers f).entry ≡ (if use_caller then caller_main_func else main_func))
unfolding new_fiber take_id
new_fiber_total cb size use_caller w v = rw v.ids_left (_, _, refl, refl, ground arith)

fiber_of_total :
    (t : Task) (w : World)
    → CanRun w
    → Enters w t
    → (f : ℕ) × (t' : Task) × (w' : World) × (fiber_of t w ≡ ok (f, t', w'))
      × (w'.t_scheduler_fiber ≡ w.t_scheduler_fiber)
      × ((w'.fibers f).entry ≡ main_func)
fiber_of_total t w v n = elim (Option-cases t.fiber) [
  | inr (f, e) ↦ (f, t, w, rw e refl, refl, n f e)
  | inl e ↦
      let (f, w', q, k, c) = new_fiber_total t.cb 0 false w v in
      (f, record t { fiber = some f; cb = none }, w', rw e (rw q refl), k, c)
]

-- The turn of a task: its fiber, or a new one for its callback, runs until it switches back.
run_task_total :
    (t : Task) (turn : Turn) (s : Scheduler) (w : World)
    → CanRun w
    → Enters w t
    → (r : Scheduler × World) × (run_task t turn s w ≡ ok r)
unfolding run_task
run_task_total t turn s w v n =
    let (f, t', w1, e, k, c) = fiber_of_total t w v n in
    let (w2, r, _, _, _) =
      resume_lem f v.main turn.slice (set_state w1 f ready) (ground arith)
        (set_state-entry w1 f f ready ∙ c) (k ∙ v.scheduled_by) in
    rw e (rw r (_, refl))

-- The idle fiber, if there is one, is not running and has not ended.
abbrev pub CanIdle : World → Option ℕ → Type 0
CanIdle w idle =
    (f : ℕ)
    → idle ≡ some f
    → (eq_state (get_state w f) exec ≡ false) × ((w.fibers f).entry ≡ main_func)

run_idle_total :
    (turn : Turn) (s : Scheduler) (w : World) (idle : Option ℕ)
    → CanRun w
    → CanIdle w idle
    → (l : Loop) × (run_idle turn s w idle ≡ ok l)
unfolding run_idle
run_idle_total turn s w none v h = (_, refl)
run_idle_total turn s w (some f) v h =
    let (w2, r, _, _, _) =
      resume_lem f v.main turn.slice w (h f refl).0 (h f refl).1 v.scheduled_by in
    rw r (_, refl)

after_walk_total :
    (turn : Turn) (s : Scheduler) (w : World) (idle : Option ℕ) (b : Bool) (taken : Option Task)
    → CanRun w
    → CanIdle w idle
    → ((t : Task) → taken ≡ some t → Enters w t)
    → (l : Loop) × (after_walk turn s w idle b taken ≡ ok l)
unfolding after_walk
after_walk_total turn s w idle b none v h n = run_idle_total turn (tickle_if (s, b)) w idle v h
after_walk_total turn s w idle b (some t) v h n = elim (Bool-cases (has_work t)) [
  | inr e ↦ rw e (_, refl)
  | inl e ↦
      let (r, q) = run_task_total t turn (tickle_if (active_incr s, b)) w v (n t refl) in
      rw e (rw q (_, refl))
]

woken-exec : (a b : State) → WokenOr a b → eq_state a exec ≡ false → eq_state b exec ≡ false
woken-exec a b h e = ground arith

-- A round of the loop returns, whatever the fiber does that it switches in, if the thread has a
-- scheduler fiber, no task of the queue has a dead fiber, the counter of fiber ids is not spent,
-- the idle fiber is not running, and it and the fibers of the queue are fibers of MainFunc that have not come
-- to their last switch: no assertion fails.
pub iterate_total :
    (self : ℕ) (turn : Turn) (l : Loop)
    → CanRun l.world
    → All (IsLive l.world) l.scheduler.fibers
    → All (Enters l.world) l.scheduler.fibers
    → CanIdle l.world l.idle_fiber
    → (l' : Loop) × (iterate self turn l ≡ ok l')
unfolding iterate Returns
iterate_total self turn l v live enters idle =
    let (c, e, u, n, k) = scan-Returns self l.world l.scheduler.fibers v live enters in
    let w = scan-Walked self false l.world l.scheduler.fibers c e in
    let (l', q) =
      after_walk_total turn (with_fibers l.scheduler c.queue) c.world l.idle_fiber c.tickle_me
        c.taken u (λ f q. (woken-exec _ _ (w.woken f) (idle f q).0, n f ∙ (idle f q).1)) k in
    (l', rw e q)

join_each_total :
    (ret : ℕ → ℕ) (ts : List ℕ) (s : Scheduler)
    → All (λ t. ret t ≡ 0) ts
    → (s' : Scheduler) × (join_each ret ts s ≡ ok s')
unfolding join_each
join_each_total ret [] s h = (s, refl)
join_each_total ret (t ∷ ts) s h =
    let (s', e) = join_each_total ret ts (record s { joined = s.joined ++ t ∷ [] }) h.1 in
    (s', rw h.0 e)

stop_root_total :
    (ret : ℕ → ℕ) (stoped : Scheduler → Bool) (self cb : ℕ) (turns : List Turn) (root : Option ℕ)
    (s : Scheduler) (w : World)
    → root ≡ none
    → All (λ t. ret t ≡ 0) s.threads
    → (r : Scheduler × World) × (stop_root ret stoped self cb turns root s w ≡ ok r)
unfolding stop_root join_all
stop_root_total ret stoped self cb turns none s w e j =
    let (s', q) = join_each_total ret s.threads (record s { threads = [] }) j in
    ((s', w), ap (λ r. r >>= λ s'. ok (s', w)) q)
stop_root_total ret stoped self cb turns (some f) s w e j = cc

stop_running_total :
    (ret : ℕ → ℕ) (stoped : Scheduler → Bool) (is_this : Bool) (self cb : ℕ) (turns : List Turn)
    (s : Scheduler) (w : World)
    → s.root_fiber ≡ none
    → wrong_thread is_this s ≡ false
    → All (λ t. ret t ≡ 0) s.threads
    → (r : Scheduler × World) × (stop_running ret stoped is_this self cb turns s w ≡ ok r)
unfolding stop_running
stop_running_total ret stoped is_this self cb turns s w e k j =
    let s' = tickle_times s.thread_count (record s { stopping = true }) in
    rw k (stop_root_total ret stoped self cb turns s.root_fiber s' w e j)

if-returns {ℓ} :
    {A : Type ℓ} (b : Bool) (x y : Result A)
    → ((r : A) × (x ≡ ok r))
    → ((r : A) × (y ≡ ok r))
    → (r : A) × ((if b then x else y) ≡ ok r)
if-returns true x y h k = h
if-returns false x y h k = k

-- `stop` returns on a scheduler without a root fiber, on a thread that may call it, if its threads can be joined,
-- whatever isStoped says.
pub stop_total :
    (ret : ℕ → ℕ) (stoped : Scheduler → Bool) (is_this : Bool) (self cb : ℕ) (turns : List Turn)
    (s : Scheduler) (w : World)
    → s.root_fiber ≡ none
    → wrong_thread is_this s ≡ false
    → All (λ t. ret t ≡ 0) s.threads
    → (r : Scheduler × World) × (stop ret stoped is_this self cb turns s w ≡ ok r)
unfolding stop
stop_total ret stoped is_this self cb turns s w e k j =
    let s1 = record s { auto_stop = true } in
    let s2 = record s1 { stopping = true } in
    if-returns (stoped s1) _ _ (_, refl)
      (if-returns (root_done s w) _ _
        (if-returns (stoped s2) _ _ (_, refl)
          (stop_running_total ret stoped is_this self cb turns s2 w e k j))
        (stop_running_total ret stoped is_this self cb turns s1 w e k j))
