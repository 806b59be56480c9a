-- ===== src/Scheduler/Lifecycle.antt =====
-- ddg/scheduler.cc: the constructor, `start` and `stop`. The ids of new threads are an argument
-- (`spawn`), and so is whether Scheduler::GetThis() is this scheduler.
use high_performance_server.Prelude.{
  ℕ, zero, suc, ◌+◌, ◌-◌, ◌==◌, Bool, true, false, not, ◌&&◌, ◌||◌, List, [], ◌∷◌, ◌++◌, Option,
  none, some, is_empty, if◌then◌else◌, Result, ok, fail, assertion, thrown, unfinished, ◌>>=◌,
}
use high_performance_server.Fiber.States.{exec}
use high_performance_server.Fiber.{
  World, get_state, set_state, new_fiber, get_this, is_done, call, caller_main_func_end, enter,
  entry_of,
}
use high_performance_server.Scheduler.Queue.{Scheduler, tickle}
use high_performance_server.Scheduler.Run.{Turn, Loop, run_start, run_loop}

abbrev fresh : Scheduler
fresh = record {
  fibers = [];
  active = 0;
  idle = 0;
  stopping = true;
  auto_stop = false;
  root_thread = 0;
  root_fiber = none;
  thread_count = 0;
  thread_ids = [];
  threads = [];
  joined = [];
  tickles = 0;
}

-- Scheduler(threads, use_caller): `self` is the thread that makes it, `taken` says that the thread
-- has a scheduler already, and `run` is the bound `Scheduler::run`.
unfoldable pub make : ℕ → Bool → ℕ → Bool → ℕ → World → Result (Scheduler × World)
make threads use_caller self taken run w =
    if threads == 0
    then fail assertion
    else if not use_caller
    then ok (record fresh { thread_count = threads }, w)
    else if taken
    then fail assertion
    else (new_fiber (some run) 0 true (get_this w).1 >>= λ (f, w'). ok (
      record fresh {
        thread_count = threads - 1;
        root_thread = self;
        root_fiber = some f;
        thread_ids = self ∷ [];
      },
      record w' { t_scheduler_fiber = some f },
    ))

-- The ids of the threads `i`, …, `i + n - 1`.
abbrev pub spawned : (ℕ → ℕ) → ℕ → ℕ → List ℕ
spawned spawn i zero = []
spawned spawn i (suc n) = spawn i ∷ spawned spawn (i + 1) n

unfoldable pub start : (ℕ → ℕ) → Scheduler → Result Scheduler
start spawn s =
    if is_empty s.threads
    then ok (record s {
      stopping = false;
      threads = spawned spawn 0 s.thread_count;
      thread_ids = s.thread_ids ++ spawned spawn 0 s.thread_count;
    })
    else fail assertion

abbrev pub finished : Loop → Result (Scheduler × World)
finished l =
    if l.running
    then fail unfinished
    else (caller_main_func_end true l.world >>= λ w. ok (l.scheduler, w))

-- `m_rootFiber->call()`: the calling thread runs the loop until its `break`, and the root fiber's
-- callback ends.
unfoldable pub call_root : ℕ → ℕ → List Turn → ℕ → Scheduler → World → Result (Scheduler × World)
unfolding entry_of
call_root self idle_callback turns f s w = call f w >>= λ w1. enter (entry_of w1) w1 >>= λ w1.
    run_start self idle_callback s w1 >>= λ l. run_loop self turns l >>= finished

abbrev pub tickle_times : ℕ → Scheduler → Scheduler
tickle_times n s = record s { tickles = s.tickles + n }

-- The joins: `ret` is what pthread_join returns for a thread. An exception leaves the others.
unfoldable pub join_each : (ℕ → ℕ) → List ℕ → Scheduler → Result Scheduler
join_each ret [] s = ok s
join_each ret (t ∷ ts) s =
    let rest = join_each ret ts (record s { joined = s.joined ++ t ∷ [] }) in
    if ret t == 0 then rest else fail thrown

-- `thrs.swap(m_threads)` and the joins.
unfoldable pub join_all : (ℕ → ℕ) → Scheduler × World → Result (Scheduler × World)
unfolding join_each
join_all ret (s, w) = join_each ret s.threads (record s { threads = [] }) >>= λ s'. ok (s', w)

-- The two tests of m_rootFiber, the call of it, and the joins.
unfoldable pub stop_root :
    (ℕ → ℕ)
    → (Scheduler → Bool)
    → ℕ
    → ℕ
    → List Turn
    → Option ℕ
    → Scheduler
    → World
    → Result (Scheduler × World)
unfolding join_all
stop_root ret stoped self idle_callback turns none s w = join_all ret (s, w)
stop_root ret stoped self idle_callback turns (some f) s w =
    let s' = tickle s in
    let w' = set_state w f exec in
    if stoped s'
    then join_all ret (s', w')
    else (call_root self idle_callback turns f s' w' >>= join_all ret)

-- The assertion on GetThis fails.
abbrev pub wrong_thread : Bool → Scheduler → Bool
wrong_thread is_this s = not (s.root_thread == 0) && not is_this || s.root_thread == 0 && is_this

-- `stop` from the assertion on GetThis on.
unfoldable pub stop_running :
    (ℕ → ℕ)
    → (Scheduler → Bool)
    → Bool
    → ℕ
    → ℕ
    → List Turn
    → Scheduler
    → World
    → Result (Scheduler × World)
stop_running ret stoped is_this self idle_callback turns s w =
    if wrong_thread is_this s
    then fail assertion
    else stop_root ret stoped self idle_callback turns s.root_fiber
        (tickle_times s.thread_count (record s { stopping = true })) w

-- Whether the root fiber has ended.
unfoldable pub root_done : Scheduler → World → Bool
root_done s w = elim s.root_fiber [ none ↦ false | some f ↦ is_done (get_state w f) ]

-- Scheduler::stop; `stoped` is the virtual `isStoped`.
unfoldable pub stop :
    (ℕ → ℕ)
    → (Scheduler → Bool)
    → Bool
    → ℕ
    → ℕ
    → List Turn
    → Scheduler
    → World
    → Result (Scheduler × World)
stop ret stoped is_this self idle_callback turns s w =
    let s1 = record s { auto_stop = true } in
    let s2 = record s1 { stopping = true } in
    if stoped s1
    then ok (s1, w)
    else if root_done s w
    then (if stoped s2
        then ok (s2, w)
        else stop_running ret stoped is_this self idle_callback turns s2 w)
    else stop_running ret stoped is_this self idle_callback turns s1 w
