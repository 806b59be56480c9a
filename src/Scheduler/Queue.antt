-- ===== src/Scheduler/Queue.antt =====
-- ddg/scheduler.h: the queue of tasks (FiberAndThread), and putting work on it.
use high_performance_server.Prelude.{
  ℕ, ◌+◌, ◌-◌, ◌%◌, ◌^◌, ltb, ◌==◌, Bool, true, false, not, ◌&&◌, ◌||◌, List, [], ◌∷◌, ◌++◌, Option,
  none, is_some, is_empty, if◌then◌else◌, ◌≡◌, refl, arith, Bool-cases, inl, inr,
}
use mathlib.Core.List.{append-nil, append_assoc}

-- FiberAndThread: a fiber or a callback, and the thread it names (0 for none).
pub record Task : Type 0 where
  pub fiber : Option ℕ
  pub cb : Option ℕ
  pub thread : ℕ

abbrev pub has_work : Task → Bool
has_work t = is_some t.fiber || is_some t.cb

-- The members of Scheduler. `tickles` counts the calls of the virtual `tickle`; `threads` holds the
-- ids of the threads that have been started and not joined.
pub record Scheduler : Type 0 where
  pub fibers : List Task
  pub active : ℕ
  pub idle : ℕ
  pub stopping : Bool
  pub auto_stop : Bool
  pub root_thread : ℕ
  pub root_fiber : Option ℕ
  pub thread_count : ℕ
  pub thread_ids : List ℕ
  pub threads : List ℕ
  pub joined : List ℕ
  pub tickles : ℕ

abbrev pub with_fibers : Scheduler → List Task → Scheduler
with_fibers s q = record s { fibers = q }

abbrev pub tickle : Scheduler → Scheduler
tickle s = record s { tickles = s.tickles + 1 }

-- `int thread`: a uint64_t argument goes through 32 bits, with its sign.
abbrev pub through_int : ℕ → ℕ
through_int t = let r = t % 2 ^ 32 in if ltb r (2 ^ 31) then r else r + 2 ^ 64 - 2 ^ 32

-- scheduleNoLock(FiberAndThread::ptr): the new queue, and whether it is not empty.
unfoldable pub schedule_no_lock : Task → Scheduler → Scheduler × Bool
schedule_no_lock t s =
    let s' = if has_work t then record s { fibers = s.fibers ++ t ∷ [] } else s in
    (s', not (is_empty s'.fibers))

abbrev pub tickle_if : Scheduler × Bool → Scheduler
tickle_if (s, need) = if need then tickle s else s

-- schedule(FiberAndThread::ptr).
unfoldable pub schedule_task : Task → Scheduler → Scheduler
schedule_task t s = tickle_if (schedule_no_lock t s)

-- schedule(fc, thread), for a fiber and for a callback.
unfoldable pub schedule_fiber : Option ℕ → ℕ → Scheduler → Scheduler
unfolding schedule_task
schedule_fiber f thread s =
    schedule_task (record { fiber = f; cb = none; thread = through_int thread }) s

unfoldable pub schedule_cb : Option ℕ → ℕ → Scheduler → Scheduler
unfolding schedule_task
schedule_cb cb thread s =
    schedule_task (record { fiber = none; cb = cb; thread = through_int thread }) s

-- The loop of schedule(begin, end), with what it has found so far.
unfoldable pub schedule_all_no_lock : List Task → Scheduler → Bool → Scheduler × Bool
schedule_all_no_lock [] s need = (s, need)
schedule_all_no_lock (t ∷ ts) s need =
    let (s', n) = schedule_no_lock t s in schedule_all_no_lock ts s' (n || need)

unfoldable pub schedule_all : List Task → Scheduler → Scheduler
unfolding schedule_all_no_lock
schedule_all ts s = tickle_if (schedule_all_no_lock ts s false)

-- Scheduler::isStoped.
unfoldable pub is_stoped : Scheduler → Bool
is_stoped s = s.auto_stop && s.stopping && is_empty s.fibers && s.active == 0

-- The tasks of a list that hold work.
abbrev pub working : List Task → List Task
working [] = []
working (t ∷ ts) = if has_work t then t ∷ working ts else working ts

is_empty-append : (q r : List Task) → is_empty (q ++ r) ≡ is_empty q && is_empty r
is_empty-append [] r = refl
is_empty-append (t ∷ q) r = refl

not-is_empty-concat : (q : List Task) (t : Task) → is_empty (q ++ t ∷ []) ≡ false
not-is_empty-concat [] t = refl
not-is_empty-concat (u ∷ q) t = refl

schedule_no_lock_work :
    (t : Task) (s : Scheduler)
    → has_work t ≡ true
    → schedule_no_lock t s ≡ (with_fibers s (s.fibers ++ t ∷ []), true)
unfolding schedule_no_lock
schedule_no_lock_work t s e = ground (arith, not-is_empty-concat s.fibers t)

schedule_no_lock_void :
    (t : Task) (s : Scheduler)
    → has_work t ≡ false
    → schedule_no_lock t s ≡ (s, not (is_empty s.fibers))
unfolding schedule_no_lock
schedule_no_lock_void t s e = ground arith

schedule_all_no_lock_lem :
    (ts : List Task) (s : Scheduler) (need : Bool)
    → schedule_all_no_lock ts s need ≡ (
      with_fibers s (s.fibers ++ working ts),
      need || not (is_empty ts) && not (is_empty (s.fibers ++ working ts)),
    )
unfolding schedule_all_no_lock
schedule_all_no_lock_lem [] s need = simp append-nil (ground arith)
schedule_all_no_lock_lem (t ∷ ts) s need = elim (Bool-cases (has_work t)) [
  | inl e ↦
      rw
        (
          schedule_no_lock_work t s e,
          e,
          schedule_all_no_lock_lem ts (with_fibers s (s.fibers ++ t ∷ [])) true,
        )
        (rw (append_assoc s.fibers (t ∷ []) (working ts), is_empty-append) (ground arith))
  | inr e ↦
      rw
        (
          schedule_no_lock_void t s e,
          e,
          schedule_all_no_lock_lem ts s (not (is_empty s.fibers) || need),
        )
        (rw is_empty-append (ground arith))
]

-- A range is put behind the queue in its order, with its empty entries left out. No other member
-- changes, except that `tickle` is called once exactly when the range has an entry and the queue
-- is not empty afterwards.
pub schedule_all_lem :
    (ts : List Task) (s : Scheduler)
    → schedule_all ts s ≡ record s {
      fibers = s.fibers ++ working ts;
      tickles =
          if not (is_empty ts) && not (is_empty (s.fibers ++ working ts))
          then s.tickles + 1
          else s.tickles;
    }
unfolding schedule_all
schedule_all_lem ts s = rw (schedule_all_no_lock_lem ts s false) (ground arith)

-- A task that holds work goes to the end of the queue, and a sleeping thread is told; a task that
-- holds none leaves the queue. Nothing else is touched.
pub schedule_task_lem :
    (t : Task) (s : Scheduler)
    → (has_work t ≡ true
        → schedule_task t s ≡ record s { fibers = s.fibers ++ t ∷ []; tickles = s.tickles + 1 })
      × (has_work t ≡ false
          → schedule_task t s
            ≡ record s { tickles = if is_empty s.fibers then s.tickles else s.tickles + 1 })
unfolding schedule_task
schedule_task_lem t s = (
  λ e. rw (schedule_no_lock_work t s e) refl,
  λ e. rw (schedule_no_lock_void t s e) (ground arith),
)
