-- ===== src/Scheduler/Threads.antt =====
-- ddg/scheduler.cc: several threads in Scheduler::run on one scheduler. A step is what a thread does
-- between two accesses to what the threads share: the walk under the lock, one change of a counter, one
-- switch. A step whose assertion fails is none: the program has then aborted.
pub mod Addresses
pub mod Tally
pub mod Owners
pub mod Exclusive
pub mod Counts
pub mod Stopped
use high_performance_server.Prelude.{
  ℕ, zero, suc, ◌+◌, ◌<◌, ◌==◌, Bool, true, false, List, [], ◌∷◌, Option, none, some, if◌then◌else◌,
  ok, ◌≡◌,
}
use high_performance_server.Fiber.States.{ready}
use high_performance_server.Fiber.{World, set_state, swap_in, run_slice, Slice}
use high_performance_server.Scheduler.Queue.{
  Task, Scheduler, has_work, tickle_if, with_fibers, schedule_task,
}
use high_performance_server.Scheduler.Scan.{Scan, scan}
use high_performance_server.Scheduler.Run.{
  Loop, active_incr, active_desc, idle_incr, idle_desc, fiber_of, settle, settle_idle,
}

-- Where a thread is: at the head of the loop; with a task that it has taken; before swapIn; in the turn
-- of its fiber; after it, before and after m_activeThreadCount is decremented; where it has found no task;
-- in its idle fiber; after the `break`.
pub data Pc : Type 0 where
  looking idling ended : Pc
  holding : Task → Pc
  starting running left settling : ℕ → Task → Pc
  waiting : ℕ → Pc

-- `idle_fibers` has the fiber of idle_ft of each thread.
pub record System : Type 0 where
  pub scheduler : Scheduler
  pub world : World
  pub pcs : ℕ → Pc
  pub idle_fibers : ℕ → Option ℕ

abbrev pub set_pc : ℕ → Pc → System → System
set_pc i p s = record s { pcs = λ k. if k == i then p else s.pcs k }

abbrev pub with_scheduler : Scheduler → System → System
with_scheduler r s = record s { scheduler = r }

abbrev pub with_world : World → System → System
with_world w s = record s { world = w }

-- The thread-local pointers of a thread whose own fiber is `m`, while `f` runs on it.
abbrev pub on_thread : ℕ → ℕ → World → World
on_thread m f w = record w { t_fiber = some f; t_scheduler_fiber = some m }

-- The lock is released, and tickle() called.
unfoldable pub walked : ℕ → Scan → System → System
walked i c s =
    let r = with_fibers s.scheduler c.queue in
    elim c.taken [
      | some t ↦
          set_pc i (holding t)
            (with_world c.world (with_scheduler (tickle_if (active_incr r, c.tickle_me)) s))
      | none ↦ set_pc i idling (with_world c.world (with_scheduler (tickle_if (r, c.tickle_me)) s))
    ]

unfoldable pub counted_down : ℕ → Pc → System → System
counted_down i p s = set_pc i p (with_scheduler (active_desc s.scheduler) s)

unfoldable pub settled : ℕ → ℕ → Task → System → System
settled i f t s =
    let (r, w) = settle f t s.scheduler s.world in
    set_pc i looking (with_world w (with_scheduler r s))

abbrev pub set_idle_fiber : ℕ → Option ℕ → System → System
set_idle_fiber i o s = record s { idle_fibers = λ k. if k == i then o else s.idle_fibers k }

-- After the turn of the idle fiber.
unfoldable pub woken : ℕ → ℕ → World → System → System
woken i f w s =
    let l = settle_idle f (idle_desc s.scheduler) w in
    set_pc i looking
      (set_idle_fiber i l.idle_fiber (with_world l.world (with_scheduler l.scheduler s)))

-- A step of one of the threads below `n`, or of anyone who schedules a task or stops the scheduler.
-- `may` says which tasks are scheduled from outside the loop.
pub data Step (may : System → Task → Type 0) (n : ℕ) : System → System → Type 0 where
  walks :
      {s : System} (i : ℕ) (c : Scan)
      → i < n
      → s.pcs i ≡ looking
      → scan i false s.world s.scheduler.fibers ≡ ok c
      → Step may n s (walked i c s)
  drops :
      {s : System} (i : ℕ) (t : Task)
      → i < n
      → s.pcs i ≡ holding t
      → has_work t ≡ false
      → Step may n s (counted_down i looking s)
  starts :
      {s : System} (i f : ℕ) (t t' : Task) (w : World)
      → i < n
      → s.pcs i ≡ holding t
      → has_work t ≡ true
      → fiber_of t s.world ≡ ok (f, t', w)
      → Step may n s (set_pc i (starting f t') (with_world (set_state w f ready) s))
  switches_in :
      {s : System} (i m f : ℕ) (t : Task) (w : World)
      → i < n
      → s.pcs i ≡ starting f t
      → swap_in f (on_thread m m s.world) ≡ ok w
      → Step may n s (set_pc i (running f t) (with_world w s))
  switches_back :
      {s : System} (i m f : ℕ) (t : Task) (slice : Slice) (w : World)
      → i < n
      → s.pcs i ≡ running f t
      → run_slice slice (on_thread m f s.world) ≡ ok w
      → Step may n s (set_pc i (left f t) (with_world w s))
  counts_down :
      {s : System} (i f : ℕ) (t : Task)
      → i < n
      → s.pcs i ≡ left f t
      → Step may n s (counted_down i (settling f t) s)
  settles :
      {s : System} (i f : ℕ) (t : Task)
      → i < n
      → s.pcs i ≡ settling f t
      → Step may n s (settled i f t s)
  waits :
      {s : System} (i m f : ℕ) (w : World)
      → i < n
      → s.pcs i ≡ idling
      → s.idle_fibers i ≡ some f
      → swap_in f (on_thread m m s.world) ≡ ok w
      → Step may n s
          (set_pc i (waiting f) (with_world w (with_scheduler (idle_incr s.scheduler) s)))
  wakes :
      {s : System} (i m f : ℕ) (slice : Slice) (w : World)
      → i < n
      → s.pcs i ≡ waiting f
      → run_slice slice (on_thread m f s.world) ≡ ok w
      → Step may n s (woken i f w s)
  ends :
      {s : System} (i : ℕ)
      → i < n
      → s.pcs i ≡ idling
      → s.idle_fibers i ≡ none
      → Step may n s (set_pc i ended s)
  schedules :
      {s : System} (t : Task)
      → may s t
      → Step may n s (with_scheduler (schedule_task t s.scheduler) s)
  stops :
      {s : System} (stopping : Bool)
      → Step may n s
          (with_scheduler (record s.scheduler { auto_stop = true; stopping = stopping }) s)

-- The states that are reached from one where the threads enter the loop. The tasks that the queue
-- had before are scheduled then.
pub data Reach (may : System → Task → Type 0) (n : ℕ) : System → Type 0 where
  entered :
      (s : System)
      → ((i : ℕ) → s.pcs i ≡ looking)
      → s.scheduler.fibers ≡ []
      → s.scheduler.active ≡ 0
      → s.scheduler.idle ≡ 0
      → Reach may n s
  stepped : {s t : System} → Reach may n s → Step may n s t → Reach may n t
