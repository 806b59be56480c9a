-- ===== src/Tests/Interleavings.antt =====
-- Two threads in Scheduler::run, with two tasks whose fibers are READY: both take one, and both are in
-- the turns of their fibers at once.
use high_performance_server.Prelude.{
  ℕ, ◌+◌, ◌≤◌, ◌≢◌, ◌==◌, true, false, [], ◌∷◌, some, none, if◌then◌else◌, ◌≡◌, refl, arith,
}
use high_performance_server.Fiber.States.{ready}
use high_performance_server.Fiber.{World, set_state}
use high_performance_server.Scheduler.Queue.{Scheduler, is_stoped, schedule_task, schedule_no_lock}
use high_performance_server.Scheduler.Scan.{Scan, scan, action}
use high_performance_server.Scheduler.Threads.{
  looking, starting, left, settling, System, set_pc, with_world, with_scheduler, walked,
  counted_down, settled, Step, walks, starts, schedules, stops, Reach, entered, stepped,
}
use high_performance_server.Scheduler.Threads.Owners.{queued}
use high_performance_server.Scheduler.Threads.Tally.{tally, active_bit, waiting_bit}
use high_performance_server.Scheduler.Threads.Counts.{Reach-counts}
use high_performance_server.Scheduler.Threads.Stopped.{
  IsUncounted, is_stoped-quiet, is_stoped-early,
}
use high_performance_server.Scheduler.Threads.Exclusive.{IsUnheld, runs-exclusive}
use high_performance_server.Tests.Fibers.{waiting_fiber, three_fibers}
use high_performance_server.Tests.Schedules.{pool, task}

abbrev both_ready : World
both_ready = record three_fibers { fibers = λ a. record waiting_fiber { state = ready } }

abbrev at_start : System
at_start = record {
  scheduler = pool;
  world = both_ready;
  pcs = λ k. looking;
  idle_fibers = λ k. none;
}

abbrev with_one : System
with_one = with_scheduler (record pool { fibers = task 1 0 ∷ []; tickles = 1 }) at_start

abbrev with_two : System
with_two = with_scheduler (record pool { fibers = task 1 0 ∷ task 2 0 ∷ []; tickles = 2 }) at_start

abbrev scan_first : Scan
scan_first = record {
  tickle_me = true;
  taken = some (task 1 0);
  queue = task 2 0 ∷ [];
  world = both_ready;
}

abbrev scan_second : Scan
scan_second = record { tickle_me = true; taken = some (task 2 0); queue = []; world = both_ready }

IsUnheld-first : IsUnheld 2 at_start (task 1 0)
unfolding tally queued
IsUnheld-first g e = (ground arith, refl)

IsUnheld-second : IsUnheld 2 with_one (task 2 0)
unfolding tally queued
IsUnheld-second g e = let k : 2 ≡ g = cc in (ground arith, ground arith)

two_scheduled : Reach (IsUnheld 2) 2 with_two
unfolding schedule_task schedule_no_lock
two_scheduled =
    stepped {s = with_one}
      (stepped (entered at_start (λ i. refl) refl refl refl) (schedules (task 1 0) IsUnheld-first))
      (schedules (task 2 0) IsUnheld-second)

abbrev first_holds : System
unfolding walked
first_holds = walked 0 scan_first with_two

abbrev first_starts : System
unfolding walked
first_starts =
    set_pc 0 (starting 1 (task 1 0)) (with_world (set_state both_ready 1 ready) first_holds)

abbrev second_scan : Scan
unfolding walked
second_scan = record scan_second { world = first_starts.world }

abbrev second_holds : System
unfolding walked
second_holds = walked 1 second_scan first_starts

abbrev both_start : System
unfolding walked
both_start =
    set_pc 1 (starting 2 (task 2 0))
      (with_world (set_state second_holds.world 2 ready) second_holds)

both_reached : Reach (IsUnheld 2) 2 both_start
unfolding scan action walked
both_reached =
    stepped {s = second_holds}
      (stepped {s = first_starts}
        (stepped {s = first_holds}
          (stepped {s = with_two} two_scheduled (walks 0 scan_first (omega arith) refl refl))
          (starts 0 1 (task 1 0) (task 1 0) both_ready (omega arith) refl refl refl))
        (walks 1 second_scan (omega arith) refl refl))
      (starts 1 2 (task 2 0) (task 2 0) second_holds.world (omega arith) refl refl refl)

abbrev Differ : ℕ → ℕ → Type 0
Differ f g = f ≢ g

runs-exclusive_example : Differ 1 2
unfolding both_start
runs-exclusive_example =
    runs-exclusive 2 both_start 0 1 1 2 both_reached (omega arith) (omega arith) (omega arith) refl
      refl

Reach-counts_example :
    (both_start.scheduler.active ≡ tally active_bit both_start.pcs 2)
    × (both_start.scheduler.idle ≡ tally waiting_bit both_start.pcs 2)
    × (both_start.scheduler.active + both_start.scheduler.idle ≤ 2)
unfolding walked
Reach-counts_example = Reach-counts (IsUnheld 2) 2 both_start (omega arith) both_reached

counts_test : (both_start.scheduler.active ≡ 2) × (tally active_bit both_start.pcs 2 ≡ 2)
unfolding walked tally
counts_test = (refl, refl)

abbrev told_to_stop : Scheduler
told_to_stop = record pool { auto_stop = true; stopping = true }

is_stoped-quiet_example :
    (told_to_stop.fibers ≡ []) × IsUncounted ((with_scheduler told_to_stop at_start).pcs 1)
unfolding is_stoped
is_stoped-quiet_example =
    is_stoped-quiet (IsUnheld 2) 2 (with_scheduler told_to_stop at_start) 1 (omega arith)
      (stepped {s = at_start} (entered at_start (λ i. refl) refl refl refl) (stops true)) refl
      (omega arith)

abbrev yielded : System
yielded = record at_start {
  scheduler = record told_to_stop { active = 1 };
  pcs = λ k. if k == 0 then left 1 (task 1 0) else looking;
}

abbrev yielded_counted : System
unfolding counted_down
yielded_counted = counted_down 0 (settling 1 (task 1 0)) yielded

is_stoped-early_example :
    (Step (IsUnheld 2) 2 yielded yielded_counted × (is_stoped yielded_counted.scheduler ≡ true))
    × Step (IsUnheld 2) 2 yielded_counted (settled 0 1 (task 1 0) yielded_counted)
    × ((settled 0 1 (task 1 0) yielded_counted).scheduler.fibers ≡ task 1 0 ∷ [])
    × (is_stoped (settled 0 1 (task 1 0) yielded_counted).scheduler ≡ false)
unfolding counted_down settled
is_stoped-early_example =
    is_stoped-early (IsUnheld 2) 2 0 1 (task 1 0) yielded (omega arith) refl refl refl refl refl
      refl
