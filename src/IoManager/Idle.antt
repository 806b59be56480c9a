-- ===== src/IoManager/Idle.antt =====
-- ddg/iomanager.cc: IOManager::idle, the loop that waits in epoll, and the constructor. What the system and the
-- timers answer is an argument: the class of the timers is not in the repository.
pub mod Waiting
use high_performance_server.Prelude.{
  ℕ, ◌+◌, ltb, ◌==◌, Bool, true, false, not, ◌||◌, List, [], ◌∷◌, map, Option, none, some, is_empty,
  if◌then◌else◌, Result, ok, fail, assertion, unfinished, ◌>>=◌,
}
use high_performance_server.Scheduler.Queue.{Task, Scheduler, schedule_all}
use high_performance_server.IoManager.Events.{Mask, CtlCall, Schedulers, update_scheduler}
use high_performance_server.IoManager.{
  Manager, context_resize, is_stoped_at, wait_for, handle_event,
}

-- An event that epoll_wait reports: for the pipe of `tickle`, which is emptied, or for a descriptor.
pub data Ready : Type 0 where
  on_pipe : Ready
  on_slot : ℕ → Mask → Ready

-- What epoll_wait does: it is interrupted, fails otherwise, or reports events.
pub data Wait : Type 0 where
  interrupted failed : Wait
  reported : List Ready → Wait

-- A round: what getNextTimer returns, what the calls of epoll_wait do, and the callbacks that
-- listExpiredCallback finds.
pub record Round : Type 0 where
  pub next_timer : ℕ
  pub waits : List Wait
  pub expired : List (Option ℕ)

-- The inner loop: the timeouts that epoll_wait is given, and the events that it reports in the end. It
-- is `unfinished` if every call of the list has been interrupted.
unfoldable pub wait_events : ℕ → List Wait → List ℕ × Result (List Ready)
unfolding wait_for
wait_events next [] = ([], fail unfinished)
wait_events next (w ∷ ws) =
    let timeout = wait_for next in
    let (timeouts, r) = wait_events timeout ws in
    elim w [
      | interrupted ↦ (timeout ∷ timeouts, r)
      | failed ↦ (timeout ∷ [], ok [])
      | reported evs ↦ (timeout ∷ [], ok evs)
    ]

abbrev pub callback_task : Option ℕ → Task
callback_task cb = record { fiber = none; cb = cb; thread = 0 }

-- `schedule(cbs.begin(), cbs.end())` on the manager's own scheduler, at `self`.
unfoldable pub schedule_expired : ℕ → List (Option ℕ) → Manager → Manager
unfolding schedule_all
schedule_expired self cbs m = if is_empty cbs then m else record m {
  schedulers =
      update_scheduler m.schedulers self (schedule_all (map callback_task cbs) (m.schedulers self));
}

unfoldable pub handle_ready : (CtlCall → ℕ) → List Ready → Manager → Result Manager
unfolding handle_event
handle_ready ret [] m = ok m
handle_ready ret (on_pipe ∷ evs) m = handle_ready ret evs m
handle_ready ret (on_slot i ev ∷ evs) m = handle_event ret i ev m >>= handle_ready ret evs

-- A round of `while (true)` up to the swapOut; the flag is false after the `break`.
unfoldable pub idle_round : (CtlCall → ℕ) → ℕ → Round → Manager → Result (Bool × Manager)
unfolding is_stoped_at wait_events schedule_expired handle_ready
idle_round ret self round m =
    if is_stoped_at round.next_timer m (m.schedulers self)
    then ok (false, m)
    else (wait_events round.next_timer round.waits).1 >>= λ evs.
        handle_ready ret evs (schedule_expired self round.expired m) >>= λ m'. ok (true, m')

-- The rounds of a list, up to the `break`. `others` is what the rest of the program does to the manager while the
-- idle fiber is switched out.
unfoldable pub idle :
    (CtlCall → ℕ) → (Manager → Manager) → ℕ → List Round → Manager → Result (Bool × Manager)
unfolding idle_round
idle ret others self [] m = ok (true, m)
idle ret others self (round ∷ rounds) m = idle_round ret self round m >>= λ (running, m').
    elim running [ true ↦ idle ret others self rounds (others m') | false ↦ ok (false, m') ]

-- The constructor's own part, given what epoll_create, pipe, fcntl and epoll_ctl return.
unfoldable pub make : Bool → ℕ → ℕ → ℕ → Schedulers → Result Manager
unfolding context_resize
make created piped set_nonblock added schedulers =
    if not created
    then fail assertion
    else if not (piped == 0)
    then fail assertion
    else if not (set_nonblock == 0)
    then fail assertion
    else if not (added == 0)
    then fail assertion
    else ok (
        context_resize 32
          (record { contexts = []; pending = 0; schedulers = schedulers; ctl = [] }))
