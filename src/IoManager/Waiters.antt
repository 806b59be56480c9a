-- ===== src/IoManager/Waiters.antt =====
-- What the operations of ddg/iomanager.cc do to the table of who waits for which event of which descriptor, and to the
-- schedulers' queues: a specification without slots, masks, counters and calls of epoll.
pub mod Slots
use high_performance_server.Prelude.{
  ℕ, ◌==◌, Bool, true, false, ◌&&◌, ◌||◌, Option, none, some, is_some, get_elem?, if◌then◌else◌,
  ◌≡◌, ◌≢◌, Result,
}
use high_performance_server.IoManager.Events.{
  Event, nothing, read, write, has, EventContext, FdContext, CtlCall, Schedulers, update_scheduler,
}
use high_performance_server.IoManager.{
  Manager, Caller, add_event, del_event, cancel_event, cancel_all,
}
use high_performance_server.IoManager.Triggering.{context_of, wake}
use high_performance_server.IoManager.Adding.{CanWait, waiting}

abbrev pub Waiters : Type 0
Waiters = ℕ → Event → Option EventContext

pub record Abstract : Type 0 where
  pub waiters : Waiters
  pub queues : Schedulers

abbrev pub waiter_of : FdContext → Event → Option EventContext
waiter_of c e = if has e c.events then some (context_of e c) else none

abbrev pub waiter_in : Option FdContext → Event → Option EventContext
waiter_in none e = none
waiter_in (some c) e = waiter_of c e

-- What a manager stands for.
abbrev pub view : Manager → Abstract
view m = record { waiters = λ i e. waiter_in (get_elem? m.contexts i) e; queues = m.schedulers }

abbrev pub eq_event : Event → Event → Bool
eq_event nothing nothing = true
eq_event read read = true
eq_event write write = true
eq_event _ _ = false

abbrev pub updated : ℕ → Event → Option EventContext → Waiters → Waiters
updated i e x w j f = if j == i && eq_event f e then x else w j f

-- Who waits is handed to its scheduler.
abbrev pub handed : Option ℕ → EventContext → Schedulers → Schedulers
handed none x ss = ss
handed (some s) x ss = update_scheduler ss s (wake x (ss s))

abbrev pub woken : Option EventContext → Schedulers → Schedulers
woken none ss = ss
woken (some x) ss = handed x.scheduler x ss

pub data Op : Type 0 where
  adds : Caller → ℕ → Event → Option ℕ → Op
  deletes cancels : ℕ → Event → Op
  cancels_all : ℕ → Op

-- The operation where there is something to do and epoll agrees.
abbrev pub spec : Op → Abstract → Abstract
spec (adds who i e cb) a = record a { waiters = updated i e (some (waiting who cb)) a.waiters }
spec (deletes i e) a = record a { waiters = updated i e none a.waiters }
spec (cancels i e) a = record {
  waiters = updated i e none a.waiters;
  queues = woken (a.waiters i e) a.queues;
}
spec (cancels_all i) a = record {
  waiters = updated i write none (updated i read none a.waiters);
  queues = woken (a.waiters i write) (woken (a.waiters i read) a.queues);
}

-- Whether there is something to do.
abbrev pub applies : Op → Abstract → Bool
applies (adds who i e cb) a = true
applies (deletes i e) a = is_some (a.waiters i e)
applies (cancels i e) a = is_some (a.waiters i e)
applies (cancels_all i) a = is_some (a.waiters i read) || is_some (a.waiters i write)

-- What the caller of addEvent has to see to.
abbrev pub Allowed : Op → Abstract → Type 0
Allowed (adds who i e cb) a = CanWait who cb × (e ≢ nothing) × (a.waiters i e ≡ none)
Allowed _ a = Unit

abbrev pub perform : (CtlCall → ℕ) → Op → Manager → Result (Bool × Manager)
perform ret (adds who i e cb) m = add_event ret who i e cb m
perform ret (deletes i e) m = del_event ret i e m
perform ret (cancels i e) m = cancel_event ret i e m
perform ret (cancels_all i) m = cancel_all ret i m

abbrev pub Same : Abstract → Abstract → Type 0
Same a b = ((i : ℕ) (e : Event) → a.waiters i e ≡ b.waiters i e) × (a.queues ≡ b.queues)
