-- ===== src/IoManager.antt =====
-- ddg/iomanager.h and ddg/iomanager.cc: events on descriptors. What epoll_ctl returns is an argument
-- (`ret`), and the calls of it are recorded.
pub mod Events
pub mod Valid
pub mod Triggering
pub mod Keeps
pub mod Adding
pub mod Polling
pub mod RoundTrips
pub mod Waiters
pub mod Refining
pub mod Idle
pub mod Serving
use high_performance_server.Prelude.{
  ℕ, zero, suc, ◌+◌, ◌-◌, ◌*◌, ◌/◌, ◌%◌, ◌^◌, ltb, leb, ◌==◌, Bool, true, false, not, ◌&&◌, ◌||◌,
  List, [], ◌∷◌, ◌++◌, Option, none, some, is_some, is_empty, length, get_elem?, set, if◌then◌else◌,
  Result, ok, fail, assertion, undefined, ◌>>=◌,
}
use high_performance_server.Fiber.{word}
use high_performance_server.Scheduler.Queue.{Scheduler, is_stoped as base_is_stoped}
use Events.{
  Event, nothing, read, write, Events as EventSet, no_events, has, with_event, without, any, Mask,
  edge, CtlOp, ctl_add, ctl_del, ctl_mod, op_as_mask, CtlCall, EventContext, no_context, FdContext,
  get_context, put_context, reset_context, Schedulers, trigger_event,
}

-- m_fdContext (every slot is filled by contextResize), m_pendingEventCount, the schedulers that the
-- contexts point to, and the calls of epoll_ctl, the latest first.
pub record Manager : Type 0 where
  pub contexts : List FdContext
  pub pending : ℕ
  pub schedulers : Schedulers
  pub ctl : List CtlCall

abbrev pub new_context : ℕ → FdContext
new_context i = record {
  read_context = no_context;
  write_context = no_context;
  fd = i;
  events = no_events;
}

-- The slots from `i` on, cut or filled up to `n` slots.
abbrev pub resize_from : ℕ → ℕ → List FdContext → List FdContext
resize_from i zero cs = []
resize_from i (suc n) [] = new_context i ∷ resize_from (i + 1) n []
resize_from i (suc n) (c ∷ cs) = c ∷ resize_from (i + 1) n cs

unfoldable pub context_resize : ℕ → Manager → Manager
context_resize n m = record m { contexts = resize_from 0 n m.contexts }

abbrev pub pending_incr : Manager → Manager
pending_incr m = record m { pending = (m.pending + 1) % word }

abbrev pub pending_desc : Manager → Manager
pending_desc m = record m { pending = (m.pending + word - 1) % word }

abbrev pub called : CtlCall → Manager → Manager
called c m = record m { ctl = c ∷ m.ctl }

abbrev pub put : ℕ → FdContext → Manager → Manager
put i c m = record m { contexts = set m.contexts i c }

-- m_fdContext[fd]; out of the range it is undefined.
abbrev pub slot : ℕ → Manager → Result FdContext
slot i m = elim (get_elem? m.contexts i) [ none ↦ fail undefined | some c ↦ ok c ]

-- Who calls addEvent: Scheduler::GetThis(), Fiber::GetThis(), and whether that fiber is EXEC.
pub record Caller : Type 0 where
  pub scheduler : Option ℕ
  pub fiber : ℕ
  pub is_exec : Bool

-- `if (cb) … else …`.
abbrev pub fill : Caller → Option ℕ → Result EventContext
fill who (some cb) = ok (record { scheduler = who.scheduler; fiber = none; cb = some cb })
fill who none =
    if who.is_exec
    then ok (record { scheduler = who.scheduler; fiber = some who.fiber; cb = none })
    else fail assertion

abbrev pub is_free : EventContext → Bool
is_free x = not (is_some x.scheduler) && not (is_some x.fiber) && not (is_some x.cb)

-- addEvent after epoll_ctl has succeeded.
unfoldable pub register : Caller → ℕ → Event → Option ℕ → FdContext → Manager → Result Manager
unfolding get_context
register who i e cb c m =
    let m1 = pending_incr m in
    let c1 = record c { events = with_event e c.events } in
    get_context e c1 >>= λ x.
    if is_free x then (fill who cb >>= λ y. ok (put i (put_context e c1 y) m1)) else fail assertion

abbrev pub add_op : EventSet → CtlOp
add_op es = if any es then ctl_mod else ctl_add

abbrev pub del_op : EventSet → CtlOp
del_op es = if any es then ctl_mod else ctl_del

-- The first step of addEvent: the table gets a slot for the descriptor.
abbrev pub grown : ℕ → Manager → Manager
grown i m = if ltb i (length m.contexts) then m else context_resize (3 * i / 2) m

-- addEvent from its lock of the descriptor on.
unfoldable pub add_to :
    (CtlCall → ℕ) → Caller → ℕ → Event → Option ℕ → Manager → FdContext → Result (Bool × Manager)
unfolding register
add_to ret who i e cb m c =
    let k : CtlCall = record {
      op = add_op c.events;
      fd = i;
      mask = edge (with_event e c.events);
    } in
    if ret k == 0
    then (register who i e cb c (called k m) >>= λ m2. ok (true, m2))
    else ok (false, called k m)

-- addEvent; the flag of the result is true for 0 and false for -1.
unfoldable pub add_event :
    (CtlCall → ℕ) → Caller → ℕ → Event → Option ℕ → Manager → Result (Bool × Manager)
add_event ret who i e cb m = let m0 = grown i m in slot i m0 >>= add_to ret who i e cb m0

-- The test that delEvent, cancelEvent and cancelAll begin with, over the events of the descriptor;
-- `work` is what follows it.
abbrev pub if_registered :
    ℕ
    → (EventSet → Bool)
    → Manager
    → (FdContext → Result (Bool × Manager))
    → Result (Bool × Manager)
if_registered i test m work = elim (get_elem? m.contexts i) [
  | none ↦ ok (false, m)
  | some c ↦ if test c.events then work c else ok (false, m)
]

unfoldable pub del_event : (CtlCall → ℕ) → ℕ → Event → Manager → Result (Bool × Manager)
unfolding get_context reset_context
del_event ret i e m = if_registered i (has e) m (λ c.
    let es = without e c.events in
    let k : CtlCall = record { op = del_op es; fd = i; mask = edge es } in
    let m1 = called k m in
    if ret k == 0
    then (get_context e c >>= λ x.
        ok (true, put i (reset_context e (record c { events = es })) (pending_desc m1)))
    else ok (false, m1))

-- `fd_ctx->triggerEvent(event); m_pendingEventCount--;`.
unfoldable pub trigger : ℕ → Event → FdContext → Manager → Result (FdContext × Manager)
unfolding trigger_event
trigger i e c m = trigger_event e c m.schedulers >>= λ (c', ss).
    ok (c', put i c' (pending_desc (record m { schedulers = ss })))

unfoldable pub cancel_event : (CtlCall → ℕ) → ℕ → Event → Manager → Result (Bool × Manager)
unfolding trigger
cancel_event ret i e m = if_registered i (has e) m (λ c.
    let op = del_op (without e c.events) in
    let k : CtlCall = record { op = op; fd = i; mask = op_as_mask op } in
    let m1 = called k m in
    if ret k == 0 then (trigger i e c m1 >>= λ (c', m2). ok (true, m2)) else ok (false, m1))

-- `if (events & event) { triggerEvent(event); m_pendingEventCount--; }`.
abbrev pub trigger_if : Bool → ℕ → Event → FdContext × Manager → Result (FdContext × Manager)
trigger_if b i e (c, m) = if b then trigger i e c m else ok (c, m)

unfoldable pub cancel_all : (CtlCall → ℕ) → ℕ → Manager → Result (Bool × Manager)
unfolding trigger
cancel_all ret i m = if_registered i any m (λ c.
    let k : CtlCall = record { op = ctl_del; fd = i; mask = op_as_mask ctl_del } in
    let m1 = called k m in
    if ret k == 0
    then (trigger_if c.events.reads i read (c, m1) >>= λ (c1, m2).
        trigger_if c1.events.writes i write (c1, m2) >>= λ (c2, m3).
        if any c2.events then fail assertion else ok (true, m3))
    else ok (false, m1))

-- IOManager::tickle, given whether `write` has written the one byte to the pipe. The result says whether it is
-- called.
unfoldable pub tickle : Bool → Scheduler → Result Bool
tickle written s = if ltb 0 s.idle then (if written then ok true else fail assertion) else ok false

-- IOManager::isStoped.
unfoldable pub is_stoped : Manager → Scheduler → Bool
unfolding base_is_stoped
is_stoped m s = m.pending == 0 && base_is_stoped s

-- `~0ull`: getNextTimer's answer when there is no timer.
abbrev pub no_timer : ℕ
no_timer = word - 1

-- isStoped(timeout), given what getNextTimer returns.
unfoldable pub is_stoped_at : ℕ → Manager → Scheduler → Bool
unfolding is_stoped
is_stoped_at timeout m s = timeout == no_timer && is_stoped m s

-- The wait that `idle` gives to epoll_wait, as an int of 32 bits.
unfoldable pub wait_for : ℕ → ℕ
wait_for next =
    if next == no_timer
    then 3000
    else (let r = next % 2 ^ 32 in if ltb r (2 ^ 31) && ltb 3000 r then 3000 else r)

-- `ev.events` after `idle` has added EPOLLIN to a hang-up, or to EPOLLIN, of a reader.
abbrev pub seen : Mask → EventSet → Mask
seen ev es = record ev { epollin = ev.epollin || (ev.epollin || ev.epollhup) && es.reads }

-- The two bits of real_events.
abbrev pub real_reads : Mask → Bool
real_reads ev = ev.epollin || ev.epollhup

abbrev pub real_writes : Mask → Bool
real_writes ev = ev.epollout

-- The two `if (real_events & …)`.
abbrev pub fire : Bool → Bool → ℕ → FdContext → Manager → Result Manager
fire reads writes i c m = trigger_if reads i read (c, m) >>= λ (c1, m2).
    trigger_if writes i write (c1, m2) >>= λ (c2, m3). ok m3

abbrev pub left_events : Mask → EventSet → EventSet
left_events ev es = record {
  reads = es.reads && not (real_reads ev);
  writes = es.writes && not (real_writes ev);
}

-- `(fd_ctx->events & real_events) == NONE`.
abbrev pub irrelevant : Mask → EventSet → Bool
irrelevant ev es = not (es.reads && real_reads ev || es.writes && real_writes ev)

-- What `idle` does with one event that epoll_wait reports for the descriptor `c`.
unfoldable pub handle_at : (CtlCall → ℕ) → ℕ → Mask → Manager → FdContext → Result Manager
unfolding trigger
handle_at ret i ev m c =
    let ev' = seen ev c.events in
    let k : CtlCall = record { op = del_op (left_events ev' c.events); fd = c.fd; mask = ev' } in
    if irrelevant ev' c.events
    then ok m
    else if ret k == 0
    then fire (real_reads ev') (real_writes ev') i c (called k m)
    else ok (called k m)

-- `static_cast<FdContext*>(ev.data.ptr)` is the descriptor's slot.
unfoldable pub handle_event : (CtlCall → ℕ) → ℕ → Mask → Manager → Result Manager
unfolding handle_at
handle_event ret i ev m = slot i m >>= handle_at ret i ev m

-- The events that one epoll_wait reports, in their order; those of the pipe are left out.
unfoldable pub handle_events : (CtlCall → ℕ) → List (ℕ × Mask) → Manager → Result Manager
handle_events ret [] m = ok m
handle_events ret ((i, ev) ∷ evs) m = handle_event ret i ev m >>= handle_events ret evs
