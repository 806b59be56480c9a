-- ===== src/IoManager/Polling.antt =====
-- What `idle` does with the events that epoll_wait reports.
use high_performance_server.Prelude.{
  ℕ, ◌^◌, ◌≤◌, ◌<◌, ◌==◌, Bool, true, false, ◌||◌, List, [], ◌∷◌, some, get_elem?, if◌then◌else◌,
  ◌≡◌, refl, sym, ◌∙◌, arith, Result, ok, fail, assertion,
}
use high_performance_server.IoManager.Events.{Events, FdContext, read, write, CtlCall, Mask}
use high_performance_server.IoManager.{
  Manager, called, trigger, del_op, seen, real_reads, real_writes, irrelevant, left_events, fire,
  handle_at, handle_event, handle_events, wait_for,
}
use high_performance_server.IoManager.Valid.{Valid}
use high_performance_server.IoManager.Keeps.{called-Valid, trigger_if_lem}
use high_performance_server.IoManager.Adding.{slot_lem}

-- Of the events that the code acts on, only those that the descriptor waits for are reported; a
-- hang-up counts as EPOLLIN.
abbrev pub IsExpected : Mask → Events → Type 0
IsExpected ev es =
    ((ev.epollin || ev.epollhup) ≡ true → es.reads ≡ true) × (ev.epollout ≡ true → es.writes ≡ true)

fire-Valid :
    (i : ℕ) (c : FdContext) (m : Manager) (reads writes : Bool)
    → Valid m
    → get_elem? m.contexts i ≡ some c
    → (reads ≡ true → c.events.reads ≡ true)
    → (writes ≡ true → c.events.writes ≡ true)
    → (m' : Manager) × (fire reads writes i c m ≡ ok m') × Valid m'
fire-Valid i c m reads writes v g hr hw =
    let (c1, m1, r1, v1, g1, e1) = trigger_if_lem reads i read c m v g hr in
    let (c2, m2, r2, v2, g2, e2) =
      trigger_if_lem writes i write c1 m1 v1 g1 (λ k. let h = hw k in ground arith) in
    (m2, rw r1 (rw r2 refl), v2)

-- The call returns, and the manager that it leaves is in order.
abbrev pub Leaves : Result Manager → Type 0
Leaves r = (m : Manager) × (r ≡ ok m) × Valid m

if-Leaves : (b : Bool) (x y : Result Manager) → Leaves x → Leaves y → Leaves (if b then x else y)
if-Leaves true x y h k = h
if-Leaves false x y h k = k

seen-real_reads : (ev : Mask) (es : Events) → real_reads (seen ev es) ≡ (ev.epollin || ev.epollhup)
seen-real_reads ev es = ground arith

handle_at-Leaves :
    (ret : CtlCall → ℕ) (i : ℕ) (ev : Mask) (m : Manager) (c : FdContext)
    → Valid m
    → get_elem? m.contexts i ≡ some c
    → IsExpected ev c.events
    → Leaves (handle_at ret i ev m c)
unfolding handle_at
handle_at-Leaves ret i ev m c v g x =
    let ev' = seen ev c.events in
    let k : CtlCall = record { op = del_op (left_events ev' c.events); fd = c.fd; mask = ev' } in
    if-Leaves (irrelevant ev' c.events) _ _ (m, refl, v)
      (if-Leaves (ret k == 0) _ _
        (fire-Valid i c (called k m) (real_reads ev') (real_writes ev') (called-Valid k m v) g
          (λ h. x.0 (sym (seen-real_reads ev c.events) ∙ h)) x.1)
        (called k m, refl, called-Valid k m v))

-- While only expected events are reported, handling one returns and leaves the manager in order,
-- whatever epoll_ctl answers.
pub handle_event-Leaves :
    (ret : CtlCall → ℕ) (i : ℕ) (ev : Mask) (m : Manager) (c : FdContext)
    → Valid m
    → get_elem? m.contexts i ≡ some c
    → IsExpected ev c.events
    → Leaves (handle_event ret i ev m)
unfolding handle_event
handle_event-Leaves ret i ev m c v g x = rw (slot_lem i m c g) (handle_at-Leaves ret i ev m c v g x)

fire_refused :
    (reads writes : Bool) (i : ℕ) (c : FdContext) (m : Manager)
    → reads ≡ true
    → c.events.reads ≡ false
    → fire reads writes i c m ≡ fail assertion
unfolding trigger
fire_refused true writes i c m b h = ground arith
fire_refused false writes i c m b h = cc

handle_at_hangup :
    (ret : CtlCall → ℕ) (i : ℕ) (ev : Mask) (m : Manager) (c : FdContext)
    → c.events.reads ≡ false
    → c.events.writes ≡ true
    → ev.epollhup ≡ true
    → ev.epollout ≡ true
    → ((k : CtlCall) → ret k ≡ 0)
    → handle_at ret i ev m c ≡ fail assertion
unfolding handle_at
handle_at_hangup ret i ev m c nr w hup out r =
    let ev' = seen ev c.events in
    let k : CtlCall = record { op = del_op (left_events ev' c.events); fd = c.fd; mask = ev' } in
    let a : irrelevant ev' c.events ≡ false = ground arith in
    let b : real_reads ev' ≡ true = ground arith in
    rw (a, r k) (fire_refused (real_reads ev') (real_writes ev') i c (called k m) b nr)

-- A hang-up is taken for EPOLLIN: reported together with EPOLLOUT for a descriptor that waits to
-- write and not to read, it makes the assertion of triggerEvent fail, once epoll_ctl has accepted
-- the change.
pub handle_event_hangup :
    (ret : CtlCall → ℕ) (i : ℕ) (ev : Mask) (m : Manager) (c : FdContext)
    → get_elem? m.contexts i ≡ some c
    → c.events.reads ≡ false
    → c.events.writes ≡ true
    → ev.epollhup ≡ true
    → ev.epollout ≡ true
    → ((k : CtlCall) → ret k ≡ 0)
    → handle_event ret i ev m ≡ fail assertion
unfolding handle_event
handle_event_hangup ret i ev m c g nr w hup out r =
    rw (slot_lem i m c g) (handle_at_hangup ret i ev m c nr w hup out r)

-- The wait that `idle` passes to epoll_wait is at most three seconds, if it is not negative as an
-- int (2 ^ 31 or more as an unsigned number).
pub wait_for-le : (next : ℕ) → wait_for next < 2 ^ 31 → wait_for next ≤ 3000
unfolding wait_for
wait_for-le next h = ground arith

-- Each event is an expected one when its turn comes.
abbrev pub AllExpected : (CtlCall → ℕ) → List (ℕ × Mask) → Manager → Type 0
AllExpected ret [] m = Unit {0}
AllExpected ret ((i, ev) ∷ evs) m =
    (c : FdContext) × (get_elem? m.contexts i ≡ some c)
    × IsExpected ev c.events
    × ((m' : Manager) → handle_event ret i ev m ≡ ok m' → AllExpected ret evs m')

-- The events that one epoll_wait reports are handled to the end, and the manager, in order before,
-- is in order afterwards, whatever epoll_ctl answers, if each event is for a descriptor of the table
-- and is, when its turn comes, one that the descriptor waits for (a hang-up counts as EPOLLIN).
pub handle_events-Leaves :
    (ret : CtlCall → ℕ) (evs : List (ℕ × Mask)) (m : Manager)
    → Valid m
    → AllExpected ret evs m
    → Leaves (handle_events ret evs m)
unfolding handle_events
handle_events-Leaves ret [] m v x = (m, refl, v)
handle_events-Leaves ret ((i, ev) ∷ evs) m v (c, g, x, rest) =
    let (m1, r, u) = handle_event-Leaves ret i ev m c v g x in
    rw r (handle_events-Leaves ret evs m1 u (rest m1 r))
