-- ===== src/IoManager/Adding.antt =====
-- addEvent, on a manager in order.
use high_performance_server.Prelude.{
  ℕ, ◌+◌, ◌*◌, ◌/◌, ◌≤◌, ◌<◌, ltb, ◌==◌, true, false, ◌||◌, Option, none, some, is_some, length,
  get_elem?, get_elem?-lt, ◌≡◌, ◌≢◌, refl, ap, ◌∙◌, arith, ok, fail, assertion, Bool-cases, inl,
  inr,
}
use high_performance_server.IoManager.Events.{
  no_events, EventContext, FdContext, Event, nothing, read, write, has, with_event, put_context,
  CtlCall, edge,
}
use high_performance_server.IoManager.{
  Manager, Caller, fill, put, pending_incr, called, slot, new_context, context_resize, register,
  add_op, add_event, add_to, grown,
}
use high_performance_server.IoManager.Valid.{
  slot_ok, IsSlot, waits, Valid, put-Valid, Valid-IsSlot, context_resize-Valid, resize-get_new,
}
use high_performance_server.IoManager.Triggering.{waits-le}
use high_performance_server.IoManager.Keeps.{Keeps, called-Valid, if-Keeps, refused-Keeps}

-- What the caller of addEvent must have: a scheduler, and a callback or a running fiber.
abbrev pub CanWait : Caller → Option ℕ → Type 0
CanWait who cb = (is_some who.scheduler ≡ true) × ((is_some cb || who.is_exec) ≡ true)

-- The context that addEvent fills.
abbrev pub waiting : Caller → Option ℕ → EventContext
waiting who (some cb) = record { scheduler = who.scheduler; fiber = none; cb = some cb }
waiting who none = record { scheduler = who.scheduler; fiber = some who.fiber; cb = none }

-- The descriptor with the event.
abbrev pub armed : Caller → Option ℕ → Event → FdContext → FdContext
armed who cb e c = put_context e (record c { events = with_event e c.events }) (waiting who cb)

fill_lem : (who : Caller) (cb : Option ℕ) → CanWait who cb → fill who cb ≡ ok (waiting who cb)
fill_lem who (some cb) h = refl
fill_lem who none h = ground arith

pub register_lem :
    (who : Caller) (i : ℕ) (e : Event) (cb : Option ℕ) (c : FdContext) (m : Manager)
    → CanWait who cb
    → e ≢ nothing
    → slot_ok c ≡ true
    → has e c.events ≡ false
    → register who i e cb c m ≡ ok (put i (armed who cb e c) (pending_incr m))
unfolding register
register_lem who i nothing cb c m w n v h = absurd (n refl)
register_lem who i read cb c m w n v h = ground (arith, fill_lem who cb w)
register_lem who i write cb c m w n v h = ground (arith, fill_lem who cb w)

pub armed-IsSlot :
    (who : Caller) (i : ℕ) (e : Event) (cb : Option ℕ) (c : FdContext)
    → CanWait who cb
    → IsSlot i c
    → IsSlot i (armed who cb e c)
armed-IsSlot who i nothing cb c w v = v
armed-IsSlot who i read none c w v = ground arith
armed-IsSlot who i read (some k) c w v = ground arith
armed-IsSlot who i write none c w v = ground arith
armed-IsSlot who i write (some k) c w v = ground arith

armed-waits :
    (who : Caller) (e : Event) (cb : Option ℕ) (c : FdContext)
    → e ≢ nothing
    → has e c.events ≡ false
    → waits (armed who cb e c) ≡ waits c + 1
armed-waits who nothing cb c n h = absurd (n refl)
armed-waits who read cb c n h = ground arith
armed-waits who write cb c n h = ground arith

has-no_events : (e : Event) → has e no_events ≡ false
has-no_events nothing = refl
has-no_events read = refl
has-no_events write = refl

context_resize-new :
    (n i : ℕ) (m : Manager)
    → i < n
    → length m.contexts ≤ i
    → get_elem? (context_resize n m).contexts i ≡ some (new_context i)
unfolding context_resize
context_resize-new n i m h k =
    let e : 0 + i ≡ i = omega arith in
    resize-get_new 0 n i m.contexts h k ∙ ap (λ (j : ℕ). some (new_context j)) e

pub slot_lem :
    (i : ℕ) (m : Manager) (c : FdContext) → get_elem? m.contexts i ≡ some c → slot i m ≡ ok c
slot_lem i m c h = rw (h, slot) refl

pub grown_lem :
    (i : ℕ) (e : Event) (m : Manager)
    → 2 ≤ length m.contexts
    → Valid m
    → ((c : FdContext) → get_elem? m.contexts i ≡ some c → has e c.events ≡ false)
    → (c : FdContext) × (get_elem? (grown i m).contexts i ≡ some c)
      × (has e c.events ≡ false)
      × Valid (grown i m)
grown_lem i e m two v free = elim (Bool-cases (ltb i (length m.contexts))) [
  | inl h ↦ let (c, g) = get_elem?-lt m.contexts i (ground arith) in rw h (c, g, free c g, v)
  | inr h ↦ rw h (
    new_context i,
    context_resize-new (3 * i / 2) i m (ground arith) (ground arith),
    has-no_events e,
    context_resize-Valid (3 * i / 2) m (ground arith) v,
  )
]

pub added-Valid :
    (who : Caller) (i : ℕ) (e : Event) (cb : Option ℕ) (c : FdContext) (k : CtlCall) (m : Manager)
    → CanWait who cb
    → e ≢ nothing
    → get_elem? m.contexts i ≡ some c
    → has e c.events ≡ false
    → Valid m
    → Valid (put i (armed who cb e c) (pending_incr (called k m)))
added-Valid who i e cb c k m w n g h v =
    put-Valid i (called k m) (put i (armed who cb e c) (pending_incr (called k m))) c
      (armed who cb e c) (called-Valid k m v) g (armed-IsSlot who i e cb c w (Valid-IsSlot i m v g))
      refl (omega (arith, armed-waits who e cb c n h, waits-le c)) (omega arith)

add_to-Keeps :
    (ret : CtlCall → ℕ) (who : Caller) (i : ℕ) (e : Event) (cb : Option ℕ) (m : Manager)
    (c : FdContext)
    → CanWait who cb
    → e ≢ nothing
    → get_elem? m.contexts i ≡ some c
    → has e c.events ≡ false
    → Valid m
    → Keeps (add_to ret who i e cb m c)
unfolding add_to
add_to-Keeps ret who i e cb m c w n g h v =
    let k : CtlCall = record {
      op = add_op c.events;
      fd = i;
      mask = edge (with_event e c.events);
    } in
    let m1 = called k m in
    let m2 = put i (armed who cb e c) (pending_incr m1) in
    let s = Valid-IsSlot i m v g in
    let u : Valid m2 = added-Valid who i e cb c k m w n g h v in
    if-Keeps (ret k == 0) _ _ (rw (register_lem who i e cb c m1 w n s.0 h) (true, m2, refl, u))
      (refused-Keeps k m v)

-- Whatever epoll_ctl answers, addEvent returns on a manager in order and leaves it in order, if
-- the caller can wait and the event, READ or WRITE, is not registered for the descriptor. (The
-- table has at least two slots: the constructor makes 32, and it never shrinks.)
pub add_event-Keeps :
    (ret : CtlCall → ℕ) (who : Caller) (i : ℕ) (e : Event) (cb : Option ℕ) (m : Manager)
    → CanWait who cb
    → e ≢ nothing
    → 2 ≤ length m.contexts
    → ((c : FdContext) → get_elem? m.contexts i ≡ some c → has e c.events ≡ false)
    → Valid m
    → Keeps (add_event ret who i e cb m)
unfolding add_event
add_event-Keeps ret who i e cb m w n two free v =
    let (c, g, h, u) = grown_lem i e m two v free in
    rw (slot_lem i (grown i m) c g) (add_to-Keeps ret who i e cb (grown i m) c w n g h u)

register_twice :
    (who : Caller) (i : ℕ) (e : Event) (cb : Option ℕ) (c : FdContext) (m : Manager)
    → slot_ok c ≡ true
    → has e c.events ≡ true
    → register who i e cb c m ≡ fail assertion
unfolding register
register_twice who i nothing cb c m v h = cc
register_twice who i read cb c m v h = ground arith
register_twice who i write cb c m v h = ground arith

add_to_twice :
    (ret : CtlCall → ℕ) (who : Caller) (i : ℕ) (e : Event) (cb : Option ℕ) (c : FdContext)
    (m : Manager)
    → slot_ok c ≡ true
    → has e c.events ≡ true
    → ((k : CtlCall) → ret k ≡ 0)
    → add_to ret who i e cb m c ≡ fail assertion
unfolding add_to
add_to_twice ret who i e cb c m v h r =
    let k : CtlCall = record {
      op = add_op c.events;
      fd = i;
      mask = edge (with_event e c.events);
    } in
    rw (r k, register_twice who i e cb c (called k m) v h) refl

-- Adding an event that is already registered is refused by the assertion on its context whenever
-- epoll_ctl accepts it, though the code means to report it in the log only.
pub add_event_twice :
    (ret : CtlCall → ℕ) (who : Caller) (i : ℕ) (e : Event) (cb : Option ℕ) (m : Manager)
    (c : FdContext)
    → Valid m
    → get_elem? m.contexts i ≡ some c
    → i < length m.contexts
    → has e c.events ≡ true
    → ((k : CtlCall) → ret k ≡ 0)
    → add_event ret who i e cb m ≡ fail assertion
unfolding add_event
add_event_twice ret who i e cb m c v g lt h r =
    let b : ltb i (length m.contexts) ≡ true = ground arith in
    rw (b, slot_lem i m c g) (add_to_twice ret who i e cb c m (Valid-IsSlot i m v g).0 h r)
