-- ===== src/IoManager/RoundTrips.antt =====
-- An event that is added and then deleted, or cancelled.
use high_performance_server.Prelude.{
  ℕ, ◌<◌, ltb, Bool, true, false, Option, none, some, length, get_elem?, get_elem?-set-some,
  set-set_back, ◌≡◌, ◌≢◌, refl, sym, ap, ◌∙◌, arith, Result, ok, ◌>>=◌,
}
use high_performance_server.IoManager.Events.{
  Events, EventContext, FdContext, Event, nothing, read, write, has, with_event, without, CtlCall,
  edge, op_as_mask, update_scheduler, get_context, reset_context,
}
use high_performance_server.IoManager.{
  Manager, Caller, called, put, pending_incr, pending_desc, add_op, del_op, add_event, add_to,
  del_event, cancel_event, if_registered,
}
use high_performance_server.IoManager.Valid.{slot_ok, Valid, Valid-IsSlot}
use high_performance_server.IoManager.Triggering.{triggered, cleared, wake, context_of, trigger_lem}
use high_performance_server.IoManager.Adding.{
  CanWait, waiting, armed, register_lem, armed-IsSlot, slot_lem,
}

-- The calls of epoll_ctl all succeed.
abbrev pub Accepts : (CtlCall → ℕ) → Type 0
Accepts ret = (k : CtlCall) → ret k ≡ 0

cleared-armed :
    (who : Caller) (cb : Option ℕ) (e : Event) (c : FdContext)
    → slot_ok c ≡ true
    → has e c.events ≡ false
    → cleared e (armed who cb e c) ≡ c
cleared-armed who cb nothing c v h = refl
cleared-armed who cb read c v h = ground arith
cleared-armed who cb write c v h = ground arith

has-armed :
    (who : Caller) (cb : Option ℕ) (e : Event) (c : FdContext)
    → e ≢ nothing
    → has e (armed who cb e c).events ≡ true
has-armed who cb nothing c n = absurd (n refl)
has-armed who cb read c n = refl
has-armed who cb write c n = refl

context_of-armed :
    (who : Caller) (cb : Option ℕ) (e : Event) (c : FdContext)
    → e ≢ nothing
    → context_of e (armed who cb e c) ≡ waiting who cb
context_of-armed who cb nothing c n = absurd (n refl)
context_of-armed who cb read c n = refl
context_of-armed who cb write c n = refl

-- The manager once addEvent has armed slot `i`.
abbrev added : Caller → Option ℕ → Event → ℕ → FdContext → Manager → Manager
added who cb e i c m =
    let k : CtlCall = record {
      op = add_op c.events;
      fd = i;
      mask = edge (with_event e c.events);
    } in
    put i (armed who cb e c) (pending_incr (called k m))

if_registered_lem :
    (i : ℕ) (test : Events → Bool) (m : Manager) (work : FdContext → Result (Bool × Manager))
    (c : FdContext)
    → get_elem? m.contexts i ≡ some c
    → test c.events ≡ true
    → if_registered i test m work ≡ work c
if_registered_lem i test m work c g t = rw (g, if_registered) (rw t refl)

-- The setting: a manager in order, a slot in its table whose event, READ or WRITE, is free, a
-- caller that can wait, and an epoll that accepts every call.
pub record Setting (ret : CtlCall → ℕ) (who : Caller) (cb : Option ℕ) (e : Event) (i : ℕ)
    (c : FdContext) (m : Manager) : Type 0 where
  pub accepts : Accepts ret
  pub can : CanWait who cb
  pub event : e ≢ nothing
  pub inside : i < length m.contexts
  pub here : get_elem? m.contexts i ≡ some c
  pub free : has e c.events ≡ false
  pub valid : Valid m

add_to_lem :
    (ret : CtlCall → ℕ) (who : Caller) (cb : Option ℕ) (e : Event) (i : ℕ) (c : FdContext)
    (m : Manager)
    → Setting ret who cb e i c m
    → add_to ret who i e cb m c ≡ ok (true, added who cb e i c m)
unfolding add_to
add_to_lem ret who cb e i c m s =
    let k : CtlCall = record {
      op = add_op c.events;
      fd = i;
      mask = edge (with_event e c.events);
    } in
    rw
      (
        s.accepts k,
        register_lem who i e cb c (called k m) s.can s.event (Valid-IsSlot i m s.valid s.here).0
            s.free,
      )
      refl

add_event_lem :
    (ret : CtlCall → ℕ) (who : Caller) (cb : Option ℕ) (e : Event) (i : ℕ) (c : FdContext)
    (m : Manager)
    → Setting ret who cb e i c m
    → add_event ret who i e cb m ≡ ok (true, added who cb e i c m)
unfolding add_event
add_event_lem ret who cb e i c m s =
    let b : ltb i (length m.contexts) ≡ true = let h = s.inside in ground arith in
    rw (b, slot_lem i m c s.here) (add_to_lem ret who cb e i c m s)

pub delete_lem :
    (e : Event) (i : ℕ) (c : FdContext) (m : Manager)
    → has e c.events ≡ true
    → ◌>>=◌ {B = Bool × Manager} (get_context e c) (λ x.
      ok
        (true, put i (reset_context e (record c { events = without e c.events })) (pending_desc m)))
      ≡ ok (true, put i (cleared e c) (pending_desc m))
unfolding get_context reset_context
delete_lem nothing i c m h = cc
delete_lem read i c m h = refl
delete_lem write i c m h = refl

waiting-scheduler : (who : Caller) (cb : Option ℕ) → (waiting who cb).scheduler ≡ who.scheduler
waiting-scheduler who none = refl
waiting-scheduler who (some k) = refl

del_event_lem :
    (ret : CtlCall → ℕ) (e : Event) (i : ℕ) (c : FdContext) (m : Manager)
    → Accepts ret
    → get_elem? m.contexts i ≡ some c
    → has e c.events ≡ true
    → (k : CtlCall) × (del_event ret i e m
        ≡ ok (true, put i (cleared e c) (pending_desc (called k m))))
unfolding del_event
del_event_lem ret e i c m a g h =
    let k : CtlCall = record {
      op = del_op (without e c.events);
      fd = i;
      mask = edge (without e c.events);
    } in
    (k, if_registered_lem i (has e) m _ c g h ∙ rw (a k) (delete_lem e i c (called k m) h))

cancel_event_lem :
    (ret : CtlCall → ℕ) (e : Event) (i : ℕ) (c : FdContext) (m : Manager)
    → Accepts ret
    → get_elem? m.contexts i ≡ some c
    → slot_ok c ≡ true
    → has e c.events ≡ true
    → (k : CtlCall) × (s : ℕ) × ((context_of e c).scheduler ≡ some s)
      × (cancel_event ret i e m ≡ ok (true, triggered i e c s (called k m)))
unfolding cancel_event
cancel_event_lem ret e i c m a g v h =
    let op = del_op (without e c.events) in
    let k : CtlCall = record { op = op; fd = i; mask = op_as_mask op } in
    let (s, q, r) = trigger_lem i e c (called k m) v h in
    (k, s, q, if_registered_lem i (has e) m _ c g h ∙ rw (a k) (rw r refl))

-- Adding an event and deleting it again leaves the descriptors, the count of pending events and
-- the schedulers as they were.
pub add_del :
    (ret : CtlCall → ℕ) (who : Caller) (cb : Option ℕ) (e : Event) (i : ℕ) (c : FdContext)
    (m : Manager)
    → Setting ret who cb e i c m
    → (m1 : Manager) × (m2 : Manager) × (add_event ret who i e cb m ≡ ok (true, m1))
      × (del_event ret i e m1 ≡ ok (true, m2))
      × (m2.contexts ≡ m.contexts)
      × (m2.pending ≡ m.pending)
      × (m2.schedulers ≡ m.schedulers)
add_del ret who cb e i c m s =
    let m1 = added who cb e i c m in
    let a = armed who cb e c in
    let g = get_elem?-set-some m.contexts i a s.here in
    let (k, r) = del_event_lem ret e i a m1 s.accepts g (has-armed who cb e c s.event) in
    let back = cleared-armed who cb e c (Valid-IsSlot i m s.valid s.here).0 s.free in
    (
      m1,
      put i (cleared e a) (pending_desc (called k m1)),
      add_event_lem ret who cb e i c m s,
      r,
      rw back (set-set_back m.contexts i a s.here),
      omega (arith, s.valid.counted),
      refl,
    )

-- Adding an event and cancelling it leaves the descriptors and the count as they were, and puts
-- what waited, the callback or else the caller's fiber, at the end of its scheduler's queue.
pub add_cancel :
    (ret : CtlCall → ℕ) (who : Caller) (cb : Option ℕ) (e : Event) (i : ℕ) (c : FdContext)
    (m : Manager)
    → Setting ret who cb e i c m
    → (m1 : Manager) × (m2 : Manager) × (s : ℕ) × (add_event ret who i e cb m ≡ ok (true, m1))
      × (cancel_event ret i e m1 ≡ ok (true, m2))
      × (m2.contexts ≡ m.contexts)
      × (m2.pending ≡ m.pending)
      × (who.scheduler ≡ some s)
      × (m2.schedulers ≡ update_scheduler m.schedulers s (wake (waiting who cb) (m.schedulers s)))
add_cancel ret who cb e i c m s =
    let m1 = added who cb e i c m in
    let a = armed who cb e c in
    let g = get_elem?-set-some m.contexts i a s.here in
    let v = Valid-IsSlot i m s.valid s.here in
    let (k, t, q, r) =
      cancel_event_lem ret e i a m1 s.accepts g (armed-IsSlot who i e cb c s.can v).0
        (has-armed who cb e c s.event) in
    let back = cleared-armed who cb e c v.0 s.free in
    let w = context_of-armed who cb e c s.event in
    (
      m1,
      triggered i e a t (called k m1),
      t,
      add_event_lem ret who cb e i c m s,
      r,
      rw back (set-set_back m.contexts i a s.here),
      omega (arith, s.valid.counted),
      sym (waiting-scheduler who cb) ∙ ap (λ (x : EventContext). x.scheduler) (sym w) ∙ q,
      ap (λ (x : EventContext). update_scheduler m.schedulers t (wake x (m.schedulers t))) w,
    )
