-- ===== src/IoManager/Keeps.antt =====
-- delEvent, cancelEvent and cancelAll on a manager in order.
use high_performance_server.Prelude.{
  ℕ, Bool, true, false, some, get_elem?, if◌then◌else◌, ◌≡◌, refl, arith, Result, ok, fail,
  assertion, get_elem?-set-some, ◌>>=◌, Option-cases, Bool-cases, inl, inr,
}
use high_performance_server.IoManager.Events.{
  Events, FdContext, Event, nothing, read, write, has, without, any, reset_context, get_context,
  CtlCall,
}
use high_performance_server.IoManager.{
  Manager, put, pending_desc, trigger, trigger_if, called, if_registered, del_event, cancel_event,
  cancel_all,
}
use high_performance_server.IoManager.Valid.{IsSlot, Valid, put-Valid, Valid-IsSlot}
use high_performance_server.IoManager.Triggering.{
  cleared, triggered, trigger_lem, triggered-Valid, cleared-IsSlot, cleared-waits, waits-le,
}

-- The call returns, and the manager that it leaves is in order.
abbrev pub Keeps : Result (Bool × Manager) → Type 0
Keeps r = (b : Bool) × (m : Manager) × (r ≡ ok (b, m)) × Valid m

if_registered-Keeps :
    (i : ℕ) (test : Events → Bool) (m : Manager) (work : FdContext → Result (Bool × Manager))
    → Valid m
    → ((c : FdContext)
        → get_elem? m.contexts i ≡ some c
        → test c.events ≡ true
        → IsSlot i c
        → Keeps (work c))
    → Keeps (if_registered i test m work)
if_registered-Keeps i test m work v k = elim (Option-cases (get_elem? m.contexts i)) [
  | inl e ↦ rw (e, if_registered) (false, m, refl, v)
  | inr (c, e) ↦ elim (Bool-cases (test c.events)) [
    | inl t ↦ rw (e, if_registered) (rw t (k c e t (Valid-IsSlot i m v e)))
    | inr t ↦ rw (e, if_registered) (rw t (false, m, refl, v))
  ]
]

pub called-Valid : (k : CtlCall) (m : Manager) → Valid m → Valid (called k m)
called-Valid k m v = record { slots = v.slots; counted = v.counted }

pub if-Keeps :
    (b : Bool) (x y : Result (Bool × Manager)) → Keeps x → Keeps y → Keeps (if b then x else y)
if-Keeps true x y h k = h
if-Keeps false x y h k = k

pub refused-Keeps : (k : CtlCall) (m : Manager) → Valid m → Keeps (ok (false, called k m))
refused-Keeps k m v = (false, called k m, refl, called-Valid k m v)

pub put-cleared-Valid :
    (i : ℕ) (e : Event) (c : FdContext) (m : Manager)
    → Valid m
    → get_elem? m.contexts i ≡ some c
    → has e c.events ≡ true
    → Valid (put i (cleared e c) (pending_desc m))
put-cleared-Valid i e c m v g h =
    put-Valid i m _ c (cleared e c) v g (cleared-IsSlot i e c (Valid-IsSlot i m v g)) refl
      (omega (arith, cleared-waits e c h, waits-le c)) (omega arith)

delete-Keeps :
    (i : ℕ) (e : Event) (c : FdContext) (m : Manager)
    → Valid m
    → get_elem? m.contexts i ≡ some c
    → has e c.events ≡ true
    → Keeps (
        get_context e c >>= λ x.
        ok (
          true,
          put i (reset_context e (record c { events = without e c.events })) (pending_desc m),
        ))
unfolding get_context reset_context
delete-Keeps i nothing c m v g h = cc
delete-Keeps i read c m v g h =
    (true, put i (cleared read c) (pending_desc m), refl, put-cleared-Valid i read c m v g h)
delete-Keeps i write c m v g h =
    (true, put i (cleared write c) (pending_desc m), refl, put-cleared-Valid i write c m v g h)

-- Whatever epoll_ctl answers, delEvent returns on a manager in order and leaves it in order.
pub del_event-Keeps :
    (ret : CtlCall → ℕ) (i : ℕ) (e : Event) (m : Manager) → Valid m → Keeps (del_event ret i e m)
unfolding del_event
del_event-Keeps ret i e m v = if_registered-Keeps i (has e) m _ v λ c g h s.
    if-Keeps _ _ _ (delete-Keeps i e c (called _ m) (called-Valid _ m v) g h) (refused-Keeps _ m v)

cancel-Keeps :
    (i : ℕ) (e : Event) (c : FdContext) (m : Manager)
    → Valid m
    → get_elem? m.contexts i ≡ some c
    → has e c.events ≡ true
    → Keeps (trigger i e c m >>= λ (c', m2). ok (true, m2))
cancel-Keeps i e c m v g h =
    let (s, _, r) = trigger_lem i e c m (Valid-IsSlot i m v g).0 h in
    rw r (true, triggered i e c s m, refl, triggered-Valid i e c s m v g h)

-- Whatever epoll_ctl answers, cancelEvent returns on a manager in order and leaves it in order.
pub cancel_event-Keeps :
    (ret : CtlCall → ℕ) (i : ℕ) (e : Event) (m : Manager) → Valid m → Keeps (cancel_event ret i e m)
unfolding cancel_event
cancel_event-Keeps ret i e m v = if_registered-Keeps i (has e) m _ v λ c g h s.
    if-Keeps _ _ _ (cancel-Keeps i e c (called _ m) (called-Valid _ m v) g h) (refused-Keeps _ m v)

pub cleared-events : (e : Event) (c : FdContext) → (cleared e c).events ≡ without e c.events
cleared-events nothing c = refl
cleared-events read c = refl
cleared-events write c = refl

-- `if (events & event) …` on a slot in order: it triggers a registered event, and removes it.
pub trigger_if_lem :
    (b : Bool) (i : ℕ) (e : Event) (c : FdContext) (m : Manager)
    → Valid m
    → get_elem? m.contexts i ≡ some c
    → (b ≡ true → has e c.events ≡ true)
    → (c' : FdContext) × (m' : Manager) × (trigger_if b i e (c, m) ≡ ok (c', m'))
      × Valid m'
      × (get_elem? m'.contexts i ≡ some c')
      × (c'.events ≡ (if b then without e c.events else c.events))
trigger_if_lem true i e c m v g hb =
    let (s, _, r) = trigger_lem i e c m (Valid-IsSlot i m v g).0 (hb refl) in
    (
      cleared e c,
      triggered i e c s m,
      r,
      triggered-Valid i e c s m v g (hb refl),
      get_elem?-set-some m.contexts i (cleared e c) g,
      cleared-events e c,
    )
trigger_if_lem false i e c m v g hb = (c, m, refl, v, g, refl)

cancel_rest-Keeps :
    (i : ℕ) (c : FdContext) (m : Manager)
    → Valid m
    → get_elem? m.contexts i ≡ some c
    → Keeps (
        trigger_if c.events.reads i read (c, m) >>= λ (c1, m2).
        trigger_if c1.events.writes i write (c1, m2) >>= λ (c2, m3).
        if any c2.events then fail assertion else ok (true, m3))
cancel_rest-Keeps i c m v g =
    let (c1, m1, r1, v1, g1, e1) = trigger_if_lem c.events.reads i read c m v g (λ e. e) in
    let (c2, m2, r2, v2, g2, e2) = trigger_if_lem c1.events.writes i write c1 m1 v1 g1 (λ e. e) in
    let n : any c2.events ≡ false = ground arith in rw r1 (rw r2 (rw n (true, m2, refl, v2)))

-- Whatever epoll_ctl answers, cancelAll returns on a manager in order and leaves it in order: its
-- last assertion, that no event is left, does not fail.
pub cancel_all-Keeps :
    (ret : CtlCall → ℕ) (i : ℕ) (m : Manager) → Valid m → Keeps (cancel_all ret i m)
unfolding cancel_all
cancel_all-Keeps ret i m v = if_registered-Keeps i any m _ v λ c g h s.
    if-Keeps _ _ _ (cancel_rest-Keeps i c (called _ m) (called-Valid _ m v) g) (refused-Keeps _ m v)
