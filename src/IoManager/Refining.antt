-- ===== src/IoManager/Refining.antt =====
-- The operations of the IO manager against their specification.
pub mod Cancelling
pub mod Registering
use high_performance_server.Prelude.{
  ℕ, ◌+◌, ◌*◌, ◌/◌, ◌≤◌, ◌<◌, ltb, ◌==◌, ==_iff, Bool, true, false, ◌&&◌, ◌||◌, not, List, Option,
  none, some, is_some, length, length-set, get_elem?, get_elem?-set-some, get_elem?-lt, set,
  if◌then◌else◌, ◌≡◌, ◌≢◌, refl, sym, ap, ◌∙◌, arith, Result, ok, ◌>>=◌, Bool-cases, Option-cases,
  inl, inr,
}
use high_performance_server.IoManager.Events.{
  Event, Events, nothing, read, write, has, without, with_event, any, update_scheduler, FdContext,
  EventContext, CtlCall, get_context, reset_context, edge, op_as_mask, ctl_del,
}
use high_performance_server.IoManager.{
  Manager, Caller, put, called, del_op, if_registered, pending_desc, trigger, trigger_if, del_event,
  cancel_event, cancel_all, add_event, add_to, add_op, grown, context_resize, pending_incr,
}
use high_performance_server.IoManager.Valid.{Valid, Valid-IsSlot, resize-length}
use high_performance_server.IoManager.Triggering.{
  cleared, wake, context_of, triggered, trigger_lem, triggered-Valid,
}
use high_performance_server.IoManager.Keeps.{cleared-events, called-Valid, put-cleared-Valid}
use high_performance_server.IoManager.RoundTrips.{delete_lem}
use high_performance_server.IoManager.Adding.{
  CanWait, waiting, armed, grown_lem, register_lem, slot_lem, added-Valid,
}
use high_performance_server.IoManager.Waiters.{
  Waiters, Abstract, waiter_of, waiter_in, view, eq_event, updated, handed, woken, Op, adds,
  deletes, cancels, cancels_all, spec, applies, Allowed, perform, Same,
}
use high_performance_server.IoManager.Waiters.Slots.{
  waiter_of-cleared, waiter_of-armed, put-waiters, resize-waiters,
}

-- The operation returns, and leaves a manager in order. It makes a call of epoll_ctl if there is something to do, and
-- does what is specified exactly if that succeeds; else nothing.
abbrev pub Refines : (CtlCall → ℕ) → Op → Manager → Result (Bool × Manager) → Type 0
Refines ret op m r =
    (b : Bool) × (m' : Manager) × (k : CtlCall) × (r ≡ ok (b, m'))
    × Valid m'
    × (length m.contexts ≤ length m'.contexts)
    × (b ≡ (applies op (view m) && ret k == 0))
    × Same (view m') (if b then spec op (view m) else view m)

-- Nothing is done.
still :
    (ret : CtlCall → ℕ) (op : Op) (m m' : Manager) (k : CtlCall)
    → (applies op (view m) && ret k == 0) ≡ false
    → Valid m'
    → m'.contexts ≡ m.contexts
    → m'.schedulers ≡ m.schedulers
    → Refines ret op m (ok (false, m'))
still ret op m m' k n v e f = (
  false,
  m',
  k,
  refl,
  v,
  omega (arith, ap (λ (cs : List FdContext). length cs) e),
  sym n,
  (λ i f. ap (λ cs. waiter_in (get_elem? cs i) f) e, f),
)

pub is_some-waiter_of : (c : FdContext) (e : Event) → is_some (waiter_of c e) ≡ has e c.events
is_some-waiter_of c e = ground arith

pub waiter-at :
    (m : Manager) (i : ℕ) (e : Event) (o : Option FdContext)
    → get_elem? m.contexts i ≡ o
    → (view m).waiters i e ≡ waiter_in o e
waiter-at m i e o h = ap (λ o. waiter_in o e) h

any_k : CtlCall
any_k = record { op = ctl_del; fd = 0; mask = op_as_mask ctl_del }

abbrev pub test_in : (Events → Bool) → Option FdContext → Bool
test_in test none = false
test_in test (some c) = test c.events

-- An operation that begins with a test of the descriptor's events, by what it does where epoll agrees.
pub tested :
    (ret : CtlCall → ℕ) (op : Op) (i : ℕ) (test : Events → Bool) (m : Manager)
    (k : FdContext → CtlCall) (work : FdContext → Result (Bool × Manager))
    → Valid m
    → ((o : Option FdContext) → get_elem? m.contexts i ≡ o → applies op (view m) ≡ test_in test o)
    → ((c : FdContext)
        → get_elem? m.contexts i ≡ some c
        → test c.events ≡ true
        → (m' : Manager) × (work c ≡ ok (true, m'))
          × Valid m'
          × (length m.contexts ≤ length m'.contexts)
          × Same (view m') (spec op (view m)))
    → Refines ret op m (
        if_registered i test m (λ c. if ret (k c) == 0 then work c else ok (false, called (k c) m)))
tested ret op i test m k work v a h = elim (Option-cases (get_elem? m.contexts i)) [
  | inl n ↦
      let x = a none n in
      rw (n, if_registered) (still ret op m m any_k (ap (λ b. b && ret any_k == 0) x) v refl refl)
  | inr (c, g) ↦
      let x = a (some c) g in
      elim (Bool-cases (test c.events)) [
        | inl t ↦ elim (Bool-cases (ret (k c) == 0)) [
          | inl z ↦
              let (m', r, u, l, s) = h c g t in
              rw (g, if_registered) (rw (t, z) (true, m', k c, r, u, l, sym (rw (x, t, z) refl), s))
          | inr z ↦
              rw (g, if_registered)
                (rw (t, z)
                  (still ret op m (called (k c) m) (k c) (rw (x, t, z) refl)
                    (called-Valid (k c) m v) refl refl))
        ]
        | inr t ↦ rw (g, if_registered) (rw t (still ret op m m any_k (rw (x, t) refl) v refl refl))
      ]
]

pub applies-has :
    (m : Manager) (i : ℕ) (e : Event) (o : Option FdContext)
    → get_elem? m.contexts i ≡ o
    → is_some ((view m).waiters i e) ≡ test_in (has e) o
applies-has m i e none h = ap is_some (waiter-at m i e none h)
applies-has m i e (some c) h = ap is_some (waiter-at m i e (some c) h) ∙ is_some-waiter_of c e

pub length-put :
    (m : Manager) (i : ℕ) (c : FdContext) → length m.contexts ≤ length (set m.contexts i c)
length-put m i c = omega (arith, length-set m.contexts i c)
