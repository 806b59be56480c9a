-- ===== src/IoManager/Triggering.antt =====
-- What triggering an event does, on a descriptor that is in order.
use high_performance_server.Prelude.{
  ℕ, ◌+◌, ◌≤◌, true, some, is_some, get_elem?, if◌then◌else◌, ◌≡◌, refl, arith, ok, Option-cases,
  inl, inr,
}
use high_performance_server.Scheduler.Queue.{Scheduler, schedule_cb, schedule_fiber}
use high_performance_server.IoManager.Events.{
  EventContext, FdContext, Event, nothing, read, write, has, without, no_context, put_context,
  trigger_event, Schedulers, update_scheduler,
}
use high_performance_server.IoManager.{Manager, put, pending_desc, trigger}
use high_performance_server.IoManager.Valid.{slot_ok, IsSlot, waits, Valid, put-Valid, Valid-IsSlot}

abbrev pub context_of : Event → FdContext → EventContext
context_of read c = c.read_context
context_of write c = c.write_context
context_of nothing c = no_context

-- The descriptor without the event, its context empty.
abbrev pub cleared : Event → FdContext → FdContext
cleared e c = put_context e (record c { events = without e c.events }) no_context

-- What the scheduler is asked to do for a context.
abbrev pub wake : EventContext → Scheduler → Scheduler
wake x s = if is_some x.cb then schedule_cb x.cb 0 s else schedule_fiber x.fiber 0 s

-- A registered event of a descriptor in order is triggered with no assertion failing: the callback
-- or the fiber that waits goes to the scheduler that is kept with it, the event is removed and its
-- context is empty again.
pub trigger_event_lem :
    (e : Event) (c : FdContext) (ss : Schedulers)
    → slot_ok c ≡ true
    → has e c.events ≡ true
    → (s : ℕ) × ((context_of e c).scheduler ≡ some s)
      × (trigger_event e c ss
          ≡ ok (cleared e c, update_scheduler ss s (wake (context_of e c) (ss s))))
unfolding trigger_event
trigger_event_lem nothing c ss v h = cc
trigger_event_lem read c ss v h = elim (Option-cases c.read_context.scheduler) [
  | inl n ↦ ground arith
  | inr (s, k) ↦ (s, k, ground arith)
]
trigger_event_lem write c ss v h = elim (Option-cases c.write_context.scheduler) [
  | inl n ↦ ground arith
  | inr (s, k) ↦ (s, k, ground arith)
]

cleared-slot_ok : (e : Event) (c : FdContext) → slot_ok c ≡ true → slot_ok (cleared e c) ≡ true
cleared-slot_ok nothing c v = v
cleared-slot_ok read c v = ground arith
cleared-slot_ok write c v = ground arith

pub cleared-waits :
    (e : Event) (c : FdContext) → has e c.events ≡ true → waits (cleared e c) + 1 ≡ waits c
cleared-waits nothing c h = cc
cleared-waits read c h = ground arith
cleared-waits write c h = ground arith

-- The manager after event `e` of slot `i` has gone to the scheduler `s`.
abbrev pub triggered : ℕ → Event → FdContext → ℕ → Manager → Manager
triggered i e c s m = put i (cleared e c) (
    pending_desc (record m {
      schedulers = update_scheduler m.schedulers s (wake (context_of e c) (m.schedulers s));
    }))

pub trigger_lem :
    (i : ℕ) (e : Event) (c : FdContext) (m : Manager)
    → slot_ok c ≡ true
    → has e c.events ≡ true
    → (s : ℕ) × ((context_of e c).scheduler ≡ some s)
      × (trigger i e c m ≡ ok (cleared e c, triggered i e c s m))
unfolding trigger
trigger_lem i e c m v h =
    let (s, k, r) = trigger_event_lem e c m.schedulers v h in (s, k, rw r refl)

pub cleared-IsSlot : (i : ℕ) (e : Event) (c : FdContext) → IsSlot i c → IsSlot i (cleared e c)
cleared-IsSlot i nothing c v = v
cleared-IsSlot i read c v = (cleared-slot_ok read c v.0, v.1)
cleared-IsSlot i write c v = (cleared-slot_ok write c v.0, v.1)

pub waits-le : (c : FdContext) → waits c ≤ 2
waits-le c = ground arith

-- Triggering keeps the invariant: the event is no longer counted.
pub triggered-Valid :
    (i : ℕ) (e : Event) (c : FdContext) (s : ℕ) (m : Manager)
    → Valid m
    → get_elem? m.contexts i ≡ some c
    → has e c.events ≡ true
    → Valid (triggered i e c s m)
triggered-Valid i e c s m v g h =
    put-Valid i m (triggered i e c s m) c (cleared e c) v g
      (cleared-IsSlot i e c (Valid-IsSlot i m v g)) refl
      (omega (arith, cleared-waits e c h, waits-le c)) (omega arith)
